-- ===== src/Ggm/Level.antt =====
-- One level of the tree of `crates/core/src/cggm.rs`, whole and without the node on the path.
use mpz.Prelude.{
  ℕ, zero, suc, ◌+◌, ◌*◌, ◌/◌, ◌%◌, ◌^◌, ◌<◌, ◌≡◌, refl, ap, ap₂, ◌∙◌, sym, Bool, true, false, xor,
  arith, List, ◌++◌, length, map, set, get_or, zip_with, length-map, length-zip_with, length-append,
  length-set, get_or-append_left, get_or-set_self, if◌then◌else◌, Bool-cases, inl, inr, ◌==◌,
}
use native.Mathlib.Nat.{
  pow-suc, one-le-pow, mod-eq_of_lt, mod-lt, div-add-mod, mul-add, add-mul, mul-one,
  mul-add-mod_self_left,
}
use mpz.Block.{Block, bitxor, zero_block}
use mpz.Block.Cipher.{ccr}
use mpz.Block.Laws.{Bits_ext, bits}
use mpz.Ggm.{path_bit, expand_level, expand_loop, punctured_level}
use mpz.Ggm.Sums.{
  sum, sum_from-zero, sum-append, sum-zip_with, sum-set, map-set, zip_with-set, set-append_left,
  set-append_right, set-set, set-get_or,
}

here : (pos : ℕ) → pos + 0 ≡ pos
here pos = omega arith

mod_double : (idx m t r e : ℕ) → idx ≡ (m + m) * t + (r + e) → r + e < m + m → idx % (m + m) ≡ r + e
mod_double idx m t r e h small =
    ap (λ k. k % (m + m)) h ∙ mul-add-mod_self_left (m + m) t (r + e) ∙ mod-eq_of_lt small

mod_by : (idx m : ℕ) → 0 < m → idx % (m + m) ≡ idx % m + (if idx / m % 2 == 1 then m else 0)
mod_by idx m some =
    let q = idx / m in
    let t = q / 2 in
    let whole = div-add-mod idx m in
    let half = div-add-mod q 2 in
    let low = mod-lt idx some in
    let twice = add-mul m m t in
    elim (Bool-cases (q % 2 == 1)) [
      | inl odd ↦
          (let e : q ≡ t + t + 1 = ground (arith, odd, half) in
            rw odd (
              mod_double idx m t (idx % m) m
                (omega (
                  arith,
                  whole,
                  ap (λ k. m * k) e,
                  mul-add m (t + t) 1,
                  mul-add m t t,
                  mul-one m,
                  twice,
                ))
                (omega arith)))
      | inr even ↦
          (let e : q ≡ t + t = ground (arith, even, half) in
            rw even (
              mod_double idx m t (idx % m) 0
                (omega (arith, whole, ap (λ k. m * k) e, mul-add m t t, twice)) (omega arith)))
    ]

-- What is left of a number below `2 ^ i` and below the next power.
pub mod-pow-suc :
    (idx i : ℕ) → idx % 2 ^ suc i ≡ idx % 2 ^ i + (if path_bit idx i then 2 ^ i else 0)
mod-pow-suc idx i =
    let e : 2 ^ suc i ≡ 2 ^ i + 2 ^ i = omega (arith, pow-suc 2 i) in
    rw e (mod_by idx (2 ^ i) (one-le-pow i 2 (omega arith)))

module _ (encrypt : Block → Block) where
  abbrev pub lefts : List Block → List Block
  lefts nodes = map (ccr encrypt) nodes

  abbrev pub rights : List Block → List Block
  rights nodes = zip_with bitxor nodes (lefts nodes)

  abbrev pub children : List Block → List Block
  children nodes = lefts nodes ++ rights nodes

  length-rights : (nodes : List Block) → length (rights nodes) ≡ length nodes
  length-rights nodes =
      length-zip_with bitxor nodes (lefts nodes) (sym (length-map nodes (ccr encrypt)))

  pub length-children : (nodes : List Block) → length (children nodes) ≡ length nodes + length nodes
  length-children nodes = omega (
    arith,
    length-append (lefts nodes) (rights nodes),
    length-map nodes (ccr encrypt),
    length-rights nodes,
  )

  pub sum-rights :
      (nodes : List Block) → sum (rights nodes) ≡ bitxor (sum nodes) (sum (lefts nodes))
  sum-rights nodes = sum-zip_with nodes (lefts nodes) (sym (length-map nodes (ccr encrypt)))

  pub sum-children : (nodes : List Block) → sum (children nodes) ≡ sum nodes
  sum-children nodes =
      sum-append (lefts nodes) (rights nodes)
      ∙ ap (bitxor (sum (lefts nodes))) (sum-rights nodes)
      ∙ Bits_ext _ _ (λ i. simp bits (unfold xor in ground arith))

  pub sum-expand_loop :
      (levels : ℕ) (nodes : List Block) → sum (expand_loop encrypt levels nodes).0 ≡ sum nodes
  unfolding expand_loop expand_level
  sum-expand_loop zero nodes = refl
  sum-expand_loop (suc levels) nodes = sum-expand_loop levels (children nodes) ∙ sum-children nodes

  pub length-expand_loop :
      (levels i : ℕ) (nodes : List Block)
      → length nodes ≡ 2 ^ i
      → length (expand_loop encrypt levels nodes).0 ≡ 2 ^ (levels + i)
  unfolding expand_loop expand_level
  length-expand_loop zero i nodes h = h ∙ ap (λ k. 2 ^ k) (omega arith)
  length-expand_loop (suc levels) i nodes h =
      length-expand_loop levels (suc i) (children nodes)
        (omega (arith, length-children nodes, h, pow-suc 2 i))
      ∙ ap (λ k. 2 ^ k) (omega arith)

  module _ (nodes : List Block) (pos : ℕ) (fits : pos < length nodes) where
    abbrev junk : Block
    junk = ccr encrypt zero_block

    zero_bitxor : (a : Block) → bitxor zero_block a ≡ a
    zero_bitxor a = Bits_ext _ _ (λ i. simp bits (unfold xor in ground arith))

    lefts-set : lefts (set nodes pos zero_block) ≡ set (lefts nodes) pos junk
    lefts-set = map-set (ccr encrypt) nodes pos zero_block

    rights-set : rights (set nodes pos zero_block) ≡ set (rights nodes) pos junk
    rights-set =
        ap (zip_with bitxor (set nodes pos zero_block)) lefts-set
        ∙ zip_with-set bitxor nodes (lefts nodes) pos zero_block junk
        ∙ ap (set (rights nodes) pos) (zero_bitxor junk)

    left_fits : pos < length (lefts nodes)
    left_fits = omega (arith, length-map nodes (ccr encrypt))

    right_fits : pos < length (rights nodes)
    right_fits = omega (arith, length-rights nodes)

    -- The children of the punctured nodes, with both children of the missing node cleared.
    cleared :
        set
          (set (children (set nodes pos zero_block)) pos zero_block)
          (pos + length nodes)
          zero_block
        ≡ set (lefts nodes) pos zero_block ++ set (rights nodes) pos zero_block
    cleared =
        ap (λ (c : List Block). set (set c pos zero_block) (pos + length nodes) zero_block)
          (ap₂ (λ (a b : List Block). a ++ b) lefts-set rights-set)
        ∙ ap (λ (c : List Block). set c (pos + length nodes) zero_block)
            (set-append_left (set (lefts nodes) pos junk) (set (rights nodes) pos junk) pos
                zero_block (omega (arith, length-set (lefts nodes) pos junk, left_fits))
              ∙ ap (λ (c : List Block). c ++ set (rights nodes) pos junk)
                  (set-set (lefts nodes) pos junk zero_block))
        ∙ set-append_right (set (lefts nodes) pos zero_block) (set (rights nodes) pos junk) pos
            (pos + length nodes) zero_block
            (omega (arith, length-set (lefts nodes) pos zero_block, length-map nodes (ccr encrypt)))
        ∙ ap (λ (c : List Block). set (lefts nodes) pos zero_block ++ c)
            (set-set (rights nodes) pos junk zero_block)

    junk-eq : get_or (children (set nodes pos zero_block)) pos zero_block ≡ junk
    junk-eq =
        ap (λ (c : List Block). get_or c pos zero_block)
          (ap₂ (λ (a b : List Block). a ++ b) lefts-set rights-set)
        ∙ get_or-append_left (set (lefts nodes) pos junk) (set (rights nodes) pos junk) pos
            zero_block (omega (arith, length-set (lefts nodes) pos junk, left_fits))
        ∙ get_or-set_self (lefts nodes) pos junk zero_block left_fits

    -- The children of the punctured nodes are the children without the one on the path.
    pub punctured_level-eq-set :
        (b : Bool) (n : ℕ) (expected : Block)
        → length nodes ≡ n
        → expected ≡ sum (if b then lefts nodes else rights nodes)
        → punctured_level encrypt b n pos expected (set nodes pos zero_block)
          ≡ set (children nodes) (pos + (if b then n else 0)) zero_block
    unfolding expand_level
    punctured_level-eq-set true n expected len e =
        ap₂ (λ (c : List Block) (s : Block). set c (pos + 0) s)
          (ap
              (λ (k : ℕ).
                set (set (children (set nodes pos zero_block)) pos zero_block) (pos + k) zero_block)
              (sym len)
            ∙ cleared)
          (ap₂ bitxor (ap₂ bitxor (sum_from-zero _ ∙ ap sum lefts-set) junk-eq) e
            ∙ sum-set (lefts nodes) pos junk left_fits)
        ∙ ap
            (λ (k : ℕ).
              set (set (lefts nodes) pos zero_block ++ set (rights nodes) pos zero_block) k
                (get_or (lefts nodes) pos zero_block))
            (here pos)
        ∙ set-append_left (set (lefts nodes) pos zero_block) (set (rights nodes) pos zero_block) pos
            (get_or (lefts nodes) pos zero_block)
            (omega (arith, length-set (lefts nodes) pos zero_block, left_fits))
        ∙ ap (λ (c : List Block). c ++ set (rights nodes) pos zero_block)
            (set-set (lefts nodes) pos zero_block _ ∙ set-get_or (lefts nodes) pos zero_block)
        ∙ sym (
            set-append_right (lefts nodes) (rights nodes) pos (pos + n) zero_block
              (omega (arith, length-map nodes (ccr encrypt), len)))
    punctured_level-eq-set false n expected len e =
        ap₂ (λ (c : List Block) (s : Block). set c (pos + n) s)
          (ap
              (λ (k : ℕ).
                set (set (children (set nodes pos zero_block)) pos zero_block) (pos + k) zero_block)
              (sym len)
            ∙ cleared)
          (ap₂ bitxor (ap₂ bitxor (sum_from-zero _ ∙ ap sum rights-set) junk-eq) e
            ∙ sum-set (rights nodes) pos junk right_fits)
        ∙ set-append_right (set (lefts nodes) pos zero_block) (set (rights nodes) pos zero_block)
            pos (pos + n) (get_or (rights nodes) pos zero_block)
            (omega
              (arith, length-set (lefts nodes) pos zero_block, length-map nodes (ccr encrypt), len))
        ∙ ap (λ (c : List Block). set (lefts nodes) pos zero_block ++ c)
            (set-set (rights nodes) pos zero_block _ ∙ set-get_or (rights nodes) pos zero_block)
        ∙ sym (set-append_left (lefts nodes) (rights nodes) pos zero_block left_fits)
        ∙ ap (λ (k : ℕ). set (children nodes) k zero_block) (sym (here pos))
