-- ===== src/Ggm/Punctured.antt =====
-- The tree of `crates/core/src/cggm.rs`: what its nodes sum up to, and that the punctured tree is the tree
-- without one leaf.
use mpz.Prelude.{
  ℕ, zero, suc, ◌+◌, ◌-◌, ◌%◌, ◌^◌, ◌<◌, ◌≡◌, refl, ap, ap₂, ◌∙◌, sym, Bool, true, false, xor,
  arith, List, [], ◌∷◌, length, set, if◌then◌else◌, ok, le→leb, lt→ltb, ==_iff,
}
use native.Mathlib.Nat.{pow-suc, one-le-pow, mod-eq_of_lt, mod-lt}
use mpz.Block.{Block, bitxor, zero_block}
use mpz.Block.Laws.{Bits_ext, bits, bitxor_comm}
use mpz.Ggm.{
  sum_from, path_bit, expand_level, expand_loop, expand, punctured_loop, expand_punctured,
}
use mpz.Ggm.Level.{
  mod-pow-suc, lefts, rights, children, length-children, sum-rights, sum-children, sum-expand_loop,
  length-expand_loop, punctured_level-eq-set,
}
use mpz.Ggm.Sums.{sum, sum_from-zero}

-- The sums of the nodes off the path of `idx`, from those of the left nodes: what the owner of the
-- punctured tree is given.
abbrev pub off_path : Block → ℕ → ℕ → List Block → List Block
off_path delta idx i [] = []
off_path delta idx i (sum ∷ sums) =
    (if path_bit idx i then sum else bitxor sum delta) ∷ off_path delta idx (i + 1) sums

length-off_path :
    (delta : Block) (idx i : ℕ) (sums : List Block)
    → length (off_path delta idx i sums) ≡ length sums
length-off_path delta idx i [] = refl
length-off_path delta idx i (s ∷ sums) = ap suc (length-off_path delta idx (i + 1) sums)

module _ (encrypt : Block → Block) (delta : Block) (idx : ℕ) where
  length-sums :
      (levels : ℕ) (nodes : List Block) → length (expand_loop encrypt levels nodes).1 ≡ levels
  unfolding expand_loop
  length-sums zero nodes = refl
  length-sums (suc levels) nodes = ap suc (length-sums levels (expand_level encrypt nodes false).0)

  expected-sum :
      (nodes : List Block) (b : Bool)
      → sum nodes ≡ delta
      → (if b
          then sum_from zero_block (lefts encrypt nodes)
          else bitxor (sum_from zero_block (lefts encrypt nodes)) delta)
        ≡ sum (if b then lefts encrypt nodes else rights encrypt nodes)
  expected-sum nodes true h = sum_from-zero (lefts encrypt nodes)
  expected-sum nodes false h =
      ap₂ bitxor (sum_from-zero (lefts encrypt nodes)) (sym h)
      ∙ Bits_ext _ (bitxor (sum nodes) (sum (lefts encrypt nodes)))
          (λ i. simp bits (unfold xor in ground arith))
      ∙ sym (sum-rights encrypt nodes)

  punctured_loop-eq-set :
      (levels i pos : ℕ) (nodes : List Block)
      → length nodes ≡ 2 ^ i
      → pos ≡ idx % 2 ^ i
      → sum nodes ≡ delta
      → punctured_loop encrypt idx
          (off_path delta idx i (expand_loop encrypt levels nodes).1)
          i
          pos
          (set nodes pos zero_block)
        ≡ set (expand_loop encrypt levels nodes).0 (idx % 2 ^ (levels + i)) zero_block
  unfolding punctured_loop expand_loop expand_level
  punctured_loop-eq-set zero i pos nodes len at total =
      ap (λ k. set nodes k zero_block) (at ∙ ap (λ k. idx % 2 ^ k) (zero_plus i))
    where
      zero_plus : (i : ℕ) → i ≡ 0 + i
      zero_plus i = omega arith
  punctured_loop-eq-set (suc levels) i pos nodes len at total =
      let b = path_bit idx i in
      let fits : pos < length nodes =
        omega (arith, at, len, mod-lt idx (one-le-pow i 2 (omega arith))) in
      let expected =
        if b
        then sum_from zero_block (lefts encrypt nodes)
        else bitxor (sum_from zero_block (lefts encrypt nodes)) delta in
      let pos' = pos + (if b then 2 ^ i else 0) in
      let rest =
        off_path delta idx (i + 1) (expand_loop encrypt levels (children encrypt nodes)).1 in
      let power : 2 ^ (i + 1) ≡ 2 ^ suc i = ap (λ k. 2 ^ k) (plus_one i) in
      ap (punctured_loop encrypt idx rest (i + 1) pos') (
        punctured_level-eq-set encrypt nodes pos fits b (2 ^ i) expected len
          (expected-sum nodes b total))
      ∙ punctured_loop-eq-set levels (i + 1) pos' (children encrypt nodes)
          (omega (arith, length-children encrypt nodes, len, pow-suc 2 i, power))
          (ap (λ k. k + (if b then 2 ^ i else 0)) at
            ∙ sym (mod-pow-suc idx i)
            ∙ ap (λ k. idx % k) (sym power))
          (sum-children encrypt nodes ∙ total)
      ∙ ap
          (λ k.
            set (expand_loop encrypt levels (children encrypt nodes)).0 (idx % 2 ^ k) zero_block)
          (shift levels i)
    where
      plus_one : (i : ℕ) → i + 1 ≡ suc i
      plus_one i = omega arith

      shift : (levels i : ℕ) → levels + (i + 1) ≡ suc levels + i
      shift levels i = omega arith

module _ (encrypt : Block → Block) (delta seed : Block) (levels : ℕ) where
  -- The two nodes of level 1.
  abbrev roots : List Block
  roots = seed ∷ bitxor delta seed ∷ []

  sum-roots : sum roots ≡ delta
  sum-roots = Bits_ext _ _ (λ i. simp bits (unfold xor in ground arith))

  abbrev tree : List Block × List Block
  tree = expand_loop encrypt levels roots

  one_less : (k : ℕ) → suc k - 1 ≡ k
  one_less k = omega arith

  add_one : (k : ℕ) → k + 1 ≡ suc k
  add_one k = omega arith

  expand-eq-ok :
      {E : Type 0}
      → expand encrypt {E = E} delta seed (2 ^ suc levels) (suc levels) ≡ ok (tree.0, seed ∷ tree.1)
  unfolding expand
  expand-eq-ok = rw (
    le→leb 1 (suc levels) (omega arith),
    (==_iff (2 ^ suc levels) (2 ^ suc levels)).1 refl,
    one_less levels,
  )

  length-leaves : length tree.0 ≡ 2 ^ suc levels
  length-leaves = length-expand_loop encrypt levels 1 roots refl ∙ ap (λ k. 2 ^ k) (add_one levels)

  -- The tree of any depth from 1 on, for any permutation: the expansion returns 2 ^ depth leaves, which sum
  -- up to delta, and the sums of the left nodes of all levels.
  pub sum-expand :
      {E : Type 0}
      → (leaves : List Block) × (sums : List Block) × (expand encrypt {E = E} delta seed
            (2 ^ suc levels)
            (suc levels)
          ≡ ok (leaves, sums))
        × (length leaves ≡ 2 ^ suc levels)
        × (length sums ≡ suc levels)
        × (sum leaves ≡ delta)
  sum-expand = (
    tree.0,
    seed ∷ tree.1,
    expand-eq-ok,
    length-leaves,
    ap suc (length-sums encrypt delta 0 levels roots),
    sum-expand_loop encrypt levels roots ∙ sum-roots,
  )

  first_bit : (idx : ℕ) → (if path_bit idx 0 then 1 else 0) ≡ idx % 2 ^ 1
  first_bit idx = sym (mod-pow-suc idx 0 ∙ alone (idx % 1) (mod-lt idx (omega arith)))
    where
      alone :
          (r : ℕ)
          → r < 1
          → r + (if path_bit idx 0 then 1 else 0) ≡ (if path_bit idx 0 then 1 else 0)
      alone r h = omega arith

  first_nodes :
      (b : Bool)
      → let expected = if b then seed else bitxor seed delta in
        (if b then expected ∷ zero_block ∷ [] else zero_block ∷ expected ∷ [])
        ≡ set roots (if b then 1 else 0) zero_block
  first_nodes true = refl
  first_nodes false = ap (λ (n : Block). zero_block ∷ n ∷ []) (bitxor_comm seed delta)

  expand_punctured-tree :
      {E : Type 0} (idx : ℕ)
      → idx < 2 ^ suc levels
      → expand_punctured encrypt {E = E} idx (off_path delta idx 0 (seed ∷ tree.1)) (2 ^ suc levels)
        ≡ ok (set tree.0 idx zero_block)
  unfolding expand_punctured
  expand_punctured-tree {E} idx below =
      let b = path_bit idx 0 in
      let rest = off_path delta idx 1 tree.1 in
      let depth : length rest ≡ levels =
        length-off_path delta idx 1 tree.1 ∙ length-sums encrypt delta idx levels roots in
      rw
        (
          depth,
          (==_iff (2 ^ suc levels) (2 ^ suc levels)).1 refl,
          lt→ltb idx (2 ^ suc levels) below,
        )
        (ap ok (
          ap (punctured_loop encrypt idx rest 1 (if b then 1 else 0)) (first_nodes b)
          ∙ punctured_loop-eq-set encrypt delta idx levels 1 (if b then 1 else 0) roots refl
              (first_bit idx) sum-roots
          ∙ ap (λ k. set tree.0 k zero_block)
              (ap (λ k. idx % 2 ^ k) (add_one levels) ∙ mod-eq_of_lt below)))

  -- The tree of any depth from 1 on and an index below 2 ^ depth: from the sums off the path of the index the
  -- punctured expansion returns the leaves of the expansion, with the leaf at the index cleared.
  pub expand_punctured-expand :
      {E : Type 0} (idx : ℕ)
      → idx < 2 ^ suc levels
      → (leaves : List Block) × (sums : List Block) × (expand encrypt {E = E} delta seed
            (2 ^ suc levels)
            (suc levels)
          ≡ ok (leaves, sums))
        × (expand_punctured encrypt {E = E} idx (off_path delta idx 0 sums) (2 ^ suc levels)
            ≡ ok (set leaves idx zero_block))
  expand_punctured-expand idx below =
      (tree.0, seed ∷ tree.1, expand-eq-ok, expand_punctured-tree idx below)

  -- Both trees at once, for lemmas about the two parties that expand them.
  pub expand_both :
      {E D : Type 0} (idx : ℕ)
      → idx < 2 ^ suc levels
      → (leaves : List Block) × (sums : List Block) × (expand encrypt {E = E} delta seed
            (2 ^ suc levels)
            (suc levels)
          ≡ ok (leaves, sums))
        × (length leaves ≡ 2 ^ suc levels)
        × (length sums ≡ suc levels)
        × (sum leaves ≡ delta)
        × (expand_punctured encrypt {E = D} idx (off_path delta idx 0 sums) (2 ^ suc levels)
            ≡ ok (set leaves idx zero_block))
  expand_both idx below = (
    tree.0,
    seed ∷ tree.1,
    expand-eq-ok,
    length-leaves,
    ap suc (length-sums encrypt delta 0 levels roots),
    sum-expand_loop encrypt levels roots ∙ sum-roots,
    expand_punctured-tree idx below,
  )
