-- ===== src/Ferret/Chis/Batches.antt =====
-- The batches of a chunk in `fold_chis` of `crates/ot-core/src/ferret/spcot.rs`: the chunk, folded batch by
-- batch, is the sum over its positions.
use mpz.Prelude.{
  ℕ, zero, suc, ◌+◌, ◌*◌, ◌-◌, ◌≤◌, ◌<◌, ◌≡◌, refl, ap, ap₂, sym, ◌∙◌, arith, List, [], ◌∷◌, length,
  take, drop, length-take, length-drop, Outcome, ok,
}
use mpz.Block.{Block, bitxor, zero_block}
use mpz.Zk.Check.{Clmul, chunks_loop}
use mpz.Zk.Vole.{IsClmul}
use mpz.Ferret.Chis.{inner_product, batch_size, counter_block, take_picks, chis_from, fold_batches}
use mpz.Ferret.Chis.Picks.{Ascending, Ascending-within, from, below, from-Ascending}
use mpz.Ferret.Chis.Fold.{
  bitxor_assoc, bitxor-zero, run, sum_at, dot, sum_at-split, take_picks-sum_at, inner_product-dot,
  dot-take-drop,
}

-- Positions in an empty range add nothing.
pub sum_at-none :
    (c : ℕ → Block) (lo hi : ℕ) (ps : List ℕ)
    → Ascending lo hi ps
    → hi ≤ lo
    → sum_at c ps ≡ zero_block
sum_at-none c lo hi [] h le = refl
sum_at-none c lo hi (p ∷ ps) h le = absurd (omega (arith, h.0, h.1))

pub acc_none :
    {E : Type 0} (c : ℕ → Block) (b : ℕ) (acc : Block × Block) (ps : List ℕ)
    → Ascending b (b + 0) ps
    → ◌≡◌ {A = Outcome E (Block × Block)}
        (ok acc)
        (ok (bitxor acc.0 zero_block, bitxor acc.1 (sum_at c ps)))
acc_none c b acc ps h =
    ap₂ (λ (x y : Block). ok (x, y)) (sym (bitxor-zero acc.0))
      (sym (ap (bitxor acc.1) (sum_at-none c b (b + 0) ps h (omega arith)) ∙ bitxor-zero acc.1))

module _ (C : Clmul) (aes : Block → Block → Block) (seed : Block) where
  fold_batches-cons :
      {E : Type 0} (stream start j : ℕ) (values : List Block) (rest : List (List Block))
      (picks left : List ℕ) (acc : Block × Block) (chis : List Block) (product picked : Block)
      → chis_from C aes seed stream (j * batch_size) (length values) ≡ chis
      → inner_product C {E = E} chis values ≡ ok product
      → take_picks {E = E} (start + j * batch_size) chis acc.1 picks ≡ ok (picked, left)
      → fold_batches C aes seed {E = E} stream start j (values ∷ rest) picks acc
        ≡ fold_batches C aes seed stream start (j + 1) rest left (bitxor acc.0 product, picked)
  unfolding fold_batches
  fold_batches-cons stream start j values rest picks left acc chis product picked made sum taken =
      rw (made, sum, taken) refl

module _ {C : Clmul} (L : IsClmul C) (aes : Block → Block → Block) (seed : Block) (c : ℕ → Block)
    (stream start limit : ℕ)
    (chi : (m : ℕ) → m < limit → aes seed (counter_block m stream) ≡ c (start + m)) where
  chis_from-run :
      (m n b : ℕ) → b ≡ start + m → m + n ≤ limit → chis_from C aes seed stream m n ≡ run c b n
  chis_from-run m zero b at h = refl
  chis_from-run m (suc n) b at h =
      ap₂ ◌∷◌ (chi m (omega arith) ∙ ap c (sym at))
        (chis_from-run (m + 1) n (b + 1) (omega arith) (omega arith))

  -- From batch `j` on, at position `b`.
  pub fold_batches-dot :
      {E : Type 0} (fuel size j b : ℕ) (values : List Block) (picks : List ℕ) (acc : Block × Block)
      → size ≡ batch_size
      → b ≡ start + j * batch_size
      → length values ≤ fuel
      → length values ≤ limit - j * batch_size
      → Ascending b (b + length values) picks
      → fold_batches C aes seed {E = E} stream start j (chunks_loop fuel size values) picks acc
        ≡ ok (bitxor acc.0 (dot C c b values), bitxor acc.1 (sum_at c picks))
  unfolding fold_batches
  fold_batches-dot zero size j b [] picks acc hs at few fits asc = acc_none c b acc picks asc
  fold_batches-dot zero size j b (v ∷ vs) picks acc hs at few fits asc = absurd (omega arith)
  fold_batches-dot (suc fuel) size j b [] picks acc hs at few fits asc = acc_none c b acc picks asc
  fold_batches-dot {E} (suc fuel) size j b (v ∷ vs) picks acc hs at few fits asc =
      let xs = v ∷ vs in
      let n = length (take size xs) in
      let product = dot C c b (take size xs) in
      let picked = bitxor acc.1 (sum_at c (below (b + n) picks)) in
      let left = from (b + n) picks in
      fold_batches-cons C aes seed {E = E} stream start j (take size xs) _ picks left acc
        (run c b n) product picked
        (chis_from-run (j * batch_size) n b at (omega (arith, length-take size xs)))
        (inner_product-dot L c {E = E} b (take size xs))
        (ap (λ k. take_picks {E = E} k (run c b n) acc.1 picks) (sym at)
          ∙ take_picks-sum_at {E = E} c b n (b + length xs) acc.1 picks asc)
      ∙ fold_batches-dot {E = E} fuel size (j + 1) (b + size) (drop size xs) left
          (bitxor acc.0 product, picked) hs (omega arith) (omega (arith, length-drop size xs))
          (omega (arith, length-drop size xs))
          (Ascending-within (b + n) (b + length xs) (b + size) (b + size + length (drop size xs))
            left (from-Ascending b (b + length xs) (b + n) picks asc)
            (λ p above under.
              omega (arith, above, under, length-take size xs, length-drop size xs)))
      ∙ ap₂ (λ (x y : Block). ok (x, y))
          (bitxor_assoc acc.0 _ _ ∙ ap (bitxor acc.0) (dot-take-drop L c size b xs))
          (bitxor_assoc acc.1 _ _ ∙ ap (bitxor acc.1) (sum_at-split c (b + n) picks))
