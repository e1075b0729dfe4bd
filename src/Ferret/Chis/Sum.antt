-- ===== src/Ferret/Chis/Sum.antt =====
-- `fold_chis` of `crates/ot-core/src/ferret/spcot.rs`: chunk by chunk, each from a stream of its own, it computes
-- two sums over the positions.
use mpz.Prelude.{
  ℕ, zero, suc, ◌+◌, ◌*◌, ◌/◌, ◌%◌, ◌≤◌, ◌<◌, ◌≡◌, refl, ap, ap₂, sym, ◌∙◌, arith, List, [], ◌∷◌,
  length, take, drop, length-take, length-drop, leb, Bool-cases, inl, inr, slice_at,
  slice_at_in_range, Outcome, ok, ◌>>=◌,
}
use Prim.Native.Nat.{min}
use mpz.Block.{Block, bitxor, zero_block}
use mpz.Zk.Check.{Clmul, chunks_loop}
use mpz.Zk.Vole.{IsClmul}
use mpz.Ferret.Chis.{
  chunk_size, batch_size, chunks, partition_point, counter_block, fold_batches, fold_chunk,
  fold_chunks, fold_chis,
}
use mpz.Ferret.Chis.Picks.{
  Ascending, Ascending-within, from, below, from-Ascending, below-Ascending, is_sorted-Ascending,
  partition_point-from, partition_point-length, partition_point-above, partition_point-le,
  from-from,
}
use mpz.Ferret.Chis.Fold.{bitxor_assoc, zero-bitxor, sum_at, dot, sum_at-split, dot-take-drop}
use mpz.Ferret.Chis.Batches.{acc_none, fold_batches-dot}

-- The challenge at a position: each stream has as many as a chunk.
abbrev pub chi_at : (Block → Block → Block) → Block → ℕ → Block
chi_at aes seed k = aes seed (counter_block (k % chunk_size) (k / chunk_size))

chi_at-stream :
    (aes : Block → Block → Block) (seed : Block) (i m : ℕ)
    → m < chunk_size
    → aes seed (counter_block m i) ≡ chi_at aes seed (i * chunk_size + m)
chi_at-stream aes seed i m h = ap₂ (λ a b. aes seed (counter_block a b)) (omega arith) (omega arith)

module _ {C : Clmul} (L : IsClmul C) (aes : Block → Block → Block) (seed : Block) (picks : List ℕ)
    (hi : ℕ) (asc : Ascending 0 hi picks) where
  abbrev c : ℕ → Block
  c = chi_at aes seed

  slice-below :
      {E : Type 0} (b d : ℕ)
      → b ≤ d
      → slice_at {E = E} picks (partition_point b picks) (partition_point d picks)
        ≡ ok (below d (from b picks))
  slice-below {E} b d le =
      let split = partition_point-from 0 hi b d picks asc le in
      slice_at_in_range {E = E} picks (partition_point b picks) (partition_point d picks)
        (omega (arith, split)) (partition_point-le d picks)
      ∙ ap (λ (k : ℕ). ok (take k (from b picks))) (omega (arith, split))

  fold_chunk-dot :
      {E : Type 0} (i start : ℕ) (chunk : List Block)
      → start ≡ i * chunk_size
      → length chunk ≤ chunk_size
      → fold_chunk C aes seed {E = E} picks i chunk
        ≡ ok (dot C c start chunk, sum_at c (below (start + length chunk) (from start picks)))
  unfolding fold_chunk
  fold_chunk-dot {E} i start chunk at fits =
      let stop = start + length chunk in
      let inside = below stop (from start picks) in
      ap
        (λ k.
          slice_at {E = E} picks (partition_point k picks)
            (partition_point (k + length chunk) picks)
          >>= λ inside.
              fold_batches C aes seed {E = E} i k 0 (chunks chunk batch_size) inside
                (zero_block, zero_block))
        (sym at)
      ∙ ap
          (λ (m : Outcome E (List ℕ)). m >>= λ inside.
            fold_batches C aes seed {E = E} i start 0 (chunks chunk batch_size) inside
              (zero_block, zero_block))
          (slice-below {E = E} start stop (omega arith))
      ∙ fold_batches-dot L aes seed c i start chunk_size
          (λ m h. chi_at-stream aes seed i m h ∙ ap (λ k. c (k + m)) (sym at)) {E = E}
          (length chunk) batch_size 0 start chunk inside (zero_block, zero_block) refl (omega arith)
          (omega arith) (omega arith)
          (below-Ascending start hi stop (from start picks) (from-Ascending 0 hi start picks asc))
      ∙ ap₂ (λ (x y : Block). ok (x, y)) (zero-bitxor _) (zero-bitxor _)

  -- A chunk that is not full is the last, so nothing lies between its end and that of a full one.
  below-chunk :
      (start size len n : ℕ)
      → Ascending start (start + len) (from start picks)
      → n ≡ min size len
      → below (start + n) (from start picks) ≡ below (start + size) (from start picks)
  below-chunk start size len n inside is_min = elim (Bool-cases (leb len size)) [
    | inl last ↦
        (let short : len ≤ size = ground arith in
          let ps = from start picks in
          ap (λ (k : ℕ). take k ps)
            (partition_point-length start (start + len) (start + n) ps inside (omega arith)
              ∙ sym (
                  partition_point-length start (start + len) (start + size) ps inside
                    (omega arith))))
    | inr full ↦
        (let long : size ≤ len = ground arith in
          ap (λ (k : ℕ). below (start + k) (from start picks)) (omega arith))
  ]

  fold_chunks-dot :
      {E : Type 0} (fuel size i start : ℕ) (values : List Block) (acc : Block × Block)
      → size ≡ chunk_size
      → start ≡ i * chunk_size
      → length values ≤ fuel
      → Ascending start (start + length values) (from start picks)
      → fold_chunks C aes seed {E = E} picks i acc (chunks_loop fuel size values)
        ≡ ok (bitxor acc.0 (dot C c start values), bitxor acc.1 (sum_at c (from start picks)))
  unfolding fold_chunks
  fold_chunks-dot zero size i start [] acc hs at few inside = acc_none c start acc _ inside
  fold_chunks-dot zero size i start (v ∷ vs) acc hs at few inside = absurd (omega arith)
  fold_chunks-dot (suc fuel) size i start [] acc hs at few inside = acc_none c start acc _ inside
  fold_chunks-dot {E} (suc fuel) size i start (v ∷ vs) acc hs at few inside =
      let xs = v ∷ vs in
      let n = length (take size xs) in
      let ps = from start picks in
      let folded : Block × Block =
        (dot C c start (take size xs), sum_at c (below (start + n) ps)) in
      let next = from-from 0 hi start (start + size) picks asc (omega arith) in
      ap
        (λ (m : Outcome E (Block × Block)). m >>= λ f.
          fold_chunks C aes seed {E = E} picks (i + 1) (bitxor acc.0 f.0, bitxor acc.1 f.1)
            (chunks_loop fuel size (drop size xs)))
        (fold_chunk-dot {E = E} i start (take size xs) at (omega (arith, length-take size xs)))
      ∙ fold_chunks-dot {E = E} fuel size (i + 1) (start + size) (drop size xs)
          (bitxor acc.0 folded.0, bitxor acc.1 folded.1) hs (omega arith)
          (omega (arith, length-drop size xs))
          (rw (← next) (
            Ascending-within (start + size) (start + length xs) (start + size)
              (start + size + length (drop size xs)) (from (start + size) ps)
              (from-Ascending start (start + length xs) (start + size) ps inside)
              (λ p above under. omega (arith, above, under, length-drop size xs))))
      ∙ ap₂ (λ (x y : Block). ok (x, y))
          (bitxor_assoc acc.0 _ _ ∙ ap (bitxor acc.0) (dot-take-drop L c size start xs))
          (bitxor_assoc acc.1 _ _
            ∙ ap (bitxor acc.1) (
                ap₂ (λ a b. bitxor (sum_at c a) (sum_at c b))
                  (below-chunk start size (length xs) n inside (length-take size xs)) (sym next)
                ∙ sum_at-split c (start + size) ps))

from_zero : (ps : List ℕ) → from 0 ps ≡ ps
from_zero [] = refl
from_zero (p ∷ ps) = rw (partition_point-above 0 p ps (omega arith)) refl

-- With a product of polynomials and a reduction that satisfy the laws of a ring, for positions that ascend and
-- lie within the values: `fold_chis` returns the sum of the values, each times the challenge at its position,
-- and the sum of the challenges at the given positions, where the challenge at a position is the cipher of
-- its place in its chunk and the number of the chunk.
pub fold_chis-dot :
    {C : Clmul} (L : IsClmul C) {E : Type 0} (aes : Block → Block → Block) (seed : Block)
    (values : List Block) (picks : List ℕ)
    → Ascending 0 (length values) picks
    → fold_chis C aes seed {E = E} values picks
      ≡ ok (dot C (chi_at aes seed) 0 values, sum_at (chi_at aes seed) picks)
unfolding fold_chis
fold_chis-dot {C} L {E} aes seed values picks asc =
    rw (is_sorted-Ascending 0 (length values) picks asc) (
      fold_chunks-dot L aes seed picks (length values) asc {E = E} (length values) chunk_size 0 0
        values (zero_block, zero_block) refl refl (omega arith)
        (rw (from_zero picks) (
          Ascending-within 0 (length values) 0 (0 + length values) picks asc
            (λ p above under. (above, omega (arith, under)))))
      ∙ ap₂ (λ (x y : Block). ok (x, y)) (zero-bitxor _)
          (zero-bitxor _ ∙ ap (sum_at (chi_at aes seed)) (from_zero picks)))
