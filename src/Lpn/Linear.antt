-- ===== src/Lpn/Linear.antt =====
-- The encoder of `crates/core/src/lpn.rs` keeps a correlation: the receiver's output is the sender's, offset by delta
-- at the bits of its own.
use mpz.Prelude.{
  take_whole, ℕ, zero, suc, ◌+◌, ◌*◌, ◌/◌, ◌≤◌, ◌≡◌, refl, ap, ap₂, sym, ◌∙◌, Bool, arith, List, [],
  ◌∷◌, ◌++◌, length, take, drop, length-zip_with, length-append, length-take, length-drop, slice_at,
  slice_at_in_range, Outcome, ok, ◌>>=◌,
}
use mathlib.Core.Path.{subst}
use mpz.Block.{Block}
use mpz.Cot.Correct.{correlated}
use mpz.Rcot.Paired.{correlated-append}
use mpz.Zk.Check.{chunks_loop}
use mpz.Ferret.Slices.{take-zip_with, drop-zip_with}
use mpz.Lpn.{
  LpnEncoder, group_rows, group_rows_with_bits, compute_indices, compute_rows,
  compute_rows_with_bits, chunks,
}
use mpz.Lpn.Row.{offset, group_rows-correlated}

pub whole_slice :
    {E A : Type 0} (xs : List A) (n : ℕ) → length xs ≡ n → slice_at {E = E} xs 0 n ≡ ok xs
whole_slice {E} {A} xs n h =
    slice_at_in_range {E = E} xs 0 n (omega arith) (omega (arith, h))
    ∙ ap (λ (k : ℕ). ok (take k xs)) (omega arith)
    ∙ ap (λ (t : List A). ok t) (take_whole n xs h)

-- Both parties' results, correlated.
abbrev pub Correlated :
    {E : Type 0} → Block → ℕ → Outcome E (List Block) → Outcome E (List Block × List Bool) → Type 0
Correlated delta n sent received =
    (rows : List Block) × (bits : List Bool) × (sent ≡ ok rows)
    × (received ≡ ok (correlated delta rows bits, bits))
    × (length rows ≡ n)
    × (length bits ≡ n)

-- Two correlated parts, one after the other.
pub Correlated-bind :
    {E : Type 0} (delta : Block) (n m total : ℕ) (a b : Outcome E (List Block))
    (a' b' : Outcome E (List Block × List Bool))
    → n + m ≡ total
    → Correlated delta n a a'
    → Correlated delta m b b'
    → Correlated delta total
        (a >>= λ r. b >>= λ s. ok (r ++ s))
        (a' >>= λ r. b' >>= λ s. ok (r.0 ++ s.0, r.1 ++ s.1))
Correlated-bind delta n m total a b a' b' sum (rows, bits, sent, received, rows_len, bits_len)
      (rest, more, others, rest_received, rest_len, more_len) =
    (
      rows ++ rest,
      bits ++ more,
      rw (sent, others) refl,
      rw (received, rest_received)
          (ap (λ (r : List Block). ok (r, bits ++ more))
            (sym (correlated-append delta rows rest bits more (bits_len ∙ sym rows_len)))),
      length-append rows rest ∙ ap₂ ◌+◌ rows_len rest_len ∙ sum,
      length-append bits more ∙ ap₂ ◌+◌ bits_len more_len ∙ sum,
    )

module _ {E : Type 0} (prp : Block → Block → Block) (encoder : LpnEncoder) (seed delta : Block)
    (x : List Block) (x_bits : List Bool) (hx : length x ≡ suc encoder.mask)
    (hb : length x_bits ≡ suc encoder.mask) where
  compute_rows-correlated :
      (fuel pos : ℕ) (y : List Block) (y_bits : List Bool)
      → length y ≤ fuel
      → length y_bits ≡ length y
      → Correlated {E = E} delta
          (length y)
          (compute_rows prp encoder seed x pos (chunks_loop fuel 4 y))
          (compute_rows_with_bits prp encoder seed
            (correlated delta x x_bits)
            x_bits
            pos
            (chunks_loop fuel 4 (correlated delta y y_bits))
            y_bits)
  unfolding compute_rows compute_rows_with_bits
  compute_rows-correlated zero pos [] [] few h = ([], [], refl, refl, refl, refl)
  compute_rows-correlated (suc fuel) pos [] [] few h = ([], [], refl, refl, refl, refl)
  compute_rows-correlated fuel pos [] (b ∷ bs) few h = absurd (omega arith)
  compute_rows-correlated fuel pos (y ∷ ys) [] few h = absurd (omega arith)
  compute_rows-correlated zero pos (y ∷ ys) (b ∷ bs) few h = absurd (omega arith)
  compute_rows-correlated (suc fuel) pos (y ∷ ys) (b ∷ bs) few h =
      let g = take 4 (y ∷ ys) in
      let gb = take 4 (b ∷ bs) in
      let size : length g + length (drop 4 (y ∷ ys)) ≡ length (y ∷ ys) =
        omega (arith, length-take 4 (y ∷ ys), length-drop 4 (y ∷ ys)) in
      let first : Outcome E (List Block) =
        group_rows x encoder.mask g (compute_indices prp encoder seed pos) in
      let others : Outcome E (List Block) =
        compute_rows prp encoder seed x (pos + 4) (chunks_loop fuel 4 (drop 4 (y ∷ ys))) in
      let next : List Block → Outcome E (List Block × List Bool) = λ d.
        compute_rows_with_bits prp encoder seed (correlated delta x x_bits) x_bits (pos + 4)
          (chunks_loop fuel 4 d) (drop 4 (b ∷ bs)) in
      let now : List Block → Outcome E (List Block × List Bool) = λ t.
        group_rows_with_bits (correlated delta x x_bits) x_bits encoder.mask t gb
          (compute_indices prp encoder seed pos) in
      Correlated-bind delta (length g) (length (drop 4 (y ∷ ys))) (length (y ∷ ys)) first others
        (now (take 4 (correlated delta (y ∷ ys) (b ∷ bs))))
        (next (drop 4 (correlated delta (y ∷ ys) (b ∷ bs)))) size
        (subst (λ t. Correlated {E = E} delta (length g) first (now t))
          (sym (take-zip_with (offset delta) 4 (y ∷ ys) (b ∷ bs)))
          (group_rows-correlated {E = E} delta x x_bits encoder.mask hx hb g gb
            (compute_indices prp encoder seed pos)
            (omega (arith, length-take 4 (y ∷ ys), length-take 4 (b ∷ bs)))))
        (subst (λ d. Correlated {E = E} delta (length (drop 4 (y ∷ ys))) others (next d))
          (sym (drop-zip_with (offset delta) 4 (y ∷ ys) (b ∷ bs)))
          (compute_rows-correlated fuel (pos + 4) (drop 4 (y ∷ ys)) (drop 4 (b ∷ bs))
            (omega (arith, length-drop 4 (y ∷ ys)))
            (omega (arith, length-drop 4 (y ∷ ys), length-drop 4 (b ∷ bs)))))

  module _ (whole : 8 * (encoder.mask / 8 + 1) ≡ suc encoder.mask) where
    -- A chunk of a party with bits reads its vectors whole.
    unfoldable pub chunk_rows : ℕ → List Block → List Bool → Outcome E (List Block × List Bool)
    chunk_rows i t y_bits = do
      inside ← slice_at (correlated delta x x_bits) 0 (encoder.mask + 1)
      inside_bits ← slice_at x_bits 0 (8 * (encoder.mask / 8 + 1))
      compute_rows_with_bits prp encoder seed inside inside_bits (i * 16) (chunks t 4) y_bits

    pub chunk_rows-Correlated :
        (i : ℕ) (y : List Block) (y_bits : List Bool)
        → length y_bits ≡ length y
        → Correlated {E = E} delta
            (length y)
            (compute_rows prp encoder seed x (i * 16) (chunks y 4))
            (chunk_rows i (correlated delta y y_bits) y_bits)
    unfolding chunk_rows
    chunk_rows-Correlated i y y_bits h =
        rw
          (
            whole_slice {E = E} (correlated delta x x_bits) (encoder.mask + 1)
                (length-zip_with (offset delta) x x_bits (hx ∙ sym hb) ∙ omega (arith, hx)),
            whole_slice {E = E} x_bits (8 * (encoder.mask / 8 + 1)) (hb ∙ sym whole),
            length-zip_with (offset delta) y y_bits (sym h),
          )
          (compute_rows-correlated (length y) (i * 16) y y_bits (omega arith) h)
