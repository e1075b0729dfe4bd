-- ===== src/Lpn/Row.antt =====
-- The rows of `crates/core/src/lpn.rs` are linear: where one party's vectors are the other's offset by delta at the
-- bits, so are its rows.
use mpz.Prelude.{
  ℕ, suc, zero, ◌/◌, ◌%◌, ◌==◌, ◌&&◌, ◌≤◌, ◌<◌, ◌≡◌, refl, ap, sym, ◌∙◌, Bool, false, xor, arith,
  List, [], ◌∷◌, length, get_or, length-zip_with, get_or-zip_with, get_at_in_range, if◌then◌else◌,
  ok,
}
use mpz.Block.{Block, bitxor, zero_block}
use mpz.Block.Laws.{Bits_ext, bits}
use mpz.Cot.Correct.{correlated}
use mpz.Lpn.{and_bits, fold_row, fold_row_with_bits, group_rows, group_rows_with_bits}

abbrev pub offset : Block → Block → Bool → Block
offset delta a b = bitxor a (if b then delta else zero_block)

offset-bitxor :
    (delta a x : Block) (b t s : Bool)
    → bitxor (offset delta a (xor b t)) (offset delta x s)
      ≡ offset delta (bitxor a x) (xor b (xor t s))
unfolding xor
offset-bitxor delta a x b t s = Bits_ext _ _ (λ i. simp bits (ground arith))

-- A masked number is no more than the mask.
and_bits-le : (n a b : ℕ) → and_bits n a b ≤ b
and_bits-le zero a b = omega arith
and_bits-le (suc n) a b = omega (arith, last_bit, and_bits-le n (a / 2) (b / 2))
  where
    last_bit : (if a % 2 == 1 && b % 2 == 1 then 1 else 0) ≤ b % 2
    last_bit = ground arith

module _ {E : Type 0} (delta : Block) (x : List Block) (x_bits : List Bool) (mask : ℕ)
    (hx : length x ≡ suc mask) (hb : length x_bits ≡ suc mask) where
  fold_row-offset :
      (col : List ℕ) (acc acc' : Block) (b bit : Bool)
      → acc' ≡ offset delta acc (xor b bit)
      → (row : Block) × (t : Bool) × (fold_row {E = E} x mask acc col ≡ ok row)
        × (fold_row_with_bits {E = E} (correlated delta x x_bits) x_bits mask acc' bit col
            ≡ ok (offset delta row (xor b t), t))
  unfolding fold_row fold_row_with_bits
  fold_row-offset [] acc acc' b bit h = (acc, bit, refl, ap (λ (a : Block). ok (a, bit)) h)
  fold_row-offset (raw ∷ col) acc acc' b bit h =
      let j = and_bits 32 raw mask in
      let below : j < suc mask = omega (arith, and_bits-le 32 raw mask) in
      let selected = get_or x j zero_block in
      let selected_bit = get_or x_bits j false in
      let there =
        get_or-zip_with (offset delta) x x_bits j zero_block false zero_block
          (omega (arith, below, hx)) (omega (arith, below, hb)) in
      let (row, t, folded, folded_bits) =
        fold_row-offset col (bitxor acc selected) (bitxor acc' (offset delta selected selected_bit))
          b (xor bit selected_bit)
          (ap (λ a. bitxor a (offset delta selected selected_bit)) h
            ∙ offset-bitxor delta acc selected b bit selected_bit) in
      (
        row,
        t,
        rw (get_at_in_range {E = E} x j zero_block (omega (arith, below, hx))) folded,
        rw
            (
              get_at_in_range {E = E} (correlated delta x x_bits) j zero_block
                  (omega (arith, below, hx, length-zip_with (offset delta) x x_bits (hx ∙ sym hb))),
              get_at_in_range {E = E} x_bits j false (omega (arith, below, hb)),
              there,
            )
            folded_bits,
      )

  pub group_rows-correlated :
      (y : List Block) (y_bits : List Bool) (cols : List (List ℕ))
      → length y_bits ≡ length y
      → (rows : List Block) × (bits' : List Bool) × (group_rows {E = E} x mask y cols ≡ ok rows)
        × (group_rows_with_bits {E = E}
              (correlated delta x x_bits)
              x_bits
              mask
              (correlated delta y y_bits)
              y_bits
              cols
            ≡ ok (correlated delta rows bits', bits'))
        × (length rows ≡ length y)
        × (length bits' ≡ length y)
  unfolding group_rows group_rows_with_bits
  group_rows-correlated [] [] cols h = ([], [], refl, refl, refl, refl)
  group_rows-correlated [] (b ∷ bs) cols h = absurd (omega arith)
  group_rows-correlated (y ∷ ys) [] cols h = absurd (omega arith)
  group_rows-correlated (y ∷ ys) (b ∷ bs) [] h = (y ∷ ys, b ∷ bs, refl, refl, refl, h)
  group_rows-correlated (y ∷ ys) (b ∷ bs) (col ∷ cols) h =
      let (row, t, folded, folded_bits) =
        fold_row-offset col y (offset delta y b) b false
          (ap (offset delta y) (sym (xor-false b))) in
      let (rows, bits', made, made_bits, rows_len, bits_len) =
        group_rows-correlated ys bs cols (omega arith) in
      (
        row ∷ rows,
        xor b t ∷ bits',
        rw (folded, made) refl,
        rw (folded_bits, made_bits) refl,
        ap suc rows_len,
        ap suc bits_len,
      )
    where
      xor-false : (b : Bool) → xor b false ≡ b
      xor-false b = unfold xor in ground arith
