-- ===== src/Lpn/Encode.antt =====
-- The whole encoding of `crates/core/src/lpn.rs` by both parties of a correlation.
use mpz.Prelude.{
  ℕ, zero, suc, ◌+◌, ◌*◌, ◌-◌, ◌/◌, ◌%◌, ◌^◌, ◌≤◌, ◌<◌, ◌≡◌, refl, ap, sym, ◌∙◌, Bool, true, arith,
  List, [], ◌∷◌, ◌++◌, length, take, drop, length-zip_with, length-take, length-drop, le→leb, ◌==◌,
  leb, ==_iff, Outcome, ok, ◌>>=◌, ok-injective, Bool-cases, inl, inr,
}
use mathlib.Core.Path.{subst}
use native.Mathlib.Nat.{mod-eq_of_lt}
use mpz.Block.{Block}
use mpz.Cot.Correct.{correlated}
use mpz.Zk.Check.{chunks_loop}
use mpz.Ferret.Slices.{take-zip_with, drop-zip_with}
use mpz.Lpn.{
  LpnEncoder, new, power_below, compute_rows, chunks, compute_chunks, compute_chunks_with_bits,
  compute, compute_with_bits,
}
use mpz.Lpn.Row.{offset}
use mpz.Lpn.Linear.{Correlated, Correlated-bind, whole_slice, chunk_rows, chunk_rows-Correlated}

module _ {E : Type 0} (prp : Block → Block → Block) (encoder : LpnEncoder) (seed delta : Block)
    (x : List Block) (x_bits : List Bool) (hx : length x ≡ suc encoder.mask)
    (hb : length x_bits ≡ suc encoder.mask)
    (whole : 8 * (encoder.mask / 8 + 1) ≡ suc encoder.mask) where
  abbrev one_chunk : ℕ → List Block → List Bool → Outcome E (List Block × List Bool)
  one_chunk = chunk_rows {E = E} prp encoder seed delta x x_bits hx hb whole

  abbrev others : ℕ → List (List Block) → List (List Bool) → Outcome E (List Block × List Bool)
  others = compute_chunks_with_bits prp encoder seed (correlated delta x x_bits) x_bits

  others-cons :
      (i : ℕ) (y : List Block) (ys : List (List Block)) (b : List Bool) (bits : List (List Bool))
      → others i (y ∷ ys) (b ∷ bits)
        ≡ (one_chunk i y b >>= λ r. others (i + 1) ys bits >>= λ s. ok (r.0 ++ s.0, r.1 ++ s.1))
  unfolding compute_chunks_with_bits chunk_rows
  others-cons i y ys b bits =
      rw
        (
          whole_slice {E = E} (correlated delta x x_bits) (encoder.mask + 1)
              (length-zip_with (offset delta) x x_bits (hx ∙ sym hb) ∙ omega (arith, hx)),
          whole_slice {E = E} x_bits (8 * (encoder.mask / 8 + 1)) (hb ∙ sym whole),
        )
        refl

  compute_chunks-Correlated :
      (fuel i : ℕ) (y : List Block) (y_bits : List Bool)
      → length y ≤ fuel
      → length y_bits ≡ length y
      → Correlated {E = E} delta
          (length y)
          (compute_chunks prp encoder seed x i (chunks_loop fuel 16 y))
          (others i (chunks_loop fuel 16 (correlated delta y y_bits)) (chunks_loop fuel 16 y_bits))
  unfolding compute_chunks compute_chunks_with_bits
  compute_chunks-Correlated zero i [] [] few h = ([], [], refl, refl, refl, refl)
  compute_chunks-Correlated (suc fuel) i [] [] few h = ([], [], refl, refl, refl, refl)
  compute_chunks-Correlated fuel i [] (b ∷ bs) few h = absurd (omega arith)
  compute_chunks-Correlated fuel i (y ∷ ys) [] few h = absurd (omega arith)
  compute_chunks-Correlated zero i (y ∷ ys) (b ∷ bs) few h = absurd (omega arith)
  compute_chunks-Correlated (suc fuel) i (y ∷ ys) (b ∷ bs) few h =
      let head = take 16 (y ∷ ys) in
      let tail = drop 16 (y ∷ ys) in
      let both = correlated delta (y ∷ ys) (b ∷ bs) in
      let rest_bits = chunks_loop fuel 16 (drop 16 (b ∷ bs)) in
      let first : Outcome E (List Block) =
        compute_rows prp encoder seed x (i * 16) (chunks head 4) in
      let rest : Outcome E (List Block) =
        compute_chunks prp encoder seed x (i + 1) (chunks_loop fuel 16 tail) in
      subst
        (λ m.
          Correlated {E = E} delta (length (y ∷ ys)) (first >>= λ r. rest >>= λ s. ok (r ++ s)) m)
        (sym (
          others-cons i (take 16 both) (chunks_loop fuel 16 (drop 16 both)) (take 16 (b ∷ bs))
            rest_bits))
        (Correlated-bind delta (length head) (length tail) (length (y ∷ ys)) first rest
          (one_chunk i (take 16 both) (take 16 (b ∷ bs)))
          (others (i + 1) (chunks_loop fuel 16 (drop 16 both)) rest_bits)
          (omega (arith, length-take 16 (y ∷ ys), length-drop 16 (y ∷ ys)))
          (subst
            (λ t. Correlated {E = E} delta (length head) first (one_chunk i t (take 16 (b ∷ bs))))
            (sym (take-zip_with (offset delta) 16 (y ∷ ys) (b ∷ bs)))
            (chunk_rows-Correlated {E = E} prp encoder seed delta x x_bits hx hb whole i head
              (take 16 (b ∷ bs)) (omega (arith, length-take 16 (y ∷ ys), length-take 16 (b ∷ bs)))))
          (subst
            (λ d.
              Correlated {E = E} delta (length tail) rest
                (others (i + 1) (chunks_loop fuel 16 d) rest_bits))
            (sym (drop-zip_with (offset delta) 16 (y ∷ ys) (b ∷ bs)))
            (compute_chunks-Correlated fuel (i + 1) tail (drop 16 (b ∷ bs))
              (omega (arith, length-drop 16 (y ∷ ys)))
              (omega (arith, length-drop 16 (y ∷ ys), length-drop 16 (b ∷ bs))))))

new-fields :
    {E : Type 0} (d k : ℕ) (encoder : LpnEncoder)
    → new {E = E} d k ≡ ok encoder
    → (encoder.d ≡ d) × (encoder.k ≡ k) × (encoder.mask ≡ k - 1)
unfolding new
new-fields {E} d k encoder made = elim (Bool-cases (power_below k 32)) [
  | inl power ↦ ok-case (rw power at made)
  | inr other ↦ cc (rw other at made)
]
  where
    ok-case :
        ◌≡◌ {A = Outcome E LpnEncoder} (ok (record { d = d; k = k; mask = k - 1 })) (ok encoder)
        → (encoder.d ≡ d) × (encoder.k ≡ k) × (encoder.mask ≡ k - 1)
    ok-case same =
        let fields = sym (ok-injective same) in
        (
          ap (λ (e : LpnEncoder). e.d) fields,
          ap (λ (e : LpnEncoder). e.k) fields,
          ap (λ (e : LpnEncoder). e.mask) fields,
        )

-- One party's `compute` and the other's `compute_with_bits`, with an encoder that `new` returns and on vectors that
-- are correlated under delta at the bits, both succeed, with correlated results of the length of `y`. The number of
-- columns is a multiple of eight and at least `d`, and the number of rows is a multiple of eight.
pub compute_with_bits-compute :
    {E : Type 0} (prp : Block → Block → Block) (seed delta : Block) (d k m q : ℕ)
    (encoder : LpnEncoder) (x y : List Block) (x_bits y_bits : List Bool)
    → new {E = E} d k ≡ ok encoder
    → k < 2 ^ 32
    → k ≡ 8 * suc m
    → d ≤ k
    → length x ≡ k
    → length x_bits ≡ k
    → length y ≡ 8 * q
    → length y_bits ≡ 8 * q
    → Correlated {E = E} delta (8 * q) (compute prp encoder seed y x) (
        compute_with_bits prp encoder seed
          (correlated delta y y_bits)
          y_bits
          (correlated delta x x_bits)
          x_bits)
unfolding compute compute_with_bits
compute_with_bits-compute {E} prp seed delta d k m q encoder x y x_bits y_bits made small packed few
      hx hb hy hyb =
    let whole : 8 * ((k - 1) / 8 + 1) ≡ suc (k - 1) = omega (arith, packed) in
    let width : length (correlated delta x x_bits) ≡ k =
      length-zip_with (offset delta) x x_bits (hx ∙ sym hb) ∙ hx in
    let rows : length (correlated delta y y_bits) ≡ 8 * q =
      length-zip_with (offset delta) y y_bits (hy ∙ sym hyb) ∙ hy in
    let (same_d, same_k, same_mask) = new-fields {E = E} d k encoder made in
    let columns : (k % 2 ^ 32 == encoder.k) ≡ true =
      (==_iff (k % 2 ^ 32) encoder.k).1 (mod-eq_of_lt small ∙ sym same_k) in
    let bytes : (8 * q == 8 * ((8 * q + 7) / 8)) ≡ true =
      (==_iff (8 * q) (8 * ((8 * q + 7) / 8))).1 (omega arith) in
    let enough : leb encoder.d k ≡ true = le→leb encoder.d k (omega (arith, few, same_d)) in
    let run =
      compute_chunks-Correlated {E = E} prp encoder seed delta x x_bits
        (omega (arith, hx, same_mask, packed)) (omega (arith, hb, same_mask, packed))
        (ap (λ n. 8 * (n / 8 + 1)) same_mask ∙ whole ∙ ap suc (sym same_mask)) (8 * q) 0 y y_bits
        (omega (arith, hy)) (hyb ∙ sym hy) in
    rw (hx, hy, hyb, hb, width, rows, columns, bytes, enough) (rw hy at run)
