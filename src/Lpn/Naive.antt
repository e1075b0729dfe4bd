-- ===== src/Lpn/Naive.antt =====
-- `compute_naive` of the tests of `crates/core/src/lpn.rs`, which computes each row alone, and the encoder in
-- chunks and groups, which gives the same.
use mpz.Prelude.{
  slot_end, ℕ, zero, suc, ◌+◌, ◌*◌, ◌/◌, ◌%◌, ◌^◌, ◌≤◌, ◌<◌, ◌≡◌, refl, ap, sym, ◌∙◌, arith, List,
  [], ◌∷◌, ◌++◌, length, take, drop, length-take, length-drop, take-append-drop, drop-drop, leb,
  ◌==◌, slice_at, slice_at_in_range, Outcome, ok, err, panic, assert, ◌>>=◌, ◌>>◌,
}
use native.Mathlib.Nat.{mul-le-mul_right}
use mpz.Block.{Block}
use mpz.Zk.Check.{chunks_loop}
use mpz.Lpn.{
  LpnEncoder, words, fold_row, group_rows, indices_from, compute_indices, compute_rows, chunks,
  compute_chunks, compute,
}

module _ {E : Type 0} (prp : Block → Block → Block) (encoder : LpnEncoder) (seed : Block)
    (x : List Block) where
  -- Row `r` of `compute_naive`: its run of indices, in the flattened blocks of its group.
  unfoldable pub naive_row : ℕ → Block → Outcome E Block
  naive_row r y = do
    col ←
        slice_at (indices_from prp encoder seed (r / 4 * 4) 0 encoder.d) (r % 4 * encoder.d)
          ((r % 4 + 1) * encoder.d)
    fold_row x encoder.mask y col

  -- The loop of `compute_naive`, from row `r` on.
  unfoldable pub naive_rows : ℕ → List Block → Outcome E (List Block)
  unfolding naive_row
  naive_rows r [] = ok []
  naive_rows r (y ∷ ys) = do row ← naive_row r y; rest ← naive_rows (r + 1) ys; ok (row ∷ rest)

  unfoldable pub compute_naive : List Block → Outcome E (List Block)
  compute_naive y = do
    assert (length x % 2 ^ 32 == encoder.k)
    assert (leb encoder.d (length x))
    naive_rows 0 y

bind-ok : {E A : Type 0} (m : Outcome E A) → (m >>= λ a. ok a) ≡ m
bind-ok (ok a) = refl
bind-ok (err e) = refl
bind-ok panic = refl

cons_append :
    {E A : Type 0} (m : Outcome E A) (n k : Outcome E (List A))
    → (m >>= λ row. (n >>= λ a. k >>= λ b. ok (a ++ b)) >>= λ rest. ok (row ∷ rest))
      ≡ ((m >>= λ row. n >>= λ rest. ok (row ∷ rest)) >>= λ a. k >>= λ b. ok (a ++ b))
cons_append (ok row) (ok rest) (ok b) = refl
cons_append (ok row) (ok rest) (err e) = refl
cons_append (ok row) (ok rest) panic = refl
cons_append (ok row) (err e) k = refl
cons_append (ok row) panic k = refl
cons_append (err e) n k = refl
cons_append panic n k = refl

length-indices_from :
    (prp : Block → Block → Block) (encoder : LpnEncoder) (seed : Block) (pos i n : ℕ)
    → length (indices_from prp encoder seed pos i n) ≡ 4 * n
unfolding words
length-indices_from prp encoder seed pos i zero = refl
length-indices_from prp encoder seed pos i (suc n) =
    omega (arith, length-indices_from prp encoder seed pos (i + 1) n)

-- Four runs of `d`.
slot_inside : (d i : ℕ) → i < 4 → i * d + d ≤ 4 * d
slot_inside d i h =
    omega (arith, slot_end d i, mul-le-mul_right {m = i + 1} {n = 4} d (omega (arith, h)))

pub chunks_loop-suc :
    {A : Type 0} (fuel size : ℕ) (xs : List A)
    → 0 < length xs
    → chunks_loop (suc fuel) size xs ≡ take size xs ∷ chunks_loop fuel size (drop size xs)
chunks_loop-suc fuel size [] h = absurd (omega (arith, h))
chunks_loop-suc fuel size (x ∷ xs) h = refl

module _ {E : Type 0} (prp : Block → Block → Block) (encoder : LpnEncoder) (seed : Block)
    (x : List Block) where
  abbrev naive : ℕ → List Block → Outcome E (List Block)
  naive = naive_rows {E = E} prp encoder seed x

  naive_rows-append :
      (r : ℕ) (ys zs : List Block)
      → naive r (ys ++ zs) ≡ (naive r ys >>= λ a. naive (r + length ys) zs >>= λ b. ok (a ++ b))
  unfolding naive_rows
  naive_rows-append r [] zs = ap (λ k. naive k zs) (plus_zero r) ∙ sym (bind-ok (naive (r + 0) zs))
    where
      plus_zero : (r : ℕ) → r ≡ r + 0
      plus_zero r = omega arith
  naive_rows-append r (y ∷ ys) zs =
      ap (λ m. naive_row {E = E} prp encoder seed x r y >>= λ row. m >>= λ rest. ok (row ∷ rest))
        (naive_rows-append (r + 1) ys zs)
      ∙ cons_append (naive_row prp encoder seed x r y) (naive (r + 1) ys)
          (naive (r + 1 + length ys) zs)
      ∙ ap (λ k. naive r (y ∷ ys) >>= λ a. naive k zs >>= λ b. ok (a ++ b)) (omega arith)

  naive_rows_start : (r s : ℕ) (ys : List Block) → (0 < length ys → r ≡ s) → naive r ys ≡ naive s ys
  unfolding naive_rows
  naive_rows_start r s [] h = refl
  naive_rows_start r s (y ∷ ys) h = ap (λ k. naive k (y ∷ ys)) (h (omega arith))

  -- The first `n` rows, then the others.
  naive_rows_split :
      (n r : ℕ) (ys : List Block)
      → naive r ys ≡ (naive r (take n ys) >>= λ a. naive (r + n) (drop n ys) >>= λ b. ok (a ++ b))
  naive_rows_split n r ys =
      ap (naive r) (sym (take-append-drop n ys))
      ∙ naive_rows-append r (take n ys) (drop n ys)
      ∙ ap (λ m. naive r (take n ys) >>= λ a. m >>= λ b. ok (a ++ b))
          (naive_rows_start (r + length (take n ys)) (r + n) (drop n ys)
            (λ more. omega (arith, more, length-take n ys, length-drop n ys)))

  module _ (positive : 0 < encoder.d) where
    -- The run of a row of a group, and its place among all indices.
    naive_row_run :
        (g i : ℕ) (y : Block)
        → i < 4
        → naive_row {E = E} prp encoder seed x (4 * g + i) y
          ≡ fold_row x encoder.mask y (
              take encoder.d
                (drop (i * encoder.d) (indices_from prp encoder seed (4 * g) 0 encoder.d)))
    unfolding naive_row
    naive_row_run g i y h =
        let d = encoder.d in
        let raws = indices_from prp encoder seed (4 * g) 0 d in
        rw
          (
            group,
            lane,
            slice_at_in_range {E = E} raws (i * d) ((i + 1) * d) (omega (arith, slot_end d i)) (
                omega (
                  arith,
                  slot_end d i,
                  slot_inside d i h,
                  length-indices_from prp encoder seed (4 * g) 0 d,
                )),
          )
          (ap (λ n. fold_row {E = E} x encoder.mask y (take n (drop (i * d) raws)))
            (omega (arith, slot_end d i)))
      where
        group : (4 * g + i) / 4 * 4 ≡ 4 * g
        group = omega (arith, h)

        lane : (4 * g + i) % 4 ≡ i
        lane = omega (arith, h)

    group_rows-naive :
        (fuel g i : ℕ) (ys : List Block)
        → length ys + i ≤ 4
        → 4 * encoder.d ≤ fuel + i * encoder.d
        → group_rows {E = E} x encoder.mask ys (
            chunks_loop fuel encoder.d
              (drop (i * encoder.d) (indices_from prp encoder seed (4 * g) 0 encoder.d)))
          ≡ naive (4 * g + i) ys
    unfolding group_rows naive_rows
    group_rows-naive fuel g i [] few enough = refl
    group_rows-naive zero g i (y ∷ ys) few enough =
        absurd (omega (arith, positive, slot_inside encoder.d i (omega (arith, few))))
    group_rows-naive (suc fuel) g i (y ∷ ys) few enough =
        let d = encoder.d in
        let raws = indices_from prp encoder seed (4 * g) 0 d in
        let here : i < 4 = omega (arith, few) in
        let shifted : 4 * g + (i + 1) ≡ 4 * g + i + 1 = omega arith in
        let rest =
          group_rows-naive fuel g (i + 1) ys (omega (arith, few))
            (omega (arith, enough, positive, slot_end d i))
          ∙ ap (λ (k : ℕ). naive k ys) shifted in
        let dropped : drop d (drop (i * d) raws) ≡ drop ((i + 1) * d) raws =
          drop-drop d (i * d) raws ∙ ap (λ n. drop n raws) (sym (slot_end d i)) in
        rw
          (
            chunks_loop-suc fuel d (drop (i * d) raws) (
                omega (
                  arith,
                  positive,
                  slot_inside d i here,
                  length-drop (i * d) raws,
                  length-indices_from prp encoder seed (4 * g) 0 d,
                )),
            naive_row_run g i y here,
            dropped,
            rest,
          )
          refl

    group-naive :
        (g : ℕ) (ys : List Block)
        → length ys ≤ 4
        → group_rows {E = E} x encoder.mask ys (compute_indices prp encoder seed (4 * g))
          ≡ naive (4 * g) ys
    unfolding compute_indices
    group-naive g ys few =
        let raws = indices_from prp encoder seed (4 * g) 0 encoder.d in
        ap (λ t. group_rows {E = E} x encoder.mask ys (chunks_loop (length raws) encoder.d t))
          (ap (λ n. drop n raws) (nothing encoder.d))
        ∙ group_rows-naive (length raws) g 0 ys (omega (arith, few))
            (omega (arith, length-indices_from prp encoder seed (4 * g) 0 encoder.d))
        ∙ ap (λ (k : ℕ). naive k ys) (omega arith)
      where
        nothing : (d : ℕ) → 0 ≡ 0 * d
        nothing d = omega arith

    compute_rows-naive :
        (fuel g : ℕ) (ys : List Block)
        → length ys ≤ fuel
        → compute_rows prp encoder seed {E = E} x (4 * g) (chunks_loop fuel 4 ys) ≡ naive (4 * g) ys
    unfolding compute_rows naive_rows
    compute_rows-naive zero g [] h = refl
    compute_rows-naive (suc fuel) g [] h = refl
    compute_rows-naive zero g (y ∷ ys) h = absurd (omega arith)
    compute_rows-naive (suc fuel) g (y ∷ ys) h =
        rw (group-naive g (take 4 (y ∷ ys)) (omega (arith, length-take 4 (y ∷ ys)))) (
          ap (λ m. naive (4 * g) (take 4 (y ∷ ys)) >>= λ rows. m >>= λ rest. ok (rows ++ rest))
            (ap
                (λ (k : ℕ).
                  compute_rows prp encoder seed {E = E} x k (chunks_loop fuel 4 (drop 4 (y ∷ ys))))
                (omega arith)
              ∙ compute_rows-naive fuel (g + 1) (drop 4 (y ∷ ys))
                  (omega (arith, h, length-drop 4 (y ∷ ys)))
              ∙ ap (λ (k : ℕ). naive k (drop 4 (y ∷ ys))) (omega arith))
          ∙ sym (naive_rows_split 4 (4 * g) (y ∷ ys)))

    compute_chunks-naive :
        (fuel i : ℕ) (ys : List Block)
        → length ys ≤ fuel
        → compute_chunks prp encoder seed {E = E} x i (chunks_loop fuel 16 ys) ≡ naive (i * 16) ys
    unfolding compute_chunks naive_rows
    compute_chunks-naive zero i [] h = refl
    compute_chunks-naive (suc fuel) i [] h = refl
    compute_chunks-naive zero i (y ∷ ys) h = absurd (omega arith)
    compute_chunks-naive (suc fuel) i (y ∷ ys) h =
        let first = take 16 (y ∷ ys) in
        rw
          (compute_chunks-naive fuel (i + 1) (drop 16 (y ∷ ys))
            (omega (arith, h, length-drop 16 (y ∷ ys))))
          (ap
              (λ m.
                m >>= λ rows. naive ((i + 1) * 16) (drop 16 (y ∷ ys)) >>= λ rest. ok (rows ++ rest))
              (ap (λ (k : ℕ). compute_rows prp encoder seed {E = E} x k (chunks first 4))
                  (omega arith)
                ∙ compute_rows-naive (length first) (i * 4) first (omega arith)
                ∙ ap (λ (k : ℕ). naive k first) (omega arith))
            ∙ ap
                (λ (k : ℕ). naive (i * 16) first >>= λ rows.
                  naive k (drop 16 (y ∷ ys)) >>= λ rest. ok (rows ++ rest))
                (omega arith)
            ∙ sym (naive_rows_split 16 (i * 16) (y ∷ ys)))

-- With at least one index for a row, `compute` in chunks and groups is `compute_naive` row by row, panics included.
pub compute-compute_naive :
    {E : Type 0} (prp : Block → Block → Block) (encoder : LpnEncoder) (seed : Block)
    (x y : List Block)
    → 0 < encoder.d
    → compute prp encoder seed {E = E} y x ≡ compute_naive prp encoder seed x y
unfolding compute compute_naive
compute-compute_naive {E} prp encoder seed x y positive =
    ap (λ m. assert (length x % 2 ^ 32 == encoder.k) >> (assert (leb encoder.d (length x)) >> m))
      (compute_chunks-naive {E = E} prp encoder seed x positive (length y) 0 y (omega arith))
