-- ===== src/Ferret/Slices.antt =====
-- `slices_from_lengths` of `crates/core/src/utils.rs`, which cuts a buffer into consecutive slices.
use mpz.Prelude.{
  total, ℕ, zero, suc, ◌≤◌, ◌≡◌, refl, ap, ◌∙◌, true, false, arith, List, [], ◌∷◌, ◌++◌, length,
  take, drop, leb, le→leb, zip_with, length-drop, Outcome, ok, panic, ◌>>=◌,
}

module _ {A : Type 0} where
  abbrev pub concat : List (List A) → List A
  concat [] = []
  concat (xs ∷ xss) = xs ++ concat xss

  -- `src.split_at(length)`.
  abbrev pub split_at : {E : Type 0} → List A → ℕ → Outcome E (List A × List A)
  split_at src n = elim (leb n (length src)) [ true ↦ ok (take n src, drop n src) | false ↦ panic ]

  split_at_in_range :
      {E : Type 0} (src : List A) (n : ℕ)
      → n ≤ length src
      → split_at {E = E} src n ≡ ok (take n src, drop n src)
  split_at_in_range src n h = rw (le→leb n (length src) h, split_at)

  unfoldable pub slices_from_lengths : {E : Type 0} → List A → List ℕ → Outcome E (List (List A))
  slices_from_lengths src [] = ok []
  slices_from_lengths src (n ∷ ns) = do
    parts ← split_at src n
    slices ← slices_from_lengths parts.1 ns
    ok (parts.0 ∷ slices)

  -- The slices of a buffer that is long enough.
  abbrev pub slices_of : List A → List ℕ → List (List A)
  slices_of src [] = []
  slices_of src (n ∷ ns) = take n src ∷ slices_of (drop n src) ns

  pub slices_from_lengths_in_range :
      {E : Type 0} (src : List A) (ns : List ℕ)
      → total ns ≤ length src
      → slices_from_lengths {E = E} src ns ≡ ok (slices_of src ns)
  unfolding slices_from_lengths
  slices_from_lengths_in_range src [] h = refl
  slices_from_lengths_in_range {E} src (n ∷ ns) h =
      ap
        (λ (m : Outcome E (List A × List A)).
          m >>= λ parts. slices_from_lengths parts.1 ns >>= λ slices. ok (parts.0 ∷ slices))
        (split_at_in_range src n (omega (arith, h)))
      ∙ ap (λ (m : Outcome E (List (List A))). m >>= λ slices. ok (take n src ∷ slices))
          (slices_from_lengths_in_range {E = E} (drop n src) ns (omega (arith, length-drop n src)))

  pub take-append : (n : ℕ) (xs ys : List A) → length xs ≡ n → take n (xs ++ ys) ≡ xs
  take-append zero [] ys h = refl
  take-append zero (x ∷ xs) ys h = absurd (omega arith)
  take-append (suc n) [] ys h = absurd (omega arith)
  take-append (suc n) (x ∷ xs) ys h = ap (λ (t : List A). x ∷ t) (take-append n xs ys (omega arith))

  pub drop-append : (n : ℕ) (xs ys : List A) → length xs ≡ n → drop n (xs ++ ys) ≡ ys
  drop-append zero [] ys h = refl
  drop-append zero (x ∷ xs) ys h = absurd (omega arith)
  drop-append (suc n) [] ys h = absurd (omega arith)
  drop-append (suc n) (x ∷ xs) ys h = drop-append n xs ys (omega arith)

module _ {A B C : Type 0} (f : A → B → C) where
  pub take-zip_with :
      (n : ℕ) (xs : List A) (ys : List B)
      → take n (zip_with f xs ys) ≡ zip_with f (take n xs) (take n ys)
  take-zip_with zero xs ys = refl
  take-zip_with (suc n) [] ys = refl
  take-zip_with (suc n) (x ∷ xs) [] = refl
  take-zip_with (suc n) (x ∷ xs) (y ∷ ys) = ap (λ (t : List C). f x y ∷ t) (take-zip_with n xs ys)

  pub drop-zip_with :
      (n : ℕ) (xs : List A) (ys : List B)
      → drop n (zip_with f xs ys) ≡ zip_with f (drop n xs) (drop n ys)
  drop-zip_with zero xs ys = refl
  drop-zip_with (suc n) [] ys = refl
  drop-zip_with (suc n) (x ∷ xs) [] = nil_right (drop n xs)
    where
      nil_right : (xs : List A) → ◌≡◌ {A = List C} [] (zip_with f xs [])
      nil_right [] = refl
      nil_right (x ∷ xs) = refl
  drop-zip_with (suc n) (x ∷ xs) (y ∷ ys) = drop-zip_with n xs ys
