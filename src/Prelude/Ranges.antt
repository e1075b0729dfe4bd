-- ===== src/Prelude/Ranges.antt =====
-- `std::ops::Range<usize>`, and a slice of a list overwritten.
use Prim.Native.Nat.{ℕ, zero, suc, ◌+◌, ◌-◌, ◌≤◌, ◌<◌}
use mathlib.Core.Path.{◌≡◌, refl, ap, sym, ◌∙◌}
use mathlib.Core.Logic.{◌⊎◌, inl, inr}
use mathlib.Core.Bool.{Bool, true, false, ◌&&◌}
use mathlib.Core.List.{List, [], ◌∷◌}
use native.Mathlib.Omega.{arith}
use mpz.Prelude.Tests.{ltb, leb, ◌==◌, Bool-cases}
use mpz.Prelude.Lists.{length, get_elem?, take, drop}
use mpz.Prelude.Results.{Outcome, ok, panic, ok-injective}

pub record Range : Type 0 where
  pub start : ℕ
  pub stop : ℕ

abbrev pub range_len : Range → ℕ
range_len r = r.stop - r.start

-- A position of a range.
abbrev pub in_range : Range → ℕ → Bool
in_range r n = leb r.start n && ltb n r.stop

module _ {A : Type 0} where
  -- The elements from `start` on replaced by `ys`.
  abbrev pub overwrite : List A → ℕ → List A → List A
  overwrite [] n ys = []
  overwrite (x ∷ xs) zero [] = x ∷ xs
  overwrite (x ∷ xs) zero (y ∷ ys) = y ∷ overwrite xs zero ys
  overwrite (x ∷ xs) (suc n) ys = x ∷ overwrite xs n ys

  pub length-overwrite :
      (xs : List A) (n : ℕ) (ys : List A) → length (overwrite xs n ys) ≡ length xs
  length-overwrite [] n ys = refl
  length-overwrite (x ∷ xs) zero [] = refl
  length-overwrite (x ∷ xs) zero (y ∷ ys) = ap suc (length-overwrite xs zero ys)
  length-overwrite (x ∷ xs) (suc n) ys = ap suc (length-overwrite xs n ys)

  pub take-drop-overwrite :
      (xs : List A) (n : ℕ) (ys : List A)
      → n + length ys ≤ length xs
      → take (length ys) (drop n (overwrite xs n ys)) ≡ ys
  take-drop-overwrite [] zero [] h = refl
  take-drop-overwrite [] zero (y ∷ ys) h = absurd (omega arith)
  take-drop-overwrite [] (suc n) ys h = absurd (omega arith)
  take-drop-overwrite (x ∷ xs) zero [] h = refl
  take-drop-overwrite (x ∷ xs) zero (y ∷ ys) h =
      ap (λ (t : List A). y ∷ t) (take-drop-overwrite xs zero ys (omega arith))
  take-drop-overwrite (x ∷ xs) (suc n) ys h = take-drop-overwrite xs n ys (omega arith)

  pub get_elem?-overwrite_outside :
      (xs : List A) (n : ℕ) (ys : List A) (i : ℕ)
      → (i < n) ⊎ (n + length ys ≤ i)
      → get_elem? (overwrite xs n ys) i ≡ get_elem? xs i
  get_elem?-overwrite_outside [] n ys i h = refl
  get_elem?-overwrite_outside (x ∷ xs) zero [] i h = refl
  get_elem?-overwrite_outside (x ∷ xs) zero (y ∷ ys) zero (inl h) = absurd (omega arith)
  get_elem?-overwrite_outside (x ∷ xs) zero (y ∷ ys) zero (inr h) = absurd (omega arith)
  get_elem?-overwrite_outside (x ∷ xs) zero (y ∷ ys) (suc i) (inl h) = absurd (omega arith)
  get_elem?-overwrite_outside (x ∷ xs) zero (y ∷ ys) (suc i) (inr h) =
      get_elem?-overwrite_outside xs zero ys i (inr (omega arith))
  get_elem?-overwrite_outside (x ∷ xs) (suc n) ys zero h = refl
  get_elem?-overwrite_outside (x ∷ xs) (suc n) ys (suc i) (inl h) =
      get_elem?-overwrite_outside xs n ys i (inl (omega arith))
  get_elem?-overwrite_outside (x ∷ xs) (suc n) ys (suc i) (inr h) =
      get_elem?-overwrite_outside xs n ys i (inr (omega arith))

  -- `v[start..stop].copy_from_slice(data)`.
  abbrev pub copy_at : {E : Type 0} → List A → Range → List A → Outcome E (List A)
  copy_at xs r ys =
      elim (leb r.start r.stop && leb r.stop (length xs) && length ys == range_len r) [
        | true ↦ ok (overwrite xs r.start ys)
        | false ↦ panic
      ]

  pub copy_at_fits :
      {E : Type 0} (xs : List A) (r : Range) (ys : List A)
      → r.start ≤ r.stop
      → r.stop ≤ length xs
      → length ys ≡ range_len r
      → copy_at {E = E} xs r ys ≡ ok (overwrite xs r.start ys)
  copy_at_fits {E} xs r ys ordered fits same =
      let pass : (leb r.start r.stop && leb r.stop (length xs) && length ys == range_len r) ≡ true =
        ground arith in
      rw (pass, copy_at)

  -- What a write of a whole range has checked and written.
  pub copy_at-eq-ok :
      {E : Type 0} (xs : List A) (r : Range) (ys : List A) {zs : List A}
      → copy_at {E = E} xs r ys ≡ ok zs
      → (r.stop ≤ length xs) × (length zs ≡ length xs)
  copy_at-eq-ok {E} xs r ys {zs} h =
      elim (Bool-cases (leb r.start r.stop && leb r.stop (length xs) && length ys == range_len r)) [
        | inl pass ↦ (
          ground (arith, pass),
          ap (λ (l : List A). length l) (sym (ok-injective (rw (pass, copy_at) at h)))
              ∙ length-overwrite xs r.start ys,
        )
        | inr fail ↦ absurd (panicked (rw (fail, copy_at) at h))
      ]
    where
      panicked : {zs : List A} → ◌≡◌ {A = Outcome E (List A)} panic (ok zs) → ⊥
      panicked e = cc e

  pub copy_at-outside :
      {E : Type 0} (xs : List A) (r : Range) (ys : List A) {zs : List A}
      → copy_at {E = E} xs r ys ≡ ok zs
      → (i : ℕ) → (i < r.start) ⊎ (r.stop ≤ i)
      → get_elem? zs i ≡ get_elem? xs i
  copy_at-outside {E} xs r ys {zs} h i outside =
      elim (Bool-cases (leb r.start r.stop && leb r.stop (length xs) && length ys == range_len r)) [
        | inl pass ↦
            (ap (λ (l : List A). get_elem? l i) (sym (ok-injective (rw (pass, copy_at) at h)))
              ∙ get_elem?-overwrite_outside xs r.start ys i (past (ground (arith, pass)) outside))
        | inr fail ↦ absurd (panicked (rw (fail, copy_at) at h))
      ]
    where
      past :
          r.start + length ys ≡ r.stop
          → (i < r.start) ⊎ (r.stop ≤ i)
          → (i < r.start) ⊎ (r.start + length ys ≤ i)
      past e (inl before) = inl before
      past e (inr after) = inr (omega arith)

      panicked : {zs : List A} → ◌≡◌ {A = Outcome E (List A)} panic (ok zs) → ⊥
      panicked e = cc e
