-- ===== src/Memory/Vector/Arrays.antt =====
-- The parts of an `Array` of `crates/memory-core/src/lib.rs` are those of its vector.
use mpz.Prelude.{
  ℕ, ◌+◌, ◌-◌, ◌*◌, ◌/◌, ◌≤◌, ◌<◌, ◌≡◌, refl, ◌∙◌, ap, suc, ◌⊎◌, inl, inr, Bool-cases, ltb→lt, true,
  false, none, some, lt→ltb, le→ltb, lt→leb, arith, leb, ltb,
}
use native.Mathlib.Nat.{mul-le-mul_right, mul-div_cancel_left}
use mpz.Memory.{from_range}
use mpz.Memory.Vector.Bounds.{get_in_range}
use mpz.Memory.Vector.{get, Array, array_get, vector_from}

-- The array of `n` items of one size, from a position on.
abbrev pub array : ℕ → ℕ → ℕ → Array
array ptr size n = record { slice = record { ptr = ptr; size = n * size } }

module _ (ptr size n m start : ℕ) (n_pos : 0 < n) (m_pos : 0 < m) (size_pos : 0 < size) where
  size_div : (ptr + n * size - ptr) / n ≡ size
  size_div = ap (λ (total : ℕ). total / n) (omega arith) ∙ mul-div_cancel_left size n_pos

  not_empty : leb (ptr + (start + m) * size) (ptr + start * size) ≡ false
  not_empty = lt→leb _ _ (omega (arith, mul-le-mul_right {m = 1} size m_pos))

  array_get_inside :
      start + m ≤ n
      → array_get n m (array ptr size n) start ≡ some (array (ptr + start * size) size m)
  unfolding array_get
  array_get_inside h =
      rw (array_get, size_div, not_empty, not_behind)
        (ap
            (λ (t : ℕ). some (record {
              slice = from_range (record { start = ptr + start * t; stop = ptr + (start + m) * t });
            }))
            size_div
          ∙ ap
              (λ (total : ℕ).
                some (record { slice = record { ptr = ptr + start * size; size = total } }))
              (omega arith))
    where
      not_behind : ltb (ptr + n * size) (ptr + (start + m) * size) ≡ false
      not_behind = le→ltb _ _ (omega (arith, mul-le-mul_right size h))

  array_get_outside : n < start + m → array_get n m (array ptr size n) start ≡ none
  unfolding array_get
  array_get_outside h = rw (array_get, size_div, not_empty, behind) refl
    where
      behind : ltb (ptr + n * size) (ptr + (start + m) * size) ≡ true
      behind = lt→ltb _ _ (omega (arith, mul-le-mul_right {m = suc n} {n = start + m} size h))

  get_inside :
      start + m ≤ n
      → get (vector_from n (array ptr size n)) (record { start = start; stop = start + m })
        ≡ some (vector_from m (array (ptr + start * size) size m))
  get_inside h =
      get_in_range (vector_from n (array ptr size n)) (record { start = start; stop = start + m }) h
      ∙ rw (mul-div_cancel_left size n_pos, mul-div_cancel_left size m_pos)
          (ap (λ (len : ℕ). some (record { ptr = ptr + start * size; item_size = size; len = len }))
            (omega arith))

  -- For an array of `n` items of a size from 1 on, and `m` from 1 on: if `m` items from the start are in the
  -- array, `array_get` returns the array whose vector `get` returns from the array's vector; if not,
  -- both return nothing.
  pub array_get-get :
      ((items : Array) × (start + m ≤ n)
        × (array_get n m (array ptr size n) start ≡ some items)
        × (get (vector_from n (array ptr size n)) (record { start = start; stop = start + m })
            ≡ some (vector_from m items)))
      ⊎ ((n < start + m)
          × (array_get n m (array ptr size n) start ≡ none)
          × (get (vector_from n (array ptr size n)) (record { start = start; stop = start + m })
              ≡ none))
  unfolding get
  array_get-get = elim (Bool-cases (ltb n (start + m))) [
    | inl outside ↦
        (let h = ltb→lt n (start + m) outside in
          inr (h, array_get_outside h, rw (get, outside) refl))
    | inr inside ↦
        (let h : start + m ≤ n = ground arith in
          inl (array (ptr + start * size) size m, h, array_get_inside h, get_inside h))
  ]
