-- ===== src/Memory/Vector/Bounds.antt =====
-- Where the parts of a `Vector` of `crates/memory-core/src/lib.rs` lie.
use mpz.Prelude.{
  ℕ, ◌+◌, ◌-◌, ◌*◌, ◌≤◌, ◌<◌, ◌≡◌, refl, ◌∙◌, ap, ap₂, ◌⊎◌, inl, inr, Bool-cases, Range, range_len,
  none, some, ok, panic, arith, leb, ltb,
}
use native.Mathlib.Nat.{mul-le-mul_left}
use mpz.Memory.{to_range}
use mpz.Memory.Vector.{Vector, get, split_off, truncate, to_raw}

-- The vector of `len` items from the item `at` on.
abbrev part : Vector → ℕ → ℕ → Vector
part v at len = record v { ptr = v.ptr + at * v.item_size; len = len }

-- The memory of a vector.
abbrev pub memory : Vector → Range
memory v = to_range (to_raw v)

part_stop :
    (v : Vector) (at len : ℕ) → (memory (part v at len)).stop ≡ v.ptr + v.item_size * (at + len)
part_stop v at len = omega arith

part_end :
    (v : Vector) (start stop : ℕ)
    → start ≤ stop
    → (memory (part v start (stop - start))).stop ≡ v.ptr + stop * v.item_size
part_end v start stop ordered =
    let e : start + (stop - start) ≡ stop = omega arith in
    part_stop v start (stop - start) ∙ ap (λ (n : ℕ). v.ptr + v.item_size * n) e ∙ omega arith

part_first : (v : Vector) (len : ℕ) → part v 0 (len - 0) ≡ record v { len = len }
part_first v len =
    ap₂ (λ (ptr len : ℕ). record v { ptr = ptr; len = len }) (omega arith) (omega arith)

part-le :
    (v : Vector) (at len : ℕ) → at + len ≤ v.len → (memory (part v at len)).stop ≤ (memory v).stop
part-le v at len h = omega (arith, part_stop v at len, mul-le-mul_left v.item_size h)

pub get_in_range :
    (v : Vector) (range : Range)
    → range.stop ≤ v.len
    → get v range ≡ some (part v range.start (range_len range))
unfolding get
get_in_range v range h = ground arith

-- For an ordered range `get` returns, if the range ends in the vector, the vector of that many items of the
-- same size, whose memory starts and stops at the items of the range, within the memory of the vector. If
-- the range ends behind the vector it returns nothing.
pub get-cases :
    (v : Vector) (range : Range)
    → range.start ≤ range.stop
    → ((w : Vector) × (get v range ≡ some w)
        × (range.stop ≤ v.len)
        × (w.item_size ≡ v.item_size)
        × (w.len ≡ range.stop - range.start)
        × ((memory w).start ≡ (memory v).start + range.start * v.item_size)
        × ((memory w).stop ≡ (memory v).start + range.stop * v.item_size)
        × ((memory w).stop ≤ (memory v).stop))
      ⊎ ((v.len < range.stop) × (get v range ≡ none))
unfolding get
get-cases v range ordered = elim (Bool-cases (ltb v.len range.stop)) [
  | inl behind ↦ inr (ground arith, rw (get, behind) refl)
  | inr inside ↦
      (let len_fits : range.start + range_len range ≤ v.len = ground arith in
        inl (
          part v range.start (range_len range),
          rw (get, inside) refl,
          ground arith,
          refl,
          refl,
          refl,
          part_end v range.start range.stop ordered,
          part-le v range.start (range_len range) len_fits,
        ))
]

truncate_in_range : (v : Vector) (at : ℕ) → at ≤ v.len → truncate v at ≡ record v { len = at }
unfolding truncate
truncate_in_range v at h = elim (Bool-cases (ltb at v.len)) [
  | inl shorter ↦ rw (shorter) refl
  | inr equal ↦
      (let same : v.len ≡ at = ground arith in
        rw (equal) (ap (λ (len : ℕ). record v { len = len }) same))
]

-- Where the index is in the vector `split_off` returns what `get` returns from the index on, and
-- leaves what `truncate` leaves, which is what `get` returns up to the index; the two parts lie one
-- after the other and end where the vector ended. Where the index is behind the vector it panics.
pub split_off-cases :
    {E : Type 0} (v : Vector) (at : ℕ)
    → ((rest : Vector) × (at ≤ v.len)
        × (split_off {E = E} v at ≡ ok (rest, truncate v at))
        × (get v (record { start = at; stop = v.len }) ≡ some rest)
        × (get v (record { start = 0; stop = at }) ≡ some (truncate v at))
        × ((memory (truncate v at)).stop ≡ (memory rest).start)
        × ((memory rest).stop ≡ (memory v).stop))
      ⊎ ((v.len < at) × (split_off {E = E} v at ≡ panic))
unfolding split_off
split_off-cases {E} v at = elim (Bool-cases (leb at v.len)) [
  | inl inside ↦
      (let in_vector : at ≤ v.len = ground arith in
        let kept = truncate_in_range v at in_vector in
        inl (
          part v at (v.len - at),
          in_vector,
          rw (split_off, inside, kept) refl,
          get_in_range v (record { start = at; stop = v.len }) (omega arith),
          rw (kept) (
              get_in_range v (record { start = 0; stop = at }) in_vector
              ∙ ap some (part_first v at)),
          rw (kept) (omega arith),
          grind arith,
        ))
  | inr behind ↦ inr (ground arith, rw (split_off, behind) refl)
]
