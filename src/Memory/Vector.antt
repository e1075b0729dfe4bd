-- ===== src/Memory/Vector.antt =====
-- `Vector` and `Array` of `crates/memory-core/src/lib.rs`: values of one size, one after another in linear
-- memory.
pub mod Bounds
pub mod Arrays
use mpz.Prelude.{
  ℕ, ◌+◌, ◌-◌, ◌*◌, ◌/◌, Range, range_len, true, false, Option, none, some, Outcome, ok, panic, ltb,
  leb, ◌||◌, if◌then◌else◌,
}
use mpz.Memory.{Slice, to_range, from_range}

-- `ptr` is the position that the pointer holds.
pub record Vector : Type 0 where
  pub ptr : ℕ
  pub item_size : ℕ
  pub len : ℕ

abbrev pub to_raw : Vector → Slice
to_raw v = record { ptr = v.ptr; size = v.item_size * v.len }

unfoldable pub get : Vector → Range → Option Vector
get v range = elim (ltb v.len range.stop) [
  | true ↦ none
  | false ↦ some (record v { ptr = v.ptr + range.start * v.item_size; len = range_len range })
]

-- The vector from `at` on, and what the vector becomes.
unfoldable pub split_off : {E : Type 0} → Vector → ℕ → Outcome E (Vector × Vector)
split_off v at = elim (leb at v.len) [
  | true ↦ ok (record v { ptr = v.ptr + at * v.item_size; len = v.len - at }, record v { len = at })
  | false ↦ panic
]

unfoldable pub truncate : Vector → ℕ → Vector
truncate v len = if ltb len v.len then record v { len = len } else v

-- `Array<T, N>`, of which `N` is an argument of the operations.
pub record Array : Type 0 where
  pub slice : Slice

-- `Array::get` from an array of `n` items to one of `m`.
unfoldable pub array_get : ℕ → ℕ → Array → ℕ → Option Array
array_get n m array start =
    let range = to_range array.slice in
    let t_size = range_len range / n in
    let new_start = range.start + start * t_size in
    let new_stop = range.start + (start + m) * t_size in
    elim (leb new_stop new_start || ltb range.stop new_stop) [
      | true ↦ none
      | false ↦ some (record { slice = from_range (record { start = new_start; stop = new_stop }) })
    ]

-- `Vector::from` an array of `n` items.
abbrev pub vector_from : ℕ → Array → Vector
vector_from n array = record { ptr = array.slice.ptr; item_size = array.slice.size / n; len = n }
