-- ===== src/Memory/Store/Laws.antt =====
-- What `crates/memory-core/src/store.rs` keeps: only allocated positions are set, a read of set
-- positions returns what was written there, and other positions keep their values.
use mpz.Prelude.{
  ℕ, ◌+◌, ◌-◌, ◌≤◌, ◌<◌, ◌≡◌, refl, ◌∙◌, ap, true, false, ℕ-cases, ◌⊎◌, inl, inr, List, length,
  length-take, length-drop, take, drop, get_elem?, get_elem?-take, get_elem?-drop, ==_iff, le→leb,
  le→ltb, slice_at_in_range, copy_at, overwrite, length-overwrite, take-drop-overwrite,
  get_elem?-overwrite_outside, ok, err, Bool-cases, arith,
}
use mpz.Memory.{Slice, to_range}
use mpz.Memory.RangeSets.{RangeSets, IsRangeSets, union-is_subset}
use mpz.Memory.Store.{Store, StoreError, uninit, is_set, try_get, try_set}

module _ {S : Type 0} {R : RangeSets S} (L : IsRangeSets R) {T : Type 0} where
  -- Only allocated positions are set.
  abbrev pub IsStore : Store S T → Type 0
  IsStore store = (n : ℕ) → R.contains store.set n ≡ true → n < length store.items

  -- A set slice that is not empty lies in the store, an empty one if it starts there.
  set-le :
      (store : Store S T) (slice : Slice)
      → IsStore store
      → slice.ptr ≤ length store.items
      → is_set R store slice ≡ true
      → slice.ptr + slice.size ≤ length store.items
  set-le store slice w starts set = elim (ℕ-cases slice.size) [
    | inl empty ↦ omega arith
    | inr some_size ↦
        (let last = slice.ptr + slice.size - 1 in
          let member =
            (L.is_subset_iff (to_range slice) store.set).0 set last (omega arith) (omega arith) in
          omega (arith, w last member))
  ]

  slice_len :
      (xs : List T) (slice : Slice)
      → slice.ptr + slice.size ≤ length xs
      → length (take (slice.ptr + slice.size - slice.ptr) (drop slice.ptr xs)) ≡ slice.size
  slice_len xs slice h = omega (
    arith,
    length-take (slice.ptr + slice.size - slice.ptr) (drop slice.ptr xs),
    length-drop slice.ptr xs,
  )

  -- `try_get` never panics on a well-formed store at a slice that starts in it: it returns as many
  -- values as the slice has positions if they are all set, each the one that the store has there, and the
  -- error that names the slice if not.
  pub try_get-cases :
      (store : Store S T) (slice : Slice)
      → IsStore store
      → slice.ptr ≤ length store.items
      → ((values : List T) × (is_set R store slice ≡ true)
          × (try_get R store slice ≡ ok values)
          × (length values ≡ slice.size)
          × ((i : ℕ) → i < slice.size → get_elem? values i ≡ get_elem? store.items (slice.ptr + i)))
        ⊎ ((is_set R store slice ≡ false) × (try_get R store slice ≡ err (uninit slice)))
  unfolding try_get
  try_get-cases store slice w starts = elim (Bool-cases (is_set R store slice)) [
    | inl set ↦
        (let in_store = set-le store slice w starts set in
          inl (
            _,
            set,
            rw (set, try_get)
                (slice_at_in_range store.items slice.ptr (slice.ptr + slice.size) (omega arith)
                  in_store),
            slice_len store.items slice in_store,
            λ i h.
                get_elem?-take (slice.ptr + slice.size - slice.ptr) (drop slice.ptr store.items) i
                  (omega arith)
                ∙ get_elem?-drop slice.ptr store.items i,
          ))
    | inr unset ↦ inr (unset, rw (unset, try_get) refl)
  ]

  copy_at_in_range :
      {E : Type 0} (xs : List T) (slice : Slice) (ys : List T)
      → slice.ptr + slice.size ≤ length xs
      → length ys ≡ slice.size
      → copy_at {E = E} xs (to_range slice) ys ≡ ok (overwrite xs slice.ptr ys)
  copy_at_in_range xs slice ys h same =
      rw
        (
          le→leb slice.ptr (slice.ptr + slice.size) (omega arith),
          le→leb (slice.ptr + slice.size) (length xs) h,
          (==_iff (length ys) (slice.ptr + slice.size - slice.ptr)).1 (omega arith),
          copy_at,
        )
        refl

  -- `try_set` at a slice of the store that is not wholly set succeeds with values for all of its
  -- positions. Then the slice is set, `try_get` returns the values, and every position outside the
  -- slice has the value that it had, and is set if it was.
  pub try_get-try_set :
      (store : Store S T) (slice : Slice) (values : List T)
      → is_set R store slice ≡ false
      → slice.ptr + slice.size ≤ length store.items
      → length values ≡ slice.size
      → (store' : Store S T) × (try_set R store slice values ≡ ok store')
        × (try_get R store' slice ≡ ok values)
        × ((n : ℕ)
            → (n < slice.ptr) ⊎ (slice.ptr + slice.size ≤ n)
            → (get_elem? store'.items n ≡ get_elem? store.items n)
              × (R.contains store'.set n ≡ R.contains store.set n))
  unfolding try_set try_get
  try_get-try_set store slice values unset fits same =
      let items = overwrite store.items slice.ptr values in
      let set = R.union store.set (to_range slice) in
      let store' : Store S T = record { items = items; set = set } in
      let fits' : slice.ptr + slice.size ≤ length items =
        rw (length-overwrite store.items slice.ptr values) fits in
      let read_back : take (slice.ptr + slice.size - slice.ptr) (drop slice.ptr items) ≡ values =
        ap (λ (k : ℕ). take k (drop slice.ptr items)) (omega arith)
        ∙ take-drop-overwrite store.items slice.ptr values (omega arith) in
      (
        store',
        rw
            (
              unset,
              le→ltb (length store.items) (slice.ptr + slice.size) fits,
              copy_at_in_range {E = StoreError} store.items slice values fits same,
              try_set,
            )
            refl,
        rw (union-is_subset L store.set (to_range slice), try_get)
            (slice_at_in_range items slice.ptr (slice.ptr + slice.size) (omega arith) fits'
              ∙ ap ok read_back),
        λ n outside. (
          get_elem?-overwrite_outside store.items slice.ptr values n (still outside),
          L.contains-union store.set (to_range slice) n ∙ ground (arith, outside),
        ),
      )
    where
      still :
          {n : ℕ}
          → (n < slice.ptr) ⊎ (slice.ptr + slice.size ≤ n)
          → (n < slice.ptr) ⊎ (slice.ptr + length values ≤ n)
      still (inl before) = inl before
      still (inr after) = inr (omega arith)
