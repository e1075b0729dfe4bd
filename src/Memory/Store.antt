-- ===== src/Memory/Store.antt =====
-- `crates/memory-core/src/store.rs`: a linear store of values, some of which are set. `BitStore` has
-- the same operations on bits.
pub mod Laws
pub mod Reach
use mpz.Prelude.{
  ℕ, ◌+◌, ◌≡◌, Bool, true, false, List, [], ◌∷◌, ◌++◌, length, replicate, ltb, if◌then◌else◌, Range,
  slice_at, copy_at, Outcome, ok, err, panic, ◌>>=◌,
}
use mpz.Memory.{Slice, to_range}
use mpz.Memory.RangeSets.{RangeSets}

pub data StoreError : Type 0 where
  invalid_slice uninit already_set : Slice → StoreError

pub record Store (S T : Type 0) : Type 0 where
  pub items : List T
  pub set : S

module _ {S : Type 0} (R : RangeSets S) {T : Type 0} where
  -- `Store::new`.
  abbrev pub new : Store S T
  new = record { items = []; set = R.empty }

  abbrev pub is_set : Store S T → Slice → Bool
  is_set store slice = R.is_subset (to_range slice) store.set

  unfoldable pub try_get : Store S T → Slice → Outcome StoreError (List T)
  try_get store slice =
      if is_set store slice
      then slice_at store.items (to_range slice).start (to_range slice).stop
      else err (uninit slice)

  -- `try_get_slice_mut`, and what the caller does with the slice, element by element or as a whole.
  unfoldable pub update_slice :
      Store S T → Slice → (List T → List T) → Outcome StoreError (Store S T)
  update_slice store slice change =
      if is_set store slice
      then (do
        old ← slice_at store.items (to_range slice).start (to_range slice).stop
        items ← copy_at store.items (to_range slice) (change old)
        ok (record store { items = items }))
      else err (uninit slice)

  -- `alloc`, where `default` is `T::default()`.
  unfoldable pub alloc : T → Store S T → ℕ → Slice × Store S T
  alloc default store len =
      let slice : Slice = record { ptr = length store.items; size = len } in
      (slice, record store { items = store.items ++ replicate len default })

  unfoldable pub alloc_with : Store S T → List T → Slice × Store S T
  alloc_with store data' =
      let slice : Slice = record { ptr = length store.items; size = length data' } in
      (slice, record { items = store.items ++ data'; set = R.union store.set (to_range slice) })

  unfoldable pub try_set : Store S T → Slice → List T → Outcome StoreError (Store S T)
  try_set store slice data' =
      if is_set store slice
      then err (already_set slice)
      else if ltb (length store.items) (to_range slice).stop
      then err (invalid_slice slice)
      else (do
        items ← copy_at store.items (to_range slice) data'
        ok (record { items = items; set = R.union store.set (to_range slice) }))
