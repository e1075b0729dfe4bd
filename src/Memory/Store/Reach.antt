-- ===== src/Memory/Store/Reach.antt =====
-- The stores that the operations of `crates/memory-core/src/store.rs` can build.
use mpz.Prelude.{
  ℕ, ◌+◌, ◌≤◌, ◌≡◌, sym, ◌∙◌, true, false, inl, inr, List, length, length-append, replicate,
  copy_at-eq-ok, err, ap, ◌≢◌, ltb, slice_at, copy_at, Outcome, ok, ok-injective, bind_returns,
  Bool-cases, arith,
}
use mpz.Memory.{Slice, to_range}
use mpz.Memory.RangeSets.{RangeSets, IsRangeSets, added}
use mpz.Memory.Store.{Store, is_set, new, update_slice, alloc, alloc_with, try_set}
use mpz.Memory.Store.Laws.{IsStore}

refused : {E A : Type 0} {e : E} {a : A} → ◌≡◌ {A = Outcome E A} (err e) (ok a) → ⊥
refused h = cc h

false≢true : false ≢ true
false≢true h = ground arith

-- A store that a sequence of operations builds, each of which succeeds.
pub data Reached {S : Type 0} (R : RangeSets S) {T : Type 0} : Store S T → Type 0 where
  created : Reached R (new R)
  allocated :
      (default : T) (store : Store S T) (len : ℕ)
      → Reached R store
      → Reached R (alloc R default store len).1
  allocated_with :
      (store : Store S T) (values : List T)
      → Reached R store
      → Reached R (alloc_with R store values).1
  written :
      (store store' : Store S T) (slice : Slice) (values : List T)
      → Reached R store
      → try_set R store slice values ≡ ok store'
      → Reached R store'
  updated :
      (store store' : Store S T) (slice : Slice) (change : List T → List T)
      → Reached R store
      → update_slice R store slice change ≡ ok store'
      → Reached R store'

module _ {S : Type 0} {R : RangeSets S} (L : IsRangeSets R) {T : Type 0} where
  -- What a write and an update that succeed have done to the set and the length.
  try_set-eq-ok :
      (store store' : Store S T) (slice : Slice) (values : List T)
      → try_set R store slice values ≡ ok store'
      → (slice.ptr + slice.size ≤ length store.items)
        × (length store'.items ≡ length store.items)
        × (store'.set ≡ R.union store.set (to_range slice))
  unfolding try_set
  try_set-eq-ok store store' slice values e = elim (Bool-cases (is_set R store slice)) [
    | inl set ↦ absurd (refused (rw (set, try_set) at e))
    | inr unset ↦ elim (Bool-cases (ltb (length store.items) (slice.ptr + slice.size))) [
      | inl outside ↦ absurd (refused (rw (unset, outside, try_set) at e))
      | inr inside ↦
          (let (items, copied, same) =
              bind_returns (copy_at store.items (to_range slice) values) _
                (rw (unset, inside, try_set) at e) in
            let (fits, kept) = copy_at-eq-ok store.items (to_range slice) values copied in
            let result = ok-injective same in
            (
              fits,
              ap (λ (t : Store S T). length t.items) (sym result) ∙ kept,
              ap (λ (t : Store S T). t.set) (sym result),
            ))
    ]
  ]

  update_slice-eq-ok :
      (store store' : Store S T) (slice : Slice) (change : List T → List T)
      → update_slice R store slice change ≡ ok store'
      → (length store'.items ≡ length store.items) × (store'.set ≡ store.set)
  unfolding update_slice
  update_slice-eq-ok store store' slice change e = elim (Bool-cases (is_set R store slice)) [
    | inr unset ↦ absurd (refused (rw (unset, update_slice) at e))
    | inl set ↦
        (let (old, read, rest) =
            bind_returns (slice_at store.items slice.ptr (slice.ptr + slice.size)) _
              (rw (set, update_slice) at e) in
          let (items, copied, same) =
            bind_returns (copy_at store.items (to_range slice) (change old)) _ rest in
          let (fits, kept) = copy_at-eq-ok store.items (to_range slice) (change old) copied in
          let result = ok-injective same in
          (
            ap (λ (t : Store S T). length t.items) (sym result) ∙ kept,
            ap (λ (t : Store S T). t.set) (sym result),
          ))
  ]

  -- Every store that operations build has only allocated positions set.
  pub Reached-IsStore : (store : Store S T) → Reached R store → IsStore L store
  unfolding alloc alloc_with try_set update_slice
  Reached-IsStore _ created n member = absurd (false≢true (sym (L.contains-empty n) ∙ member))
  Reached-IsStore _ (allocated default store len r) n member =
      omega
        (arith, Reached-IsStore store r n member, length-append store.items (replicate len default))
  Reached-IsStore _ (allocated_with store values r) n member =
      elim (added L store.set _ n (L.contains-union store.set _ n) member) [
        | inl old ↦ omega (arith, Reached-IsStore store r n old, length-append store.items values)
        | inr (low, high) ↦ omega (arith, length-append store.items values)
      ]
  Reached-IsStore _ (written store store' slice values r e) n member =
      let (fits, kept, set) = try_set-eq-ok store store' slice values e in
      elim (added L store.set _ n
        (ap (λ (t : S). R.contains t n) set ∙ L.contains-union store.set _ n) member) [
          | inl old ↦ omega (arith, Reached-IsStore store r n old)
          | inr (low, high) ↦ omega arith
        ]
  Reached-IsStore _ (updated store store' slice change r e) n member =
      let (kept, set) = update_slice-eq-ok store store' slice change e in
      omega (arith, Reached-IsStore store r n (ap (λ (t : S). R.contains t n) (sym set) ∙ member))
