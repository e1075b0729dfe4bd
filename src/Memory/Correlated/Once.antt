-- ===== src/Memory/Correlated/Once.antt =====
-- Keys of `crates/memory-core/src/correlated/keys.rs` are used once, whatever is done to the store in between.
use mpz.Prelude.{
  ℕ, ◌+◌, ◌≤◌, ◌<◌, ◌≡◌, sym, ap, ◌∙◌, Bool, true, not, List, ok, err, ok-injective, bind_returns,
  assert, length, ◌==◌,
}
use mpz.Block.{Block}
use mpz.Memory.{Slice, to_range}
use mpz.Memory.RangeSets.{
  RangeSets, IsRangeSets, member-is_disjoint, union-contains_added, union-contains_kept,
}
use mpz.Memory.Store as Store
use mpz.Memory.Correlated.Keys.{
  KeyStore, already_assigned, keys_error, alloc, alloc_with, try_set, try_set_public, adjust, Use,
  use_keys, Fits, use_keys-used, use_keys-refused,
}

-- The stores that a sequence of operations makes of a first one, each of which succeeds.
pub data Later {S : Type 0} (R : RangeSets S) (first : KeyStore S) : KeyStore S → Type 0 where
  unchanged : Later R first first
  allocated :
      (store : KeyStore S) (len : ℕ) → Later R first store → Later R first (alloc R store len).1
  allocated_with :
      (store : KeyStore S) (blocks : List Block)
      → Later R first store
      → Later R first (alloc_with R store blocks).1
  written :
      (store store' : KeyStore S) (slice : Slice) (keys : List Block)
      → Later R first store
      → try_set R store slice keys ≡ ok store'
      → Later R first store'
  written_public :
      (store store' : KeyStore S) (slice : Slice) (data' : List Bool)
      → Later R first store
      → try_set_public R store slice data' ≡ ok store'
      → Later R first store'
  adjusted :
      (store store' : KeyStore S) (slice : Slice) (flips : List Bool)
      → Later R first store
      → adjust R store slice flips ≡ ok store'
      → Later R first store'
  used_keys :
      (u : Use) (store store' : KeyStore S) (slice : Slice) (blocks : List Block)
      → Later R first store
      → use_keys R u store slice ≡ ok (blocks, store')
      → Later R first store'

module _ {S : Type 0} {R : RangeSets S} (L : IsRangeSets R) where
  try_set-used :
      (store store' : KeyStore S) (slice : Slice) (keys : List Block)
      → try_set R store slice keys ≡ ok store'
      → store'.used ≡ store.used
  try_set-used store store' slice keys e =
      let (_, _, e) = bind_returns (keys_error (Store.try_set R store.keys slice keys)) _ e in
      ap (λ (s : KeyStore S). s.used) (sym (ok-injective e))

  adjust-used :
      (store store' : KeyStore S) (slice : Slice) (flips : List Bool)
      → adjust R store slice flips ≡ ok store'
      → store'.used ≡ store.used
  unfolding adjust
  adjust-used store store' slice flips e =
      let (_, _, e) = bind_returns (assert (slice.size == length flips)) _ e in
      let (_, _, e) = bind_returns (keys_error (Store.update_slice R store.keys slice _)) _ e in
      ap (λ (s : KeyStore S). s.used) (sym (ok-injective e))

  -- A position that is used stays used.
  Later-used :
      {first last : KeyStore S} (n : ℕ)
      → Later R first last
      → R.contains first.used n ≡ true
      → R.contains last.used n ≡ true
  Later-used n unchanged h = h
  Later-used n (allocated store len l) h = Later-used n l h
  Later-used n (allocated_with store blocks l) h = Later-used n l h
  Later-used n (written store store' slice keys l e) h =
      ap (λ (s : S). R.contains s n) (try_set-used store store' slice keys e) ∙ Later-used n l h
  Later-used n (written_public store store' slice data' l e) h =
      ap (λ (s : S). R.contains s n) (try_set-used store store' slice _ e) ∙ Later-used n l h
  Later-used n (adjusted store store' slice flips l e) h =
      ap (λ (s : S). R.contains s n) (adjust-used store store' slice flips e) ∙ Later-used n l h
  Later-used n (used_keys u store store' slice blocks l e) h =
      ap (λ (s : S). R.contains s n) (use_keys-used R u store store' slice blocks e)
      ∙ union-contains_kept L store.used (to_range slice) n (Later-used n l h)

  -- Keys are used once: after `authenticate` or `oblivious_transfer` has succeeded on a slice, and any operations
  -- on the store after it, either of them on a slice that shares a position with it, for `authenticate` with as
  -- many bits as that slice has positions, is refused as already assigned.
  pub use_keys_once :
      (u later : Use) (store store' last : KeyStore S) (slice next : Slice) (blocks : List Block)
      (n : ℕ)
      → use_keys R u store slice ≡ ok (blocks, store')
      → Later R store' last
      → Fits R later next
      → slice.ptr ≤ n
      → n < slice.ptr + slice.size
      → next.ptr ≤ n
      → n < next.ptr + next.size
      → use_keys R later last next ≡ err (already_assigned next)
  use_keys_once u later store store' last slice next blocks n e l fits low high low_next high_next =
      let marked =
        ap (λ (s : S). R.contains s n) (use_keys-used R u store store' slice blocks e)
        ∙ union-contains_added L store.used (to_range slice) n low high in
      use_keys-refused R later last next fits (
        ap not (
          member-is_disjoint L last.used (to_range next) n (Later-used n l marked) low_next
            high_next))
