-- ===== src/Memory/Correlated/Keys.antt =====
-- `crates/memory-core/src/correlated/keys.rs`: the store of keys, each of which is used once.
use mpz.Prelude.{
  ℕ, ◌≡◌, refl, sym, ap, Bool, true, not, List, length, ◌==◌, ==_iff, map, zip_with, Outcome, ok,
  err, panic, ok-injective, bind_returns, assert, ensure, ◌>>◌, ◌>>=◌,
}
use mpz.Block.{Block, zero_block}
use mpz.Memory.{Slice, to_range}
use mpz.Memory.RangeSets.{RangeSets}
use mpz.Memory.Store as Store
use mpz.Memory.Store.{StoreError}
use mpz.Memory.Correlated.{auth, adjust_key, public_key}

pub data KeyStoreError : Type 0 where
  invalid_slice uninit already_set already_assigned : Slice → KeyStoreError
  verify : KeyStoreError

-- `KeyStoreError::from`, and `map_err(From::from)`.
abbrev from_store_error : StoreError → KeyStoreError
from_store_error (Store.invalid_slice slice) = KeyStoreError.invalid_slice slice
from_store_error (Store.uninit slice) = KeyStoreError.uninit slice
from_store_error (Store.already_set slice) = KeyStoreError.already_set slice

abbrev pub keys_error : {A : Type 0} → Outcome StoreError A → Outcome KeyStoreError A
keys_error (ok a) = ok a
keys_error (err e) = err (from_store_error e)
keys_error panic = panic

-- `expect`: an error is a panic.
abbrev expect_keys : {A : Type 0} → Outcome StoreError A → Outcome KeyStoreError A
expect_keys (ok a) = ok a
expect_keys (err e) = panic
expect_keys panic = panic

pub record KeyStore (S : Type 0) : Type 0 where
  pub keys : Store.Store S Block
  pub delta : Block
  pub used : S

module _ {S : Type 0} (R : RangeSets S) where
  -- `KeyStore::new`; the field `public_one` is `public_one delta` ever after.
  abbrev pub new : Block → KeyStore S
  new delta = record { keys = Store.new R; delta = delta; used = R.empty }

  -- `alloc` and `alloc_with`; a key is zero by default.
  abbrev pub alloc : KeyStore S → ℕ → Slice × KeyStore S
  alloc store len =
      let (slice, keys) = Store.alloc R zero_block store.keys len in
      (slice, record store { keys = keys })

  abbrev pub alloc_with : KeyStore S → List Block → Slice × KeyStore S
  alloc_with store blocks =
      let (slice, keys) = Store.alloc_with R store.keys blocks in
      (slice, record store { keys = keys })

  abbrev pub is_used : KeyStore S → Slice → Bool
  is_used store slice = not (R.is_disjoint (to_range slice) store.used)

  abbrev pub try_set : KeyStore S → Slice → List Block → Outcome KeyStoreError (KeyStore S)
  try_set store slice keys = do
    stored ← keys_error (Store.try_set R store.keys slice keys)
    ok (record store { keys = stored })

  abbrev pub try_set_public : KeyStore S → Slice → List Bool → Outcome KeyStoreError (KeyStore S)
  try_set_public store slice data' = try_set store slice (map (public_key store.delta) data')

  unfoldable pub authenticate :
      KeyStore S → Slice → List Bool → Outcome KeyStoreError (List Block × KeyStore S)
  authenticate store slice data' = do
    assert (slice.size == length data')
    ensure (not (is_used store slice)) (already_assigned slice)
    ensure (Store.is_set R store.keys slice) (uninit slice)
    keys ← expect_keys (Store.try_get R store.keys slice)
    ok (
      zip_with (λ bit key. auth key bit store.delta) data' keys,
      record store { used = R.union store.used (to_range slice) },
    )

  unfoldable pub oblivious_transfer :
      KeyStore S → Slice → Outcome KeyStoreError (List Block × KeyStore S)
  oblivious_transfer store slice = do
    ensure (not (is_used store slice)) (already_assigned slice)
    ensure (Store.is_set R store.keys slice) (uninit slice)
    keys ← expect_keys (Store.try_get R store.keys slice)
    ok (keys, record store { used = R.union store.used (to_range slice) })

  unfoldable pub adjust : KeyStore S → Slice → List Bool → Outcome KeyStoreError (KeyStore S)
  adjust store slice flips = do
    assert (slice.size == length flips)
    keys ← keys_error (
        Store.update_slice R store.keys slice
          (λ keys. zip_with (λ key flip. adjust_key key flip store.delta) keys flips))
    ok (record store { keys = keys })

-- The ways to use a slice of keys: `authenticate` some bits, or `oblivious_transfer`.
pub data Use : Type 0 where
  bits : List Bool → Use
  transfer : Use

module _ {S : Type 0} (R : RangeSets S) where
  abbrev pub use_keys : Use → KeyStore S → Slice → Outcome KeyStoreError (List Block × KeyStore S)
  use_keys (bits data') store slice = authenticate R store slice data'
  use_keys transfer store slice = oblivious_transfer R store slice

  -- A use that succeeds marks the slice.
  pub use_keys-used :
      (u : Use) (store store' : KeyStore S) (slice : Slice) (blocks : List Block)
      → use_keys u store slice ≡ ok (blocks, store')
      → store'.used ≡ R.union store.used (to_range slice)
  unfolding authenticate oblivious_transfer
  use_keys-used (bits data') store store' slice blocks e =
      let (_, _, e) = bind_returns (assert (slice.size == length data')) _ e in
      let (_, _, e) =
        bind_returns (ensure (not (is_used R store slice)) (already_assigned slice)) _ e in
      let (_, _, e) = bind_returns (ensure (Store.is_set R store.keys slice) (uninit slice)) _ e in
      let (_, _, e) = bind_returns (expect_keys (Store.try_get R store.keys slice)) _ e in
      ap (λ (r : List Block × KeyStore S). r.1.used) (sym (ok-injective e))
  use_keys-used transfer store store' slice blocks e =
      let (_, _, e) =
        bind_returns (ensure (not (is_used R store slice)) (already_assigned slice)) _ e in
      let (_, _, e) = bind_returns (ensure (Store.is_set R store.keys slice) (uninit slice)) _ e in
      let (_, _, e) = bind_returns (expect_keys (Store.try_get R store.keys slice)) _ e in
      ap (λ (r : List Block × KeyStore S). r.1.used) (sym (ok-injective e))

  -- The bits are as many as the slice has positions, which `authenticate` asserts.
  abbrev pub Fits : Use → Slice → Type 0
  Fits (bits data') slice = slice.size ≡ length data'
  Fits transfer slice = Unit {0}

  pub use_keys-refused :
      (u : Use) (store : KeyStore S) (slice : Slice)
      → Fits u slice
      → is_used R store slice ≡ true
      → use_keys u store slice ≡ err (already_assigned slice)
  unfolding authenticate oblivious_transfer
  use_keys-refused (bits data') store slice fits used =
      rw ((==_iff slice.size (length data')).1 fits, used, authenticate) refl
  use_keys-refused transfer store slice fits used = rw (used, oblivious_transfer) refl
