-- ===== src/Memory/Correlated/Macs.antt =====
-- `crates/memory-core/src/correlated/macs.rs`: the store of MACs; its proofs, and their verification by
-- the store of keys. The hash is a parameter, a function of the blocks that the hasher is fed.
use mpz.Prelude.{
  ℕ, ◌+◌, Bool, xor, List, [], ◌∷◌, ◌++◌, length, map, zip_with, ◌==◌, Range, range_len, slice_at,
  Outcome, ok, err, panic, assert, ensure, ◌>>=◌, ◌>>◌, if◌then◌else◌,
}
use mpz.Block.{Block}
use mpz.Memory.{Slice, from_range}
use mpz.Memory.RangeSets.{RangeSets}
use mpz.Memory.Store as Store
use mpz.Memory.Store.{StoreError}
use mpz.Memory.Correlated.{auth, pointer, set_pointer, public_mac}
use mpz.Memory.Correlated.Keys.{KeyStore, KeyStoreError, verify, keys_error}

-- `MacStoreError`, with the constructors that are made from a `StoreError`.
pub data MacStoreError : Type 0 where
  store_error : StoreError → MacStoreError

abbrev macs_error : {A : Type 0} → Outcome StoreError A → Outcome MacStoreError A
macs_error (ok a) = ok a
macs_error (err e) = err (store_error e)
macs_error panic = panic

-- The lengths of some ranges together.
abbrev pub ranges_len : List Range → ℕ
ranges_len [] = 0
ranges_len (r ∷ rs) = range_len r + ranges_len rs

module _ {S : Type 0} (R : RangeSets S) where
  -- The loop of `MacStore::prove`: the pointer bits, and the MACs that the hasher is fed.
  unfoldable pub prove_loop :
      Store.Store S Block → List Range → Outcome MacStoreError (List Bool × List Block)
  prove_loop macs [] = ok ([], [])
  prove_loop macs (range ∷ ranges) = do
    got ← macs_error (Store.try_get R macs (from_range range))
    rest ← prove_loop macs ranges
    ok (map pointer got ++ rest.0, got ++ rest.1)

  -- The loop of `KeyStore::verify` from index `idx`: the values, and the MACs that the hasher is fed.
  unfoldable pub verify_loop :
      KeyStore S → List Bool → ℕ → List Range → Outcome KeyStoreError (List Bool × List Block)
  verify_loop store bits idx [] = ok ([], [])
  verify_loop store bits idx (range ∷ ranges) = do
    keys ← keys_error (Store.try_get R store.keys (from_range range))
    mac_bits ← slice_at bits idx (idx + range_len range)
    let values = zip_with (λ key mac_bit. xor (pointer key) mac_bit) keys mac_bits
    rest ← verify_loop store bits (idx + range_len range) ranges
    ok (values ++ rest.0, zip_with (λ key value. auth key value store.delta) keys values ++ rest.1)

  -- `MacStore::try_set`, `MacStore::try_set_public` and `MacStore::adjust`.
  abbrev pub try_set :
      Store.Store S Block → Slice → List Block → Outcome MacStoreError (Store.Store S Block)
  try_set macs slice new_macs = macs_error (Store.try_set R macs slice new_macs)

  abbrev pub try_set_public :
      Store.Store S Block → Slice → List Bool → Outcome MacStoreError (Store.Store S Block)
  try_set_public macs slice data' = try_set macs slice (map public_mac data')

  unfoldable pub adjust :
      Store.Store S Block → Slice → List Bool → Outcome MacStoreError (Store.Store S Block)
  adjust macs slice data' = do
    assert (slice.size == length data')
    macs_error (Store.update_slice R macs slice (λ old. zip_with set_pointer old data'))

  module _ {Hash : Type 0} (digest : List Block → Hash) where
    unfoldable pub prove :
        Store.Store S Block → List Range → Outcome MacStoreError (List Bool × Hash)
    prove macs ranges = do fed ← prove_loop macs ranges; ok (fed.0, digest fed.1)

    -- `KeyStore::verify`, which returns the authenticated data that it writes back.
    unfoldable pub verify_macs :
        (Hash → Hash → Bool)
        → KeyStore S
        → List Range
        → List Bool
        → Hash
        → Outcome KeyStoreError (List Bool)
    verify_macs same store ranges bits proof = do
      assert (ranges_len ranges == length bits)
      if ranges_len ranges == 0 then ok bits else (do
        fed ← verify_loop store bits 0 ranges
        ensure (same (digest fed.1) proof) verify
        ok fed.0)
