-- ===== src/Ferret/Spcot/Check.antt =====
-- The consistency check of `crates/ot-core/src/ferret/spcot/sender.rs` and `receiver.rs`. The hash `blake3` is a
-- parameter, with the equality of its digests.
use mpz.Prelude.{
  total, ℕ, ◌+◌, ◌^◌, Bool, true, false, xor, ◌==◌, List, [], ◌∷◌, length, zip_with, Option, none,
  some, Outcome, ok, err, ensure, ◌>>=◌, ◌>>◌,
}
use mpz.Block.{Bits, nil, cons, Block, bitxor}
use mpz.Zk.Check.{Clmul, monomials, from_lsb0}
use mpz.Ferret.Chis.{mul, inner_product, fold_chis}
use mpz.Ferret.Spcot.{
  SpcotSender, SenderError, key_count, mask_count, output_length, CheckValue, SpcotReceiver,
  ReceiverError, already_started, not_started, invalid_check, mac_count, choice_count,
  buffer_length, powers,
}

-- `CSP`.
abbrev pub csp : ℕ
csp = 128

-- A digest and its equality.
pub record Hasher (D : Type 0) : Type 0 where
  pub hash : Block → D
  pub eq : D → D → Bool

-- `iter_lsb0` on a field element.
unfoldable pub bits_of : {n : ℕ} → Bits n → List Bool
bits_of nil = []
bits_of (cons b bs) = b ∷ bits_of bs

-- The positions of the chosen indices in the buffer of all trees.
abbrev pub positions : ℕ → List ℕ → List ℕ → List ℕ
positions i (n ∷ lengths) (idx ∷ idxs) = (i + idx) ∷ positions (i + 2 ^ n) lengths idxs
positions i lengths idxs = []

abbrev pub ensure_idle : Option CheckValue → Outcome ReceiverError (Unit {0})
ensure_idle none = ok tt
ensure_idle (some value) = err already_started

module _ (C : Clmul) (aes : Block → Block → Block) where
  -- `SPCOTReceiver::start_check`: the flips and the seed, the generator and the receiver afterwards.
  unfoldable pub start_check :
      {R : Type 0}
      → (R → Block × R)
      → SpcotReceiver
      → R
      → List Block
      → List Bool
      → List Block
      → Outcome ReceiverError (List Bool × Block × R × SpcotReceiver)
  start_check random r rng macs masks ws = do
    ensure_idle r.check
    ensure (length macs == csp) (mac_count csp (length macs))
    ensure (length masks == csp) (choice_count csp (length masks))
    let len = total (powers r.lengths)
    ensure (length ws == len) (buffer_length len (length ws))
    let drawn = random rng
    fold ← fold_chis C aes drawn.0 ws (positions 0 r.lengths r.indices)
    product ← inner_product C macs (monomials 0 128)
    ok (
      zip_with xor (bits_of fold.1) masks,
      drawn.0,
      drawn.1,
      record r { check = some (record { w = bitxor product fold.0 }) },
    )

  -- `SPCOTSender::check`: the digest, and the sender afterwards.
  unfoldable pub sender_check :
      {D : Type 0}
      → Hasher D
      → SpcotSender
      → List Block
      → List Bool
      → List Block
      → Block
      → Outcome SenderError (D × SpcotSender)
  sender_check hasher s keys masks vs chi_seed = do
    ensure (length keys == csp) (key_count csp (length keys))
    ensure (length masks == csp) (mask_count csp (length masks))
    ensure (length vs == s.pending) (output_length s.pending (length vs))
    product ← inner_product C keys (monomials 0 128)
    let y = bitxor product (mul C s.delta (from_lsb0 128 masks))
    fold ← fold_chis C aes chi_seed vs []
    ok (hasher.hash (bitxor y fold.0), record s { pending = 0 })

-- `SPCOTReceiver::check`: the result, and the receiver, which has consumed the value of the check in any case.
unfoldable pub receiver_check :
    {D : Type 0} → Hasher D → SpcotReceiver → D → Outcome ReceiverError (Unit {0}) × SpcotReceiver
receiver_check hasher r hashed_v = elim r.check [
  | none ↦ (err not_started, r)
  | some value ↦ elim (hasher.eq hashed_v (hasher.hash value.w)) [
    | false ↦ (err invalid_check, record r { check = none })
    | true ↦ (ok tt, record { lengths = []; indices = []; check = none })
  ]
]
