-- ===== src/Ferret/Spcot/Tests.antt =====
-- Runs of the single-point transfers, with a permutation in place of AES and the ring of blocks with AND as its
-- product.
use mpz.Prelude.{
  total, ℕ, ◌+◌, ◌≡◌, refl, Bool, true, false, xor, List, [], ◌∷◌, ◌++◌, length, replicate, Outcome,
  ok, none, arith,
}
use mpz.Block.{Bits, nil, cons, Block, bitxor, be_bytes, zero_block}
use mpz.Cot.Correct.{correlated}
use mpz.Zk.Check.{block_eq}
use mpz.Zk.Tests.{and_product, and_product-IsClmul}
use mpz.Ferret.Chis.{fold_chis}
use mpz.Ferret.Chis.Fold.{sum_at, dot}
use mpz.Ferret.Chis.Sum.{chi_at, fold_chis-dot}
use mpz.Ferret.Spcot.{
  SpcotSender, SpcotReceiver, SenderError, powers, new_sender, new_receiver, derandomize,
  sender_extend, receiver_extend, index_count, not_started,
}
use mpz.Ferret.Spcot.Check.{Hasher, start_check, sender_check, receiver_check}
use mpz.Ferret.Spcot.Trees.{offset_points}
use mpz.Ferret.Spcot.Extend.{receiver_extend-sender_extend}
use mpz.Ferret.Spcot.Accept.{receiver_check-sender_check}

abbrev mask : Block → Block
mask b = bitxor b (be_bytes 77)

abbrev cipher : Block → Block → Block
cipher key b = bitxor b key

abbrev counter : ℕ → Block × ℕ
counter n = (be_bytes n, n + 1)

abbrev delta : Block
delta = be_bytes 1234

abbrev lengths : List ℕ
lengths = 1 ∷ 2 ∷ []

abbrev indices : List ℕ
indices = 1 ∷ 2 ∷ []

abbrev keys : List Block
keys = be_bytes 3 ∷ be_bytes 4 ∷ be_bytes 5 ∷ []

abbrev choices : List Bool
choices = true ∷ false ∷ true ∷ []

abbrev buffer : List Block
buffer = replicate 6 zero_block

receiver_extend-sender_extend_example :
    (flips : List Bool) × (outs : List Block) × (cs : List Block) × (next : ℕ) × (derandomize
        lengths indices choices
      ≡ ok flips)
    × (sender_extend mask counter (new_sender delta) 7 lengths keys flips buffer
        ≡ ok (outs, cs, next, record { pending = 0 + total (powers lengths); delta = delta }))
    × (length outs ≡ total (powers lengths))
    × (receiver_extend mask new_receiver lengths indices (correlated delta keys choices) cs buffer
        ≡ ok (
          offset_points delta lengths indices outs,
          record { lengths = [] ++ lengths; indices = [] ++ indices; check = none },
        ))
receiver_extend-sender_extend_example =
    receiver_extend-sender_extend mask counter (new_sender delta) new_receiver 7 lengths indices
      keys choices buffer buffer (omega arith) refl refl refl refl

fold_chis-dot_example :
    fold_chis and_product cipher delta {E = SenderError} keys (0 ∷ 2 ∷ [])
    ≡ ok (dot and_product (chi_at cipher delta) 0 keys, sum_at (chi_at cipher delta) (0 ∷ 2 ∷ []))
fold_chis-dot_example =
    fold_chis-dot and_product-IsClmul {E = SenderError} cipher delta keys (0 ∷ 2 ∷ []) (omega arith)

-- A digest is the block itself.
abbrev plain : Hasher Block
plain = record { hash = λ b. b; eq = block_eq }

block_eq_refl : {n : ℕ} (b : Bits n) → block_eq b b ≡ true
unfolding block_eq xor
block_eq_refl nil = refl
block_eq_refl (cons true bs) = block_eq_refl bs
block_eq_refl (cons false bs) = block_eq_refl bs

abbrev waiting_sender : SpcotSender
waiting_sender = record { pending = 6; delta = delta }

abbrev waiting_receiver : SpcotReceiver
waiting_receiver = record { lengths = lengths; indices = indices; check = none }

abbrev check_keys : List Block
check_keys = replicate 128 (be_bytes 9)

abbrev check_choices : List Bool
check_choices = replicate 128 true

receiver_check-sender_check_example :
    (flips : List Bool) × (chi_seed : Block) × (next : ℕ) × (started : SpcotReceiver)
    × (hashed : Block) × (start_check and_product cipher counter waiting_receiver 7
          (correlated delta check_keys check_choices)
          check_choices
          (offset_points delta lengths indices (replicate 6 (be_bytes 6)))
        ≡ ok (flips, chi_seed, next, started))
    × (sender_check and_product cipher plain waiting_sender check_keys flips
          (replicate 6 (be_bytes 6))
          chi_seed
        ≡ ok (hashed, record { pending = 0; delta = delta }))
    × (receiver_check plain started hashed ≡ (ok tt, new_receiver))
receiver_check-sender_check_example =
    receiver_check-sender_check and_product-IsClmul cipher counter plain block_eq_refl
      waiting_sender waiting_receiver 7 check_keys check_choices (replicate 6 (be_bytes 6)) refl
      (omega arith) refl refl refl refl

-- A call with another number of indices than trees is refused, and so is a check that was not started.
refused :
    (derandomize lengths (1 ∷ []) choices ≡ Outcome.err (index_count 2 1))
    × (receiver_check plain new_receiver delta ≡ (Outcome.err not_started, new_receiver))
unfolding derandomize receiver_check
refused = (refl, refl)
