-- ===== src/Ferret/Spcot/Accept.antt =====
-- The consistency check of honest parties in `crates/ot-core/src/ferret/spcot`: the receiver accepts.
use mpz.Prelude.{
  total, ℕ, ◌+◌, ◌≡◌, refl, ap, ap₂, sym, ◌∙◌, Bool, true, xor, arith, List, [], length, zip_with,
  length-zip_with, ==_iff, none, some, ok,
}
use mpz.Block.{Block, bitxor}
use mpz.Block.Laws.{Bits_ext, bits}
use mpz.Cot.Correct.{correlated}
use mpz.Zk.Check.{Clmul, inn_prdt_red, monomials, from_lsb0}
use mpz.Zk.Vole.{IsClmul}
use mpz.Ferret.Chis.{mul}
use mpz.Ferret.Chis.Picks.{Ascending, Ascending-within}
use mpz.Ferret.Chis.Fold.{sum_at, dot}
use mpz.Ferret.Chis.Sum.{chi_at, fold_chis-dot}
use mpz.Ferret.Spcot.{SpcotSender, SpcotReceiver, SenderError, ReceiverError, powers, new_receiver}
use mpz.Ferret.Spcot.Check.{Hasher, bits_of, positions, start_check, sender_check, receiver_check}
use mpz.Ferret.Spcot.CheckSums.{
  from_lsb0-bits_of, length-bits_of, positions-Ascending, length-offset_points, mul-bitxor,
  dot-offset_points, inner_product-eq-ok, product_of_macs,
}
use mpz.Ferret.Spcot.Trees.{AllFit, offset_points}

regroup : (p y x a : Block) → bitxor (bitxor (bitxor p y) (bitxor x y)) a ≡ bitxor p (bitxor a x)
regroup p y x a = Bits_ext _ _ (λ i. simp bits (unfold xor in ground arith))

module _ {C : Clmul} (L : IsClmul C) (aes : Block → Block → Block) {R : Type 0}
    (random : R → Block × R) {D : Type 0} (hasher : Hasher D)
    (eq_refl : (d : D) → hasher.eq d d ≡ true) (s : SpcotSender) (r : SpcotReceiver) (rng : R)
    (keys : List Block) (choices : List Bool) (vs : List Block) (idle : r.check ≡ none)
    (fit : AllFit r.lengths r.indices) (hk : length keys ≡ 128) (hc : length choices ≡ 128)
    (hv : length vs ≡ total (powers r.lengths)) (hp : s.pending ≡ total (powers r.lengths)) where
  abbrev seed : Block
  seed = (random rng).0

  abbrev ws : List Block
  ws = offset_points s.delta r.lengths r.indices vs

  abbrev macs : List Block
  macs = correlated s.delta keys choices

  abbrev chi : ℕ → Block
  chi = chi_at aes seed

  abbrev chosen : Block
  chosen = sum_at chi (positions 0 r.lengths r.indices)

  abbrev flips : List Bool
  flips = zip_with xor (bits_of chosen) choices

  abbrev w : Block
  w = bitxor (inn_prdt_red C macs (monomials 0 128)) (dot C chi 0 ws)

  abbrev v : Block
  v =
      bitxor (bitxor (inn_prdt_red C keys (monomials 0 128)) (mul C s.delta (from_lsb0 128 flips)))
        (dot C chi 0 vs)

  ws_len : length ws ≡ total (powers r.lengths)
  ws_len = length-offset_points s.delta r.lengths r.indices vs ∙ hv

  macs_len : length macs ≡ 128
  macs_len = length-zip_with _ keys choices (hk ∙ sym hc) ∙ hk

  flips_len : length flips ≡ 128
  flips_len =
      length-zip_with xor (bits_of chosen) choices (length-bits_of chosen ∙ sym hc)
      ∙ length-bits_of chosen

  -- Both sides of the check are one value.
  v-eq-w : v ≡ w
  v-eq-w =
      let offset = mul C s.delta (from_lsb0 128 choices) in
      ap (λ x. bitxor x (dot C chi 0 vs))
        (ap₂ bitxor (product_of_macs L s.delta keys choices hk hc) (
          ap (mul C s.delta) (from_lsb0-bits_of chosen choices hc)
          ∙ mul-bitxor L s.delta chosen (from_lsb0 128 choices)))
      ∙ regroup _ offset (mul C s.delta chosen) (dot C chi 0 vs)
      ∙ ap (bitxor (inn_prdt_red C macs (monomials 0 128)))
          (sym (dot-offset_points L chi s.delta 0 r.lengths r.indices vs fit hv))

  in_outputs : Ascending 0 (length ws) (positions 0 r.lengths r.indices)
  in_outputs =
      Ascending-within 0 (0 + total (powers r.lengths)) 0 (length ws)
        (positions 0 r.lengths r.indices) (positions-Ascending 0 r.lengths r.indices fit)
        (λ p above under. (above, omega (arith, under, ws_len)))

  start_check-eq-ok :
      start_check C aes random r rng macs choices ws
      ≡ ok (flips, seed, (random rng).1, record r { check = some (record { w = w }) })
  unfolding start_check
  start_check-eq-ok =
      rw
        (
          idle,
          (==_iff (length macs) 128).1 macs_len,
          (==_iff (length choices) 128).1 hc,
          (==_iff (length ws) (total (powers r.lengths))).1 ws_len,
          fold_chis-dot L {E = ReceiverError} aes seed ws (positions 0 r.lengths r.indices)
              in_outputs,
          inner_product-eq-ok L {E = ReceiverError} macs (monomials 0 128) macs_len,
        )
        refl

  sender_check-eq-ok :
      sender_check C aes hasher s keys flips vs seed ≡ ok (hasher.hash v, record s { pending = 0 })
  unfolding sender_check
  sender_check-eq-ok =
      rw
        (
          (==_iff (length keys) 128).1 hk,
          (==_iff (length flips) 128).1 flips_len,
          (==_iff (length vs) s.pending).1 (hv ∙ sym hp),
          inner_product-eq-ok L {E = SenderError} keys (monomials 0 128) hk,
          fold_chis-dot L {E = SenderError} aes seed vs [] tt,
        )
        refl

  receiver_check-some :
      (value : Block) (hashed : D)
      → hasher.eq hashed (hasher.hash value) ≡ true
      → receiver_check hasher (record r { check = some (record { w = value }) }) hashed
        ≡ (ok tt, new_receiver)
  unfolding receiver_check
  receiver_check-some value hashed same = rw (receiver_check, same) refl

  receiver_check-eq-ok :
      receiver_check hasher (record r { check = some (record { w = w }) }) (hasher.hash v)
      ≡ (ok tt, new_receiver)
  receiver_check-eq-ok =
      receiver_check-some w (hasher.hash v)
        (ap (λ x. hasher.eq (hasher.hash x) (hasher.hash w)) v-eq-w ∙ eq_refl (hasher.hash w))

  -- With a product of polynomials and a reduction that satisfy the laws of a ring and a reflexive equality of
  -- digests, for a receiver that has no check under way, with an index within each of its trees of 1 to 64
  -- levels, for 128 keys and choices, messages that are the keys offset by delta where the choice is 1,
  -- and outputs as many as both parties have pending, of which the receiver's are offset by delta at the
  -- indices: the receiver starts the check, the sender returns a digest, the receiver accepts it, and
  -- nothing is pending afterwards.
  pub receiver_check-sender_check :
      (flips : List Bool) × (chi_seed : Block) × (next : R) × (started : SpcotReceiver)
      × (hashed : D) × (start_check C aes random r rng
            (correlated s.delta keys choices)
            choices
            (offset_points s.delta r.lengths r.indices vs)
          ≡ ok (flips, chi_seed, next, started))
      × (sender_check C aes hasher s keys flips vs chi_seed ≡ ok (hashed, record s { pending = 0 }))
      × (receiver_check hasher started hashed ≡ (ok tt, new_receiver))
  receiver_check-sender_check = (
    flips,
    seed,
    (random rng).1,
    record r { check = some (record { w = w }) },
    hasher.hash v,
    start_check-eq-ok,
    sender_check-eq-ok,
    receiver_check-eq-ok,
  )
