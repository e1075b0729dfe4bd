-- ===== src/Cot/Withheld.antt =====
-- What `DerandCOTReceiver::adjust` of `crates/ot-core/src/cot/derandomize.rs` sends when the random
-- transfers run out.
use native.Mathlib.Nat.{le_trans}
use mpz.Prelude.{
  ℕ, ◌+◌, ◌≤◌, ◌≡◌, refl, sym, ◌∙◌, ap, Bool, xor, List, [], ◌∷◌, get_elem?, ltb, inr, inl,
  Bool-cases, copy_at, copy_at-outside, slice_at, ok, ok-injective, bind_returns, arith,
}
use mpz.Cot.{
  RcotReceiver, CotOutput, cot_error, zip_update, DerandCotReceiver, recv_loop, recv_adjust,
}

module _ {T E : Type 0} (rcot : RcotReceiver T E) where
  abbrev Flips : Type 0
  Flips = List Bool × List CotOutput × ℕ

  -- The loop changes flips only below the index that it reaches.
  recv_loop-withheld :
      (queue : List ℕ) (i : ℕ) (flip : List Bool) (t : T) (done : Flips × T)
      → recv_loop rcot queue i flip t ≡ ok done
      → (i ≤ done.0.2) × ((n : ℕ) → done.0.2 ≤ n → get_elem? done.0.0 n ≡ get_elem? flip n)
  unfolding recv_loop
  recv_loop-withheld [] i flip t done e = rw (← ok-injective e) (omega arith, λ n h. refl)
  recv_loop-withheld (count ∷ queue) i flip t done e =
      elim (Bool-cases (ltb (rcot.available t) count)) [
        | inl short ↦ rw (← ok-injective (rw (short, recv_loop) at e)) (omega arith, λ n h. refl)
        | inr enough ↦
            (let (received, _, e1) =
                bind_returns (cot_error (rcot.try_recv_rcot t count)) _
                  (rw (enough, recv_loop) at e) in
              let (old, _, e2) = bind_returns (slice_at flip i (i + count)) _ e1 in
              let (masked, copied, e3) =
                bind_returns
                  (copy_at flip (record { start = i; stop = i + count })
                    (zip_update (λ choice mask. xor choice mask) old received.0.1))
                  _ e2 in
              let (rest, looped, e4) =
                bind_returns (recv_loop rcot queue (i + count) masked received.1) _ e3 in
              let (reached, kept) =
                recv_loop-withheld queue (i + count) masked received.1 rest looped in
              rw (← ok-injective e4) (
                le_trans (omega arith) reached,
                λ n h.
                    kept n h
                    ∙ copy_at-outside flip (record { start = i; stop = i + count }) _ copied n
                        (inr (le_trans reached h)),
              ))
      ]

  -- What `adjust` returns as the message for the sender holds, from the count of the random transfers that
  -- were taken on, the choice bits themselves, and no choice bit is kept for later.
  pub recv_adjust-withheld :
      (r r' : DerandCotReceiver T) (flip : List Bool) (cots : List CotOutput) (count : ℕ)
      → recv_adjust rcot r ≡ ok ((flip, cots, count), r')
      → ((n : ℕ) → count ≤ n → get_elem? flip n ≡ get_elem? r.derandomize n) × (r'.derandomize ≡ [])
  unfolding recv_adjust
  recv_adjust-withheld r r' flip cots count e =
      let (done, looped, e1) = bind_returns (recv_loop rcot r.queue 0 r.derandomize r.rcot) _ e in
      let (reached, kept) = recv_loop-withheld r.queue 0 r.derandomize r.rcot done looped in
      let same = ok-injective e1 in
      (
        rw
            (
              ← ap (λ (x : Flips × DerandCotReceiver T). x.0.0) same,
              ← ap (λ (x : Flips × DerandCotReceiver T). x.0.2) same,
            )
            kept,
        ap (λ (x : Flips × DerandCotReceiver T). x.1.derandomize) (sym same),
      )
