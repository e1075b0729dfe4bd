-- ===== src/Rcot/Reach.antt =====
-- The states that the ideal functionality of `crates/ot-core/src/ideal/rcot.rs` reaches, and what it
-- outputs in them.
use mathlib.Core.Path.{subst}
use mpz.Prelude.{
  total, ℕ, ◌+◌, ◌≤◌, ◌<◌, ◌≡◌, refl, sym, ap, ◌∙◌, Bool, false, List, [], ◌∷◌, ◌++◌, Option, none,
  some, length, leb, le→leb, Outcome, ok, err, panic, ok-injective, Bool-cases, inl, inr, ap₂,
  arith, ℕ-cases,
}
use mpz.Block.{Block}
use mpz.Rcot.{
  IdealSender, IdealReceiver, SenderOutput, ReceiverOutput, RcotError, not_enough, flush, transfer,
  queue_send_rcot, queue_recv_rcot, Ideal, alloc, new_ideal,
}
use mpz.Rcot.Paired.{Matches, output_pair}
use mpz.Rcot.Steps.{AllMatch}
use mpz.Rcot.Calls.{
  Sound, AllAbove-le, AllAbove-append, queue-cases, not_panic, transferred, transfer-short, flushed,
  flush-nothing, flush-panics,
}

module _ {R : Type 0} (random : R → Bool × R) where
  -- The states that the operations on both parties reach, from new parties on.
  pub data Reached : Ideal random → Type 0 where
    created : (seed delta : Block) (rng : R) → Reached (new_ideal random seed delta rng)
    allocated : (i : Ideal random) (n : ℕ) → Reached i → Reached (alloc random i n)
    transferred_out :
        (i i' : Ideal random) (n : ℕ) (outs : SenderOutput × ReceiverOutput)
        → Reached i
        → transfer random i n ≡ ok (outs, i')
        → Reached i'
    queued :
        (i i' : Ideal random) (n : ℕ) (o : Option SenderOutput) (o' : Option ReceiverOutput)
        → Reached i
        → queue_send_rcot i.0 n ≡ ok (o, i'.0)
        → queue_recv_rcot random i.1 n ≡ ok (o', i'.1)
        → Reached i'
    flushed_out :
        (i i' : Ideal random) (outs : List SenderOutput × List ReceiverOutput)
        → Reached i
        → flush random i ≡ ok (outs, i')
        → Reached i'

  queued-Sound :
      (i i' : Ideal random) (n : ℕ) (o : Option SenderOutput) (o' : Option ReceiverOutput)
      → Sound i
      → queue_send_rcot i.0 n ≡ ok (o, i'.0)
      → queue_recv_rcot random i.1 n ≡ ok (o', i'.1)
      → Sound i'
  unfolding queue_send_rcot queue_recv_rcot
  queued-Sound i i' n o o' s sends receives = elim (Bool-cases (leb n (length i.0.keys))) [
    | inl fits ↦
        (let enough : n ≤ length i.0.keys = ground (arith, fits) in
          let pair = output_pair random n i.0 i.1 s.paired enough in
          let sent : queue_send_rcot i.0 n ≡ ok (some pair.o, pair.s') =
            rw (fits, pair.sent, queue_send_rcot) in
          let got : queue_recv_rcot random i.1 n ≡ ok (some pair.o', pair.r') = rw (
            le→leb n (length i.1.choices) (omega (arith, s.paired.same_length)),
            pair.got,
            queue_recv_rcot,
          ) in
          subst (λ (x : IdealSender × IdealReceiver R). Sound x)
            (ap₂ (λ (a : IdealSender) (b : IdealReceiver R). (a, b))
              (ap (λ (x : Option SenderOutput × IdealSender). x.1)
                (ok-injective (sym sent ∙ sends)))
              (ap (λ (x : Option ReceiverOutput × IdealReceiver R). x.1)
                (ok-injective (sym got ∙ receives))))
            (record {
              paired = pair.paired;
              above =
                  rw pair.same_queue
                    (AllAbove-le i.0.queue (omega (arith, pair.keys_left)) s.above);
            }))
    | inr short ↦
        (let few : leb n (length i.1.choices) ≡ false =
            ground (arith, short, s.paired.same_length) in
          let sent : queue_send_rcot i.0 n ≡ ok (none, record i.0 { queue = i.0.queue ++ n ∷ [] }) =
            rw (short, queue_send_rcot) in
          let got : queue_recv_rcot random i.1 n
              ≡ ok (none, record i.1 { queue = i.1.queue ++ n ∷ [] }) =
            rw (few, queue_recv_rcot) in
          subst (λ (x : IdealSender × IdealReceiver R). Sound x)
            (ap₂ (λ (a : IdealSender) (b : IdealReceiver R). (a, b))
              (ap (λ (x : Option SenderOutput × IdealSender). x.1)
                (ok-injective (sym sent ∙ sends)))
              (ap (λ (x : Option ReceiverOutput × IdealReceiver R). x.1)
                (ok-injective (sym got ∙ receives))))
            (record {
              paired = record {
                msgs = s.paired.msgs;
                same_length = s.paired.same_length;
                same_pending = s.paired.same_pending;
                same_queue = ap (λ (q : List ℕ). q ++ n ∷ []) s.paired.same_queue;
                same_id = s.paired.same_id;
              };
              above = AllAbove-append i.0.queue n s.above (ground (arith, short));
            }))
  ]

  flushed-Sound :
      (i i' : Ideal random) (outs : List SenderOutput × List ReceiverOutput)
      → Sound i
      → flush random i ≡ ok (outs, i')
      → Sound i'
  flushed-Sound i i' outs s returns =
      elim (Bool-cases (leb (total i.0.queue) (length i.0.keys + i.0.pending))) [
        | inr short ↦
            absurd (not_panic (sym (flush-panics random i s (ground (arith, short))) ∙ returns))
        | inl enough ↦ elim (ℕ-cases i.0.pending) [
          | inr pending ↦
              (let f = flushed random i s pending (ground (arith, enough)) in
                subst (λ (x : (List SenderOutput × List ReceiverOutput) × Ideal random). Sound x.1)
                  (ok-injective (sym f.returns ∙ returns)) f.sound)
          | inl none_pending ↦ elim (queue-cases i.0.queue s.above) [
            | inl empty ↦
                subst (λ (x : (List SenderOutput × List ReceiverOutput) × Ideal random). Sound x.1)
                  (ok-injective (sym (flush-nothing random i none_pending empty) ∙ returns)) s
            | inr more ↦ absurd (ground (arith, enough))
          ]
        ]
      ]

  -- In every reached state the receiver's messages are the sender's keys, offset by delta where the
  -- receiver's choice is 1, and the queues hold only counts above what is available.
  pub Reached-Sound : {i : Ideal random} → Reached i → Sound i
  Reached-Sound (created seed delta rng) = record {
    paired = record {
      msgs = refl;
      same_length = refl;
      same_pending = refl;
      same_queue = refl;
      same_id = refl;
    };
    above = tt;
  }
  Reached-Sound (allocated i n r) =
      let s = Reached-Sound r in
      record {
        paired = record {
          msgs = s.paired.msgs;
          same_length = s.paired.same_length;
          same_pending = ap (λ k. k + n) s.paired.same_pending;
          same_queue = s.paired.same_queue;
          same_id = s.paired.same_id;
        };
        above = s.above;
      }
  Reached-Sound (transferred_out i i' n outs r returns) =
      let s = Reached-Sound r in
      elim (Bool-cases (leb n (length i.0.keys))) [
        | inl fits ↦
            (let t = transferred random n i s (ground (arith, fits)) in
              subst (λ (x : (SenderOutput × ReceiverOutput) × Ideal random). Sound x.1)
                (ok-injective (sym t.returns ∙ returns)) t.sound)
        | inr short ↦
            absurd (no_error (sym (transfer-short random n i (ground (arith, short))) ∙ returns))
      ]
    where
      no_error :
          {A : Type 0} {e : RcotError} {a : A} → ◌≡◌ {A = Outcome RcotError A} (err e) (ok a) → ⊥
      no_error e = cc e
  Reached-Sound (queued i i' n o o' r sends receives) =
      queued-Sound i i' n o o' (Reached-Sound r) sends receives
  Reached-Sound (flushed_out i i' outs r returns) =
      flushed-Sound i i' outs (Reached-Sound r) returns

  -- In every reached state a transfer of at most what is available returns outputs that match: one id, `n`
  -- keys and choices, and messages that are the keys, offset by delta where the choice is 1. A transfer of
  -- more is refused.
  pub transfer-cases :
      {i : Ideal random} (n : ℕ)
      → Reached i
      → (n ≤ length i.0.keys
          → (o : SenderOutput) × (o' : ReceiverOutput) × (i' : Ideal random) × (transfer random i n
              ≡ ok ((o, o'), i'))
            × Matches i.0.delta n o o')
        × (length i.0.keys < n → transfer random i n ≡ err (not_enough (length i.0.keys) n))
  transfer-cases {i} n r = (
    λ enough.
        let t = transferred random n i (Reached-Sound r) enough in
        (t.o, t.o', t.i', t.returns, t.matches),
    transfer-short random n i,
  )

  -- In every reached state a flush with something pending and enough keys for the queue returns an output
  -- to each party for each queued count, in order, which match. With nothing pending and nothing queued it
  -- changes nothing. With fewer keys than the queue asks for it panics.
  pub flush-cases :
      {i : Ideal random}
      → Reached i
      → (0 < i.0.pending
          → total i.0.queue ≤ length i.0.keys + i.0.pending
          → (outs : List SenderOutput) × (outs' : List ReceiverOutput) × (i' : Ideal random)
            × (flush random i ≡ ok ((outs, outs'), i'))
            × AllMatch i.0.delta i.0.queue outs outs')
        × (i.0.pending ≡ 0 → i.0.queue ≡ [] → flush random i ≡ ok (([], []), i))
        × (length i.0.keys + i.0.pending < total i.0.queue → flush random i ≡ panic)
  flush-cases {i} r = (
    λ pending enough.
        let f = flushed random i (Reached-Sound r) pending enough in
        (f.outs, f.outs', f.i', f.returns, f.matches),
    flush-nothing random i,
    flush-panics random i (Reached-Sound r),
  )
