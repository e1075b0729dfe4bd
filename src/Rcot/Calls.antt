-- ===== src/Rcot/Calls.antt =====
-- The calls on both parties of `crates/ot-core/src/ideal/rcot.rs`: a transfer, and a flush, on each branch.
use mpz.Prelude.{
  total, ℕ, ◌+◌, ◌≤◌, ◌<◌, ◌≡◌, refl, sym, ap, ◌∙◌, Bool, false, ◌&&◌, List, [], ◌∷◌, ◌++◌, some,
  length, ltb, ◌==◌, le→ltb, lt→ltb, Outcome, ok, err, panic, inl, inr, ◌⊎◌, arith, length-append,
  ==_iff, ℕ-cases,
}
use mpz.Rcot.{
  IdealSender, IdealReceiver, SenderOutput, ReceiverOutput, RcotError, not_enough, FlushMsg,
  generate_keys, sender_fulfill, receiver_fulfill, sender_flush, receiver_flush, flush, transfer,
  try_send_rcot, try_recv_rcot, Ideal, is_empty,
}
use mpz.Rcot.Paired.{Paired, Matches, AllAbove, output_pair}
use mpz.Rcot.Steps.{
  AllMatch, fulfill, sender_fulfill-panics, grown_sender, grown_receiver, grown-Paired,
  length-generate_keys,
}

-- Paired parties, whose queues hold only what could not be served.
pub record Sound {R : Type 0} (i : IdealSender × IdealReceiver R) : Type 0 where
  pub paired : Paired i.0 i.1
  pub above : AllAbove (length i.0.keys) i.0.queue

is_empty-total : (queue : List ℕ) → 0 < total queue → is_empty queue ≡ false
is_empty-total [] h = absurd (omega arith)
is_empty-total (n ∷ queue) h = refl

pub queue-cases : {n : ℕ} (queue : List ℕ) → AllAbove n queue → (queue ≡ []) ⊎ (n < total queue)
queue-cases [] a = inl refl
queue-cases (count ∷ queue) a = inr (omega (arith, a.0))

pub not_panic : {A : Type 0} {a : A} → ◌≡◌ {A = Outcome RcotError A} panic (ok a) → ⊥
not_panic e = cc e

pub AllAbove-le : {m n : ℕ} (queue : List ℕ) → m ≤ n → AllAbove n queue → AllAbove m queue
AllAbove-le [] h a = tt
AllAbove-le (count ∷ queue) h a = (omega (arith, a.0), AllAbove-le queue h a.1)

pub AllAbove-append :
    {n : ℕ} (queue : List ℕ) (count : ℕ)
    → AllAbove n queue
    → n < count
    → AllAbove n (queue ++ count ∷ [])
AllAbove-append [] count a h = (h, tt)
AllAbove-append (c ∷ queue) count a h = (a.0, AllAbove-append queue count a.1 h)

module _ {R : Type 0} (random : R → Bool × R) where
  pub record Transferred (n : ℕ) (i : Ideal random) : Type 0 where
    pub o : SenderOutput
    pub o' : ReceiverOutput
    pub i' : Ideal random
    pub returns : transfer random i n ≡ ok ((o, o'), i')
    pub sender_returns : try_send_rcot i.0 n ≡ ok (o, i'.0)
    pub receiver_returns : try_recv_rcot random i.1 n ≡ ok (o', i'.1)
    pub matches : Matches i.0.delta n o o'
    pub sound : Sound i'

  pub transferred : (n : ℕ) (i : Ideal random) → Sound i → n ≤ length i.0.keys → Transferred n i
  unfolding transfer try_send_rcot try_recv_rcot
  transferred n i s enough =
      let pair = output_pair random n i.0 i.1 s.paired enough in
      let sends : try_send_rcot i.0 n ≡ ok (pair.o, pair.s') =
        rw (le→ltb (length i.0.keys) n enough, pair.sent, ltb) in
      let receives : try_recv_rcot random i.1 n ≡ ok (pair.o', pair.r') =
        rw (le→ltb (length i.1.choices) n (omega (arith, s.paired.same_length)), pair.got, ltb) in
      record {
        o = pair.o;
        o' = pair.o';
        i' = (pair.s', pair.r');
        returns = rw (sends, receives);
        sender_returns = sends;
        receiver_returns = receives;
        matches = pair.matches;
        sound = record {
          paired = pair.paired;
          above =
              rw pair.same_queue (AllAbove-le i.0.queue (omega (arith, pair.keys_left)) s.above);
        };
      }

  pub transfer-short :
      (n : ℕ) (i : Ideal random)
      → length i.0.keys < n
      → transfer random i n ≡ err (not_enough (length i.0.keys) n)
  unfolding transfer try_send_rcot
  transfer-short n i short = rw (lt→ltb (length i.0.keys) n short, try_send_rcot, ltb)

  pub record Flushed (i : Ideal random) : Type 0 where
    pub outs : List SenderOutput
    pub outs' : List ReceiverOutput
    pub i' : Ideal random
    pub returns : flush random i ≡ ok ((outs, outs'), i')
    pub matches : AllMatch i.0.delta i.0.queue outs outs'
    pub sound : Sound i'

  -- With new transfers pending and enough keys for the queue.
  pub flushed :
      (i : Ideal random)
      → Sound i
      → 0 < i.0.pending
      → total i.0.queue ≤ length i.0.keys + i.0.pending
      → Flushed i
  unfolding flush sender_flush receiver_flush
  flushed i s pending enough =
      let grown = grown-Paired random i.0 i.1 s.paired in
      let done =
        fulfill random i.0.queue (grown_sender random i.0) (grown_receiver random i.0 i.1) grown (
          omega (
            arith,
            length-append i.0.keys (generate_keys i.0.seed i.0.offset 0 i.0.pending),
            length-generate_keys random i.0.seed i.0.offset 0 i.0.pending,
            enough,
          )) in
      let msg : FlushMsg = record {
        seed = i.0.seed;
        offset = i.0.offset;
        count = i.0.pending;
        delta = i.0.delta;
      } in
      let some_pending : (i.0.pending == 0 && is_empty i.0.queue) ≡ false = ground arith in
      let sends : sender_flush i.0 ≡ ok (some msg, done.outs, done.s') =
        rw (some_pending, lt→ltb 0 i.0.pending pending, done.sent, sender_flush) in
      let receives : receiver_flush random i.1 msg ≡ ok (done.outs', done.r') =
        rw ((==_iff i.0.pending i.1.pending).1 (sym s.paired.same_pending), receiver_flush)
          (ap (λ q. receiver_fulfill random q (grown_receiver random i.0 i.1)) s.paired.same_queue
            ∙ done.got) in
      record {
        outs = done.outs;
        outs' = done.outs';
        i' = (done.s', done.r');
        returns = rw (sends, receives);
        matches = done.matches;
        sound = record { paired = done.paired; above = rw done.emptied tt };
      }

  pub flush-nothing :
      (i : Ideal random) → i.0.pending ≡ 0 → i.0.queue ≡ [] → flush random i ≡ ok (([], []), i)
  unfolding flush sender_flush
  flush-nothing i pending queue = rw (pending, queue) refl

  -- A queue that nothing was allocated for, or too little.
  pub flush-panics :
      (i : Ideal random)
      → Sound i
      → length i.0.keys + i.0.pending < total i.0.queue
      → flush random i ≡ panic
  unfolding flush sender_flush
  flush-panics i s short = elim (ℕ-cases i.0.pending) [
    | inl none_pending ↦
        (let stops : sender_fulfill i.0.queue i.0 ≡ panic =
            sender_fulfill-panics random i.0.queue i.0 i.1 s.paired (omega arith) in
          let busy : (i.0.pending == 0 && is_empty i.0.queue) ≡ false =
            rw (is_empty-total i.0.queue (omega arith)) (ground arith) in
          let fails : sender_flush i.0 ≡ panic =
            rw (busy, le→ltb 0 i.0.pending (omega arith), stops, sender_flush) in
          rw fails)
    | inr pending ↦
        (let stops : sender_fulfill i.0.queue (grown_sender random i.0) ≡ panic =
            sender_fulfill-panics random i.0.queue (grown_sender random i.0)
              (grown_receiver random i.0 i.1) (grown-Paired random i.0 i.1 s.paired)
              (omega (
                arith,
                length-append i.0.keys (generate_keys i.0.seed i.0.offset 0 i.0.pending),
                length-generate_keys random i.0.seed i.0.offset 0 i.0.pending,
                short,
              )) in
          let busy : (i.0.pending == 0 && is_empty i.0.queue) ≡ false = ground arith in
          let fails : sender_flush i.0 ≡ panic =
            rw (busy, lt→ltb 0 i.0.pending pending, stops, sender_flush) in
          rw fails)
  ]
