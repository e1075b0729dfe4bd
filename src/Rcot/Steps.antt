-- ===== src/Rcot/Steps.antt =====
-- The operations on both parties of `crates/ot-core/src/ideal/rcot.rs`, one after the other: what they
-- output matches, in every state that they reach.
use mpz.Prelude.{
  total, ℕ, zero, suc, ◌+◌, ◌%◌, ◌^◌, ◌≤◌, ◌<◌, ◌≡◌, refl, sym, ap, ap₂, ◌∙◌, Bool, true, false,
  List, [], ◌∷◌, ◌++◌, some, length, leb, ok, panic, xor, Bool-cases, inl, inr, arith,
  length-append, zip_with, if◌then◌else◌,
}
use mathlib.Core.Path.{subst}
use mpz.Block.{Block, bitxor, zero_block}
use mpz.Block.Laws.{Bits_ext, bits}
use mpz.Cot.Correct.{correlated}
use mpz.Rcot.{
  IdealSender, IdealReceiver, SenderOutput, ReceiverOutput, generate_keys, random_bits, send_output,
  sender_fulfill, receiver_fulfill, checked_sub,
}
use mpz.Rcot.Paired.{Paired, Matches, output_pair, correlated-append}

send_output-panics : (s : IdealSender) (n : ℕ) → length s.keys < n → send_output s n ≡ panic
unfolding send_output
send_output-panics s n short =
    let fails : leb n (length s.keys) ≡ false = ground arith in rw (fails, send_output, checked_sub)

-- The outputs of a queue, in order.
pub data AllMatch (delta : Block) : List ℕ → List SenderOutput → List ReceiverOutput → Type 0 where
  done_all : AllMatch delta [] [] []
  next :
      (n : ℕ) (queue : List ℕ) (o : SenderOutput) (outs : List SenderOutput) (o' : ReceiverOutput)
      (outs' : List ReceiverOutput)
      → Matches delta n o o'
      → AllMatch delta queue outs outs'
      → AllMatch delta (n ∷ queue) (o ∷ outs) (o' ∷ outs')

module _ {R : Type 0} (random : R → Bool × R) where
  pub record Fulfilled (queue : List ℕ) (s : IdealSender) (r : IdealReceiver R) : Type 0 where
    pub outs : List SenderOutput
    pub s' : IdealSender
    pub outs' : List ReceiverOutput
    pub r' : IdealReceiver R
    pub sent : sender_fulfill queue s ≡ ok (outs, s')
    pub got : receiver_fulfill random queue r ≡ ok (outs', r')
    pub matches : AllMatch s.delta queue outs outs'
    pub paired : Paired s' r'
    pub emptied : s'.queue ≡ []

  -- With enough keys both loops over the queue return, with matching outputs.
  pub fulfill :
      (queue : List ℕ) (s : IdealSender) (r : IdealReceiver R)
      → Paired s r
      → total queue ≤ length s.keys
      → Fulfilled queue s r
  unfolding sender_fulfill receiver_fulfill
  fulfill [] s r p enough = record {
    outs = [];
    s' = record s { queue = [] };
    outs' = [];
    r' = record r { queue = [] };
    sent = refl;
    got = refl;
    matches = AllMatch.done_all;
    paired = record {
      msgs = p.msgs;
      same_length = p.same_length;
      same_pending = p.same_pending;
      same_queue = refl;
      same_id = p.same_id;
    };
    emptied = refl;
  }
  fulfill (n ∷ queue) s r p enough =
      let pair = output_pair random n s r p (omega arith) in
      let rest = fulfill queue pair.s' pair.r' pair.paired (omega (arith, pair.keys_left)) in
      record {
        outs = pair.o ∷ rest.outs;
        s' = rest.s';
        outs' = pair.o' ∷ rest.outs';
        r' = rest.r';
        sent = rw (pair.sent, rest.sent);
        got = rw (pair.got, rest.got);
        matches = AllMatch.next n queue pair.o rest.outs pair.o' rest.outs' pair.matches (
            subst (λ (d : Block). AllMatch d queue rest.outs rest.outs') pair.same_delta
              rest.matches);
        paired = rest.paired;
        emptied = rest.emptied;
      }

  -- With fewer keys the sender panics.
  pub sender_fulfill-panics :
      (queue : List ℕ) (s : IdealSender) (r : IdealReceiver R)
      → Paired s r
      → length s.keys < total queue
      → sender_fulfill queue s ≡ panic
  unfolding sender_fulfill
  sender_fulfill-panics [] s r p short = absurd (omega arith)
  sender_fulfill-panics (n ∷ queue) s r p short = elim (Bool-cases (leb n (length s.keys))) [
    | inl fits ↦
        (let pair = output_pair random n s r p (ground (arith, fits)) in
          rw (
            pair.sent,
            sender_fulfill-panics queue pair.s' pair.r' pair.paired (omega (arith, pair.keys_left)),
          ))
    | inr short ↦ rw (send_output-panics s n (ground (arith, short)))
  ]

  pub length-generate_keys :
      (seed : Block) (offset i n : ℕ) → length (generate_keys seed offset i n) ≡ n
  unfolding generate_keys
  length-generate_keys seed offset i zero = refl
  length-generate_keys seed offset i (suc n) = ap suc (length-generate_keys seed offset (i + 1) n)

  length-random_bits : (n : ℕ) (rng : R) → length (random_bits random n rng).0 ≡ n
  length-random_bits zero rng = refl
  length-random_bits (suc n) rng = ap suc (length-random_bits n (random rng).1)

  chosen-eq-correlated :
      (delta : Block) (keys : List Block) (choices : List Bool)
      → zip_with (λ key choice. if choice then bitxor key delta else key) keys choices
        ≡ correlated delta keys choices
  chosen-eq-correlated delta [] choices = refl
  chosen-eq-correlated delta (k ∷ keys) [] = refl
  chosen-eq-correlated delta (k ∷ keys) (c ∷ choices) =
      ap₂ (λ (x : Block) (t : List Block). x ∷ t) (one c) (chosen-eq-correlated delta keys choices)
    where
      one :
          (c : Bool)
          → (if c then bitxor k delta else k) ≡ bitxor k (if c then delta else zero_block)
      one true = refl
      one false = Bits_ext _ _ (λ i. simp bits (unfold xor in ground arith))

  abbrev pub grown_sender : IdealSender → IdealSender
  grown_sender s = record s {
    keys = s.keys ++ generate_keys s.seed s.offset 0 s.pending;
    offset = (s.offset + s.pending) % 2 ^ 64;
    pending = 0;
  }

  abbrev pub grown_receiver : IdealSender → IdealReceiver R → IdealReceiver R
  grown_receiver s r =
      let keys = generate_keys s.seed s.offset 0 s.pending in
      let drawn = random_bits random s.pending r.rng in
      record r {
        delta = some s.delta;
        rng = drawn.1;
        choices = r.choices ++ drawn.0;
        msgs =
            r.msgs
            ++ zip_with (λ key choice. if choice then bitxor key s.delta else key) keys drawn.0;
        pending = 0;
      }

  -- The new keys, choices and messages keep the parties paired.
  pub grown-Paired :
      (s : IdealSender) (r : IdealReceiver R)
      → Paired s r
      → Paired (grown_sender s) (grown_receiver s r)
  grown-Paired s r p =
      let keys = generate_keys s.seed s.offset 0 s.pending in
      let drawn = random_bits random s.pending r.rng in
      record {
        msgs =
            ap₂ (λ (a b : List Block). a ++ b) p.msgs (chosen-eq-correlated s.delta keys drawn.0)
            ∙ sym (correlated-append s.delta s.keys keys r.choices drawn.0 p.same_length);
        same_length = omega (
          arith,
          length-append r.choices drawn.0,
          length-append s.keys keys,
          length-random_bits s.pending r.rng,
          length-generate_keys s.seed s.offset 0 s.pending,
          p.same_length,
        );
        same_pending = refl;
        same_queue = p.same_queue;
        same_id = p.same_id;
      }
