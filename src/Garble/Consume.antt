-- ===== src/Garble/Consume.antt =====
-- The evaluator's consumer of encrypted gates ends with the labels of the fold over the gates, also
-- if gates that pad the last batch follow.
use mpz.Prelude.{
  length, sym, ℕ, suc, ◌+◌, ◌<◌, ◌≡◌, refl, ap, ◌∙◌, true, false, ◌==◌, List, [], ◌∷◌, ◌++◌,
  Outcome, ok, ◌>>=◌, ok-injective, binary-eq-ok, unary-eq-ok, ℕ-cases, Bool-cases, inl, inr, arith,
  slice_at,
}
use mpz.Block.{Block, bitxor, zero_block}
use mpz.Circuit.{Gate, xor, and, inv, id}
use mpz.Circuit.Shape.{and_gates}
use mpz.Garble.Gate.{EncryptedGate, evaluate_and}
use mpz.Garble.Evaluator.{
  EvaluatorError, Consumer, consume_loop, consume, consume_all, finish, default_gate,
}
use mpz.Garble.Fold.{consume_gates}

module _ (encrypt : Block → Block) where
  -- Without AND gates, `next` runs the rest of the circuit, whatever gate it is given.
  consume_loop_free :
      (gs : List Gate) (eg : EncryptedGate) (s : Consumer) (egs : List EncryptedGate)
      {labels' : List Block}
      → and_gates gs ≡ 0
      → consume_gates encrypt gs s.gid egs s.labels ≡ ok labels'
      → consume_loop encrypt gs eg s
        ≡ ok (record s { gates = []; labels = labels'; complete = true })
  unfolding consume_loop consume_gates
  consume_loop_free [] eg s egs free h = rw (ok-injective h)
  consume_loop_free (xor x y z ∷ gs) eg s egs free h =
      let (a, b, ys, ea, eb, es, h) =
        binary-eq-ok s.labels zero_block x y z bitxor (λ _ _. consume_gates encrypt gs s.gid egs)
          h in
      rw (ea, eb, es) (consume_loop_free gs eg (record s { labels = ys }) egs free h)
  consume_loop_free (and x y z ∷ gs) eg s egs free h = absurd (omega arith)
  consume_loop_free (inv x z ∷ gs) eg s egs free h =
      let (a, ys, ea, es, h) =
        unary-eq-ok s.labels zero_block x z (λ a. a) (λ _. consume_gates encrypt gs s.gid egs) h in
      rw (ea, es) (consume_loop_free gs eg (record s { labels = ys }) egs free h)
  consume_loop_free (id x z ∷ gs) eg s egs free h =
      let (a, ys, ea, es, h) =
        unary-eq-ok s.labels zero_block x z (λ a. a) (λ _. consume_gates encrypt gs s.gid egs) h in
      rw (ea, es) (consume_loop_free gs eg (record s { labels = ys }) egs free h)

  -- The consumer is on its way to `labels'`: the gates `egs` are still to come.
  pub record OnTrack (s : Consumer) (egs : List EncryptedGate) (labels' : List Block) : Type 0 where
    pub remaining : consume_gates encrypt s.gates s.gid egs s.labels ≡ ok labels'
    pub counted : s.counter + and_gates s.gates ≡ s.and_count
    pub exact : length egs ≡ and_gates s.gates
    pub ended : s.complete ≡ true → s.gates ≡ []

  pub record Consumed (s : Consumer) (egs : List EncryptedGate) (labels' : List Block)
      (result : Outcome EvaluatorError Consumer) : Type 0 where
    pub last : Consumer
    pub returns : result ≡ ok last
    pub on_track : OnTrack last egs labels'
    pub same_outputs : last.outputs ≡ s.outputs

  Consumed-to_end :
      (s last : Consumer) (egs : List EncryptedGate) (labels' : List Block)
      {result : Outcome EvaluatorError Consumer}
      → result ≡ ok (record last { gates = []; labels = labels'; complete = true })
      → last.counter ≡ last.and_count
      → last.outputs ≡ s.outputs
      → length egs ≡ 0
      → Consumed s egs labels' result
  unfolding consume_gates
  Consumed-to_end s last egs labels' e counted same none_left = record {
    last = record last { gates = []; labels = labels'; complete = true };
    returns = e;
    on_track = record {
      remaining = refl;
      counted = omega arith;
      exact = none_left;
      ended = λ _. refl;
    };
    same_outputs = same;
  }

  abbrev counted_consumer : Consumer → List Block → Consumer
  counted_consumer s labels = record s { labels = labels; gid = s.gid + 2; counter = s.counter + 1 }

  consume_and :
      (x y z : ℕ) (gs : List Gate) (eg : EncryptedGate) (s : Consumer) (egs : List EncryptedGate)
      {labels' : List Block}
      → s.counter + and_gates (and x y z ∷ gs) ≡ s.and_count
      → length egs ≡ and_gates gs
      → s.complete ≡ false
      → consume_gates encrypt (and x y z ∷ gs) s.gid (eg ∷ egs) s.labels ≡ ok labels'
      → Consumed s egs labels' (consume_loop encrypt (and x y z ∷ gs) eg s)
  unfolding consume_loop consume_gates
  consume_and x y z gs eg s egs counted exact going h =
      let (a, b, ys, ea, eb, es, h) =
        binary-eq-ok s.labels zero_block x y z (λ a b. evaluate_and encrypt a b eg s.gid)
          (λ _ _. consume_gates encrypt gs (s.gid + 2) egs) h in
      elim (Bool-cases (s.counter + 1 == s.and_count)) [
        | inl last ↦
            (let free : and_gates gs ≡ 0 = ground (arith, last, counted) in
              Consumed-to_end s (counted_consumer s ys) egs _
                (rw (ea, eb, es, last) (consume_loop_free gs eg (counted_consumer s ys) egs free h))
                (ground arith) refl (omega (arith, exact, free)))
        | inr more ↦ record {
          last = record (counted_consumer s ys) { gates = gs };
          returns = rw (ea, eb, es, more);
          on_track = record {
            remaining = h;
            counted = omega arith;
            exact = exact;
            ended = λ e. cc;
          };
          same_outputs = refl;
        }
      ]

  consume_step :
      (gs : List Gate) (eg : EncryptedGate) (s : Consumer) (egs : List EncryptedGate)
      {labels' : List Block}
      → 0 < and_gates gs
      → s.counter + and_gates gs ≡ s.and_count
      → suc (length egs) ≡ and_gates gs
      → s.complete ≡ false
      → consume_gates encrypt gs s.gid (eg ∷ egs) s.labels ≡ ok labels'
      → Consumed s egs labels' (consume_loop encrypt gs eg s)
  unfolding consume_loop consume_gates
  consume_step [] eg s egs some_left counted exact going h = absurd (omega arith)
  consume_step (xor x y z ∷ gs) eg s egs some_left counted exact going h =
      let (a, b, ys, ea, eb, es, h) =
        binary-eq-ok s.labels zero_block x y z bitxor
          (λ _ _. consume_gates encrypt gs s.gid (eg ∷ egs)) h in
      let c = consume_step gs eg (record s { labels = ys }) egs some_left counted exact going h in
      record {
        last = c.last;
        returns = rw (ea, eb, es) c.returns;
        on_track = c.on_track;
        same_outputs = c.same_outputs;
      }
  consume_step (and x y z ∷ gs) eg s egs some_left counted exact going h =
      consume_and x y z gs eg s egs counted (omega (arith, exact)) going h
  consume_step (inv x z ∷ gs) eg s egs some_left counted exact going h =
      let (a, ys, ea, es, h) =
        unary-eq-ok s.labels zero_block x z (λ a. a)
          (λ _. consume_gates encrypt gs s.gid (eg ∷ egs)) h in
      let c = consume_step gs eg (record s { labels = ys }) egs some_left counted exact going h in
      record {
        last = c.last;
        returns = rw (ea, es) c.returns;
        on_track = c.on_track;
        same_outputs = c.same_outputs;
      }
  consume_step (id x z ∷ gs) eg s egs some_left counted exact going h =
      let (a, ys, ea, es, h) =
        unary-eq-ok s.labels zero_block x z (λ a. a)
          (λ _. consume_gates encrypt gs s.gid (eg ∷ egs)) h in
      let c = consume_step gs eg (record s { labels = ys }) egs some_left counted exact going h in
      record {
        last = c.last;
        returns = rw (ea, es) c.returns;
        on_track = c.on_track;
        same_outputs = c.same_outputs;
      }

  -- One more encrypted gate: the next one, or one that pads a batch.
  pub consume_next :
      (eg : EncryptedGate) (egs : List EncryptedGate) (s : Consumer) {labels' : List Block}
      → OnTrack s (eg ∷ egs) labels'
      → Consumed s egs labels' (consume encrypt eg s)
  unfolding consume
  consume_next eg egs s t = elim (ℕ-cases (and_gates s.gates)) [
    | inl free ↦ absurd (omega (arith, free, t.exact))
    | inr some_left ↦
        consume_step s.gates eg s egs some_left t.counted t.exact
          (elim (Bool-cases s.complete) [
            | inl c ↦ absurd (let e = ap and_gates (t.ended c) in omega (arith, e))
            | inr c ↦ c
          ])
          t.remaining
  ]

  consume_padding :
      (eg : EncryptedGate) (s : Consumer) {labels' : List Block}
      → OnTrack s [] labels'
      → Consumed s [] labels' (consume encrypt eg s)
  unfolding consume
  consume_padding eg s t =
      let free = sym t.exact in
      Consumed-to_end s s [] _ (consume_loop_free s.gates eg s [] free t.remaining)
        (omega (arith, t.counted)) refl refl

  Consumed-all :
      (eg : EncryptedGate) (egs rest : List EncryptedGate) (s : Consumer) {labels' : List Block}
      → (c : Consumed s egs labels' (consume encrypt eg s))
      → Consumed c.last [] labels' (consume_all encrypt rest c.last)
      → Consumed s [] labels' (consume_all encrypt (eg ∷ rest) s)
  unfolding consume_all
  Consumed-all eg egs rest s c d = record {
    last = d.last;
    returns = rw c.returns d.returns;
    on_track = d.on_track;
    same_outputs = d.same_outputs ∙ c.same_outputs;
  }

  consume_all-Consumed :
      (egs pad : List EncryptedGate) (s : Consumer) {labels' : List Block}
      → OnTrack s egs labels'
      → Consumed s [] labels' (consume_all encrypt (egs ++ pad) s)
  unfolding consume_all
  consume_all-Consumed [] [] s t = record {
    last = s;
    returns = refl;
    on_track = t;
    same_outputs = refl;
  }
  consume_all-Consumed [] (eg ∷ pad) s t =
      let c = consume_padding eg s t in
      Consumed-all eg [] pad s c (consume_all-Consumed [] pad c.last c.on_track)
  consume_all-Consumed (eg ∷ egs) pad s t =
      let c = consume_next eg egs s t in
      Consumed-all eg egs (egs ++ pad) s c (consume_all-Consumed egs pad c.last c.on_track)

  pub finish-eq-slice_at :
      (s : Consumer) {labels' : List Block}
      → OnTrack s [] labels'
      → finish encrypt s ≡ slice_at labels' s.outputs.start s.outputs.stop
  unfolding finish consume_gates
  finish-eq-slice_at s {labels'} t =
      let free = sym t.exact in
      let counted : (s.counter == s.and_count) ≡ true = ground (arith, t.counted, free) in
      rw counted (elim (Bool-cases s.complete) [
        | inl c ↦ rw (c, labels_done c)
        | inr c ↦ simp (c, consume_loop_free s.gates default_gate s [] free t.remaining)
      ])
    where
      labels_done : s.complete ≡ true → s.labels ≡ labels'
      labels_done c =
          let e : consume_gates encrypt [] s.gid [] s.labels ≡ ok labels' =
            rw (t.ended c) at t.remaining in
          ok-injective e

  -- The consumer, given the fold's gates and any padding, finishes with the fold's output labels.
  pub consume_stream :
      (egs pad : List EncryptedGate) (s : Consumer) {labels' : List Block}
      → s.complete ≡ false
      → s.counter + and_gates s.gates ≡ s.and_count
      → length egs ≡ and_gates s.gates
      → consume_gates encrypt s.gates s.gid egs s.labels ≡ ok labels'
      → (consume_all encrypt (egs ++ pad) s >>= finish encrypt)
        ≡ slice_at labels' s.outputs.start s.outputs.stop
  consume_stream egs pad s going counted exact h =
      let c = consume_all-Consumed egs pad s (record {
        remaining = h;
        counted = counted;
        exact = exact;
        ended = λ e. absurd (ground arith);
      }) in
      rw (c.returns, finish-eq-slice_at c.last c.on_track, c.same_outputs)
