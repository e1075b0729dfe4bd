-- ===== src/Garble/Stream.antt =====
-- The garbler's iterator gives the encrypted gates and labels of the fold over the gates.
use mpz.Prelude.{
  ℕ, zero, suc, ◌+◌, ◌<◌, ◌≡◌, refl, ◌∙◌, true, false, ◌==◌, none, some, List, [], ◌∷◌, Outcome, ok,
  ◌>>=◌, bind_returns, ok-injective, length, binary-eq-ok, unary-eq-ok, ℕ-cases, Bool-cases, inl,
  inr, arith, slice_at, get_at, set_at,
}
use mathlib.Core.Path.{subst}
use mpz.Block.{Block, bitxor, zero_block}
use mpz.Circuit.{Gate, xor, and, inv, id}
use mpz.Circuit.Shape.{and_gates}
use mpz.Garble.Gate.{EncryptedGate, garble_and}
use mpz.Garble.Garbler.{GarblerError, GateIter, next_loop, finish, collect}
use mpz.Garble.Fold.{garble_gates}

module _ (encrypt : Block → Block) where
  -- Without AND gates, `next` runs the rest of the circuit and has no gate to give.
  pub next_loop_free :
      (gs : List Gate) (it : GateIter) (egs : List EncryptedGate) (labels' : List Block)
      → and_gates gs ≡ 0
      → garble_gates encrypt it.delta gs it.gid it.labels ≡ ok (egs, labels')
      → (egs ≡ [])
        × (next_loop encrypt gs it ≡ ok (none, record it { gates = []; labels = labels' }))
  unfolding next_loop garble_gates
  next_loop_free [] it egs labels' free h = ground arith
  next_loop_free (xor x y z ∷ gs) it egs labels' free h =
      let (a, b, ys, ea, eb, es, h) =
        binary-eq-ok it.labels zero_block x y z bitxor
          (λ _ _. garble_gates encrypt it.delta gs it.gid) h in
      let (e, n) = next_loop_free gs (record it { labels = ys }) egs labels' free h in
      (e, rw (ea, eb, es) n)
  next_loop_free (and x y z ∷ gs) it egs labels' free h = absurd (omega arith)
  next_loop_free (inv x z ∷ gs) it egs labels' free h =
      let (a, ys, ea, es, h) =
        unary-eq-ok it.labels zero_block x z (λ a. bitxor a it.delta)
          (λ _. garble_gates encrypt it.delta gs it.gid) h in
      let (e, n) = next_loop_free gs (record it { labels = ys }) egs labels' free h in
      (e, rw (ea, es) n)
  next_loop_free (id x z ∷ gs) it egs labels' free h =
      let (a, ys, ea, es, h) =
        unary-eq-ok it.labels zero_block x z (λ a. a) (λ _. garble_gates encrypt it.delta gs it.gid)
          h in
      let (e, n) = next_loop_free gs (record it { labels = ys }) egs labels' free h in
      (e, rw (ea, es) n)

  -- With an AND gate ahead, `next` gives the first encrypted gate, and what is left of the circuit
  -- garbles to the others.
  pub record Stepped (gs : List Gate) (it : GateIter) (egs : List EncryptedGate)
      (labels' : List Block) : Type 0 where
    pub first : EncryptedGate
    pub others : List EncryptedGate
    pub it' : GateIter
    pub split : egs ≡ first ∷ others
    pub steps : next_loop encrypt gs it ≡ ok (some first, it')
    pub remaining :
        garble_gates encrypt it'.delta it'.gates it'.gid it'.labels ≡ ok (others, labels')
    pub counted : it'.counter + and_gates it'.gates ≡ it'.and_count
    pub ended : it.complete ≡ false → it'.complete ≡ true → it'.gates ≡ []
    pub same_outputs : it'.outputs ≡ it.outputs
    pub shorter : length it'.gates < length gs

  Stepped-free :
      (g : Gate) (gs : List Gate) (it : GateIter) (labels : List Block) {egs : List EncryptedGate}
      {labels' : List Block}
      → next_loop encrypt (g ∷ gs) it ≡ next_loop encrypt gs (record it { labels = labels })
      → Stepped gs (record it { labels = labels }) egs labels'
      → Stepped (g ∷ gs) it egs labels'
  Stepped-free g gs it labels e s = record {
    first = s.first;
    others = s.others;
    it' = s.it';
    split = s.split;
    steps = e ∙ s.steps;
    remaining = s.remaining;
    counted = s.counted;
    ended = s.ended;
    same_outputs = s.same_outputs;
    shorter = omega (arith, s.shorter);
  }

  abbrev counted_iter : GateIter → List Block → GateIter
  counted_iter it labels = record it { labels = labels; gid = it.gid + 2; counter = it.counter + 1 }

  -- An AND gate whose reads and write are given, and whose other gates garble to `others`.
  module _ (x y z : ℕ) (gs : List Gate) (it : GateIter) (a b : Block) (ys : List Block)
      (others : List EncryptedGate) (final : List Block)
      (counted : it.counter + and_gates (and x y z ∷ gs) ≡ it.and_count)
      (ea : get_at {E = GarblerError} it.labels x ≡ ok a)
      (eb : get_at {E = GarblerError} it.labels y ≡ ok b)
      (es : set_at {E = GarblerError} it.labels z (garble_and encrypt it.delta a b it.gid).0
        ≡ ok ys)
      (eg : garble_gates encrypt it.delta gs (it.gid + 2) ys ≡ ok (others, final)) where
    abbrev Goal : Type 0
    Goal = Stepped (and x y z ∷ gs) it ((garble_and encrypt it.delta a b it.gid).1 ∷ others) final

    Stepped-and_last : it.counter + 1 == it.and_count ≡ true → Goal
    unfolding next_loop garble_gates
    Stepped-and_last last =
        let (no_others, n) =
          next_loop_free gs (counted_iter it ys) others final (ground arith) eg in
        record {
          first = (garble_and encrypt it.delta a b it.gid).1;
          others = others;
          it' = record (counted_iter it ys) { gates = []; labels = final; complete = true };
          split = refl;
          steps = rw (ea, eb, es, last, n);
          remaining = rw no_others;
          counted = ground arith;
          ended = λ _ _. refl;
          same_outputs = refl;
          shorter = omega arith;
        }

    Stepped-and_more : it.counter + 1 == it.and_count ≡ false → Goal
    unfolding next_loop garble_gates
    Stepped-and_more more = record {
      first = (garble_and encrypt it.delta a b it.gid).1;
      others = others;
      it' = record (counted_iter it ys) { gates = gs };
      split = refl;
      steps = rw (ea, eb, es, more);
      remaining = eg;
      counted = omega arith;
      ended = λ going complete. cc;
      same_outputs = refl;
      shorter = omega arith;
    }

    Stepped-and_any : Goal
    Stepped-and_any = elim (Bool-cases (it.counter + 1 == it.and_count)) [
      | inl last ↦ Stepped-and_last last
      | inr more ↦ Stepped-and_more more
    ]

  Stepped-and :
      (x y z : ℕ) (gs : List Gate) (it : GateIter) {egs : List EncryptedGate} {labels' : List Block}
      → it.counter + and_gates (and x y z ∷ gs) ≡ it.and_count
      → garble_gates encrypt it.delta (and x y z ∷ gs) it.gid it.labels ≡ ok (egs, labels')
      → Stepped (and x y z ∷ gs) it egs labels'
  unfolding garble_gates
  Stepped-and x y z gs it {egs} {labels'} counted h =
      let (a, b, ys, ea, eb, es, h) =
        binary-eq-ok it.labels zero_block x y z (λ a b. (garble_and encrypt it.delta a b it.gid).0)
          (λ a b labels. garble_gates encrypt it.delta gs (it.gid + 2) labels >>= λ rest.
            ok ((garble_and encrypt it.delta a b it.gid).1 ∷ rest.0, rest.1))
          h in
      let (rest, eg, h) = bind_returns (garble_gates encrypt it.delta gs (it.gid + 2) ys) _ h in
      subst (λ p. Stepped (and x y z ∷ gs) it p.0 p.1) (ok-injective h)
        (Stepped-and_any x y z gs it a b ys rest.0 rest.1 counted ea eb es eg)

  pub step :
      (gs : List Gate) (it : GateIter) {egs : List EncryptedGate} {labels' : List Block}
      → 0 < and_gates gs
      → it.counter + and_gates gs ≡ it.and_count
      → garble_gates encrypt it.delta gs it.gid it.labels ≡ ok (egs, labels')
      → Stepped gs it egs labels'
  unfolding garble_gates next_loop
  step [] it some_left counted h = absurd (omega arith)
  step (xor x y z ∷ gs) it some_left counted h =
      let (a, b, ys, ea, eb, es, h) =
        binary-eq-ok it.labels zero_block x y z bitxor
          (λ _ _. garble_gates encrypt it.delta gs it.gid) h in
      Stepped-free _ gs it ys (rw (ea, eb, es))
        (step gs (record it { labels = ys }) some_left counted h)
  step (and x y z ∷ gs) it some_left counted h = Stepped-and x y z gs it counted h
  step (inv x z ∷ gs) it some_left counted h =
      let (a, ys, ea, es, h) =
        unary-eq-ok it.labels zero_block x z (λ a. bitxor a it.delta)
          (λ _. garble_gates encrypt it.delta gs it.gid) h in
      Stepped-free _ gs it ys (rw (ea, es))
        (step gs (record it { labels = ys }) some_left counted h)
  step (id x z ∷ gs) it some_left counted h =
      let (a, ys, ea, es, h) =
        unary-eq-ok it.labels zero_block x z (λ a. a) (λ _. garble_gates encrypt it.delta gs it.gid)
          h in
      Stepped-free _ gs it ys (rw (ea, es))
        (step gs (record it { labels = ys }) some_left counted h)

  -- What is left of the iterator after all gates were taken.
  record Collected (it : GateIter) (egs : List EncryptedGate) (labels' : List Block)
      (result : Outcome GarblerError (List EncryptedGate × GateIter)) : Type 0 where
    last : GateIter
    returns : result ≡ ok (egs, last)
    final_labels : last.labels ≡ labels'
    no_gates : last.gates ≡ []
    all_counted : last.counter ≡ last.and_count
    same_outputs : last.outputs ≡ it.outputs

  -- Enough fuel is one round for each gate of the circuit, and one more.
  collect-Collected :
      (fuel : ℕ) (it : GateIter) {egs : List EncryptedGate} {labels' : List Block}
      → length it.gates < fuel
      → it.counter + and_gates it.gates ≡ it.and_count
      → garble_gates encrypt it.delta it.gates it.gid it.labels ≡ ok (egs, labels')
      → Collected it egs labels' (collect encrypt fuel it)
  collect-Collected zero it enough counted h = absurd (omega arith)
  collect-Collected (suc fuel) it {egs} {labels'} enough counted h =
      elim (ℕ-cases (and_gates it.gates)) [
        | inl free ↦ free_case free
        | inr some_left ↦
            let s = step it.gates it some_left counted h in
            stepped_case s
              (collect-Collected fuel s.it' (omega (arith, s.shorter)) s.counted s.remaining)
      ]
    where
      free_case : and_gates it.gates ≡ 0 → Collected it egs labels' (collect encrypt (suc fuel) it)
      free_case free =
          let (e, n) = next_loop_free it.gates it egs labels' free h in
          record {
            last = record it { gates = []; labels = labels' };
            returns = unfold collect in rw (n, e);
            final_labels = refl;
            no_gates = refl;
            all_counted = omega arith;
            same_outputs = refl;
          }

      stepped_case :
          (s : Stepped it.gates it egs labels')
          → Collected s.it' s.others labels' (collect encrypt fuel s.it')
          → Collected it egs labels' (collect encrypt (suc fuel) it)
      stepped_case s c = record {
        last = c.last;
        returns = unfold collect in rw (s.steps, c.returns, s.split);
        final_labels = c.final_labels;
        no_gates = c.no_gates;
        all_counted = c.all_counted;
        same_outputs = c.same_outputs ∙ s.same_outputs;
      }

  -- At the end of its gates, `finish` returns the labels of the output range.
  finish-eq-slice_at :
      (it : GateIter)
      → it.gates ≡ []
      → it.counter ≡ it.and_count
      → finish encrypt it ≡ slice_at it.labels it.outputs.start it.outputs.stop
  unfolding finish next_loop
  finish-eq-slice_at it no_gates counted =
      rw (let e : (it.counter == it.and_count) ≡ true = ground arith in e)
        (elim (Bool-cases it.complete) [ inl c ↦ rw c | inr c ↦ rw (c, no_gates) ])

  -- For an iterator whose counter and AND gates left make up its AND gates, and whose gates garble one after
  -- another, the loop over `next` ends after at most one round more than there are gates left: it has then taken
  -- the encrypted gates of all of them, and `finish` returns the slice of the outputs of the labels they leave.
  pub collect-garble_gates :
      (fuel : ℕ) (it : GateIter) {egs : List EncryptedGate} {labels' : List Block}
      → length it.gates < fuel
      → it.counter + and_gates it.gates ≡ it.and_count
      → garble_gates encrypt it.delta it.gates it.gid it.labels ≡ ok (egs, labels')
      → (last : GateIter) × (collect encrypt fuel it ≡ ok (egs, last))
        × (finish encrypt last ≡ slice_at labels' it.outputs.start it.outputs.stop)
  collect-garble_gates fuel it enough counted h =
      let c = collect-Collected fuel it enough counted h in
      (
        c.last,
        c.returns,
        rw (finish-eq-slice_at c.last c.no_gates c.all_counted, c.final_labels, c.same_outputs),
      )
