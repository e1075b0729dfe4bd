-- ===== src/Garble/Batch/Generate.antt =====
-- The batched iterator gives the encrypted gates of the fold over the gates, in batches.
use mpz.Prelude.{
  ℕ, zero, suc, ◌+◌, ◌≤◌, ◌<◌, ◌≡◌, refl, ap, ◌∙◌, true, false, ◌==◌, arith, none, some, List, [],
  ◌∷◌, length, drop, slice_at, ok-injective, Outcome, ok, ◌>>=◌, ℕ-cases, Bool-cases, inl, inr,
}
use mathlib.Core.Path.{subst}
use mpz.Block.{Block}
use mpz.Circuit.Shape.{and_gates}
use mpz.Garble.Gate.{EncryptedGate}
use mpz.Garble.Garbler.{GarblerError, GateIter, next, finish}
use mpz.Garble.Fold.{garble_gates}
use mpz.Garble.Stream.{next_loop_free, Stepped, step}
use mpz.Garble.Batch.{fill_batch, next_batch, send_batches}
use mpz.Garble.Batch.Padded.{padded, padded-nil, IsBatched}

module _ (encrypt : Block → Block) where
  -- The iterator is on its way to `labels'`: the gates `egs` are still to be given.
  pub record Ready (it : GateIter) (egs : List EncryptedGate) (labels' : List Block) : Type 0 where
    pub remaining : garble_gates encrypt it.delta it.gates it.gid it.labels ≡ ok (egs, labels')
    pub counted : it.counter + and_gates it.gates ≡ it.and_count
    pub ended : it.complete ≡ true → it.gates ≡ []

  Ready-Stepped :
      (it : GateIter) (egs : List EncryptedGate) (labels' : List Block)
      → Ready it egs labels'
      → 0 < and_gates it.gates
      → (s : Stepped encrypt it.gates it egs labels') × Ready s.it' s.others labels'
  Ready-Stepped it egs labels' r some_left =
      let s = step encrypt it.gates it some_left r.counted r.remaining in
      (s, record { remaining = s.remaining; counted = s.counted; ended = s.ended going })
    where
      going : it.complete ≡ false
      going = elim (Bool-cases it.complete) [
        | inl complete ↦
            absurd (let e = ap and_gates (r.ended complete) in omega (arith, e, some_left))
        | inr more ↦ more
      ]

  Ready-end :
      (it : GateIter) (labels' : List Block)
      → it.counter ≡ it.and_count
      → Ready (record it { gates = []; labels = labels' }) [] labels'
  unfolding garble_gates
  Ready-end it labels' counted = record {
    remaining = refl;
    counted = omega (arith, counted);
    ended = λ _. refl;
  }

  -- What one batch takes from an iterator.
  record Filled (k : ℕ) (it : GateIter) (egs : List EncryptedGate) (labels' : List Block)
      (result : Outcome GarblerError (List EncryptedGate × GateIter)) : Type 0 where
    it' : GateIter
    returns : result ≡ ok (padded k egs, it')
    ready : Ready it' (drop k egs) labels'
    same_outputs : it'.outputs ≡ it.outputs
    not_longer : length it'.gates ≤ length it.gates
    shorter : 0 < k → 0 < length egs → length it'.gates < length it.gates

  module _ (n : ℕ) where
    fill_batch-Filled :
        (k : ℕ) (it : GateIter) (egs : List EncryptedGate) (labels' : List Block)
        → Ready it egs labels'
        → Filled k it egs labels' (fill_batch encrypt n k it)
    unfolding fill_batch next
    fill_batch-Filled zero it egs labels' r = record {
      it' = it;
      returns = refl;
      ready = r;
      same_outputs = refl;
      not_longer = omega arith;
      shorter = λ a b. absurd (omega (arith, a));
    }
    fill_batch-Filled (suc k) it egs labels' r = elim (ℕ-cases (and_gates it.gates)) [
      | inl free ↦ free_case free
      | inr some_left ↦
          let (s, next_ready) = Ready-Stepped it egs labels' r some_left in
          step_case s (fill_batch-Filled k s.it' s.others labels' next_ready)
    ]
      where
        free_case :
            and_gates it.gates ≡ 0 → Filled (suc k) it egs labels' (fill_batch encrypt n (suc k) it)
        free_case free =
            let (none_left, n) = next_loop_free encrypt it.gates it egs labels' free r.remaining in
            record {
              it' = record it { gates = []; labels = labels' };
              returns = rw (n, none_left, padded-nil k) refl;
              ready = rw none_left (Ready-end it labels' (omega (arith, r.counted, free)));
              same_outputs = refl;
              not_longer = omega arith;
              shorter = λ a b. absurd (omega (arith, b, ap length none_left));
            }

        step_case :
            (s : Stepped encrypt it.gates it egs labels')
            → Filled k s.it' s.others labels' (fill_batch encrypt n k s.it')
            → Filled (suc k) it egs labels' (fill_batch encrypt n (suc k) it)
        step_case s f = record {
          it' = f.it';
          returns = rw (s.steps, f.returns, s.split) refl;
          ready = rw s.split f.ready;
          same_outputs = f.same_outputs ∙ s.same_outputs;
          not_longer = omega (arith, f.not_longer, s.shorter);
          shorter = λ a b. omega (arith, f.not_longer, s.shorter);
        }

    next_batch_none :
        (it : GateIter)
        → (it.counter == it.and_count) ≡ true
        → next_batch encrypt n it ≡ ok (none, it)
    unfolding next_batch
    next_batch_none it at_end = rw (at_end, next_batch) refl

    next_batch-eq-some :
        (it : GateIter)
        → (it.counter == it.and_count) ≡ false
        → next_batch encrypt n it ≡ (fill_batch encrypt n n it >>= λ r. ok (some r.0, r.1))
    unfolding next_batch
    next_batch-eq-some it more = rw (more, next_batch) refl

    -- The batches that are sent, and the iterator after them.
    pub record Sent (it : GateIter) (egs : List EncryptedGate) (labels' : List Block)
        (result : Outcome GarblerError (List (List EncryptedGate) × GateIter)) : Type 0 where
      pub batches : List (List EncryptedGate)
      pub last : GateIter
      pub returns : result ≡ ok (batches, last)
      pub batched : IsBatched n egs batches
      pub ready : Ready last [] labels'
      pub same_outputs : last.outputs ≡ it.outputs

    pub send_batches-Sent :
        (fuel : ℕ) (it : GateIter) (egs : List EncryptedGate) (labels' : List Block)
        → 0 < n
        → length it.gates < fuel
        → Ready it egs labels'
        → Sent it egs labels' (send_batches encrypt n fuel it)
    unfolding send_batches
    send_batches-Sent zero it egs labels' positive enough r = absurd (omega (arith, enough))
    send_batches-Sent (suc fuel) it egs labels' positive enough r =
        elim (ℕ-cases (and_gates it.gates)) [
          | inl free ↦
              (let (none_left, _) =
                  next_loop_free encrypt it.gates it egs labels' free r.remaining in
                let at_end : (it.counter == it.and_count) ≡ true =
                  ground (arith, r.counted, free) in
                record {
                  batches = [];
                  last = it;
                  returns = rw (next_batch_none it at_end, send_batches) refl;
                  batched = none_left;
                  ready = subst (λ t. Ready it t labels') none_left r;
                  same_outputs = refl;
                })
          | inr some_left ↦
              let (s, _) = Ready-Stepped it egs labels' r some_left in
              let f = fill_batch-Filled n it egs labels' r in
              let nonempty : 0 < length egs = omega (arith, ap length s.split) in
              let more : (it.counter == it.and_count) ≡ false =
                ground (arith, r.counted, some_left) in
              let rest =
                send_batches-Sent fuel f.it' (drop n egs) labels' positive
                  (omega (arith, enough, f.shorter positive nonempty)) f.ready in
              record {
                batches = padded n egs ∷ rest.batches;
                last = rest.last;
                returns =
                    rw (next_batch-eq-some it more, f.returns, rest.returns, send_batches) refl;
                batched = (nonempty, refl, rest.batched);
                ready = rest.ready;
                same_outputs = rest.same_outputs ∙ f.same_outputs;
              }
        ]

  -- At the end, `finish` returns the labels of the output range.
  pub finish-Ready :
      (it : GateIter) (labels' : List Block)
      → Ready it [] labels'
      → finish encrypt it ≡ slice_at labels' it.outputs.start it.outputs.stop
  unfolding finish next garble_gates
  finish-Ready it labels' r =
      let at_end : (it.counter == it.and_count) ≡ true = ground (arith, r.counted, free) in
      rw at_end (elim (Bool-cases it.complete) [
        | inl complete ↦ rw (complete, labels_done complete)
        | inr more ↦ simp (more, (next_loop_free encrypt it.gates it [] labels' free r.remaining).1)
      ])
    where
      free : and_gates it.gates ≡ 0
      free = elim (ℕ-cases (and_gates it.gates)) [
        | inl zero_left ↦ zero_left
        | inr some_left ↦ absurd (
            let s = step encrypt it.gates it some_left r.counted r.remaining in
            omega (arith, ap length s.split))
      ]

      labels_done : it.complete ≡ true → it.labels ≡ labels'
      labels_done complete =
          let e : garble_gates encrypt it.delta [] it.gid it.labels ≡ ok ([], labels') =
            rw (r.ended complete) at r.remaining in
          ap (λ (p : List EncryptedGate × List Block). p.1) (ok-injective e)
