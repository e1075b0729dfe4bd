-- ===== src/Garble/Bulk.antt =====
-- `evaluate_garbled_circuits` of `crates/garble-core/src/evaluator.rs`, in the default build, without threads: one
-- evaluator for all circuits, so that each of them starts from the buffer that the one before left.
use mpz.Prelude.{
  range_len, ◌≡◌, refl, ap, sym, ◌∙◌, Bool, true, List, [], ◌∷◌, length, zip_with, append-nil,
  Outcome, ok, ◌>>=◌, ok-injective, bind_returns, ensure, not, if◌then◌else◌,
}
use mpz.Block.{Block, lsb}
use mpz.Circuit.{Circuit, CircuitError, evaluate}
use mpz.Circuit.Shape.{IsCircuit}
use mpz.Garble.Gate.{EncryptedGate, label}
use mpz.Garble.Garbler.{GarblerError, garble}
use mpz.Garble.Evaluator.{
  EvaluatorError, Consumer, wants_gates, default_gate, start_consumer, consume, consume_all, finish,
  evaluate_garbled,
}
use mpz.Garble.Correct.{evaluate_garbled-garble}

-- A circuit with its input MACs and its garbled circuit.
pub record GarbledCall : Type 0 where
  pub circ : Circuit
  pub inputs : List Block
  pub gates : List EncryptedGate

module _ (encrypt : Block → Block) where
  -- The labels that `EncryptedGateConsumer::finish` leaves in the buffer of the evaluator.
  unfoldable left_buffer : Consumer → Outcome EvaluatorError (List Block)
  left_buffer s = do s ← (if s.complete then ok s else consume encrypt default_gate s); ok s.labels

  unfoldable pub evaluate_garbled_circuits :
      List Block → List GarbledCall → Outcome EvaluatorError (List (List Block))
  unfolding left_buffer
  evaluate_garbled_circuits buffer [] = ok []
  evaluate_garbled_circuits buffer (call ∷ calls) = do
    s ← start_consumer buffer call.circ call.inputs
    s ← consume_all encrypt call.gates s
    outputs ← finish encrypt s
    buffer ← left_buffer s
    rest ← evaluate_garbled_circuits buffer calls
    ok (outputs ∷ rest)

  finish-left_buffer :
      (s : Consumer) {outputs : List Block}
      → finish encrypt s ≡ ok outputs
      → (buffer : List Block) × (left_buffer s ≡ ok buffer)
  unfolding finish left_buffer
  finish-left_buffer s returned =
      let (_, _, returned) = bind_returns (ensure (not (wants_gates s)) _) _ returned in
      let (last, e, _) =
        bind_returns (if s.complete then ok s else consume encrypt default_gate s) _ returned in
      (last.labels, rw e refl)

  -- A circuit that evaluates from the buffer comes first, and leaves a buffer to the others.
  evaluate_garbled_circuits-first :
      (buffer : List Block) (call : GarbledCall) (calls : List GarbledCall) {outputs : List Block}
      → evaluate_garbled encrypt buffer call.circ call.inputs call.gates ≡ ok outputs
      → (buffer' : List Block) × (evaluate_garbled_circuits buffer (call ∷ calls)
          ≡ (evaluate_garbled_circuits buffer' calls >>= λ rest. ok (outputs ∷ rest)))
  unfolding evaluate_garbled evaluate_garbled_circuits
  evaluate_garbled_circuits-first buffer call calls returned =
      let started = start_consumer buffer call.circ call.inputs in
      let (s, consumed, finished) =
        bind_returns (started >>= consume_all encrypt call.gates) _ returned in
      let (first, start, consumed) =
        bind_returns started (consume_all encrypt call.gates) consumed in
      let (buffer', left) = finish-left_buffer s finished in
      (buffer', rw (start, consumed, finished, left) refl)

-- A circuit to garble, with the keys and the bits of its inputs.
pub record Job : Type 0 where
  pub circ : Circuit
  pub keys : List Block
  pub inputs : List Bool

pub record IsJob (job : Job) : Type 0 where
  pub circuit : IsCircuit job.circ
  pub keys_len : length job.keys ≡ range_len job.circ.inputs
  pub inputs_len : length job.inputs ≡ range_len job.circ.inputs

abbrev pub AreJobs : List Job → Type 0
AreJobs [] = Unit {0}
AreJobs (job ∷ jobs) = IsJob job × AreJobs jobs

-- Plain evaluation of every circuit.
abbrev pub evaluate_each : List Job → Outcome CircuitError (List (List Bool))
evaluate_each [] = ok []
evaluate_each (job ∷ jobs) = do
  outputs ← evaluate job.circ job.inputs
  rest ← evaluate_each jobs
  ok (outputs ∷ rest)

module _ (encrypt : Block → Block) (delta : Block) where
  -- Garbling of every circuit by a garbler of its own.
  abbrev pub garble_each : List Job → Outcome GarblerError (List (List EncryptedGate × List Block))
  garble_each [] = ok []
  garble_each (job ∷ jobs) = do
    garbled ← garble encrypt [] job.circ delta job.keys
    rest ← garble_each jobs
    ok (garbled ∷ rest)

  -- What the evaluator of a job holds: the labels of the input bits and the encrypted gates.
  abbrev pub held_call : Job → List EncryptedGate × List Block → GarbledCall
  held_call job garbled = record {
    circ = job.circ;
    inputs = zip_with (label delta) job.keys job.inputs;
    gates = garbled.0;
  }

  abbrev pub output_labels : List EncryptedGate × List Block → List Bool → List Block
  output_labels garbled outputs = zip_with (label delta) garbled.1 outputs

  evaluate_garbled-any :
      (job : Job)
      → lsb delta ≡ true
      → IsJob job
      → (garbled : List EncryptedGate × List Block) × (outputs : List Bool) × (garble encrypt []
            job.circ delta job.keys
          ≡ ok garbled)
        × (evaluate job.circ job.inputs ≡ ok outputs)
        × ((buffer : List Block)
            → let call = held_call job garbled in
              evaluate_garbled encrypt buffer call.circ call.inputs call.gates
              ≡ ok (output_labels garbled outputs))
  evaluate_garbled-any job pointer w =
      let at = λ (buffer : List Block).
        evaluate_garbled-garble encrypt delta job.circ [] buffer job.keys job.inputs pointer
          w.circuit w.keys_len w.inputs_len in
      let (gates, output_keys, outputs, garbled, evaluated, _) = at [] in
      (
        (gates, output_keys),
        outputs,
        garbled,
        evaluated,
        λ buffer.
            let (gates', output_keys', outputs', garbled', evaluated', returned) = at buffer in
            let e = ok-injective (sym garbled' ∙ garbled) in
            let o = ok-injective (sym evaluated' ∙ evaluated) in
            rw (append-nil gates', ap (λ p. p.0) e, ap (λ p. p.1) e, o) at (returned []),
      )

  -- With a delta with pointer bit 1, for well-formed circuits with as many keys and bits as inputs: every circuit
  -- garbles, plain evaluation of every circuit returns, and the evaluation of all garbled circuits on the labels of
  -- the input bits, one after another in one buffer that may hold anything at first, returns the labels of the
  -- output bits of each.
  pub evaluate_garbled_circuits-garble_each :
      (jobs : List Job)
      → lsb delta ≡ true
      → AreJobs jobs
      → (garbled : List (List EncryptedGate × List Block)) × (outputs : List (List Bool))
        × (garble_each jobs ≡ ok garbled)
        × (evaluate_each jobs ≡ ok outputs)
        × ((buffer : List Block)
            → evaluate_garbled_circuits encrypt buffer (zip_with held_call jobs garbled)
              ≡ ok (zip_with output_labels garbled outputs))
  unfolding evaluate_garbled_circuits
  evaluate_garbled_circuits-garble_each [] pointer w = ([], [], refl, refl, λ buffer. refl)
  evaluate_garbled_circuits-garble_each (job ∷ jobs) pointer (w, ws) =
      let (garbled, outputs, g, o, returned) = evaluate_garbled-any job pointer w in
      let (others, rest, gs, os, all) = evaluate_garbled_circuits-garble_each jobs pointer ws in
      (
        garbled ∷ others,
        outputs ∷ rest,
        rw (g, gs) refl,
        rw (o, os) refl,
        λ buffer.
            let (buffer', first) =
              evaluate_garbled_circuits-first encrypt buffer (held_call job garbled)
                (zip_with held_call jobs others) (returned buffer) in
            first ∙ ap (λ m. m >>= λ rest. ok (output_labels garbled outputs ∷ rest)) (all buffer'),
      )
