-- ===== src/Garble/Evaluator.antt =====
-- `crates/garble-core/src/evaluator.rs`: the evaluator's consumer of encrypted gates.
use mpz.Prelude.{
  Range, range_len, ℕ, ◌+◌, Bool, true, false, not, ◌==◌, List, [], ◌∷◌, Outcome, ok, ◌>>=◌, ◌>>◌,
  get_at, set_at, slice_at, ensure, length, if◌then◌else◌,
}
use mpz.Block.{Block, bitxor, zero_block}
use mpz.Circuit.{Gate, xor, and, inv, id, Circuit}
use mpz.Garble.Gate.{EncryptedGate, evaluate_and}
use mpz.Garble.Garbler.{expand, copy_inputs}

pub data EvaluatorError : Type 0 where
  input_length : ℕ → ℕ → EvaluatorError
  not_finished : EvaluatorError

-- `EncryptedGateConsumer`.
pub record Consumer : Type 0 where
  pub labels : List Block
  pub gates : List Gate
  pub gid : ℕ
  pub counter : ℕ
  pub and_count : ℕ
  pub outputs : Range
  pub complete : Bool

abbrev pub wants_gates : Consumer → Bool
wants_gates c = not (c.counter == c.and_count)

-- `EncryptedGate::default()`.
abbrev pub default_gate : EncryptedGate
default_gate = record { t_g = zero_block; t_e = zero_block }

-- `Evaluator::evaluate`.
unfoldable pub start_consumer : List Block → Circuit → List Block → Outcome EvaluatorError Consumer
start_consumer buffer c inputs = do
  ensure (length inputs == range_len c.inputs) (input_length (range_len c.inputs) (length inputs))
  labels ← copy_inputs inputs (expand c.feed_count buffer)
  ok (record {
    labels = labels;
    gates = c.gates;
    gid = 1;
    counter = 0;
    and_count = c.and_count;
    outputs = c.outputs;
    complete = false;
  })

module _ (encrypt : Block → Block) where
  -- The loop of `EncryptedGateConsumer::next`: the free gates, up to and including an AND, and the
  -- rest too if no more gates are wanted.
  unfoldable pub consume_loop :
      List Gate → EncryptedGate → Consumer → Outcome EvaluatorError Consumer
  consume_loop [] encrypted_gate s = ok (record s { gates = []; complete = true })
  consume_loop (xor x y z ∷ gs) encrypted_gate s = do
    x' ← get_at s.labels x
    y' ← get_at s.labels y
    labels ← set_at s.labels z (bitxor x' y')
    consume_loop gs encrypted_gate (record s { labels = labels })
  consume_loop (and x y z ∷ gs) encrypted_gate s = do
    x' ← get_at s.labels x
    y' ← get_at s.labels y
    labels ← set_at s.labels z (evaluate_and encrypt x' y' encrypted_gate s.gid)
    let s = record s { labels = labels; gid = s.gid + 2; counter = s.counter + 1 }
    elim (wants_gates s) [
      | true ↦ ok (record s { gates = gs })
      | false ↦ consume_loop gs encrypted_gate s
    ]
  consume_loop (inv x z ∷ gs) encrypted_gate s = do
    x' ← get_at s.labels x
    labels ← set_at s.labels z x'
    consume_loop gs encrypted_gate (record s { labels = labels })
  consume_loop (id x z ∷ gs) encrypted_gate s = do
    x' ← get_at s.labels x
    labels ← set_at s.labels z x'
    consume_loop gs encrypted_gate (record s { labels = labels })

  -- `EncryptedGateConsumer::next`.
  unfoldable pub consume : EncryptedGate → Consumer → Outcome EvaluatorError Consumer
  consume encrypted_gate s = consume_loop s.gates encrypted_gate s

  -- `EncryptedGateConsumer::finish`, with the output MACs of `EvaluatorOutput`.
  unfoldable pub finish : Consumer → Outcome EvaluatorError (List Block)
  unfolding consume
  finish s = do
    ensure (not (wants_gates s)) not_finished
    s ← (if s.complete then ok s else consume default_gate s)
    slice_at s.labels s.outputs.start s.outputs.stop

  unfoldable pub consume_all : List EncryptedGate → Consumer → Outcome EvaluatorError Consumer
  consume_all [] s = ok s
  consume_all (g ∷ gs) s = consume g s >>= consume_all gs

  -- A round of the loop of `evaluate_garbled_circuits`, for one garbled circuit.
  unfoldable pub evaluate_garbled :
      List Block → Circuit → List Block → List EncryptedGate → Outcome EvaluatorError (List Block)
  unfolding start_consumer
  evaluate_garbled buffer c inputs gates =
      start_consumer buffer c inputs >>= consume_all gates >>= finish
