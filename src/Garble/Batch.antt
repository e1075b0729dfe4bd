-- ===== src/Garble/Batch.antt =====
-- Encrypted gates in batches: the batched iterator and consumer of `crates/garble-core/src/garbler.rs` and
-- `evaluator.rs`, and the two protocols of `crates/garble/src/garbler.rs` and `evaluator.rs` over them. The messages
-- that are still to be received are a list, and a stream that ends is the error `io`.
pub mod Padded
pub mod Generate
pub mod Receive
pub mod Correct
use mpz.Prelude.{
  ℕ, zero, suc, ◌+◌, Bool, true, false, List, [], ◌∷◌, ◌++◌, length, take, replicate, ltb, Option,
  none, some, Outcome, ok, err, panic, ◌>>=◌,
}
use mpz.Block.{Block}
use mpz.Circuit.{Circuit}
use mpz.Garble.Gate.{EncryptedGate}
use mpz.Garble.Garbler.{GarblerError, GateIter, has_gates, generate, next, finish as finish_garbler}
use mpz.Garble.Evaluator.{
  EvaluatorError, Consumer, wants_gates, default_gate, start_consumer, consume, finish,
}

-- `EvaluatorError` of `crates/garble/src/evaluator.rs`.
pub data StreamError : Type 0 where
  core : EvaluatorError → StreamError
  io : StreamError

abbrev pub core_error : {A : Type 0} → Outcome EvaluatorError A → Outcome StreamError A
core_error (ok a) = ok a
core_error (err e) = err (core e)
core_error panic = panic

module _ (encrypt : Block → Block) (n : ℕ) where
  -- The loop of `EncryptedGateBatchIter::next`, with this many entries of the batch to go.
  unfoldable pub fill_batch : ℕ → GateIter → Outcome GarblerError (List EncryptedGate × GateIter)
  unfolding next
  fill_batch zero it = ok ([], it)
  fill_batch (suc k) it = do
    (g, it) ← next encrypt it
    elim g [
      | none ↦ ok (replicate (suc k) default_gate, it)
      | some g ↦ (do (gs, it) ← fill_batch k it; ok (g ∷ gs, it))
    ]

  -- `EncryptedGateBatchIter::next`, for batches of `n` gates.
  unfoldable pub next_batch :
      GateIter → Outcome GarblerError (Option (List EncryptedGate) × GateIter)
  unfolding fill_batch
  next_batch it = elim (has_gates it) [
    | true ↦ (do (batch, it) ← fill_batch n it; ok (some batch, it))
    | false ↦ ok (none, it)
  ]

  -- The `while` loop of `generate` of `crates/garble`, with what is sent.
  unfoldable pub send_batches :
      ℕ → GateIter → Outcome GarblerError (List (List EncryptedGate) × GateIter)
  unfolding next_batch
  send_batches zero it = panic
  send_batches (suc fuel) it = do
    (batch, it) ← next_batch it
    elim batch [
      | none ↦ ok ([], it)
      | some batch ↦ (do (rest, it) ← send_batches fuel it; ok (batch ∷ rest, it))
    ]

  -- `generate` of `crates/garble/src/garbler.rs`.
  unfoldable pub generate_streamed :
      Circuit → Block → List Block → Outcome GarblerError (List (List EncryptedGate) × List Block)
  generate_streamed c delta inputs = do
    it ← generate [] c delta inputs
    (batches, it) ← send_batches (length c.gates + 1) it
    outputs ← finish_garbler encrypt it
    ok (batches, outputs)

module _ (encrypt : Block → Block) where
  -- `EncryptedGateBatchConsumer::next`.
  unfoldable pub consume_batch : List EncryptedGate → Consumer → Outcome EvaluatorError Consumer
  consume_batch [] s = ok s
  consume_batch (g ∷ gs) s = do
    s ← consume encrypt g s
    elim (wants_gates s) [ true ↦ consume_batch gs s | false ↦ ok s ]

  -- The `while` loop of `evaluate` of `crates/garble`, with the messages that are left.
  unfoldable pub receive_batches :
      List (List EncryptedGate)
      → Consumer
      → Outcome StreamError (Consumer × List (List EncryptedGate))
  receive_batches [] s = elim (wants_gates s) [ true ↦ err io | false ↦ ok (s, []) ]
  receive_batches (batch ∷ batches) s = elim (wants_gates s) [
    | true ↦ core_error (consume_batch batch s) >>= receive_batches batches
    | false ↦ ok (s, batch ∷ batches)
  ]

  -- `evaluate` of `crates/garble/src/evaluator.rs`.
  unfoldable pub evaluate_streamed :
      Circuit
      → List Block
      → List (List EncryptedGate)
      → Outcome StreamError (List Block × List (List EncryptedGate))
  evaluate_streamed c inputs messages = do
    s ← core_error (start_consumer [] c inputs)
    (s, rest) ← receive_batches messages s
    outputs ← core_error (finish encrypt s)
    ok (outputs, rest)

-- The `while` loop of `receive_garbled_circuit`, from the gates received so far.
unfoldable pub receive_gates :
    ℕ
    → List EncryptedGate
    → List (List EncryptedGate)
    → Outcome StreamError (List EncryptedGate × List (List EncryptedGate))
receive_gates count gates [] = elim (ltb (length gates) count) [
  | true ↦ err io
  | false ↦ ok (take count gates, [])
]
receive_gates count gates (batch ∷ batches) = elim (ltb (length gates) count) [
  | true ↦ receive_gates count (gates ++ batch) batches
  | false ↦ ok (take count gates, batch ∷ batches)
]

-- `receive_garbled_circuit`, with the messages that are left.
abbrev pub receive_garbled_circuit :
    Circuit
    → List (List EncryptedGate)
    → Outcome StreamError (List EncryptedGate × List (List EncryptedGate))
receive_garbled_circuit c messages = receive_gates c.and_count [] messages
