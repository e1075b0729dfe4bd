-- ===== src/Garble/Fold.antt =====
-- Garbling and evaluating as plain folds over the gates, with no iterator: what the loops of
-- `garbler.rs` and `evaluator.rs` come to.
use mpz.Prelude.{ℕ, ◌+◌, List, [], ◌∷◌, Outcome, ok, panic, ◌>>=◌, get_at, set_at}
use mpz.Block.{Block, bitxor}
use mpz.Circuit.{Gate, xor, and, inv, id}
use mpz.Garble.Gate.{EncryptedGate, garble_and, evaluate_and}
use mpz.Garble.Garbler.{GarblerError}
use mpz.Garble.Evaluator.{EvaluatorError}

module _ (encrypt : Block → Block) where
  unfoldable pub garble_gates :
      Block → List Gate → ℕ → List Block → Outcome GarblerError (List EncryptedGate × List Block)
  garble_gates delta [] gid labels = ok ([], labels)
  garble_gates delta (xor x y z ∷ gs) gid labels = do
    x_0 ← get_at labels x
    y_0 ← get_at labels y
    labels ← set_at labels z (bitxor x_0 y_0)
    garble_gates delta gs gid labels
  garble_gates delta (and x y z ∷ gs) gid labels = do
    x_0 ← get_at labels x
    y_0 ← get_at labels y
    let garbled = garble_and encrypt delta x_0 y_0 gid
    labels ← set_at labels z garbled.0
    (rest, labels) ← garble_gates delta gs (gid + 2) labels
    ok (garbled.1 ∷ rest, labels)
  garble_gates delta (inv x z ∷ gs) gid labels = do
    x_0 ← get_at labels x
    labels ← set_at labels z (bitxor x_0 delta)
    garble_gates delta gs gid labels
  garble_gates delta (id x z ∷ gs) gid labels = do
    x_0 ← get_at labels x
    labels ← set_at labels z x_0
    garble_gates delta gs gid labels

  unfoldable pub consume_gates :
      List Gate → ℕ → List EncryptedGate → List Block → Outcome EvaluatorError (List Block)
  consume_gates [] gid egs labels = ok labels
  consume_gates (xor x y z ∷ gs) gid egs labels = do
    x' ← get_at labels x
    y' ← get_at labels y
    labels ← set_at labels z (bitxor x' y')
    consume_gates gs gid egs labels
  consume_gates (and x y z ∷ gs) gid [] labels = panic
  consume_gates (and x y z ∷ gs) gid (eg ∷ egs) labels = do
    x' ← get_at labels x
    y' ← get_at labels y
    labels ← set_at labels z (evaluate_and encrypt x' y' eg gid)
    consume_gates gs (gid + 2) egs labels
  consume_gates (inv x z ∷ gs) gid egs labels = do
    x' ← get_at labels x
    labels ← set_at labels z x'
    consume_gates gs gid egs labels
  consume_gates (id x z ∷ gs) gid egs labels = do
    x' ← get_at labels x
    labels ← set_at labels z x'
    consume_gates gs gid egs labels
