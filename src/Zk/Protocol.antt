-- ===== src/Zk/Protocol.antt =====
-- The parts of `crates/zk/src/prover.rs` and `verifier.rs` that run one circuit. The adjustment bits of all
-- the batches that are sent are one list.
use mpz.Prelude.{ℕ, zero, suc, ◌+◌, Bool, List, [], ◌∷◌, none, some, Outcome, ok, ◌>>=◌}
use mpz.Block.{Block}
use mpz.Circuit.{Circuit}
use mpz.Zk.Prover as Prover
use mpz.Zk.Prover.{Prover, ProverExecute, ProverError}
use mpz.Zk.Verifier as Verifier
use mpz.Zk.Verifier.{Verifier, VerifierExecute, VerifierError}

-- The loop that takes bits from the iterator until there are none.
unfoldable pub collect : ℕ → ProverExecute → Outcome ProverError (List Bool × ProverExecute)
unfolding Prover.next_loop
collect zero s = ok ([], s)
collect (suc fuel) s = Prover.next s >>= λ r. elim r.0 [
  | none ↦ ok ([], r.1)
  | some adjust ↦ (do rest ← collect fuel r.1; ok (adjust ∷ rest.0, rest.1))
]

-- The loop that hands the bits to the consumer.
unfoldable pub consume_all : List Bool → VerifierExecute → Outcome VerifierError VerifierExecute
unfolding Verifier.consume_loop
consume_all [] s = ok s
consume_all (bit ∷ bits) s = Verifier.next bit s >>= consume_all bits

-- One circuit on the prover's side, with the bits that are sent and the MACs of the outputs.
unfoldable pub prove_circuit :
    Prover
    → Circuit
    → List Block
    → List Bool
    → List Block
    → Outcome ProverError (List Bool × List Block × Prover)
unfolding Prover.execute Prover.iter Prover.finish
prove_circuit prover c input_macs gate_masks gate_macs = do
  started ← Prover.execute prover c input_macs gate_masks gate_macs
  sent ← collect (c.and_count + 1) (Prover.iter started.0)
  done ← Prover.finish started.1 sent.1
  ok (sent.0, done.0, done.1)

-- One circuit on the verifier's side, with the keys of the outputs.
unfoldable pub verify_circuit :
    Verifier
    → Circuit
    → List Block
    → List Block
    → List Bool
    → Outcome VerifierError (List Block × Verifier)
unfolding Verifier.execute Verifier.consumer Verifier.finish
verify_circuit verifier c input_keys gate_keys bits = do
  started ← Verifier.execute verifier c input_keys gate_keys
  s ← Verifier.consumer started.0
  s ← consume_all bits s
  Verifier.finish started.1 s
