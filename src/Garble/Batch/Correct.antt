-- ===== src/Garble/Batch/Correct.antt =====
-- The two protocols of `crates/garble` over batches: evaluation of a streamed circuit, and of one that was received
-- before.
use mpz.Prelude.{
  range_len, ℕ, ◌+◌, ◌<◌, ◌≡◌, refl, ap, sym, ◌∙◌, Bool, true, false, arith, List, [], ◌++◌, length,
  slice_at, zip_with, length-zip_with, ok, ==_iff,
}
use mpz.Block.{Block, lsb}
use mpz.Circuit.{Circuit, evaluate}
use mpz.Circuit.Shape.{and_gates, IsCircuit}
use mpz.Garble.Gate.{EncryptedGate, label}
use mpz.Garble.Garbler.{GarblerError, GateIter, generate, garble}
use mpz.Garble.Evaluator.{EvaluatorError, Consumer, start_consumer}
use mpz.Garble.Fold.{garble_gates, consume_gates}
use mpz.Garble.Simulate.{simulate}
use mpz.Garble.Consume.{finish-eq-slice_at}
use mpz.Garble.Correct.{
  loaded, copy_inputs_fits, started, output_range, outputs_in_range, evaluate-eq-ok, garble-eq-ok,
  outputs-label,
}
use mpz.Garble.Batch.{generate_streamed, evaluate_streamed, receive_garbled_circuit}
use mpz.Garble.Batch.Padded.{IsBatched, receive_gates-IsBatched}
use mpz.Garble.Batch.Generate.{send_batches-Sent, finish-Ready}
use mpz.Garble.Batch.Receive.{receive_batches-IsBatched}

module _ (encrypt : Block → Block) (delta : Block) (n : ℕ) (positive : 0 < n) (c : Circuit)
    (w : IsCircuit c) (keys : List Block) (inputs : List Bool)
    (keys_len : length keys ≡ range_len c.inputs)
    (inputs_len : length inputs ≡ range_len c.inputs) where
  abbrev received : List Block
  received = zip_with (label delta) keys inputs

  abbrev first_iter : GateIter
  first_iter = record {
    delta = delta;
    labels = loaded c.feed_count [] keys;
    gates = c.gates;
    gid = 1;
    counter = 0;
    and_count = c.and_count;
    outputs = c.outputs;
    complete = false;
  }

  abbrev first_consumer : Consumer
  first_consumer = record {
    labels = loaded c.feed_count [] received;
    gates = c.gates;
    gid = 1;
    counter = 0;
    and_count = c.and_count;
    outputs = c.outputs;
    complete = false;
  }

  generate-eq-ok : generate [] c delta keys ≡ ok first_iter
  unfolding generate
  generate-eq-ok =
      rw
        (
          (==_iff (length keys) (range_len c.inputs)).1 keys_len,
          copy_inputs_fits c.feed_count [] keys (omega (arith, w.inputs_fit)),
        )
        refl

  received_len : length received ≡ range_len c.inputs
  received_len = length-zip_with (label delta) keys inputs (keys_len ∙ sym inputs_len) ∙ keys_len

  start_consumer-eq-ok : start_consumer [] c received ≡ ok first_consumer
  unfolding start_consumer
  start_consumer-eq-ok =
      rw
        (
          (==_iff (length received) (range_len c.inputs)).1 received_len,
          copy_inputs_fits c.feed_count [] received (omega (arith, w.inputs_fit, received_len)),
        )
        refl

  -- What is sent for gates that garble, and the slice of the outputs.
  generate_streamed-IsBatched :
      (egs : List EncryptedGate) (labels' outputs : List Block)
      → garble_gates encrypt delta c.gates 1 first_iter.labels ≡ ok (egs, labels')
      → slice_at {E = GarblerError} labels' c.outputs.start c.outputs.stop ≡ ok outputs
      → (batches : List (List EncryptedGate)) × IsBatched n egs batches
        × (generate_streamed encrypt n c delta keys ≡ ok (batches, outputs))
  unfolding generate_streamed
  generate_streamed-IsBatched egs labels' outputs garbled sliced =
      let sent =
        send_batches-Sent encrypt n (length c.gates + 1) first_iter egs labels' positive
          (omega arith)
          (record { remaining = garbled; counted = omega (arith, w.counted); ended = λ e. cc }) in
      (
        sent.batches,
        sent.batched,
        rw
            (
              generate-eq-ok,
              sent.returns,
              finish-Ready encrypt sent.last labels' sent.ready,
              sent.same_outputs,
              sliced,
            )
            refl,
      )

  -- The batches of gates that the fold consumes, and messages after them.
  evaluate_streamed-IsBatched :
      (egs : List EncryptedGate) (labels' outputs : List Block)
      (batches more : List (List EncryptedGate))
      → consume_gates encrypt c.gates 1 egs first_consumer.labels ≡ ok labels'
      → length egs ≡ and_gates c.gates
      → slice_at {E = EvaluatorError} labels' c.outputs.start c.outputs.stop ≡ ok outputs
      → IsBatched n egs batches
      → evaluate_streamed encrypt c received (batches ++ more) ≡ ok (outputs, more)
  unfolding evaluate_streamed
  evaluate_streamed-IsBatched egs labels' outputs batches more consumed exact sliced batched =
      let (last, taken, on_track, same_outputs) =
        receive_batches-IsBatched encrypt n egs batches more first_consumer labels' positive batched
          (record {
            remaining = consumed;
            counted = omega (arith, w.counted);
            exact = exact;
            ended = λ e. cc;
          }) in
      rw
        (
          start_consumer-eq-ok,
          taken,
          finish-eq-slice_at encrypt last on_track,
          same_outputs,
          sliced,
        )
        refl

-- For a well-formed circuit, a delta with pointer bit 1, as many input keys and input bits as the circuit has inputs,
-- and batches of at least one gate: the garbler sends batches and returns output keys, plain evaluation returns output
-- bits, and the evaluator, on the labels of the input bits, takes just these batches, whatever messages follow, and
-- returns the labels of the output bits. A party that receives the circuit before takes just these batches too, and
-- then has the encrypted gates that garbling without batches gives, with the same output keys.
pub evaluate_streamed-generate_streamed :
    (encrypt : Block → Block) (delta : Block) (n : ℕ) (c : Circuit) (keys : List Block)
    (inputs : List Bool)
    → 0 < n
    → lsb delta ≡ true
    → IsCircuit c
    → length keys ≡ range_len c.inputs
    → length inputs ≡ range_len c.inputs
    → (batches : List (List EncryptedGate)) × (output_keys : List Block) × (outputs : List Bool)
      × (gates : List EncryptedGate) × (generate_streamed encrypt n c delta keys
          ≡ ok (batches, output_keys))
      × (garble encrypt [] c delta keys ≡ ok (gates, output_keys))
      × (evaluate c inputs ≡ ok outputs)
      × ((more : List (List EncryptedGate))
          → (evaluate_streamed encrypt c (zip_with (label delta) keys inputs) (batches ++ more)
              ≡ ok (zip_with (label delta) output_keys outputs, more))
            × (receive_garbled_circuit c (batches ++ more) ≡ ok (gates, more)))
evaluate_streamed-generate_streamed encrypt delta n c keys inputs positive pointer w keys_len
      inputs_len =
    let run =
      simulate encrypt delta c.feed_count pointer c.gates 1
        (started encrypt delta c w [] [] keys inputs keys_len inputs_len) w.ordered in
    let labels = outputs-label encrypt delta c w [] [] keys inputs keys_len inputs_len run in
    let (batches, batched, sent) =
      generate_streamed-IsBatched encrypt delta n positive c w keys inputs keys_len inputs_len
        run.gates run.keys'
        (output_range encrypt delta c w [] [] keys inputs keys_len inputs_len run.keys') run.garbled
        (outputs_in_range encrypt delta c w [] [] keys inputs keys_len inputs_len run run.keys'
          run.related.keys_fit) in
    (
      batches,
      _,
      _,
      run.gates,
      sent,
      garble-eq-ok encrypt delta c w [] [] keys inputs keys_len inputs_len run,
      evaluate-eq-ok encrypt delta c w [] [] keys inputs keys_len inputs_len run,
      λ more. (
        evaluate_streamed-IsBatched encrypt delta n positive c w keys inputs keys_len inputs_len
              run.gates run.macs' _ batches more run.consumed run.gates_len
              (outputs_in_range encrypt delta c w [] [] keys inputs keys_len inputs_len run
                run.macs' run.related.macs_fit)
              batched
            ∙ ap (λ o. ok (o, more)) labels,
        receive_gates-IsBatched n c.and_count run.gates [] batches more batched
            (omega (arith, run.gates_len, w.counted)),
      ),
    )
