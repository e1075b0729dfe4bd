-- ===== src/Garble/Tests.antt =====
-- Runs of the garbled AND gate and of a small garbled circuit.
use mpz.Prelude.{
  ◌≡◌, refl, Bool, true, false, ◌&&◌, List, [], ◌∷◌, ◌++◌, ok, zip_with, slice_at, arith,
}
use mpz.Block.{Block, lsb, bitxor, be_bytes, ones_block, zero_block, set_lsb}
use mpz.Circuit.{Circuit, and, inv, evaluate, evaluate_gates, evaluate_gate}
use mpz.Circuit.Shape.{IsCircuit}
use mpz.Garble.Gate.{EncryptedGate, label, garble_and, evaluate_and, evaluate_and-garble_and}
use mpz.Garble.Garbler.{GateIter, next_loop, next, garble, collect, finish}
use mpz.Garble.Fold.{garble_gates}
use mpz.Garble.Stream.{collect-garble_gates}
use mpz.Garble.Evaluator.{default_gate, evaluate_garbled}
use mpz.Garble.Correct.{evaluate_garbled-garble}
use mpz.Garble.Bulk.{
  Job, evaluate_garbled_circuits, evaluate_each, garble_each, held_call, output_labels,
  evaluate_garbled_circuits-garble_each,
}
use mpz.Garble.Batch.{
  fill_batch, next_batch, send_batches, generate_streamed, evaluate_streamed,
  receive_garbled_circuit,
}
use mpz.Garble.Batch.Correct.{evaluate_streamed-generate_streamed}

-- A permutation in place of AES.
abbrev mask : Block → Block
mask b = bitxor b (be_bytes 77)

abbrev pub delta : Block
delta = set_lsb true (be_bytes 1234)

pub delta-pointer : lsb delta ≡ true
unfolding lsb set_lsb be_bytes
delta-pointer = refl

evaluate_and-garble_and_example :
    let (z_0, gate) = garble_and mask delta (be_bytes 5) (be_bytes 9) 3 in
    evaluate_and mask (label delta (be_bytes 5) true) (label delta (be_bytes 9) false) gate 3
    ≡ label delta z_0 (true && false)
evaluate_and-garble_and_example =
    evaluate_and-garble_and mask delta (be_bytes 5) (be_bytes 9) 3 true false delta-pointer

-- NAND of two inputs.
abbrev pub nand : Circuit
nand = record {
  inputs = record { start = 0; stop = 2 };
  outputs = record { start = 3; stop = 4 };
  gates = and 0 1 2 ∷ inv 2 3 ∷ [];
  feed_count = 4;
  and_count = 1;
  xor_count = 0;
}

pub nand-IsCircuit : IsCircuit nand
nand-IsCircuit = record {
  from_zero = refl;
  inputs_fit = omega arith;
  outputs_range = omega arith;
  outputs_fit = omega arith;
  ordered = ((refl, refl), omega arith, (refl, omega arith, tt));
  counted = refl;
  outputs_set = λ i h k. ground arith;
}

nand_table :
    (evaluate nand (true ∷ true ∷ []) ≡ ok (false ∷ []))
    × (evaluate nand (true ∷ false ∷ []) ≡ ok (true ∷ []))
unfolding evaluate evaluate_gates evaluate_gate
nand_table = (refl, refl)

abbrev keys : List Block
keys = be_bytes 11 ∷ be_bytes 12 ∷ []

abbrev bits : List Bool
bits = true ∷ false ∷ []

evaluate_garbled-garble_example :
    (gates : List EncryptedGate) × (output_keys : List Block) × (outputs : List Bool) × (garble mask
        (ones_block ∷ [])
        nand
        delta
        keys
      ≡ ok (gates, output_keys))
    × (evaluate nand bits ≡ ok outputs)
    × ((pad : List EncryptedGate)
        → evaluate_garbled mask [] nand (zip_with (label delta) keys bits) (gates ++ pad)
          ≡ ok (zip_with (label delta) output_keys outputs))
evaluate_garbled-garble_example =
    evaluate_garbled-garble mask delta nand (ones_block ∷ []) [] keys bits delta-pointer
      nand-IsCircuit refl refl

abbrev nand_iter : GateIter
nand_iter = record {
  delta = delta;
  labels = keys ++ zero_block ∷ zero_block ∷ [];
  gates = nand.gates;
  gid = 1;
  counter = 0;
  and_count = 1;
  outputs = nand.outputs;
  complete = false;
}

abbrev conjunction : Block × EncryptedGate
conjunction = garble_and mask delta (be_bytes 11) (be_bytes 12) 1

nand_garbled :
    garble_gates mask delta nand_iter.gates 1 nand_iter.labels
    ≡ ok (conjunction.1 ∷ [], keys ++ conjunction.0 ∷ bitxor conjunction.0 delta ∷ [])
unfolding garble_gates
nand_garbled = refl

collect-garble_gates_example :
    (last : GateIter) × (collect mask 3 nand_iter ≡ ok (conjunction.1 ∷ [], last))
    × (finish mask last ≡ slice_at (keys ++ conjunction.0 ∷ bitxor conjunction.0 delta ∷ []) 3 4)
collect-garble_gates_example = collect-garble_gates mask 3 nand_iter (omega arith) refl nand_garbled

evaluate_streamed-generate_streamed_example :
    (batches : List (List EncryptedGate)) × (output_keys : List Block) × (outputs : List Bool)
    × (gates : List EncryptedGate) × (generate_streamed mask 2 nand delta keys
        ≡ ok (batches, output_keys))
    × (garble mask [] nand delta keys ≡ ok (gates, output_keys))
    × (evaluate nand bits ≡ ok outputs)
    × ((more : List (List EncryptedGate))
        → (evaluate_streamed mask nand (zip_with (label delta) keys bits) (batches ++ more)
            ≡ ok (zip_with (label delta) output_keys outputs, more))
          × (receive_garbled_circuit nand (batches ++ more) ≡ ok (gates, more)))
evaluate_streamed-generate_streamed_example =
    evaluate_streamed-generate_streamed mask delta 2 nand keys bits (omega arith) delta-pointer
      nand-IsCircuit refl refl

-- One gate in a batch of two: the second entry is padding.
nand_batches :
    (last : GateIter) × (send_batches mask 2 3 nand_iter
      ≡ ok ((conjunction.1 ∷ default_gate ∷ []) ∷ [], last))
unfolding send_batches next_batch fill_batch next next_loop
nand_batches = (_, refl)

-- The circuit twice, on different bits.
abbrev jobs : List Job
jobs =
    record { circ = nand; keys = keys; inputs = bits }
    ∷ record { circ = nand; keys = be_bytes 13 ∷ be_bytes 14 ∷ []; inputs = true ∷ true ∷ [] }
    ∷ []

evaluate_garbled_circuits-garble_each_example :
    (garbled : List (List EncryptedGate × List Block)) × (outputs : List (List Bool)) × (garble_each
        mask delta jobs
      ≡ ok garbled)
    × (evaluate_each jobs ≡ ok outputs)
    × ((buffer : List Block)
        → evaluate_garbled_circuits mask buffer (zip_with (held_call mask delta) jobs garbled)
          ≡ ok (zip_with (output_labels mask delta) garbled outputs))
evaluate_garbled_circuits-garble_each_example =
    evaluate_garbled_circuits-garble_each mask delta jobs delta-pointer (
      record { circuit = nand-IsCircuit; keys_len = refl; inputs_len = refl },
      (record { circuit = nand-IsCircuit; keys_len = refl; inputs_len = refl }, tt),
    )
