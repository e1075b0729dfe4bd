-- ===== src/Garble/Correct.antt =====
-- Garbled evaluation is evaluation: the evaluator's output labels are those of the output bits.
use native.Mathlib.Nat.{le_trans}
use mpz.Prelude.{
  range_len, ℕ, ◌+◌, ◌-◌, ◌≤◌, ◌<◌, ◌≡◌, refl, ap, ◌∙◌, Bool, true, false, List, ◌++◌, ok, length,
  ltb, Bool-cases, inl, inr, arith, slice_at, length-append, length-drop, length-replicate,
  zip_with, get_or-zip_with, length-zip_with, get_or-append_left, take-drop-zip_with,
  slice_at_in_range, drop, take, ltb→lt, get_or, replicate, sym, ==_iff,
}
use mpz.Block.{Block, zero_block, lsb}
use mpz.Circuit.{Circuit, evaluate, set_inputs}
use mpz.Circuit.Shape.{IsCircuit, inputs_set}
use mpz.Circuit.Inputs.{HasInputs, set_inputs-HasInputs}
use mpz.Garble.Gate.{EncryptedGate, label}
use mpz.Garble.Garbler.{garble, expand, copy_inputs}
use mpz.Garble.Evaluator.{evaluate_garbled}
use mpz.Garble.Relation.{Related}
use mpz.Garble.Simulate.{Simulated, simulate}
use mpz.Garble.Stream.{collect-garble_gates}
use mpz.Garble.Consume.{consume_stream}

expand_fits : (n : ℕ) (buffer : List Block) → n ≤ length (expand n buffer)
expand_fits n buffer = ground (
  arith,
  length-append buffer (replicate (n - length buffer) zero_block),
  length-replicate (n - length buffer) zero_block,
)

-- The buffer with the inputs copied to its front.
abbrev pub loaded : ℕ → List Block → List Block → List Block
loaded n buffer inputs = inputs ++ drop (length inputs) (expand n buffer)

module _ (n : ℕ) (buffer inputs : List Block) (fits : length inputs ≤ n) where
  pub copy_inputs_fits :
      {E : Type 0} → copy_inputs {E = E} inputs (expand n buffer) ≡ ok (loaded n buffer inputs)
  copy_inputs_fits = elim (Bool-cases (ltb (length (expand n buffer)) (length inputs))) [
    | inl short ↦ absurd (omega (arith, ltb→lt _ _ short, expand_fits n buffer))
    | inr long ↦ rw (long, copy_inputs)
  ]

  loaded_fits : n ≤ length (loaded n buffer inputs)
  loaded_fits = omega (
    arith,
    length-append inputs (drop (length inputs) (expand n buffer)),
    length-drop (length inputs) (expand n buffer),
    expand_fits n buffer,
  )

module _ (encrypt : Block → Block) (delta : Block) (c : Circuit) (w : IsCircuit c)
    (garbler_buffer evaluator_buffer keys : List Block) (inputs : List Bool)
    (keys_len : length keys ≡ range_len c.inputs)
    (inputs_len : length inputs ≡ range_len c.inputs) where
  abbrev pub macs : List Block
  macs = zip_with (label delta) keys inputs

  pub macs_len : length macs ≡ range_len c.inputs
  macs_len = length-zip_with (label delta) keys inputs (keys_len ∙ sym inputs_len) ∙ keys_len

  pub feeds :
      HasInputs (range_len c.inputs) 0 inputs (replicate c.feed_count false) (
        set_inputs
          (range_len c.inputs)
          (range_len c.inputs)
          0
          inputs
          (replicate c.feed_count false))
  feeds =
      set_inputs-HasInputs (range_len c.inputs) (range_len c.inputs) 0 inputs
        (replicate c.feed_count false) (omega arith)
        (rw length-replicate (omega (arith, w.inputs_fit)))

  pub started :
      Related delta c.feed_count
        (inputs_set c)
        (loaded c.feed_count garbler_buffer keys)
        (loaded c.feed_count evaluator_buffer macs)
        feeds.set_feeds
  started = record {
    keys_fit = loaded_fits c.feed_count garbler_buffer keys (omega (arith, w.inputs_fit));
    macs_fit =
        loaded_fits c.feed_count evaluator_buffer macs (omega (arith, w.inputs_fit, macs_len));
    wires_fit = rw (feeds.same_length, length-replicate) (omega arith);
    within = λ i h. omega (arith, ltb→lt _ _ h, w.inputs_fit);
    related = λ i h. at_input i (ltb→lt _ _ h);
  }
    where
      at_input :
          (i : ℕ)
          → i < range_len c.inputs
          → get_or (loaded c.feed_count evaluator_buffer macs) i zero_block
            ≡ label delta
                (get_or (loaded c.feed_count garbler_buffer keys) i zero_block)
                (get_or feeds.set_feeds i false)
      at_input i h =
          let e : 0 + i ≡ i = omega arith in
          rw
            (
              get_or-append_left macs (drop (length macs) (expand c.feed_count evaluator_buffer)) i
                  zero_block (omega (arith, macs_len)),
              get_or-append_left keys (drop (length keys) (expand c.feed_count garbler_buffer)) i
                  zero_block (omega arith),
              ap (λ (k : ℕ). get_or feeds.set_feeds k false) (sym e) ∙ feeds.inside i h,
            )
            (get_or-zip_with (label delta) keys inputs i zero_block false zero_block (omega arith)
              (omega arith))

  -- The range of the outputs.
  abbrev pub output_range {ℓ} : {A : Type ℓ} → List A → List A
  output_range xs = take (c.outputs.stop - c.outputs.start) (drop c.outputs.start xs)

  module _
      (run : Simulated encrypt delta c.feed_count
        (inputs_set c)
        c.gates
        1
        (loaded c.feed_count garbler_buffer keys)
        (loaded c.feed_count evaluator_buffer macs)
        feeds.set_feeds) where
    pub outputs_in_range :
        {E A : Type 0} (xs : List A)
        → c.feed_count ≤ length xs
        → slice_at {E = E} xs c.outputs.start c.outputs.stop ≡ ok (output_range xs)
    outputs_in_range xs h =
        slice_at_in_range xs c.outputs.start c.outputs.stop w.outputs_range
          (le_trans w.outputs_fit h)

    pub garble-eq-ok :
        garble encrypt garbler_buffer c delta keys ≡ ok (run.gates, output_range run.keys')
    unfolding garble
    garble-eq-ok =
        let (last, collected, finished) =
          collect-garble_gates encrypt (length c.gates + 1)
            (record {
              delta = delta;
              labels = loaded c.feed_count garbler_buffer keys;
              gates = c.gates;
              gid = 1;
              counter = 0;
              and_count = c.and_count;
              outputs = c.outputs;
              complete = false;
            })
            (omega arith) (omega (arith, w.counted)) run.garbled in
        rw (
          (==_iff (length keys) (range_len c.inputs)).1 keys_len,
          copy_inputs_fits c.feed_count garbler_buffer keys (omega (arith, w.inputs_fit)),
          collected,
          finished,
          outputs_in_range run.keys' run.related.keys_fit,
        )

    pub evaluate-eq-ok : evaluate c inputs ≡ ok (output_range run.wires')
    unfolding evaluate
    evaluate-eq-ok =
        let n = range_len c.inputs in
        let set_from_start =
          ap (λ i. set_inputs n n i inputs (replicate c.feed_count false)) w.from_zero
          ∙ feeds.returns in
        rw (
          set_from_start,
          (==_iff (length feeds.set_feeds) c.feed_count).1
              (feeds.same_length ∙ length-replicate c.feed_count false),
          run.evaluated,
          outputs_in_range run.wires' run.related.wires_fit,
        )

    evaluate_garbled-eq-ok :
        (pad : List EncryptedGate)
        → evaluate_garbled encrypt evaluator_buffer c macs (run.gates ++ pad)
          ≡ ok (output_range run.macs')
    unfolding evaluate_garbled
    evaluate_garbled-eq-ok pad =
        rw
          (
            (==_iff (length macs) (range_len c.inputs)).1 macs_len,
            copy_inputs_fits c.feed_count evaluator_buffer macs
                (omega (arith, w.inputs_fit, macs_len)),
          )
          (consume_stream encrypt run.gates pad
              (record {
                labels = loaded c.feed_count evaluator_buffer macs;
                gates = c.gates;
                gid = 1;
                counter = 0;
                and_count = c.and_count;
                outputs = c.outputs;
                complete = false;
              })
              refl (omega (arith, w.counted)) run.gates_len run.consumed
            ∙ outputs_in_range run.macs' run.related.macs_fit)

    pub outputs-label :
        output_range run.macs'
        ≡ zip_with (label delta) (output_range run.keys') (output_range run.wires')
    outputs-label =
        take-drop-zip_with (label delta) (c.outputs.stop - c.outputs.start) c.outputs.start
          run.macs' run.keys' run.wires' zero_block false zero_block
          (omega (arith, w.outputs_range, w.outputs_fit, run.related.macs_fit))
          (omega (arith, w.outputs_range, w.outputs_fit, run.related.keys_fit))
          (omega (arith, w.outputs_range, w.outputs_fit, run.related.wires_fit))
          (λ i h k. run.related.related i (w.outputs_set i h (omega (arith, w.outputs_range))))

-- For a well-formed circuit, a delta with pointer bit 1, and as many input keys and input bits as
-- the circuit has inputs: garbling returns encrypted gates and output keys, plain evaluation
-- returns output bits, and evaluating the garbled gates on the labels of the input bits, whatever
-- gates pad the last batch, returns the labels of the output bits. The buffers that the garbler
-- and the evaluator keep from earlier circuits may hold anything.
pub evaluate_garbled-garble :
    (encrypt : Block → Block) (delta : Block) (c : Circuit)
    (garbler_buffer evaluator_buffer keys : List Block) (inputs : List Bool)
    → lsb delta ≡ true
    → IsCircuit c
    → length keys ≡ range_len c.inputs
    → length inputs ≡ range_len c.inputs
    → (gates : List EncryptedGate) × (output_keys : List Block) × (outputs : List Bool) × (garble
          encrypt garbler_buffer c delta keys
        ≡ ok (gates, output_keys))
      × (evaluate c inputs ≡ ok outputs)
      × ((pad : List EncryptedGate)
          → evaluate_garbled encrypt evaluator_buffer c
              (zip_with (label delta) keys inputs)
              (gates ++ pad)
            ≡ ok (zip_with (label delta) output_keys outputs))
evaluate_garbled-garble encrypt delta c gb ev keys inputs pointer w keys_len inputs_len =
    let run =
      simulate encrypt delta c.feed_count pointer c.gates 1
        (started encrypt delta c w gb ev keys inputs keys_len inputs_len) w.ordered in
    (
      run.gates,
      _,
      _,
      garble-eq-ok encrypt delta c w gb ev keys inputs keys_len inputs_len run,
      evaluate-eq-ok encrypt delta c w gb ev keys inputs keys_len inputs_len run,
      λ pad.
          evaluate_garbled-eq-ok encrypt delta c w gb ev keys inputs keys_len inputs_len run pad
          ∙ ap ok (outputs-label encrypt delta c w gb ev keys inputs keys_len inputs_len run),
    )
