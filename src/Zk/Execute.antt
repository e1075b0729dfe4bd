-- ===== src/Zk/Execute.antt =====
-- One circuit of `crates/zk-core/src` and `crates/zk/src`: the prover proves it, the verifier follows, and the
-- outputs are those of plain evaluation.
use mpz.Prelude.{
  range_len, ℕ, ◌+◌, ◌-◌, ◌≤◌, ◌<◌, ◌≡◌, refl, ap, ap₂, ◌∙◌, sym, Bool, true, false, List, [], ok,
  arith, ==_iff, length, take, drop, replicate, get_or, zip_with, length-zip_with, get_or-zip_with,
  take-drop-zip_with, slice_at, slice_at_in_range, length-replicate, ltb→lt, leb, bind_then,
}
use native.Mathlib.Nat.{le_trans}
use mpz.Block.{Block, zero_block, lsb}
use mpz.Circuit.{Circuit, evaluate, set_inputs}
use mpz.Circuit.Shape.{IsCircuit, Feeds, inputs_set}
use mpz.Circuit.Inputs.{HasInputs, set_inputs-HasInputs}
use mpz.Garble.Gate.{label}
use mpz.Zk.{resize}
use mpz.Zk.Check.{reserve}
use mpz.Zk.Prover as Prover
use mpz.Zk.Prover.{Prover, ProverExecute, ProverError, iter}
use mpz.Zk.Verifier as Verifier
use mpz.Zk.Verifier.{Verifier, VerifierExecute, VerifierError}
use mpz.Zk.Relation.{Linked, AllMatched, length-AllMatched}
use mpz.Zk.Start.{Started, start, length-resize, get_or-resize}
use mpz.Zk.Protocol.{prove_circuit, verify_circuit, consume_all}
use mpz.Zk.Synced.{AreClean, Synced, written, write-reserve, written-Synced}

module _ (prover : Prover) (verifier : Verifier) (c : Circuit) (keys gate_keys : List Block)
    (gate_masks inputs : List Bool) (w : IsCircuit c) (synced : Synced prover verifier)
    (keys_len : length keys ≡ range_len c.inputs) (inputs_len : length inputs ≡ range_len c.inputs)
    (gate_keys_len : length gate_keys ≡ c.and_count)
    (gate_masks_len : length gate_masks ≡ c.and_count) (clean : AreClean keys) where
  abbrev delta : Block
  delta = verifier.delta

  abbrev macs : List Block
  macs = zip_with (label delta) keys inputs

  abbrev gate_macs : List Block
  gate_macs = zip_with (label delta) gate_keys gate_masks

  macs_len : length macs ≡ range_len c.inputs
  macs_len = length-zip_with (label delta) keys inputs (keys_len ∙ sym inputs_len) ∙ keys_len

  gate_macs_len : length gate_macs ≡ c.and_count
  gate_macs_len =
      length-zip_with (label delta) gate_keys gate_masks (gate_keys_len ∙ sym gate_masks_len)
      ∙ gate_keys_len

  abbrev p_start : ProverExecute
  p_start = record {
    circ = c;
    macs = resize c.feed_count zero_block macs;
    triples = [];
    adjust = [];
    gate_masks = gate_masks;
    gate_macs = gate_macs;
    check_idx = length prover.check.triples;
    gates = c.gates;
    counter = 0;
    and_count = c.and_count;
  }

  abbrev v_start : VerifierExecute
  v_start = record {
    circ = c;
    delta = delta;
    keys = resize c.feed_count zero_block keys;
    gate_keys = gate_keys;
    triples = [];
    adjust = [];
    check_idx = length verifier.check.triples;
    gates = c.gates;
    counter = 0;
    and_count = c.and_count;
  }

  feeds :
      HasInputs (range_len c.inputs) 0 inputs (replicate c.feed_count false) (
        set_inputs
          (range_len c.inputs)
          (range_len c.inputs)
          0
          inputs
          (replicate c.feed_count false))
  feeds =
      set_inputs-HasInputs (range_len c.inputs) (range_len c.inputs) 0 inputs
        (replicate c.feed_count false) (omega arith)
        (rw length-replicate (omega (arith, w.inputs_fit)))

  macs_fit : length macs ≤ c.feed_count
  macs_fit = omega (arith, macs_len, w.inputs_fit)

  keys_fit : length keys ≤ c.feed_count
  keys_fit = omega (arith, keys_len, w.inputs_fit)

  at_input :
      (i : ℕ)
      → i < range_len c.inputs
      → get_or (resize c.feed_count zero_block macs) i zero_block
        ≡ label delta
            (get_or (resize c.feed_count zero_block keys) i zero_block)
            (get_or feeds.set_feeds i false)
  at_input i h =
      let e : 0 + i ≡ i = omega arith in
      get_or-resize c.feed_count zero_block macs macs_fit i zero_block (omega (arith, macs_len))
      ∙ get_or-zip_with (label delta) keys inputs i zero_block false zero_block (omega arith)
          (omega arith)
      ∙ ap₂ (label delta)
          (sym (get_or-resize c.feed_count zero_block keys keys_fit i zero_block (omega arith)))
          (sym (feeds.inside i h) ∙ ap (λ (k : ℕ). get_or feeds.set_feeds k false) e)

  linked : Linked c.feed_count (inputs_set c) c.gates p_start v_start feeds.set_feeds
  linked = record {
    odd = synced.odd;
    wired = record {
      labels = record {
        keys_fit = rw (length-resize c.feed_count zero_block keys) (omega arith);
        macs_fit = rw (length-resize c.feed_count zero_block macs) (omega arith);
        wires_fit = rw (feeds.same_length, length-replicate) (omega arith);
        within = λ i h. omega (arith, ltb→lt _ _ h, w.inputs_fit);
        related = λ i h. at_input i (ltb→lt _ _ h);
      };
      clean = λ i h.
          ap lsb (
            get_or-resize c.feed_count zero_block keys keys_fit i zero_block
              (omega (arith, ltb→lt _ _ h)))
          ∙ clean i (omega (arith, ltb→lt _ _ h));
    };
    masked = λ i h.
        get_or-zip_with (label delta) gate_keys gate_masks i zero_block false zero_block
          (omega arith) (omega arith);
    keys_count = gate_keys_len;
    macs_count = gate_macs_len;
    masks_count = gate_masks_len;
    same_count = refl;
    same_counter = refl;
    left = omega (arith, w.counted);
    matched = AllMatched.none;
    same_adjust = refl;
    triples_count = refl;
    adjust_count = refl;
  }

  run : Started c.feed_count (inputs_set c) (c.and_count + 1) p_start v_start feeds.set_feeds
  run =
      start p_start v_start refl w.ordered linked refl (c.and_count + 1) (omega (arith, w.counted))

  abbrev n_ands : ℕ
  n_ands = c.and_count

  -- The range of the outputs.
  abbrev output_range {ℓ} : {A : Type ℓ} → List A → List A
  output_range xs = take (c.outputs.stop - c.outputs.start) (drop c.outputs.start xs)

  outputs_in_range :
      {E A : Type 0} (xs : List A)
      → c.feed_count ≤ length xs
      → slice_at {E = E} xs c.outputs.start c.outputs.stop ≡ ok (output_range xs)
  outputs_in_range xs h =
      slice_at_in_range xs c.outputs.start c.outputs.stop w.outputs_range (le_trans w.outputs_fit h)

  all_counted : run.p'.counter ≡ c.and_count
  all_counted = omega (arith, run.linked.left, run.kept.ands)

  after_one : (n : ℕ) → n + 1 - 1 ≡ n
  after_one n = omega arith

  abbrev p_done : Prover
  p_done = record prover { check = written prover.check run.p'.triples run.p'.adjust }

  abbrev v_done : Verifier
  v_done = record verifier { check = written verifier.check run.v'.triples run.v'.adjust }

  finish_prover :
      Prover.finish
        (record {
          check = (reserve prover.check c.and_count).1;
          executions = prover.executions + 1;
        })
        run.p'
      ≡ ok (output_range run.p'.macs, p_done)
  unfolding Prover.finish
  finish_prover = rw (
    (==_iff run.p'.counter run.p'.and_count).1 (all_counted ∙ sym run.kept.ands),
    run.kept.idx,
    write-reserve {E = ProverError} prover.check c.and_count run.p'.triples run.p'.adjust
        (run.linked.triples_count ∙ all_counted) (run.linked.adjust_count ∙ all_counted),
    run.kept.circ,
    outputs_in_range {E = ProverError} run.p'.macs run.linked.wired.labels.macs_fit,
    after_one prover.executions,
  )

  finish_verifier :
      Verifier.finish
        (record {
          delta = delta;
          check = (reserve verifier.check c.and_count).1;
          executions = verifier.executions + 1;
        })
        run.v'
      ≡ ok (output_range run.v'.keys, v_done)
  unfolding Verifier.finish
  finish_verifier =
      let enough : leb run.v'.and_count run.v'.counter ≡ true =
        ground
          (arith, run.linked.same_count, run.linked.same_counter, all_counted, run.kept.ands) in
      rw (
        enough,
        run.kept.v_idx,
        write-reserve {E = VerifierError} verifier.check c.and_count run.v'.triples run.v'.adjust
            (sym (length-AllMatched run.linked.matched) ∙ run.linked.triples_count ∙ all_counted)
            (ap length run.linked.same_adjust ∙ run.linked.adjust_count ∙ all_counted),
        run.kept.v_circ,
        outputs_in_range {E = VerifierError} run.v'.keys run.linked.wired.labels.keys_fit,
        after_one verifier.executions,
      )

  prove_circuit-eq-ok :
      prove_circuit prover c macs gate_masks gate_macs
      ≡ ok (run.bits, output_range run.p'.macs, p_done)
  unfolding prove_circuit
  prove_circuit-eq-ok = rw (
    (==_iff (length macs) (range_len c.inputs)).1 macs_len,
    (==_iff (length gate_masks) c.and_count).1 gate_masks_len,
    (==_iff (length gate_macs) c.and_count).1 gate_macs_len,
    run.collected,
    finish_prover,
  )

  verify_circuit-eq-ok :
      verify_circuit verifier c keys gate_keys run.bits ≡ ok (output_range run.v'.keys, v_done)
  unfolding verify_circuit
  verify_circuit-eq-ok =
      rw
        (
          (==_iff (length keys) (range_len c.inputs)).1 keys_len,
          (==_iff (length gate_keys) c.and_count).1 gate_keys_len,
        )
        (bind_then _ (consume_all run.bits) _ run.consumed ∙ finish_verifier)

  evaluate-eq-ok : evaluate c inputs ≡ ok (output_range run.wires')
  unfolding evaluate
  evaluate-eq-ok =
      let n = range_len c.inputs in
      let set_from_start =
        ap (λ i. set_inputs n n i inputs (replicate c.feed_count false)) w.from_zero
        ∙ feeds.returns in
      rw (
        set_from_start,
        (==_iff (length feeds.set_feeds) c.feed_count).1
            (feeds.same_length ∙ length-replicate c.feed_count false),
        run.evaluated,
        outputs_in_range run.wires' run.linked.wired.labels.wires_fit,
      )

  outputs-label :
      output_range run.p'.macs
      ≡ zip_with (label delta) (output_range run.v'.keys) (output_range run.wires')
  outputs-label =
      take-drop-zip_with (label delta) (c.outputs.stop - c.outputs.start) c.outputs.start
        run.p'.macs run.v'.keys run.wires' zero_block false zero_block
        (omega (arith, w.outputs_range, w.outputs_fit, run.linked.wired.labels.macs_fit))
        (omega (arith, w.outputs_range, w.outputs_fit, run.linked.wired.labels.keys_fit))
        (omega (arith, w.outputs_range, w.outputs_fit, run.linked.wired.labels.wires_fit))
        (λ i h k. rw (← run.kept.delta) (
          run.linked.wired.labels.related i (
            ap (λ (d : Feeds). d i) run.reached
            ∙ w.outputs_set i h (omega (arith, w.outputs_range)))))

-- Between executions, for a well-formed circuit: a prover with MACs of as many input bits as the circuit has
-- inputs and with random transfers for its AND gates, and a verifier with the keys, which have pointer bits
-- 0. The prover's execution returns adjustment bits, the verifier's execution takes them, plain evaluation
-- returns output bits, and the prover ends with MACs of them under the verifier's output keys. The parties
-- are between executions again, with matched triples to check.
pub verify_circuit-prove_circuit :
    (prover : Prover) (verifier : Verifier) (c : Circuit) (keys gate_keys : List Block)
    (gate_masks inputs : List Bool)
    → IsCircuit c
    → Synced prover verifier
    → length keys ≡ range_len c.inputs
    → length inputs ≡ range_len c.inputs
    → length gate_keys ≡ c.and_count
    → length gate_masks ≡ c.and_count
    → AreClean keys
    → (bits : List Bool) × (output_keys : List Block) × (outputs : List Bool) × (prover' : Prover)
      × (verifier' : Verifier) × (prove_circuit prover c
            (zip_with (label verifier.delta) keys inputs)
            gate_masks
            (zip_with (label verifier.delta) gate_keys gate_masks)
          ≡ ok (bits, zip_with (label verifier.delta) output_keys outputs, prover'))
      × (verify_circuit verifier c keys gate_keys bits ≡ ok (output_keys, verifier'))
      × (evaluate c inputs ≡ ok outputs)
      × Synced prover' verifier'
verify_circuit-prove_circuit p v c ks gks gms ins w sy hk hi hgk hgm cl =
    let r = run p v c ks gks gms ins w sy hk hi hgk hgm cl in
    (
      r.bits,
      _,
      _,
      _,
      _,
      prove_circuit-eq-ok p v c ks gks gms ins w sy hk hi hgk hgm cl
          ∙ ap
              (λ (macs : List Block).
                ok (r.bits, macs, p_done p v c ks gks gms ins w sy hk hi hgk hgm cl))
              (outputs-label p v c ks gks gms ins w sy hk hi hgk hgm cl),
      verify_circuit-eq-ok p v c ks gks gms ins w sy hk hi hgk hgm cl,
      evaluate-eq-ok p v c ks gks gms ins w sy hk hi hgk hgm cl,
      rw r.linked.same_adjust (
          written-Synced p v r.p'.triples r.v'.triples r.p'.adjust sy
            (rw (← r.kept.delta) r.linked.matched)),
    )
