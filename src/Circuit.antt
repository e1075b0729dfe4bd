-- ===== src/Circuit.antt =====
-- `crates/circuits-core/src/components.rs` and `circuit.rs`: gates, and binary circuits with their
-- evaluation on plain bits. A node is its id, a `usize`.
pub mod Shape
pub mod Inputs
pub mod Builder
pub mod Ops
pub mod Tests
use mpz.Prelude.{
  ℕ, zero, suc, ◌+◌, ◌-◌, ◌≡◌, Bool, true, false, ◌&&◌, not, xor as bool_xor, ◌==◌, List, [], ◌∷◌,
  Outcome, ok, err, panic, ◌>>=◌, ◌>>◌, get_at, set_at, slice_at, ensure, length, replicate, Range,
  range_len,
}

pub data Gate : Type 0 where
  xor and : ℕ → ℕ → ℕ → Gate
  inv id : ℕ → ℕ → Gate

-- `Gate::z`, the feed that the gate writes.
abbrev pub output_id : Gate → ℕ
output_id (xor x y z) = z
output_id (and x y z) = z
output_id (inv x z) = z
output_id (id x z) = z

pub record Circuit : Type 0 where
  pub inputs : Range
  pub outputs : Range
  pub gates : List Gate
  pub feed_count : ℕ
  pub and_count : ℕ
  pub xor_count : ℕ

pub data CircuitError : Type 0 where
  invalid_wire_count : ℕ → ℕ → CircuitError
  invalid_input_length : ℕ → ℕ → CircuitError

-- One round of the loop of `Circuit::evaluate_raw`.
unfoldable pub evaluate_gate : Gate → List Bool → Outcome CircuitError (List Bool)
evaluate_gate (xor x y z) wires = do
  x' ← get_at wires x
  y' ← get_at wires y
  set_at wires z (bool_xor x' y')
evaluate_gate (and x y z) wires = do
  x' ← get_at wires x
  y' ← get_at wires y
  set_at wires z (x' && y')
evaluate_gate (inv x z) wires = do x' ← get_at wires x; set_at wires z (not x')
evaluate_gate (id x z) wires = do x' ← get_at wires x; set_at wires z x'

unfoldable pub evaluate_gates : List Gate → List Bool → Outcome CircuitError (List Bool)
evaluate_gates [] wires = ok wires
evaluate_gates (g ∷ gs) wires = evaluate_gate g wires >>= evaluate_gates gs

-- `Circuit::evaluate_raw`.
unfoldable pub evaluate_raw : Circuit → List Bool → Outcome CircuitError (List Bool)
evaluate_raw c wires = do
  ensure (length wires == c.feed_count) (invalid_wire_count c.feed_count (length wires))
  evaluate_gates c.gates wires

-- The loop of `Circuit::evaluate` over the input range, with `count` rounds left at feed `i`.
unfoldable pub set_inputs : ℕ → ℕ → ℕ → List Bool → List Bool → Outcome CircuitError (List Bool)
set_inputs expected zero i input feeds = ok feeds
set_inputs expected (suc count) i [] feeds = err (invalid_input_length expected i)
set_inputs expected (suc count) i (value ∷ input) feeds =
    set_at feeds i value >>= set_inputs expected count (i + 1) input

-- `Circuit::evaluate`.
unfoldable pub evaluate : Circuit → List Bool → Outcome CircuitError (List Bool)
unfolding evaluate_raw set_inputs
evaluate c input = do
  let feeds = replicate c.feed_count false
  feeds ← set_inputs (range_len c.inputs) (range_len c.inputs) c.inputs.start input feeds
  feeds ← evaluate_raw c feeds
  slice_at feeds c.outputs.start c.outputs.stop
