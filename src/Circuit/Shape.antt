-- ===== src/Circuit/Shape.antt =====
-- Well-formed circuits: each gate of `crates/circuits-core/src/circuit.rs` reads feeds that are
-- inputs or outputs of gates before it.
use mpz.Prelude.{
  range_len, ℕ, suc, ◌≤◌, ◌<◌, ◌≡◌, Bool, true, ◌==◌, ltb, List, [], ◌∷◌, if◌then◌else◌,
}
use mpz.Circuit.{Gate, xor, and, inv, id, output_id, Circuit}

-- A set of feeds, and the set with one more.
abbrev pub Feeds : Type 0
Feeds = ℕ → Bool

abbrev pub mark : ℕ → Feeds → Feeds
mark z d i = if i == z then true else d i

-- The feeds that are set when the gates have run.
abbrev pub after : Feeds → List Gate → Feeds
after d [] = d
after d (g ∷ gs) = after (mark (output_id g) d) gs

-- Each gate reads only set feeds, and writes a feed below `n`.
abbrev Reads : Feeds → Gate → Type 0
Reads d (xor x y z) = (d x ≡ true) × (d y ≡ true)
Reads d (and x y z) = (d x ≡ true) × (d y ≡ true)
Reads d (inv x z) = d x ≡ true
Reads d (id x z) = d x ≡ true

abbrev pub IsOrdered : ℕ → Feeds → List Gate → Type 0
IsOrdered n d [] = Unit {0}
IsOrdered n d (g ∷ gs) = Reads d g × (output_id g < n) × IsOrdered n (mark (output_id g) d) gs

-- The number of AND gates.
abbrev pub and_gates : List Gate → ℕ
and_gates [] = 0
and_gates (xor x y z ∷ gs) = and_gates gs
and_gates (and x y z ∷ gs) = suc (and_gates gs)
and_gates (inv x z ∷ gs) = and_gates gs
and_gates (id x z ∷ gs) = and_gates gs

abbrev pub inputs_set : Circuit → Feeds
inputs_set c i = ltb i (range_len c.inputs)

-- The layout that the builder and the parser give: inputs from feed 0, outputs at the end, gates in
-- order, and a true count of the AND gates.
pub record IsCircuit (c : Circuit) : Type 0 where
  pub from_zero : c.inputs.start ≡ 0
  pub inputs_fit : range_len c.inputs ≤ c.feed_count
  pub outputs_range : c.outputs.start ≤ c.outputs.stop
  pub outputs_fit : c.outputs.stop ≤ c.feed_count
  pub ordered : IsOrdered c.feed_count (inputs_set c) c.gates
  pub counted : and_gates c.gates ≡ c.and_count
  pub outputs_set :
      (i : ℕ) → c.outputs.start ≤ i → i < c.outputs.stop → after (inputs_set c) c.gates i ≡ true
