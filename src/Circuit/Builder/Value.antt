-- ===== src/Circuit/Builder/Value.antt =====
-- The values that the feeds of a builder take when its gates have run, on given values of its
-- inputs, and what it means that a method keeps them and returns a node of a given value.
use native.Mathlib.Nat.{le_trans}
use mpz.Prelude.{
  ℕ, ◌≤◌, ◌<◌, ◌≡◌, refl, ◌∙◌, Bool, true, false, ◌&&◌, not, xor as bool_xor, ◌==◌, List, [], ◌∷◌,
  ◌++◌, if◌then◌else◌, arith,
}
use mpz.Circuit.{Gate, xor, and, inv, id, output_id}
use mpz.Circuit.Builder.{CircuitBuilder}

-- The values of all feeds.
abbrev pub Values : Type 0
Values = ℕ → Bool

abbrev pub gate_value : Gate → Values → Bool
gate_value (xor x y z) v = bool_xor (v x) (v y)
gate_value (and x y z) v = v x && v y
gate_value (inv x z) v = not (v x)
gate_value (id x z) v = v x

abbrev run_gate : Gate → Values → Values
run_gate g v n = if n == output_id g then gate_value g v else v n

unfoldable pub run_gates : List Gate → Values → Values
run_gates [] v = v
run_gates (g ∷ gs) v = run_gates gs (run_gate g v)

pub run_gates-append :
    (gs : List Gate) (g : Gate) (v : Values)
    → run_gates (gs ++ g ∷ []) v ≡ run_gate g (run_gates gs v)
unfolding run_gates
run_gates-append [] g v = refl
run_gates-append (h ∷ gs) g v = run_gates-append gs g (run_gate h v)

module _ (v : Values) where
  -- The value of a feed of the builder.
  abbrev pub value : CircuitBuilder → ℕ → Bool
  value b n = run_gates b.gates v n

  -- The constants have their values.
  pub record IsValued (b : CircuitBuilder) : Type 0 where
    pub constants : 2 ≤ b.feed_id
    pub zero_false : value b 0 ≡ false
    pub one_true : value b 1 ≡ true

  -- The feeds of `b` are feeds of `b'`, with the values that they had.
  pub record Extends (b b' : CircuitBuilder) : Type 0 where
    pub grows : b.feed_id ≤ b'.feed_id
    pub keeps : (n : ℕ) → n < b.feed_id → value b' n ≡ value b n

  pub Extends-refl : (b : CircuitBuilder) → Extends b b
  Extends-refl b = record { grows = omega arith; keeps = λ n h. refl }

  pub Extends-trans : {b c d : CircuitBuilder} → Extends b c → Extends c d → Extends b d
  Extends-trans p q = record {
    grows = le_trans p.grows q.grows;
    keeps = λ n h. q.keeps n (le_trans h p.grows) ∙ p.keeps n h;
  }

  pub Extends-IsValued : {b c : CircuitBuilder} → Extends b c → IsValued b → IsValued c
  Extends-IsValued p w = record {
    constants = le_trans w.constants p.grows;
    zero_false = p.keeps 0 (le_trans (omega arith) w.constants) ∙ w.zero_false;
    one_true = p.keeps 1 (le_trans (omega arith) w.constants) ∙ w.one_true;
  }

  -- A feed of the builder with the value `x`.
  pub record Has (b : CircuitBuilder) (node : ℕ) (x : Bool) : Type 0 where
    pub is_feed : node < b.feed_id
    pub has_value : value b node ≡ x

  pub Extends-Has :
      {b c : CircuitBuilder} {node : ℕ} {x : Bool} → Extends b c → Has b node x → Has c node x
  Extends-Has {node = node} p h = record {
    is_feed = le_trans h.is_feed p.grows;
    has_value = p.keeps node h.is_feed ∙ h.has_value;
  }

  -- A method extends the builder and returns a node of the value `x`.
  pub record Returns (b : CircuitBuilder) (x : Bool) (result : ℕ × CircuitBuilder) : Type 0 where
    pub extends : Extends b result.1
    pub has : Has result.1 result.0 x
