-- ===== src/Circuit/Builder.antt =====
-- `crates/circuits-core/src/builder.rs`: the circuit builder. Feeds 0 and 1 are the constants; a
-- gate on a constant is simplified and adds no feed.
pub mod Value
pub mod Gates
use mpz.Prelude.{ℕ, ◌+◌, Bool, ◌&&◌, ◌||◌, ◌==◌, List, [], ◌∷◌, ◌++◌, if◌then◌else◌}
use mpz.Circuit.{Gate, xor, and, inv, id}

pub record CircuitBuilder : Type 0 where
  pub feed_id : ℕ
  pub inputs : List ℕ
  pub outputs : List ℕ
  pub gates : List Gate
  pub and_count : ℕ
  pub xor_count : ℕ

-- A method that returns a node, or what else it returns, and the builder.
abbrev pub Build : Type 0 → Type 0
Build A = CircuitBuilder → A × CircuitBuilder

infixl 5 ◌>>=◌
abbrev pub ◌>>=◌ : {A B : Type 0} → Build A → (A → Build B) → Build B
◌>>=◌ m f b = let (a, b') = m b in f a b'

abbrev pub pure : {A : Type 0} → A → Build A
pure a b = (a, b)

-- `CircuitBuilder::new`.
abbrev pub new : CircuitBuilder
new = record { feed_id = 2; inputs = []; outputs = []; gates = []; and_count = 0; xor_count = 0 }

abbrev pub const_zero : ℕ
const_zero = 0

abbrev pub const_one : ℕ
const_one = 1

unfoldable pub add_feed : Build ℕ
add_feed b = (b.feed_id, record b { feed_id = b.feed_id + 1 })

unfoldable pub add_input : Build ℕ
unfolding add_feed
add_input b = let (node, b) = add_feed b in (node, record b { inputs = b.inputs ++ node ∷ [] })

unfoldable pub add_output : ℕ → CircuitBuilder → CircuitBuilder
add_output node b = record b { outputs = b.outputs ++ node ∷ [] }

-- `self.gates.push(gate)`, after `add_feed`, for the gate that writes the new feed.
abbrev push_gate : (ℕ → Gate) → Build ℕ
unfolding add_feed
push_gate gate b = let (out, b) = add_feed b in (out, record b { gates = b.gates ++ gate out ∷ [] })

unfoldable pub add_xor_gate : ℕ → ℕ → Build ℕ
unfolding add_feed
add_xor_gate x y b =
    if x == 0 && y == 0 || x == 1 && y == 1
    then (const_zero, b)
    else if x == 0
    then (y, b)
    else if y == 0
    then (x, b)
    else if x == 1
    then push_gate (inv y) b
    else if y == 1
    then push_gate (inv x) b
    else (let (out, b) = push_gate (xor x y) b in (out, record b { xor_count = b.xor_count + 1 }))

unfoldable pub add_and_gate : ℕ → ℕ → Build ℕ
unfolding add_feed
add_and_gate x y b =
    if x == 0 || y == 0
    then (const_zero, b)
    else if x == 1
    then (y, b)
    else if y == 1
    then (x, b)
    else (let (out, b) = push_gate (and x y) b in (out, record b { and_count = b.and_count + 1 }))

unfoldable pub add_inv_gate : ℕ → Build ℕ
unfolding add_feed
add_inv_gate x b =
    if x == 0 then (const_one, b) else if x == 1 then (const_zero, b) else push_gate (inv x) b

unfoldable pub add_id_gate : ℕ → Build ℕ
unfolding add_feed
add_id_gate x b =
    if x == 0 then (const_zero, b) else if x == 1 then (const_one, b) else push_gate (id x) b
