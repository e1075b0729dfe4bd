-- ===== src/Circuit/Ops.antt =====
-- `crates/circuits-core/src/ops.rs`: binary operations on the nodes of a builder. A slice of nodes
-- is a list, least significant bit first; `Outcome` is there for the asserted lengths.
pub mod Adders
pub mod Words
pub mod Add
pub mod Sub
pub mod Switch
pub mod Reduce
pub mod Bitwise
use mpz.Prelude.{
  ℕ, zero, suc, ◌+◌, ◌-◌, Bool, true, false, ◌==◌, ltb, List, [], ◌∷◌, ◌++◌, Outcome, ok, assert,
  ◌>>◌, length, take,
}
use mpz.Circuit.Builder.{
  CircuitBuilder, Build, ◌>>=◌, pure, add_xor_gate, add_and_gate, add_inv_gate, const_zero,
  const_one,
}

unfoldable pub full_adder : ℕ → ℕ → ℕ → Build (ℕ × ℕ)
full_adder a b c_in = do
  a_b ← add_xor_gate a b
  sum ← add_xor_gate a_b c_in
  a_c_in ← add_xor_gate a c_in
  b_c_in ← add_xor_gate b c_in
  and ← add_and_gate a_c_in b_c_in
  c_out ← add_xor_gate and c_in
  pure (sum, c_out)

unfoldable pub full_adder_no_carry_out : ℕ → ℕ → ℕ → Build ℕ
full_adder_no_carry_out a b c_in = do a_b ← add_xor_gate a b; add_xor_gate a_b c_in

unfoldable pub half_adder : ℕ → ℕ → Build (ℕ × ℕ)
half_adder a b = do sum ← add_xor_gate a b; c_out ← add_and_gate a b; pure (sum, c_out)

-- The rounds of `wrapping_add` from round `n` on, with the carry of the round before.
unfoldable pub add_rounds : ℕ → ℕ → ℕ → List ℕ → List ℕ → Build (List ℕ)
add_rounds len n c_out [] bs = pure []
add_rounds len n c_out (a ∷ as') [] = pure []
add_rounds len n c_out (a ∷ as') (b ∷ bs) = elim (n == 0) [
  | true ↦ (do
    first ← half_adder a b
    rest ← add_rounds len (n + 1) first.1 as' bs
    pure (first.0 ∷ rest))
  | false ↦ elim (ltb n (len - 1)) [
    | true ↦ (do
      next ← full_adder a b c_out
      rest ← add_rounds len (n + 1) next.1 as' bs
      pure (next.0 ∷ rest))
    | false ↦ (do
      sum ← full_adder_no_carry_out a b c_out
      rest ← add_rounds len (n + 1) c_out as' bs
      pure (sum ∷ rest))
  ]
]

unfoldable pub wrapping_add : List ℕ → List ℕ → CircuitBuilder → Outcome ⊥ (List ℕ × CircuitBuilder)
wrapping_add a b builder = do
  assert (length a == length b)
  ok (add_rounds (length a) 0 const_zero a b builder)

-- `b.iter().map(|b| builder.add_inv_gate(*b)).collect()`, and `inv`.
unfoldable pub inv : List ℕ → Build (List ℕ)
inv [] = pure []
inv (b ∷ bs) = do b_inv ← add_inv_gate b; rest ← inv bs; pure (b_inv ∷ rest)

-- The rounds of `wrapping_sub`, with the last borrow.
unfoldable pub sub_rounds : ℕ → List ℕ → List ℕ → Build (List ℕ × ℕ)
sub_rounds b_out [] bs = pure ([], b_out)
sub_rounds b_out (a ∷ as') [] = pure ([], b_out)
sub_rounds b_out (a ∷ as') (b_inv ∷ bs) = do
  next ← full_adder a b_inv b_out
  rest ← sub_rounds next.1 as' bs
  pure (next.0 ∷ rest.0, rest.1)

-- The difference, and the bit that says whether it underflowed.
abbrev pub sub_nodes : List ℕ → List ℕ → Build (List ℕ × ℕ)
sub_nodes a b = do
  b_inv ← inv b
  diff ← sub_rounds const_one a b_inv
  underflow ← add_inv_gate diff.1
  pure (diff.0, underflow)

unfoldable pub wrapping_sub :
    List ℕ → List ℕ → CircuitBuilder → Outcome ⊥ ((List ℕ × ℕ) × CircuitBuilder)
wrapping_sub a b builder = do assert (length a == length b); ok (sub_nodes a b builder)

unfoldable pub switch_rounds : ℕ → ℕ → List ℕ → List ℕ → Build (List ℕ)
switch_rounds toggle not_toggle [] bs = pure []
switch_rounds toggle not_toggle (a ∷ as') [] = pure []
switch_rounds toggle not_toggle (a ∷ as') (b ∷ bs) = do
  a_and_not_toggle ← add_and_gate a not_toggle
  b_and_toggle ← add_and_gate b toggle
  out ← add_xor_gate a_and_not_toggle b_and_toggle
  rest ← switch_rounds toggle not_toggle as' bs
  pure (out ∷ rest)

unfoldable pub switch : List ℕ → List ℕ → ℕ → CircuitBuilder → Outcome ⊥ (List ℕ × CircuitBuilder)
switch a b toggle builder = do
  assert (length a == length b)
  let (not_toggle, builder) = add_inv_gate toggle builder
  ok (switch_rounds toggle not_toggle a b builder)

-- `std::array::from_fn(|n| gate(builder, a[n], b[n]))`.
unfoldable pub from_fn : (ℕ → ℕ → Build ℕ) → List ℕ → List ℕ → Build (List ℕ)
from_fn gate [] bs = pure []
from_fn gate (a ∷ as') [] = pure []
from_fn gate (a ∷ as') (b ∷ bs) = do out ← gate a b; rest ← from_fn gate as' bs; pure (out ∷ rest)

-- `xor`, `and` and `or` of words.
abbrev pub xor_nodes : List ℕ → List ℕ → Build (List ℕ)
xor_nodes a b = from_fn add_xor_gate a b

abbrev pub and_nodes : List ℕ → List ℕ → Build (List ℕ)
and_nodes a b = from_fn add_and_gate a b

unfoldable pub or_node : ℕ → ℕ → Build ℕ
or_node a b = do
  a_xor_b ← add_xor_gate a b
  a_and_b ← add_and_gate a b
  add_xor_gate a_xor_b a_and_b

abbrev pub or_nodes : List ℕ → List ℕ → Build (List ℕ)
or_nodes a b = from_fn or_node a b
