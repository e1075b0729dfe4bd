-- ===== src/Circuit/Ops/Adders.antt =====
-- The adders of `crates/circuits-core/src/ops.rs` on single bits.
use mpz.Prelude.{ℕ, ◌+◌, ◌*◌, ◌≡◌, Bool, true, false, ◌&&◌, xor, arith}
use mpz.Circuit.Builder.{CircuitBuilder}
use mpz.Circuit.Builder.Value.{
  Values, IsValued, Extends, Extends-trans, Extends-IsValued, Has, Extends-Has, Returns,
}
use mpz.Circuit.Builder.Gates.{add_xor_gate-Returns, add_and_gate-Returns}
use mpz.Circuit.Ops.{full_adder, full_adder_no_carry_out, half_adder}

-- A bit as a number.
abbrev pub bit : Bool → ℕ
bit true = 1
bit false = 0

-- A method that extends the builder and returns a sum and a carry, nodes of the given values.
pub record Adds (v : Values) (b : CircuitBuilder) (sum carry : Bool)
    (result : (ℕ × ℕ) × CircuitBuilder) : Type 0 where
  pub extends : Extends v b result.1
  pub has_sum : Has v result.1 result.0.0 sum
  pub has_carry : Has v result.1 result.0.1 carry

abbrev pub sum_bit : Bool → Bool → Bool → Bool
sum_bit p q r = xor (xor p q) r

abbrev pub carry_bit : Bool → Bool → Bool → Bool
carry_bit p q r = xor (xor p r && xor q r) r

-- Sum and carry make up the sum of the three bits.
pub sum_and_carry :
    (p q r : Bool) → bit (sum_bit p q r) + 2 * bit (carry_bit p q r) ≡ bit p + bit q + bit r
unfolding xor
sum_and_carry p q r = ground arith

module _ (v : Values) {b : CircuitBuilder} (w : IsValued v b) {x y : ℕ} {p q : Bool}
    (hx : Has v b x p) (hy : Has v b y q) where
  pub half_adder-Adds : Adds v b (xor p q) (p && q) (half_adder x y b)
  unfolding half_adder
  half_adder-Adds =
      let r1 = add_xor_gate-Returns v w hx hy in
      let e1 = r1.extends in
      let r2 =
        add_and_gate-Returns v (Extends-IsValued v e1 w) (Extends-Has v e1 hx)
          (Extends-Has v e1 hy) in
      record {
        extends = Extends-trans v e1 r2.extends;
        has_sum = Extends-Has v r2.extends r1.has;
        has_carry = r2.has;
      }

  module _ {z : ℕ} {r : Bool} (hz : Has v b z r) where
    pub full_adder_no_carry_out-Returns :
        Returns v b (sum_bit p q r) (full_adder_no_carry_out x y z b)
    unfolding full_adder_no_carry_out
    full_adder_no_carry_out-Returns =
        let r1 = add_xor_gate-Returns v w hx hy in
        let e1 = r1.extends in
        let r2 = add_xor_gate-Returns v (Extends-IsValued v e1 w) r1.has (Extends-Has v e1 hz) in
        record { extends = Extends-trans v e1 r2.extends; has = r2.has }

    pub full_adder-Adds : Adds v b (sum_bit p q r) (carry_bit p q r) (full_adder x y z b)
    unfolding full_adder
    full_adder-Adds =
        let r1 = add_xor_gate-Returns v w hx hy in
        let e1 = r1.extends in
        let r2 = add_xor_gate-Returns v (Extends-IsValued v e1 w) r1.has (Extends-Has v e1 hz) in
        let e2 = Extends-trans v e1 r2.extends in
        let r3 =
          add_xor_gate-Returns v (Extends-IsValued v e2 w) (Extends-Has v e2 hx)
            (Extends-Has v e2 hz) in
        let e3 = Extends-trans v e2 r3.extends in
        let r4 =
          add_xor_gate-Returns v (Extends-IsValued v e3 w) (Extends-Has v e3 hy)
            (Extends-Has v e3 hz) in
        let e4 = Extends-trans v e3 r4.extends in
        let r5 =
          add_and_gate-Returns v (Extends-IsValued v e4 w) (Extends-Has v r4.extends r3.has)
            r4.has in
        let e5 = Extends-trans v e4 r5.extends in
        let r6 = add_xor_gate-Returns v (Extends-IsValued v e5 w) r5.has (Extends-Has v e5 hz) in
        let e36 =
          Extends-trans v (Extends-trans v r3.extends r4.extends)
            (Extends-trans v r5.extends r6.extends) in
        record {
          extends = Extends-trans v e5 r6.extends;
          has_sum = Extends-Has v e36 r2.has;
          has_carry = r6.has;
        }
