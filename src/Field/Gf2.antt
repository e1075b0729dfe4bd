-- ===== src/Field/Gf2.antt =====
-- `crates/fields/src/gf2.rs`: the field of one bit.
use mpz.Prelude.{◌≡◌, ◌≢◌, refl, arith, Bool, true, false, ◌&&◌, xor as bool_xor, ◌==◌, none, some}
use mpz.Field.{Field, IsField}

unfoldable pub gf2 : Field Bool
gf2 = record {
  bit_size = 1;
  zero = false;
  one = true;
  add = λ a b. bool_xor a b;
  sub = λ a b. bool_xor a b;
  mul = λ a b. a && b;
  neg = λ a. a;
  two_pow = λ rhs. rhs == 0;
  inverse = λ a. elim a [ true ↦ some true | false ↦ none ];
}

invert :
    (a : Bool)
    → a ≢ false
    → (b : Bool) × (elim a [ true ↦ some true | false ↦ none ] ≡ some b) × (b && a ≡ true)
invert true h = (true, refl, refl)
invert false h = absurd (h refl)

-- The bit operations are the operations of a field.
pub gf2-IsField : IsField gf2
unfolding gf2 bool_xor
gf2-IsField = record {
  add_assoc = λ a b c. ground arith;
  add_comm = λ a b. ground arith;
  zero_add = λ a. ground arith;
  neg_add = λ a. ground arith;
  sub-eq = λ a b. refl;
  mul_assoc = λ a b c. ground arith;
  mul_comm = λ a b. ground arith;
  one_mul = λ a. refl;
  mul_add = λ a b c. ground arith;
  inverse-zero = refl;
  inverse-some = invert;
}
