-- ===== src/Field.antt =====
-- `crates/fields/src/lib.rs`: the trait `Field`, and the laws that a field satisfies.
pub mod Laws
pub mod Gf2
use mpz.Prelude.{ℕ, ◌≡◌, ◌≢◌, Option, none, some}

-- The trait's operations; `bit_size` is `BIT_SIZE`.
pub record Field (F : Type 0) : Type 0 where
  pub bit_size : ℕ
  pub zero : F
  pub one : F
  pub add : F → F → F
  pub sub : F → F → F
  pub mul : F → F → F
  pub neg : F → F
  pub two_pow : ℕ → F
  pub inverse : F → Option F

-- The laws that the operations of an implementation satisfy.
pub record IsField {F : Type 0} (field : Field F) : Type 0 where
  pub add_assoc : (a b c : F) → field.add (field.add a b) c ≡ field.add a (field.add b c)
  pub add_comm : (a b : F) → field.add a b ≡ field.add b a
  pub zero_add : (a : F) → field.add field.zero a ≡ a
  pub neg_add : (a : F) → field.add (field.neg a) a ≡ field.zero
  pub sub-eq : (a b : F) → field.sub a b ≡ field.add a (field.neg b)
  pub mul_assoc : (a b c : F) → field.mul (field.mul a b) c ≡ field.mul a (field.mul b c)
  pub mul_comm : (a b : F) → field.mul a b ≡ field.mul b a
  pub one_mul : (a : F) → field.mul field.one a ≡ a
  pub mul_add :
      (a b c : F) → field.mul a (field.add b c) ≡ field.add (field.mul a b) (field.mul a c)
  pub inverse-zero : field.inverse field.zero ≡ none
  pub inverse-some :
      (a : F) → a ≢ field.zero → (b : F) × (field.inverse a ≡ some b) × (field.mul b a ≡ field.one)
