-- ===== src/Field/Laws.antt =====
-- The consequences of the field laws that the protocols use, and their ruleset.
use mpz.Prelude.{◌≡◌, sym, ◌∙◌, ap, ap₂}
use mpz.Field.{Field, IsField}

module _ {F : Type 0} {field : Field F} (L : IsField field) where
  pub add_left_comm : (a b c : F) → field.add a (field.add b c) ≡ field.add b (field.add a c)
  add_left_comm a b c =
      sym (L.add_assoc a b c) ∙ ap (λ x. field.add x c) (L.add_comm a b) ∙ L.add_assoc b a c

  pub mul_left_comm : (a b c : F) → field.mul a (field.mul b c) ≡ field.mul b (field.mul a c)
  mul_left_comm a b c =
      sym (L.mul_assoc a b c) ∙ ap (λ x. field.mul x c) (L.mul_comm a b) ∙ L.mul_assoc b a c

  pub add_mul :
      (a b c : F) → field.mul (field.add a b) c ≡ field.add (field.mul a c) (field.mul b c)
  add_mul a b c =
      L.mul_comm (field.add a b) c
      ∙ L.mul_add c a b
      ∙ ap₂ (λ x y. field.add x y) (L.mul_comm c a) (L.mul_comm c b)

  pub add_cancel : (a b c : F) → field.add a b ≡ field.add a c → b ≡ c
  add_cancel a b c h = sym (back b) ∙ ap (λ x. field.add (field.neg a) x) h ∙ back c
    where
      back : (x : F) → field.add (field.neg a) (field.add a x) ≡ x
      back x =
          sym (L.add_assoc (field.neg a) a x) ∙ ap (λ y. field.add y x) (L.neg_add a) ∙ L.zero_add x

  -- A summand and its negative cancel, also apart.
  pub neg_add_left : (a b : F) → field.add (field.neg a) (field.add a b) ≡ b
  neg_add_left a b =
      sym (L.add_assoc (field.neg a) a b) ∙ ap (λ y. field.add y b) (L.neg_add a) ∙ L.zero_add b

  pub add_zero : (a : F) → field.add a field.zero ≡ a
  add_zero a = L.add_comm a field.zero ∙ L.zero_add a

  pub mul_zero : (a : F) → field.mul a field.zero ≡ field.zero
  mul_zero a = add_cancel (field.mul a field.zero) (field.mul a field.zero) field.zero (
      sym (L.mul_add a field.zero field.zero)
      ∙ ap (λ x. field.mul a x) (L.zero_add field.zero)
      ∙ sym (add_zero (field.mul a field.zero)))

  -- A difference and what was taken away make up the whole.
  pub sub_add : (a b : F) → field.add (field.sub a b) b ≡ a
  sub_add a b = rw (L.sub-eq a b, L.add_assoc a (field.neg b) b, L.neg_add b) (add_zero a)
