-- ===== src/Ole.antt =====
-- `crates/ole-core/src/lib.rs`: shares of an oblivious linear evaluation, made from the masks of a
-- random oblivious transfer. A fixed-size array is a list.
pub mod Correct
pub mod Adjust
pub mod Parties
pub mod Shares
pub mod Transfer
pub mod Any
pub mod Ideal
pub mod Tests
use mpz.Prelude.{ℕ, zero, ◌+◌, ◌≡◌, Bool, List, [], ◌∷◌, map, if◌then◌else◌}
use mpz.Field.{Field}

pub record OleShare (F : Type 0) : Type 0 where
  pub add : F
  pub mul : F

module _ {F : Type 0} (field : Field F) where
  -- The fold of `OLEShare::new_ole_sender`, from index `i`.
  unfoldable pub fold_masks : ℕ → F → List (F × F) → F
  fold_masks i acc [] = acc
  fold_masks i acc (mask ∷ masks) =
      fold_masks (i + 1) (field.add acc (field.mul (field.two_pow i) mask.0)) masks

  unfoldable pub new_ole_sender : F → List (F × F) → OleShare F × List F
  new_ole_sender input masks =
      let share : OleShare F = record {
        add = field.neg (fold_masks 0 field.zero masks);
        mul = input;
      } in
      let masked = map (λ (m : F × F). field.add (field.sub m.0 m.1) input) masks in (share, masked)

  -- `if delta { F::one() } else { F::zero() }`.
  abbrev pub choice : Bool → F
  choice delta = if delta then field.one else field.zero

  -- The fold of `OLEShare::new_ole_receiver`, from index `i`.
  unfoldable pub fold_choices : ℕ → F × F → List Bool → List F → List F → F × F
  fold_choices i acc (delta ∷ choices) (u ∷ corr) (t ∷ masks) =
      let add =
        field.add acc.0 (field.mul (field.two_pow i) (field.add (field.mul (choice delta) u) t)) in
      let mul = field.add acc.1 (field.mul (field.two_pow i) (choice delta)) in
      fold_choices (i + 1) (add, mul) choices corr masks
  fold_choices i acc choices corr masks = acc

  unfoldable pub new_ole_receiver : List Bool → List F → List F → OleShare F
  new_ole_receiver choices masks corr =
      let result = fold_choices 0 (field.zero, field.zero) choices corr masks in
      record { add = result.0; mul = result.1 }
