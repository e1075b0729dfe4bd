-- ===== src/Ole/Correct.antt =====
-- What the shares of `crates/ole-core/src/lib.rs` promise: `ab = x + y`.
use mpz.Prelude.{
  ℕ, ◌+◌, ◌≡◌, refl, sym, ◌∙◌, ap, Bool, true, false, List, [], ◌∷◌, length, zip_with,
  if◌then◌else◌, arith,
}
use mpz.Field.{Field, IsField}
use mpz.Field.Laws.{
  add_left_comm, mul_left_comm, add_mul, neg_add_left, add_zero, mul_zero, sub_add,
}
use mpz.Ole.{OleShare, fold_masks, new_ole_sender, choice, fold_choices, new_ole_receiver}

-- The sender's share and the receiver's make up an OLE.
abbrev pub IsOle : {F : Type 0} → Field F → OleShare F → OleShare F → Type 0
IsOle field s r = field.mul s.mul r.mul ≡ field.add s.add r.add

-- What the receiver of a random oblivious transfer gets: of each pair the element that its bit chooses.
abbrev pub received : {F : Type 0} → List Bool → List (F × F) → List F
received choices masks = zip_with (λ delta m. if delta then m.1 else m.0) choices masks

module _ {F : Type 0} {field : Field F} (L : IsField field) where
  chosen_mask :
      (delta : Bool) (z o a : F)
      → field.add
          (field.mul (choice field delta) (field.add (field.sub z o) a))
          (if delta then o else z)
        ≡ field.add z (field.mul a (choice field delta))
  chosen_mask true z o a =
      let moved : field.add (field.add (field.sub z o) a) o
          ≡ field.add (field.add (field.sub z o) o) a =
        simp (L.add_assoc, L.add_comm, add_left_comm L) in
      rw (L.one_mul, L.mul_comm a field.one, L.one_mul a)
        (moved ∙ ap (λ x. field.add x a) (sub_add L z o))
  chosen_mask false z o a =
      rw
        (
          L.mul_comm field.zero (field.add (field.sub z o) a),
          mul_zero L (field.add (field.sub z o) a),
          mul_zero L a,
          L.zero_add z,
          add_zero L z,
        )
        refl

  fold_choices-fold_masks :
      (masks : List (F × F)) (choices : List Bool) (a : F) (i : ℕ) (s : F) (acc : F × F)
      → length choices ≡ length masks
      → acc.0 ≡ field.add s (field.mul a acc.1)
      → let r =
          fold_choices field i acc choices
            (new_ole_sender field a masks).1
            (received choices masks) in
        r.0 ≡ field.add (fold_masks field i s masks) (field.mul a r.1)
  unfolding fold_choices fold_masks new_ole_sender
  fold_choices-fold_masks [] [] a i s acc same h = h
  fold_choices-fold_masks [] (c ∷ choices) a i s acc same h = absurd (omega arith)
  fold_choices-fold_masks (m ∷ masks) [] a i s acc same h = absurd (omega arith)
  fold_choices-fold_masks (m ∷ masks) (c ∷ choices) a i s acc same h =
      fold_choices-fold_masks masks choices a (i + 1) _ _ (omega arith) (
        rw (h, chosen_mask c m.0 m.1 a)
          (simp (
            L.add_assoc,
            L.add_comm,
            add_left_comm L,
            L.mul_assoc,
            L.mul_comm,
            mul_left_comm L,
            L.mul_add,
            add_mul L,
          )))

  -- The shares that sender and receiver compute from the masks of a random oblivious transfer are
  -- an OLE, `ab = x + y`, for any input of the sender and any choices of the receiver, if there are
  -- as many choices as masks.
  pub new_ole_receiver-IsOle :
      (a : F) (masks : List (F × F)) (choices : List Bool)
      → length choices ≡ length masks
      → let (share, masked) = new_ole_sender field a masks in
        IsOle field share (new_ole_receiver field choices (received choices masks) masked)
  unfolding new_ole_receiver new_ole_sender
  new_ole_receiver-IsOle a masks choices same =
      let sums =
        fold_choices-fold_masks masks choices a 0 field.zero (field.zero, field.zero) same
          (rw (mul_zero L a, L.zero_add field.zero) refl) in
      sym (rw sums (neg_add_left L _ _))
