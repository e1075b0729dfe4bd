-- ===== src/Ole/Adjust.antt =====
-- `crates/ole-core/src/adjust.rs`: the shares of a random OLE are adjusted to chosen inputs.
use mpz.Prelude.{◌≡◌, sym, ◌∙◌, ap}
use mpz.Field.{Field, IsField}
use mpz.Field.Laws.{add_left_comm, mul_left_comm, add_mul, add_cancel, sub_add}
use mpz.Ole.{OleShare}
use mpz.Ole.Correct.{IsOle}

pub record Adjust (F : Type 0) : Type 0 where
  pub target : F
  pub share : OleShare F

module _ {F : Type 0} (field : Field F) where
  -- `OLEShare::adjust`, `Adjust::new`.
  abbrev pub adjust : OleShare F → F → Adjust F
  adjust share target = record { target = target; share = share }

  unfoldable pub offset : Adjust F → F
  offset a = field.add a.share.mul a.target

  unfoldable pub sender_finish : Adjust F → F → OleShare F
  sender_finish a offset = record {
    add = field.sub a.share.add (field.mul a.share.mul offset);
    mul = a.target;
  }

  unfoldable pub receiver_finish : Adjust F → F → OleShare F
  receiver_finish a offset = record {
    add = field.add a.share.add (field.mul offset a.target);
    mul = a.target;
  }

module _ {F : Type 0} {field : Field F} (L : IsField field) where
  -- When both parties adjust the shares of an OLE and finish with the offset of the other, they hold
  -- an OLE of their targets.
  pub receiver_finish-IsOle :
      (s r : OleShare F) (a b : F)
      → IsOle field s r
      → IsOle field
          (sender_finish field (adjust field s a) (offset field (adjust field r b)))
          (receiver_finish field (adjust field r b) (offset field (adjust field s a)))
  unfolding offset sender_finish receiver_finish
  receiver_finish-IsOle s r a b h =
      let d = field.mul s.mul (field.add r.mul b) in
      let e = field.mul (field.add s.mul a) b in
      let difference = field.sub s.add d in
      let moved : field.add d (field.add difference (field.add r.add e))
          ≡ field.add (field.add difference d) (field.add r.add e) =
        simp (L.add_assoc, L.add_comm, add_left_comm L) in
      let products : field.add d (field.mul a b) ≡ field.add (field.mul s.mul r.mul) e = simp (
        L.add_assoc,
        L.add_comm,
        add_left_comm L,
        L.mul_assoc,
        L.mul_comm,
        mul_left_comm L,
        L.mul_add,
        add_mul L,
      ) in
      add_cancel L d _ _ (
        products
        ∙ ap (λ x. field.add x e) h
        ∙ L.add_assoc s.add r.add e
        ∙ ap (λ x. field.add x (field.add r.add e)) (sym (sub_add L s.add d))
        ∙ sym moved)
