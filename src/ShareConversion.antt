-- ===== src/ShareConversion.antt =====
-- `crates/share-conversion-core/src/a2m.rs`: additive shares become multiplicative shares.
pub mod Product
pub mod Tests
use mpz.Prelude.{◌≡◌, ◌≢◌, refl, sym, ◌∙◌, ap, ap₂, Option, none, some, Outcome, ok, err, panic}
use mpz.Field.{Field, IsField}
use mpz.Field.Laws.{add_left_comm, mul_left_comm, add_mul, add_cancel, sub_add}
use mpz.Ole.{OleShare}
use mpz.Ole.Correct.{IsOle}

-- `A2MError`: the sender's OLE input is zero.
pub data A2mError : Type 0 where
  zero_input : A2mError

-- `A2MSenderDerand` and `A2MSenderAdjust` have the same fields.
pub record A2mSender (F : Type 0) : Type 0 where
  pub input : F
  pub add : F
  pub mul : F

pub record A2mReceiver (F : Type 0) : Type 0 where
  pub input : F
  pub add : F
  pub mul : F

module _ {F : Type 0} (field : Field F) where
  abbrev pub new_sender : F → OleShare F → A2mSender F
  new_sender input role = record { input = input; add = role.add; mul = role.mul }

  -- `A2MSenderDerand::offset`.
  unfoldable pub receive_offset : A2mSender F → F → A2mSender F
  receive_offset s offset = record s { add = field.add s.add (field.mul s.mul offset) }

  -- `A2MSenderAdjust::send`: the multiplicative share and the masked share.
  unfoldable pub send : A2mSender F → Outcome A2mError (F × F)
  send s =
      let masked = field.add (field.mul s.input s.mul) s.add in
      elim (field.inverse s.mul) [ none ↦ err zero_input | some output ↦ ok (output, masked) ]

  abbrev pub new_receiver : F → OleShare F → A2mReceiver F
  new_receiver input role = record { input = input; add = role.add; mul = role.mul }

  -- `A2MReceiverDerand::offset`: what is left is the additive share, and the offset is sent.
  unfoldable pub send_offset : A2mReceiver F → F × F
  send_offset r = (r.add, field.sub r.input r.mul)

  -- `A2MReceiverAdjust::receive`.
  unfoldable pub receive : F → F → F
  receive add masked = field.add add masked

  -- A run of the conversion: the shares of sender and receiver.
  unfoldable pub convert : F → F → OleShare F → OleShare F → Outcome A2mError (F × F)
  convert sender_input receiver_input s r =
      let (add, offset) = send_offset (new_receiver receiver_input r) in
      let sender = receive_offset (new_sender sender_input s) offset in
      elim (send sender) [ ok out ↦ ok (out.0, receive add out.1) | err e ↦ err e | panic ↦ panic ]
