-- ===== src/ShareConversion/Product.antt =====
-- The conversion of `crates/share-conversion-core/src/a2m.rs` gives shares of a product.
use mpz.Prelude.{◌≡◌, ◌≢◌, refl, sym, ◌∙◌, ap, ok, err}
use mpz.Field.{Field, IsField}
use mpz.Field.Laws.{add_left_comm, mul_left_comm, add_mul, sub_add}
use mpz.Ole.{OleShare}
use mpz.Ole.Correct.{IsOle}
use mpz.ShareConversion.{zero_input, receive_offset, send, send_offset, receive, convert}

module _ {F : Type 0} {field : Field F} (L : IsField field) where
  -- What the receiver ends with is the sum of the inputs, times the sender's OLE input.
  masked_sum :
      (s r : OleShare F) (h v : F)
      → IsOle field s r
      → field.add r.add
          (field.add (field.mul h s.mul) (field.add s.add (field.mul s.mul (field.sub v r.mul))))
        ≡ field.mul s.mul (field.add h v)
  masked_sum s r h v ole =
      let q = field.mul s.mul (field.sub v r.mul) in
      let whole =
        sym (L.mul_add s.mul (field.sub v r.mul) r.mul)
        ∙ ap (λ x. field.mul s.mul x) (sub_add L v r.mul) in
      let hm = field.mul h s.mul in
      let mw = field.mul s.mul r.mul in
      let front : field.add r.add (field.add hm (field.add s.add q))
          ≡ field.add (field.add s.add r.add) (field.add hm q) =
        simp (L.add_assoc, L.add_comm, add_left_comm L) in
      let back : field.add mw (field.add hm q) ≡ field.add (field.add q mw) hm =
        simp (L.add_assoc, L.add_comm, add_left_comm L) in
      front
      ∙ ap (λ x. field.add x (field.add hm q)) (sym ole)
      ∙ back
      ∙ ap (λ x. field.add x hm) whole
      ∙ simp (
        L.add_assoc,
        L.add_comm,
        add_left_comm L,
        L.mul_assoc,
        L.mul_comm,
        mul_left_comm L,
        L.mul_add,
        add_mul L,
      )

  -- With the shares of an OLE whose sender's input is not zero, the conversion succeeds, and the
  -- product of the shares is the sum of the inputs.
  pub convert-product :
      (h v : F) (s r : OleShare F)
      → IsOle field s r
      → s.mul ≢ field.zero
      → (a b : F) × (convert field h v s r ≡ ok (a, b)) × (field.mul a b ≡ field.add h v)
  unfolding convert send send_offset receive_offset receive
  convert-product h v s r ole nonzero =
      let (a, found, unit) = L.inverse-some s.mul nonzero in
      (
        a,
        _,
        rw (found, convert) refl,
        ap (λ x. field.mul a x) (masked_sum s r h v ole)
            ∙ sym (L.mul_assoc a s.mul (field.add h v))
            ∙ ap (λ x. field.mul x (field.add h v)) unit
            ∙ L.one_mul (field.add h v),
      )

  -- With a zero sender's input the conversion fails with the sender's error.
  pub convert-zero_input :
      (h v : F) (s r : OleShare F) → s.mul ≡ field.zero → convert field h v s r ≡ err zero_input
  unfolding convert send send_offset receive_offset
  convert-zero_input h v s r e = rw (e, convert, L.inverse-zero) refl
