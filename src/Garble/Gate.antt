-- ===== src/Garble/Gate.antt =====
-- The half-gate garbled AND gate: `and_gate` of `crates/garble-core/src/garbler.rs` and of
-- `crates/garble-core/src/evaluator.rs`, with `EncryptedGate` of `circuit.rs`.
use mpz.Prelude.{
  ℕ, ◌+◌, ◌≡◌, ap, ap₂, ◌∙◌, refl, Bool, true, false, ◌&&◌, xor, [], ◌∷◌, get_or, arith,
  if◌then◌else◌,
}
use mpz.Block.{Block, bitxor, bitand, select_mask, zero_block, lsb, be_bytes}
use mpz.Block.Cipher.{tccr_many, tccr}
use mpz.Block.Laws.{Bits_ext, bits, lsb-bitxor, lsb-choice}

-- `EncryptedGate([t_g, t_e])`.
pub record EncryptedGate : Type 0 where
  pub t_g : Block
  pub t_e : Block

-- The label that stands for a bit: the 0-label, offset by delta for a 1.
abbrev pub label : Block → Block → Bool → Block
label delta x_0 bit = bitxor x_0 (if bit then delta else zero_block)

-- The garbler's half: the evaluator gets the half's 0-label, offset if `a && p_b`.
garbler_half :
    (delta hx_0 hx_1 : Block) (p_a p_b a : Bool)
    → let t_g = bitxor (bitxor hx_0 hx_1) (bitand (select_mask p_b) delta) in
      bitxor (if a then hx_1 else hx_0) (bitand t_g (select_mask (xor p_a a)))
      ≡ label delta (bitxor hx_0 (bitand (select_mask p_a) t_g)) (a && p_b)
unfolding xor
garbler_half delta hx_0 hx_1 p_a p_b true = Bits_ext _ _ (λ i. simp bits (ground arith))
garbler_half delta hx_0 hx_1 p_a p_b false = Bits_ext _ _ (λ i. simp bits (ground arith))

-- The evaluator's half: it gets the half's 0-label, offset if `a` and the label of `y` has the
-- pointer bit 1.
evaluator_half :
    (delta x_0 hy_0 hy_1 : Block) (p_b a b : Bool)
    → let t_e = bitxor (bitxor hy_0 hy_1) x_0 in
      bitxor
        (if b then hy_1 else hy_0)
        (bitand (select_mask (xor p_b b)) (bitxor t_e (label delta x_0 a)))
      ≡ label delta (bitxor hy_0 (bitand (select_mask p_b) (bitxor t_e x_0))) (a && xor p_b b)
unfolding xor
evaluator_half delta x_0 hy_0 hy_1 p_b a true = Bits_ext _ _ (λ i. simp bits (ground arith))
evaluator_half delta x_0 hy_0 hy_1 p_b a false = Bits_ext _ _ (λ i. simp bits (ground arith))

-- Together they are offset by the AND.
label-xor :
    (delta w_g w_e : Block) (p_b a b : Bool)
    → bitxor (label delta w_g (a && p_b)) (label delta w_e (a && xor p_b b))
      ≡ label delta (bitxor w_g w_e) (a && b)
unfolding xor
label-xor delta w_g w_e p_b a b = Bits_ext _ _ (λ i. simp bits (ground arith))

-- The pointer bit of a label is that of the 0-label, flipped for a 1.
lsb-label :
    (delta x_0 : Block) (a : Bool) → lsb delta ≡ true → lsb (label delta x_0 a) ≡ xor (lsb x_0) a
lsb-label delta x_0 a pointer = simp (lsb-bitxor, lsb-choice, pointer) (unfold xor in ground arith)

-- A label of 1 is the 1-label, a label of 0 the 0-label.
label-choice :
    (h : Block → Block) (delta x_0 : Block) (a : Bool)
    → h (label delta x_0 a) ≡ (if a then h (bitxor x_0 delta) else h x_0)
label-choice h delta x_0 true = refl
label-choice h delta x_0 false = ap h (Bits_ext _ _ (λ i. simp bits (unfold xor in ground arith)))

module _ (encrypt : Block → Block) where
  -- `garbler::and_gate`.
  unfoldable pub garble_and : Block → Block → Block → ℕ → Block × EncryptedGate
  unfolding tccr_many
  garble_and delta x_0 y_0 gid =
      let x_1 = bitxor x_0 delta in
      let y_1 = bitxor y_0 delta in
      let p_a = lsb x_0 in
      let p_b = lsb y_0 in
      let j = be_bytes gid in
      let k = be_bytes (gid + 1) in
      let h = tccr_many encrypt (j ∷ k ∷ j ∷ k ∷ []) (x_0 ∷ y_0 ∷ x_1 ∷ y_1 ∷ []) in
      let hx_0 = get_or h 0 zero_block in
      let hy_0 = get_or h 1 zero_block in
      let hx_1 = get_or h 2 zero_block in
      let hy_1 = get_or h 3 zero_block in
      let t_g = bitxor (bitxor hx_0 hx_1) (bitand (select_mask p_b) delta) in
      let w_g = bitxor hx_0 (bitand (select_mask p_a) t_g) in
      let t_e = bitxor (bitxor hy_0 hy_1) x_0 in
      let w_e = bitxor hy_0 (bitand (select_mask p_b) (bitxor t_e x_0)) in
      (bitxor w_g w_e, record { t_g = t_g; t_e = t_e })

  -- `evaluator::and_gate`.
  unfoldable pub evaluate_and : Block → Block → EncryptedGate → ℕ → Block
  unfolding tccr_many
  evaluate_and x y encrypted_gate gid =
      let s_a = lsb x in
      let s_b = lsb y in
      let j = be_bytes gid in
      let k = be_bytes (gid + 1) in
      let h = tccr_many encrypt (j ∷ k ∷ []) (x ∷ y ∷ []) in
      let hx = get_or h 0 zero_block in
      let hy = get_or h 1 zero_block in
      let w_g = bitxor hx (bitand encrypted_gate.t_g (select_mask s_a)) in
      let w_e = bitxor hy (bitand (select_mask s_b) (bitxor encrypted_gate.t_e x)) in bitxor w_g w_e

  -- With a delta with pointer bit 1, the evaluator gets from labels of `a` and `b`, and the encrypted gate
  -- of the two 0-labels, the label of `a && b` for the 0-label that the garbler keeps.
  pub evaluate_and-garble_and :
      (delta x_0 y_0 : Block) (gid : ℕ) (a b : Bool)
      → lsb delta ≡ true
      → let (z_0, gate) = garble_and delta x_0 y_0 gid in
        evaluate_and (label delta x_0 a) (label delta y_0 b) gate gid ≡ label delta z_0 (a && b)
  unfolding garble_and evaluate_and tccr
  evaluate_and-garble_and delta x_0 y_0 gid a b pointer =
      let h = λ (g : ℕ) (x : Block). tccr encrypt (be_bytes g) x in
      let y_1 = bitxor y_0 delta in
      rw
        (
          lsb-label delta x_0 a pointer,
          lsb-label delta y_0 b pointer,
          label-choice (tccr encrypt (be_bytes gid)) delta x_0 a,
          label-choice (tccr encrypt (be_bytes (gid + 1))) delta y_0 b,
        )
        (ap₂ bitxor
            (garbler_half delta (h gid x_0) (h gid (bitxor x_0 delta)) (lsb x_0) (lsb y_0) a)
            (evaluator_half delta x_0 (h (gid + 1) y_0) (h (gid + 1) y_1) (lsb y_0) a b)
          ∙ label-xor delta _ _ (lsb y_0) a b)
