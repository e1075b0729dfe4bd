-- ===== src/Circuit/Builder/Gates.antt =====
-- The gate methods of `crates/circuits-core/src/builder.rs`: each returns a feed with the value of
-- its gate, also where a constant simplifies the gate, and keeps the values of the other feeds.
use mpz.Prelude.{
  ℕ, ◌+◌, ◌<◌, ◌≡◌, refl, ap, sym, ◌∙◌, Bool, true, false, ◌&&◌, ◌||◌, not, xor as bool_xor, ◌==◌,
  [], ◌∷◌, ◌++◌, if◌then◌else◌, ==_iff, arith,
}
use mpz.Circuit.{Gate, xor, and, inv, id, output_id}
use mpz.Circuit.Builder.{CircuitBuilder, add_xor_gate, add_and_gate, add_inv_gate, add_id_gate}
use mpz.Circuit.Builder.Value.{
  Values, gate_value, run_gates, run_gates-append, value, IsValued, Extends-refl, Has, Returns,
}

module _ (v : Values) where
  -- A gate that writes the new feed.
  Returns-push :
      {b b' : CircuitBuilder} (g : Gate)
      → output_id g ≡ b.feed_id
      → b'.feed_id ≡ b.feed_id + 1
      → b'.gates ≡ b.gates ++ g ∷ []
      → Returns v b (gate_value g (run_gates b.gates v)) (b.feed_id, b')
  Returns-push {b} {b'} g writes grown pushed = record {
    extends = record { grows = omega arith; keeps = keeps };
    has = record { is_feed = omega arith; has_value = at_feed };
  }
    where
      ran : run_gates b'.gates v ≡ (λ n.
          if n == output_id g then gate_value g (run_gates b.gates v) else run_gates b.gates v n)
      ran = ap (λ gs. run_gates gs v) pushed ∙ run_gates-append b.gates g v

      keeps : (n : ℕ) → n < b.feed_id → value v b' n ≡ value v b n
      keeps n h = ap (λ (r : Values). r n) ran ∙ ground arith

      at_feed : value v b' b.feed_id ≡ gate_value g (run_gates b.gates v)
      at_feed = ap (λ (r : Values). r b.feed_id) ran ∙ ground arith

  Returns-same :
      {b : CircuitBuilder} {node : ℕ} {p q : Bool}
      → Has v b node p
      → p ≡ q
      → Returns v b q (node, b)
  Returns-same {b} h e = record {
    extends = Extends-refl v b;
    has = record { is_feed = h.is_feed; has_value = h.has_value ∙ e };
  }

  Returns-if :
      {b : CircuitBuilder} {p : Bool} (t : Bool) {r s : ℕ × CircuitBuilder}
      → (t ≡ true → Returns v b p r)
      → (t ≡ false → Returns v b p s)
      → Returns v b p (if t then r else s)
  Returns-if true f g = f refl
  Returns-if false f g = g refl

  Returns-eq :
      {b : CircuitBuilder} {p q : Bool} {r : ℕ × CircuitBuilder}
      → Returns v b p r
      → p ≡ q
      → Returns v b q r
  Returns-eq r e = rw (← e) r

  module _ {b : CircuitBuilder} (w : IsValued v b) where
    pub Has-zero : Has v b 0 false
    Has-zero = record { is_feed = omega (arith, w.constants); has_value = w.zero_false }

    pub Has-one : Has v b 1 true
    Has-one = record { is_feed = omega (arith, w.constants); has_value = w.one_true }

    at_zero : {x : ℕ} {p : Bool} → Has v b x p → x == 0 ≡ true → p ≡ false
    at_zero {x} h e =
        sym h.has_value ∙ ap (λ (k : ℕ). value v b k) ((==_iff x 0).0 e) ∙ w.zero_false

    at_one : {x : ℕ} {p : Bool} → Has v b x p → x == 1 ≡ true → p ≡ true
    at_one {x} h e = sym h.has_value ∙ ap (λ (k : ℕ). value v b k) ((==_iff x 1).0 e) ∙ w.one_true

    module _ {x : ℕ} {p : Bool} (hx : Has v b x p) where
      -- On a feed of value `p`, `add_inv_gate` returns a feed of value `not p`, also where `x` is a constant,
      -- and every feed of the builder keeps its value.
      pub add_inv_gate-Returns : Returns v b (not p) (add_inv_gate x b)
      unfolding add_inv_gate
      add_inv_gate-Returns =
          Returns-if _ (λ e. Returns-same Has-one (rw (at_zero hx e)))
            λ _.
              Returns-if _ (λ e. Returns-same Has-zero (rw (at_one hx e)))
                λ _.
                  Returns-eq (Returns-push (inv x b.feed_id) refl refl refl) (ap not hx.has_value)

      -- On a feed of value `p`, `add_id_gate` returns a feed of value `p`, also where `x` is a constant, and
      -- every feed of the builder keeps its value.
      pub add_id_gate-Returns : Returns v b p (add_id_gate x b)
      unfolding add_id_gate
      add_id_gate-Returns =
          Returns-if _ (λ e. Returns-same Has-zero (rw (at_zero hx e)))
            λ _.
              Returns-if _ (λ e. Returns-same Has-one (rw (at_one hx e)))
                λ _. Returns-eq (Returns-push (id x b.feed_id) refl refl refl) hx.has_value

      module _ {y : ℕ} {q : Bool} (hy : Has v b y q) where
        same_constants : (x == 0 && y == 0 || x == 1 && y == 1) ≡ true → false ≡ bool_xor p q
        unfolding bool_xor
        same_constants e = ground (arith, at_zero hx, at_zero hy, at_one hx, at_one hy)

        -- On feeds of values `p` and `q`, `add_xor_gate` returns a feed of value `p xor q`, also where one of
        -- them is a constant, and every feed of the builder keeps its value.
        pub add_xor_gate-Returns : Returns v b (bool_xor p q) (add_xor_gate x y b)
        unfolding add_xor_gate bool_xor
        add_xor_gate-Returns =
            Returns-if _ (λ e. Returns-same Has-zero (same_constants e))
              λ _.
                Returns-if _ (λ e. Returns-same hy (ground (arith, at_zero hx e)))
                  λ _.
                    Returns-if _ (λ e. Returns-same hx (ground (arith, at_zero hy e)))
                      λ _.
                        Returns-if _
                          (λ e.
                            Returns-eq (Returns-push (inv y b.feed_id) refl refl refl)
                              (ground (arith, at_one hx e, hy.has_value)))
                          λ _.
                            Returns-if _
                              (λ e.
                                Returns-eq (Returns-push (inv x b.feed_id) refl refl refl)
                                  (ground (arith, at_one hy e, hx.has_value)))
                              λ _.
                                Returns-eq (Returns-push (xor x y b.feed_id) refl refl refl)
                                  (rw (hx.has_value, hy.has_value))

        either_zero : (x == 0 || y == 0) ≡ true → false ≡ p && q
        either_zero e = ground (arith, at_zero hx, at_zero hy)

        -- On feeds of values `p` and `q`, `add_and_gate` returns a feed of value `p && q`, also where one of
        -- them is a constant, and every feed of the builder keeps its value.
        pub add_and_gate-Returns : Returns v b (p && q) (add_and_gate x y b)
        unfolding add_and_gate
        add_and_gate-Returns =
            Returns-if _ (λ e. Returns-same Has-zero (either_zero e))
              λ _.
                Returns-if _ (λ e. Returns-same hy (rw (at_one hx e)))
                  λ _.
                    Returns-if _ (λ e. Returns-same hx (ground (arith, at_one hy e)))
                      λ _.
                        Returns-eq (Returns-push (and x y b.feed_id) refl refl refl)
                          (rw (hx.has_value, hy.has_value))
