-- ===== src/Circuit/Ops/Bitwise.antt =====
-- `xor`, `and` and `or` of `crates/circuits-core/src/ops.rs` on words.
use mpz.Prelude.{ℕ, ◌≡◌, Bool, ◌&&◌, ◌||◌, xor, List, [], ◌∷◌, length, zip_with, arith}
use mpz.Circuit.Builder.{CircuitBuilder, Build, add_xor_gate, add_and_gate}
use mpz.Circuit.Builder.Value.{
  Values, IsValued, Extends-refl, Extends-trans, Extends-IsValued, Has, Extends-Has, Returns,
}
use mpz.Circuit.Builder.Gates.{add_and_gate-Returns, add_xor_gate-Returns}
use mpz.Circuit.Ops.{from_fn, xor_nodes, and_nodes, or_node, or_nodes}
use mpz.Circuit.Ops.Words.{HasWord, Extends-HasWord, ReturnsBits}

-- A method on two nodes that computes an operation on bits.
abbrev Computes : Values → (Bool → Bool → Bool) → (ℕ → ℕ → Build ℕ) → Type 0
Computes v op gate =
    (b : CircuitBuilder) (x y : ℕ) (p q : Bool)
    → IsValued v b
    → Has v b x p
    → Has v b y q
    → Returns v b (op p q) (gate x y b)

module _ (v : Values) where
  from_fn-ReturnsBits :
      (op : Bool → Bool → Bool) (gate : ℕ → ℕ → Build ℕ)
      → Computes v op gate
      → (as' bs : List ℕ) (xs ys : List Bool) (b : CircuitBuilder) → IsValued v b
      → HasWord v b as' xs
      → HasWord v b bs ys
      → length as' ≡ length bs
      → ReturnsBits v b (zip_with op xs ys) (from_fn gate as' bs b)
  unfolding from_fn
  from_fn-ReturnsBits op gate f [] [] [] [] b w hx hy same = record {
    extends = Extends-refl v b;
    has = tt;
  }
  from_fn-ReturnsBits op gate f [] [] [] (y ∷ ys) b w hx hy same = elim hy [ ]
  from_fn-ReturnsBits op gate f [] [] (x ∷ xs) ys b w hx hy same = elim hx [ ]
  from_fn-ReturnsBits op gate f [] (k ∷ bs) xs ys b w hx hy same = absurd (omega arith)
  from_fn-ReturnsBits op gate f (i ∷ as') [] xs ys b w hx hy same = absurd (omega arith)
  from_fn-ReturnsBits op gate f (i ∷ as') (k ∷ bs) [] ys b w hx hy same = elim hx [ ]
  from_fn-ReturnsBits op gate f (i ∷ as') (k ∷ bs) (x ∷ xs) [] b w hx hy same = elim hy [ ]
  from_fn-ReturnsBits op gate f (i ∷ as') (k ∷ bs) (x ∷ xs) (y ∷ ys) b w (hx, hxs) (hy, hys) same =
      let r = f b i k x y w hx hy in
      let e = r.extends in
      let rest =
        from_fn-ReturnsBits op gate f as' bs xs ys _ (Extends-IsValued v e w)
          (Extends-HasWord v as' xs e hxs) (Extends-HasWord v bs ys e hys) (omega arith) in
      record {
        extends = Extends-trans v e rest.extends;
        has = (Extends-Has v rest.extends r.has, rest.has);
      }

  or_bit : (p q : Bool) → xor (xor p q) (p && q) ≡ (p || q)
  unfolding xor
  or_bit p q = ground arith

  or_node-Returns : Computes v ◌||◌ or_node
  unfolding or_node
  or_node-Returns b x y p q w hx hy =
      let r1 = add_xor_gate-Returns v w hx hy in
      let w1 = Extends-IsValued v r1.extends w in
      let r2 =
        add_and_gate-Returns v w1 (Extends-Has v r1.extends hx) (Extends-Has v r1.extends hy) in
      let r3 =
        add_xor_gate-Returns v (Extends-IsValued v r2.extends w1) (Extends-Has v r2.extends r1.has)
          r2.has in
      record {
        extends = Extends-trans v r1.extends (Extends-trans v r2.extends r3.extends);
        has = rw (← or_bit p q) r3.has;
      }

  -- On words of one length the three methods return nodes of the XOR, the AND and the OR of the bits.
  pub bitwise-ReturnsBits :
      (b : CircuitBuilder) (ns ms : List ℕ) (xs ys : List Bool)
      → IsValued v b
      → HasWord v b ns xs
      → HasWord v b ms ys
      → length ns ≡ length ms
      → ReturnsBits v b (zip_with xor xs ys) (xor_nodes ns ms b)
        × ReturnsBits v b (zip_with ◌&&◌ xs ys) (and_nodes ns ms b)
        × ReturnsBits v b (zip_with ◌||◌ xs ys) (or_nodes ns ms b)
  bitwise-ReturnsBits b ns ms xs ys w hx hy same = (
    from_fn-ReturnsBits xor add_xor_gate (λ b x y p q w hx hy. add_xor_gate-Returns v w hx hy) ns ms
        xs ys b w hx hy same,
    from_fn-ReturnsBits ◌&&◌ add_and_gate (λ b x y p q w hx hy. add_and_gate-Returns v w hx hy) ns
        ms xs ys b w hx hy same,
    from_fn-ReturnsBits ◌||◌ or_node or_node-Returns ns ms xs ys b w hx hy same,
  )
