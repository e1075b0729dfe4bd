-- ===== src/Circuit/Ops/Switch.antt =====
-- `switch` of `crates/circuits-core/src/ops.rs` chooses between two words.
use mpz.Prelude.{
  ℕ, ◌≡◌, refl, Bool, true, false, ◌&&◌, not, xor, List, [], ◌∷◌, length, if◌then◌else◌, ok, ==_iff,
  arith,
}
use mpz.Circuit.Builder.{CircuitBuilder}
use mpz.Circuit.Builder.Value.{
  Values, IsValued, Extends-refl, Extends-trans, Extends-IsValued, Has, Extends-Has,
}
use mpz.Circuit.Builder.Gates.{add_inv_gate-Returns, add_and_gate-Returns, add_xor_gate-Returns}
use mpz.Circuit.Ops.{switch, switch_rounds}
use mpz.Circuit.Ops.Words.{HasWord, Extends-HasWord, ReturnsBits}

module _ (v : Values) where
  switch_bit : (x y t : Bool) → xor (x && not t) (y && t) ≡ (if t then y else x)
  unfolding xor
  switch_bit x y t = ground arith

  HasWord-choice :
      {b : CircuitBuilder} {n : ℕ} (ns : List ℕ) (x y : Bool) (xs ys : List Bool) (t : Bool)
      → Has v b n (if t then y else x)
      → HasWord v b ns (if t then ys else xs)
      → HasWord v b (n ∷ ns) (if t then y ∷ ys else x ∷ xs)
  HasWord-choice ns x y xs ys true h hs = (h, hs)
  HasWord-choice ns x y xs ys false h hs = (h, hs)

  no_choice : (b : CircuitBuilder) (t : Bool) → HasWord v b [] (if t then [] else [])
  no_choice b true = tt
  no_choice b false = tt

  switch_rounds-ReturnsBits :
      (as' bs : List ℕ) (xs ys : List Bool) (toggle not_toggle : ℕ) (t : Bool) (b : CircuitBuilder)
      → IsValued v b
      → HasWord v b as' xs
      → HasWord v b bs ys
      → Has v b toggle t
      → Has v b not_toggle (not t)
      → length as' ≡ length bs
      → ReturnsBits v b (if t then ys else xs) (switch_rounds toggle not_toggle as' bs b)
  unfolding switch_rounds
  switch_rounds-ReturnsBits [] [] [] [] n m t b w hx hy ht hn same = record {
    extends = Extends-refl v b;
    has = no_choice b t;
  }
  switch_rounds-ReturnsBits [] [] [] (y ∷ ys) n m t b w hx hy ht hn same = elim hy [ ]
  switch_rounds-ReturnsBits [] [] (x ∷ xs) ys n m t b w hx hy ht hn same = elim hx [ ]
  switch_rounds-ReturnsBits [] (k ∷ bs) xs ys n m t b w hx hy ht hn same = absurd (omega arith)
  switch_rounds-ReturnsBits (i ∷ as') [] xs ys n m t b w hx hy ht hn same = absurd (omega arith)
  switch_rounds-ReturnsBits (i ∷ as') (k ∷ bs) [] ys n m t b w hx hy ht hn same = elim hx [ ]
  switch_rounds-ReturnsBits (i ∷ as') (k ∷ bs) (x ∷ xs) [] n m t b w hx hy ht hn same = elim hy [ ]
  switch_rounds-ReturnsBits (i ∷ as') (k ∷ bs) (x ∷ xs) (y ∷ ys) n m t b w (hx, hxs) (hy, hys) ht hn
        same =
      let r1 = add_and_gate-Returns v w hx hn in
      let w1 = Extends-IsValued v r1.extends w in
      let r2 =
        add_and_gate-Returns v w1 (Extends-Has v r1.extends hy) (Extends-Has v r1.extends ht) in
      let r3 =
        add_xor_gate-Returns v (Extends-IsValued v r2.extends w1) (Extends-Has v r2.extends r1.has)
          r2.has in
      let e = Extends-trans v r1.extends (Extends-trans v r2.extends r3.extends) in
      let rest =
        switch_rounds-ReturnsBits as' bs xs ys n m t _ (Extends-IsValued v e w)
          (Extends-HasWord v as' xs e hxs) (Extends-HasWord v bs ys e hys) (Extends-Has v e ht)
          (Extends-Has v e hn) (omega arith) in
      record {
        extends = Extends-trans v e rest.extends;
        has =
            HasWord-choice _ x y xs ys t
              (Extends-Has v rest.extends (rw (← switch_bit x y t) r3.has)) rest.has;
      }

  -- `switch` on words of the same length never fails, and returns nodes of the bits of the second
  -- word if the toggle is set, and of the first word if it is not.
  pub switch-ReturnsBits :
      (b : CircuitBuilder) (ns ms : List ℕ) (xs ys : List Bool) (toggle : ℕ) (t : Bool)
      → IsValued v b
      → HasWord v b ns xs
      → HasWord v b ms ys
      → Has v b toggle t
      → length ns ≡ length ms
      → (result : List ℕ × CircuitBuilder) × (switch ns ms toggle b ≡ ok result)
        × ReturnsBits v b (if t then ys else xs) result
  unfolding switch
  switch-ReturnsBits b ns ms xs ys toggle t w hx hy ht same =
      let r = add_inv_gate-Returns v w ht in
      let e = r.extends in
      let rest =
        switch_rounds-ReturnsBits ns ms xs ys toggle _ t _ (Extends-IsValued v e w)
          (Extends-HasWord v ns xs e hx) (Extends-HasWord v ms ys e hy) (Extends-Has v e ht) r.has
          same in
      (
        _,
        rw ((==_iff (length ns) (length ms)).1 same) refl,
        record { extends = Extends-trans v e rest.extends; has = rest.has },
      )
