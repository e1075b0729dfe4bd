-- ===== src/Circuit/Ops/Sub.antt =====
-- `wrapping_sub` of `crates/circuits-core/src/ops.rs` subtracts modulo 2 ^ n, with the borrow.
use native.Mathlib.Nat.{pow-suc, mod-eq_of_lt, mul-add-mod_self_left}
use mpz.Prelude.{
  ℕ, suc, ◌+◌, ◌-◌, ◌*◌, ◌%◌, ◌^◌, ◌<◌, ◌≡◌, refl, sym, ◌∙◌, Bool, true, false, not, ltb, List, [],
  ◌∷◌, length, length-map, map, ok, ==_iff, arith, ap,
}
use mpz.Circuit.Builder.{CircuitBuilder, const_one}
use mpz.Circuit.Builder.Value.{
  Values, IsValued, Extends, Extends-refl, Extends-trans, Extends-IsValued, Has, Extends-Has,
}
use mpz.Circuit.Builder.Gates.{add_inv_gate-Returns, Has-one}
use mpz.Circuit.Ops.{inv, sub_rounds, sub_nodes, wrapping_sub}
use mpz.Circuit.Ops.Adders.{bit, sum_bit, carry_bit, sum_and_carry, full_adder-Adds}
use mpz.Circuit.Ops.Words.{HasWord, Extends-HasWord, HasWord-length, number, number-lt, ReturnsBits}

-- The carry out of a word of the given length.
abbrev carried : Bool → ℕ → ℕ
carried true k = 2 ^ k
carried false k = 0

carried-suc : (c : Bool) (k : ℕ) → carried c (suc k) ≡ 2 * carried c k
carried-suc true k = omega (arith, pow-suc 2 k)
carried-suc false k = refl

-- The one's complement.
complement : (xs : List Bool) → number (map not xs) + number xs + 1 ≡ 2 ^ length xs
complement [] = refl
complement (true ∷ xs) = omega (arith, complement xs, pow-suc 2 (length xs))
complement (false ∷ xs) = omega (arith, complement xs, pow-suc 2 (length xs))

-- A word and a carry that make up the number `n`.
record SumsUp (v : Values) (b : CircuitBuilder) (len n : ℕ) (result : (List ℕ × ℕ) × CircuitBuilder)
    : Type 0 where
  pub extends : Extends v b result.1
  pub bits : List Bool
  pub has : HasWord v result.1 result.0.0 bits
  pub same_length : length bits ≡ len
  pub carry : Bool
  pub has_carry : Has v result.1 result.0.1 carry
  pub counts : number bits + carried carry len ≡ n

-- A word for `x - y` modulo 2 ^ len, and whether `x` is below `y`.
pub record ReturnsDifference (v : Values) (b : CircuitBuilder) (len x y : ℕ)
    (result : (List ℕ × ℕ) × CircuitBuilder) : Type 0 where
  pub extends : Extends v b result.1
  pub bits : List Bool
  pub has : HasWord v result.1 result.0.0 bits
  pub same_length : length bits ≡ len
  pub counts : number bits ≡ (x + 2 ^ len - y) % 2 ^ len
  pub underflows : Has v result.1 result.0.1 (ltb x y)

-- What sum and carry of `x - y + 2 ^ k` say of the difference.
difference_word :
    (d x y t : ℕ) (c : Bool) (k : ℕ)
    → t ≡ 2 ^ k
    → x < t
    → y < t
    → d < t
    → d + carried c k ≡ x + (t - y)
    → d ≡ (x + t - y) % t
difference_word d x y t true k e hx hy hd total =
    let same : x + t - y ≡ t * 1 + d = omega arith in
    rw same (sym (mul-add-mod_self_left t 1 d ∙ mod-eq_of_lt hd))
difference_word d x y t false k e hx hy hd total =
    let same : x + t - y ≡ d = omega arith in rw same (sym (mod-eq_of_lt hd))

difference_borrow :
    (d x y t : ℕ) (c : Bool) (k : ℕ)
    → t ≡ 2 ^ k
    → x < t
    → y < t
    → d < t
    → d + carried c k ≡ x + (t - y)
    → not c ≡ ltb x y
difference_borrow d x y t true k e hx hy hd total = ground arith
difference_borrow d x y t false k e hx hy hd total = ground arith

module _ (v : Values) where
  inv-ReturnsBits :
      (ns : List ℕ) (xs : List Bool) (b : CircuitBuilder)
      → IsValued v b
      → HasWord v b ns xs
      → ReturnsBits v b (map not xs) (inv ns b)
  unfolding inv
  inv-ReturnsBits [] [] b w h = record { extends = Extends-refl v b; has = tt }
  inv-ReturnsBits [] (x ∷ xs) b w h = elim h [ ]
  inv-ReturnsBits (n ∷ ns) [] b w h = elim h [ ]
  inv-ReturnsBits (n ∷ ns) (x ∷ xs) b w (h, hs) =
      let r = add_inv_gate-Returns v w h in
      let rest =
        inv-ReturnsBits ns xs _ (Extends-IsValued v r.extends w)
          (Extends-HasWord v ns xs r.extends hs) in
      record {
        extends = Extends-trans v r.extends rest.extends;
        has = (Extends-Has v rest.extends r.has, rest.has);
      }

  sub_rounds-SumsUp :
      (as' : List ℕ) (c : ℕ) (bs : List ℕ) (xs ys : List Bool) (r : Bool) (b : CircuitBuilder)
      → IsValued v b
      → HasWord v b as' xs
      → HasWord v b bs ys
      → Has v b c r
      → length bs ≡ length as'
      → SumsUp v b (length as') (number xs + number ys + bit r) (sub_rounds c as' bs b)
  unfolding sub_rounds
  sub_rounds-SumsUp [] c [] [] [] r b w hx hy hc same = record {
    extends = Extends-refl v b;
    bits = [];
    has = tt;
    same_length = refl;
    carry = r;
    has_carry = hc;
    counts = ground arith;
  }
  sub_rounds-SumsUp [] c [] [] (y ∷ ys) r b w hx hy hc same = elim hy [ ]
  sub_rounds-SumsUp [] c [] (x ∷ xs) ys r b w hx hy hc same = elim hx [ ]
  sub_rounds-SumsUp [] c (m ∷ bs) xs ys r b w hx hy hc same = absurd (omega arith)
  sub_rounds-SumsUp (n ∷ as') c [] xs ys r b w hx hy hc same = absurd (omega arith)
  sub_rounds-SumsUp (n ∷ as') c (m ∷ bs) [] ys r b w hx hy hc same = elim hx [ ]
  sub_rounds-SumsUp (n ∷ as') c (m ∷ bs) (x ∷ xs) [] r b w hx hy hc same = elim hy [ ]
  sub_rounds-SumsUp (n ∷ as') c (m ∷ bs) (x ∷ xs) (y ∷ ys) r b w (hx, hxs) (hy, hys) hc same =
      let h = full_adder-Adds v w hx hy hc in
      let rest =
        sub_rounds-SumsUp as' _ bs xs ys (carry_bit x y r) _ (Extends-IsValued v h.extends w)
          (Extends-HasWord v as' xs h.extends hxs) (Extends-HasWord v bs ys h.extends hys)
          h.has_carry (omega arith) in
      record {
        extends = Extends-trans v h.extends rest.extends;
        bits = sum_bit x y r ∷ rest.bits;
        has = (Extends-Has v rest.extends h.has_sum, rest.has);
        same_length = ap suc rest.same_length;
        carry = rest.carry;
        has_carry = rest.has_carry;
        counts =
            omega (arith, rest.counts, sum_and_carry x y r, carried-suc rest.carry (length as'));
      }

  sub_nodes-ReturnsDifference :
      (b : CircuitBuilder) (ns ms : List ℕ) (xs ys : List Bool)
      → IsValued v b
      → HasWord v b ns xs
      → HasWord v b ms ys
      → length ns ≡ length ms
      → ReturnsDifference v b (length ns) (number xs) (number ys) (sub_nodes ns ms b)
  sub_nodes-ReturnsDifference b ns ms xs ys w hx hy same =
      let len_x = HasWord-length v b ns xs hx in
      let len_y = HasWord-length v b ms ys hy in
      let inverted = inv-ReturnsBits ms ys b w hy in
      let w1 = Extends-IsValued v inverted.extends w in
      let one = Has-one v w1 in
      let diff =
        sub_rounds-SumsUp ns const_one _ xs (map not ys) true _ w1
          (Extends-HasWord v ns xs inverted.extends hx) inverted.has one
          (sym (HasWord-length v _ _ (map not ys) inverted.has)
            ∙ length-map ys not
            ∙ len_y
            ∙ sym same) in
      let under = add_inv_gate-Returns v (Extends-IsValued v diff.extends w1) diff.has_carry in
      let power : 2 ^ length ys ≡ 2 ^ length ns = ap (λ (k : ℕ). 2 ^ k) (omega arith) in
      let x_lt : number xs < 2 ^ length ns = rw (← len_x) (number-lt xs) in
      let y_lt : number ys < 2 ^ length ns = rw (← (power)) (number-lt ys) in
      let d_lt : number diff.bits < 2 ^ length ns = rw (← diff.same_length) (number-lt diff.bits) in
      let total : number diff.bits + carried diff.carry (length ns)
          ≡ number xs + (2 ^ length ns - number ys) =
        omega (arith, diff.counts, complement ys) in
      record {
        extends = Extends-trans v inverted.extends (Extends-trans v diff.extends under.extends);
        bits = diff.bits;
        has = Extends-HasWord v _ diff.bits under.extends diff.has;
        same_length = diff.same_length;
        counts = difference_word _ _ _ _ diff.carry (length ns) refl x_lt y_lt d_lt total;
        underflows =
            rw (← difference_borrow _ _ _ _ diff.carry (length ns) refl x_lt y_lt d_lt total)
              under.has;
      }

  -- `wrapping_sub` on words of the same length never fails, and returns nodes for the difference
  -- modulo 2 ^ length and a node that is set exactly when the first number is below the second.
  pub wrapping_sub-ReturnsDifference :
      (b : CircuitBuilder) (ns ms : List ℕ) (xs ys : List Bool)
      → IsValued v b
      → HasWord v b ns xs
      → HasWord v b ms ys
      → length ns ≡ length ms
      → (result : (List ℕ × ℕ) × CircuitBuilder) × (wrapping_sub ns ms b ≡ ok result)
        × ReturnsDifference v b (length ns) (number xs) (number ys) result
  unfolding wrapping_sub
  wrapping_sub-ReturnsDifference b ns ms xs ys w hx hy same = (
    sub_nodes ns ms b,
    rw ((==_iff (length ns) (length ms)).1 same) refl,
    sub_nodes-ReturnsDifference b ns ms xs ys w hx hy same,
  )
