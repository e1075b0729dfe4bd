-- ===== src/Circuit/Ops/Add.antt =====
-- `wrapping_add` of `crates/circuits-core/src/ops.rs` adds modulo 2 ^ n.
use native.Mathlib.Nat.{le_trans}
use mpz.Prelude.{
  ℕ, suc, ◌+◌, ◌-◌, ◌*◌, ◌%◌, ◌^◌, ◌<◌, ◌≡◌, refl, sym, Bool, true, false, ◌&&◌, xor, ◌==◌, ltb,
  List, [], ◌∷◌, length, ok, Bool-cases, inl, inr, ==_iff, arith, ap,
}
use mpz.Circuit.Builder.{CircuitBuilder, const_zero}
use mpz.Circuit.Builder.Value.{
  Values, IsValued, Extends, Extends-refl, Extends-trans, Extends-IsValued, Has, Extends-Has,
}
use mpz.Circuit.Ops.{add_rounds, wrapping_add}
use mpz.Circuit.Ops.Adders.{
  bit, sum_bit, carry_bit, sum_and_carry, half_adder-Adds, full_adder-Adds,
  full_adder_no_carry_out-Returns,
}
use mpz.Circuit.Ops.Words.{HasWord, Extends-HasWord, number, split_mod}

-- A method that extends the builder and returns a word for the number `n`.
pub record ReturnsWord (v : Values) (b : CircuitBuilder) (len n : ℕ)
    (result : List ℕ × CircuitBuilder) : Type 0 where
  pub extends : Extends v b result.1
  pub bits : List Bool
  pub has : HasWord v result.1 result.0 bits
  pub same_length : length bits ≡ len
  pub counts : number bits ≡ n

bit-lt-two : (p : Bool) → bit p < 2
bit-lt-two p = ground arith

later_round : (n : ℕ) → n + 1 == 0 ≡ true → ⊥
later_round n h = ground arith

last_round : (n k : ℕ) → ltb n (n + suc k - 1) ≡ false → k ≡ 0
last_round n k h = ground arith

half_sum : (p q : Bool) → bit (xor p q) + 2 * bit (p && q) ≡ bit p + bit q
unfolding xor
half_sum p q = ground arith

module _ (v : Values) where
  -- A sum bit in front of the sum of the rest and the carry is the whole sum.
  ReturnsWord-cons :
      {b b1 : CircuitBuilder} {node k : ℕ} (sum carry : Bool) (m n : ℕ)
      {result : List ℕ × CircuitBuilder}
      → Extends v b b1
      → Has v b1 node sum
      → bit sum + 2 * (m + bit carry) ≡ n
      → ReturnsWord v b1 k ((m + bit carry) % 2 ^ k) result
      → ReturnsWord v b (suc k) (n % 2 ^ suc k) (node ∷ result.0, result.1)
  ReturnsWord-cons {k = k} sum carry m n e h total r = record {
    extends = Extends-trans v e r.extends;
    bits = sum ∷ r.bits;
    has = (Extends-Has v r.extends h, r.has);
    same_length = ap suc r.same_length;
    counts = rw (← total, split_mod (bit sum) (m + bit carry) k (bit-lt-two sum), r.counts);
  }

  -- When no nodes are left the result is the empty word, whatever number was to be reduced.
  add_rounds-none_left :
      (len n c : ℕ) (as' bs : List ℕ) (m : ℕ) (b : CircuitBuilder)
      → length as' ≡ 0
      → ReturnsWord v b (length as') (m % 2 ^ length as') (add_rounds len n c as' bs b)
  unfolding add_rounds
  add_rounds-none_left len n c [] bs m b none_left = record {
    extends = Extends-refl v b;
    bits = [];
    has = tt;
    same_length = refl;
    counts = omega arith;
  }
  add_rounds-none_left len n c (a ∷ as') bs m b none_left = absurd (omega arith)

  -- From round `n`, with the carry `r`, the nodes left are added with the carry.
  add_rounds-ReturnsWord :
      (len n c : ℕ) (as' bs : List ℕ) (xs ys : List Bool) (r : Bool) (b : CircuitBuilder)
      → IsValued v b
      → HasWord v b as' xs
      → HasWord v b bs ys
      → Has v b c r
      → (n == 0 ≡ true → r ≡ false)
      → n + length as' ≡ len
      → length bs ≡ length as'
      → ReturnsWord v b
          (length as')
          ((number xs + number ys + bit r) % 2 ^ length as')
          (add_rounds len n c as' bs b)
  unfolding add_rounds
  add_rounds-ReturnsWord len n c [] bs xs ys r b w hx hy hc first rounds same =
      add_rounds-none_left len n c [] bs _ b refl
  add_rounds-ReturnsWord len n c (a ∷ as') [] xs ys r builder w hx hy hc first rounds same =
      absurd (omega arith)
  add_rounds-ReturnsWord len n c (a ∷ as') (b ∷ bs) [] ys r builder w hx hy hc first rounds same =
      elim hx [ ]
  add_rounds-ReturnsWord len n c (a ∷ as') (b ∷ bs) (x ∷ xs) [] r builder w hx hy hc first rounds
        same =
      elim hy [ ]
  add_rounds-ReturnsWord len n c (a ∷ as') (b ∷ bs) (x ∷ xs) (y ∷ ys) r builder w (hx, hxs)
        (hy, hys) hc first rounds same =
      elim (Bool-cases (n == 0)) [
        | inl start ↦
            (let h = half_adder-Adds v w hx hy in
              rw (start, add_rounds, first start)
                (ReturnsWord-cons (xor x y) (x && y) (number xs + number ys) _ h.extends h.has_sum
                  (omega (arith, half_sum x y))
                  (add_rounds-ReturnsWord len (n + 1) _ as' bs xs ys (x && y) _
                    (Extends-IsValued v h.extends w) (Extends-HasWord v as' xs h.extends hxs)
                    (Extends-HasWord v bs ys h.extends hys) h.has_carry
                    (λ e. absurd (later_round n e)) (omega arith) (omega arith))))
        | inr later ↦ elim (Bool-cases (ltb n (len - 1))) [
          | inl middle ↦
              (let h = full_adder-Adds v w hx hy hc in
                rw (later, middle, add_rounds)
                  (ReturnsWord-cons (sum_bit x y r) (carry_bit x y r) (number xs + number ys) _
                    h.extends h.has_sum (omega (arith, sum_and_carry x y r))
                    (add_rounds-ReturnsWord len (n + 1) _ as' bs xs ys (carry_bit x y r) _
                      (Extends-IsValued v h.extends w) (Extends-HasWord v as' xs h.extends hxs)
                      (Extends-HasWord v bs ys h.extends hys) h.has_carry
                      (λ e. absurd (later_round n e)) (omega arith) (omega arith))))
          | inr last ↦
              (let h = full_adder_no_carry_out-Returns v w hx hy hc in
                let none_left = last_round n (length as') (rw rounds last) in
                rw (later, last, add_rounds)
                  (ReturnsWord-cons (sum_bit x y r) (carry_bit x y r) (number xs + number ys) _
                    h.extends h.has (omega (arith, sum_and_carry x y r))
                    (add_rounds-none_left len (n + 1) c as' bs _ _ none_left)))
        ]
      ]

  -- `wrapping_add` on words of the same length never fails, and the nodes that it returns stand for
  -- the sum modulo 2 ^ length.
  pub wrapping_add-ReturnsWord :
      (b : CircuitBuilder) (ns ms : List ℕ) (xs ys : List Bool)
      → IsValued v b
      → HasWord v b ns xs
      → HasWord v b ms ys
      → length ns ≡ length ms
      → (result : List ℕ × CircuitBuilder) × (wrapping_add ns ms b ≡ ok result)
        × ReturnsWord v b (length ns) ((number xs + number ys) % 2 ^ length ns) result
  unfolding wrapping_add
  wrapping_add-ReturnsWord b ns ms xs ys w hx hy same =
      let lengths = (==_iff (length ns) (length ms)).1 same in
      let same_sum : number xs + number ys + bit false ≡ number xs + number ys = omega arith in
      let zero_node : Has v b const_zero false = record {
        is_feed = le_trans (omega arith) w.constants;
        has_value = w.zero_false;
      } in
      let sum =
        add_rounds-ReturnsWord (length ns) 0 const_zero ns ms xs ys false b w hx hy zero_node
          (λ e. refl) (omega arith) (sym same) in
      (add_rounds (length ns) 0 const_zero ns ms b, rw lengths refl, rw (← same_sum) sum)
