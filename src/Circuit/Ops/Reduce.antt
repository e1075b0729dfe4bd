-- ===== src/Circuit/Ops/Reduce.antt =====
-- `add_mod` of `crates/circuits-core/src/ops.rs`: the sum of two words, reduced by a modulus.
use native.Mathlib.Nat.{pow-suc, mod-eq_of_lt, mod-lt, mul-add-mod_self_left}
use mpz.Prelude.{
  ℕ, zero, suc, ◌+◌, ◌-◌, ◌*◌, ◌%◌, ◌^◌, ◌≤◌, ◌<◌, ◌≡◌, refl, sym, ◌∙◌, Bool, true, false, ◌==◌,
  ltb, ltb→lt, Bool-cases, inl, inr, leb, le→leb, List, [], ◌∷◌, ◌++◌, length, length-append,
  length-take, take, if◌then◌else◌, ok, Outcome, assert, ◌>>◌, ◌>>=◌, ==_iff, arith, ap, ap₂,
}
use mpz.Circuit.Builder.{CircuitBuilder, const_zero}
use mpz.Circuit.Builder.Value.{Values, IsValued, Extends, Extends-trans, Extends-IsValued}
use mpz.Circuit.Builder.Gates.{Has-zero}
use mpz.Circuit.Ops.{wrapping_add, wrapping_sub, switch}
use mpz.Circuit.Ops.Adders.{bit}
use mpz.Circuit.Ops.Words.{HasWord, Extends-HasWord, HasWord-length, number, number-lt}
use mpz.Circuit.Ops.Add.{ReturnsWord, wrapping_add-ReturnsWord}
use mpz.Circuit.Ops.Sub.{wrapping_sub-ReturnsDifference}
use mpz.Circuit.Ops.Switch.{switch-ReturnsBits}

-- The extra bit that absorbs the overflow.
abbrev pub widen : List ℕ → List ℕ
widen a = a ++ const_zero ∷ []

-- The sum, or the sum less the modulus, without the extra bit.
abbrev reduce_sum : List ℕ → List ℕ → CircuitBuilder → Outcome ⊥ (List ℕ × CircuitBuilder)
reduce_sum sum modulus builder = do
  rem ← wrapping_sub sum modulus builder
  sum_reduced ← switch rem.0.0 sum rem.0.1 rem.1
  assert (leb 1 (length sum_reduced.0))
  ok (take (length sum_reduced.0 - 1) sum_reduced.0, sum_reduced.1)

unfoldable pub add_mod :
    List ℕ → List ℕ → List ℕ → CircuitBuilder → Outcome ⊥ (List ℕ × CircuitBuilder)
add_mod a b modulus builder = do
  assert (length a == length b)
  assert (length a == length modulus)
  sum ← wrapping_add (widen a) (widen b) builder
  reduce_sum sum.0 (widen modulus) sum.1

pow_double : (k : ℕ) → 2 ^ (k + 1) ≡ 2 * 2 ^ k
pow_double k =
    let e : k + 1 ≡ suc k = omega arith in ap (λ (n : ℕ). 2 ^ n) e ∙ omega (arith, pow-suc 2 k)

number-append_zero : (xs : List Bool) → number (xs ++ false ∷ []) ≡ number xs
number-append_zero [] = refl
number-append_zero (x ∷ xs) = ap (λ (n : ℕ). bit x + 2 * n) (number-append_zero xs)

-- A word whose number fits in fewer bits keeps it when the upper bits are dropped.
number-take : (k : ℕ) (xs : List Bool) → number xs < 2 ^ k → number (take k xs) ≡ number xs
number-take zero xs h = omega arith
number-take (suc k) [] h = refl
number-take (suc k) (x ∷ xs) h =
    ap (λ (n : ℕ). bit x + 2 * n) (number-take k xs (omega (arith, pow-suc 2 k)))

-- One subtraction of the modulus reduces a number below twice the modulus.
reduce_once :
    (s m t : ℕ) → s < m + m → s < t → m < t → (if ltb s m then s else (s + t - m) % t) ≡ s % m
reduce_once s m t h hs hm = elim (Bool-cases (ltb s m)) [
  | inl below ↦ rw below (sym (mod-eq_of_lt (ltb→lt s m below)))
  | inr above ↦
      (let at_least : m ≤ s = ground arith in
        let wraps : s + t - m ≡ t * 1 + (s - m) = omega arith in
        let splits : m * 1 + (s - m) ≡ s = omega arith in
        rw (above, wraps)
          (mul-add-mod_self_left t 1 (s - m)
            ∙ mod-eq_of_lt (omega arith)
            ∙ sym (mod-eq_of_lt (omega arith))
            ∙ sym (mul-add-mod_self_left m 1 (s - m))
            ∙ ap (λ (n : ℕ). n % m) splits))
]

module _ (v : Values) where
  HasWord-widen :
      {b : CircuitBuilder} (ns : List ℕ) (xs : List Bool)
      → IsValued v b
      → HasWord v b ns xs
      → HasWord v b (widen ns) (xs ++ false ∷ [])
  HasWord-widen [] [] w h = (Has-zero v w, tt)
  HasWord-widen [] (x ∷ xs) w h = elim h [ ]
  HasWord-widen (n ∷ ns) [] w h = elim h [ ]
  HasWord-widen (n ∷ ns) (x ∷ xs) w (h, hs) = (h, HasWord-widen ns xs w hs)

  HasWord-take :
      (b : CircuitBuilder) (k : ℕ) (ns : List ℕ) (xs : List Bool)
      → HasWord v b ns xs
      → HasWord v b (take k ns) (take k xs)
  HasWord-take b zero ns xs h = tt
  HasWord-take b (suc k) [] [] h = tt
  HasWord-take b (suc k) [] (x ∷ xs) h = elim h [ ]
  HasWord-take b (suc k) (n ∷ ns) [] h = elim h [ ]
  HasWord-take b (suc k) (n ∷ ns) (x ∷ xs) (h, hs) = (h, HasWord-take b k ns xs hs)

  chosen : {A : Type 0} (P : A → Type 0) (t : Bool) {x y : A} → P x → P y → P (if t then x else y)
  chosen P true p q = p
  chosen P false p q = q

  number-choice :
      (t : Bool) (xs ys : List Bool)
      → number (if t then xs else ys) ≡ (if t then number xs else number ys)
  number-choice true xs ys = refl
  number-choice false xs ys = refl

  -- A word without its last node, when the number fits.
  ReturnsWord-drop_last :
      {b : CircuitBuilder} (k n : ℕ) (out : List ℕ × CircuitBuilder) (bits : List Bool)
      → Extends v b out.1
      → HasWord v out.1 out.0 bits
      → length out.0 ≡ k + 1
      → number bits ≡ n
      → n < 2 ^ k
      → ReturnsWord v b k n (take (length out.0 - 1) out.0, out.1)
  ReturnsWord-drop_last k n out bits e h len counts fits =
      let last : length out.0 - 1 ≡ k = omega arith in
      let len_bits = HasWord-length v out.1 out.0 bits h in
      rw last (record {
        extends = e;
        bits = take k bits;
        has = HasWord-take out.1 k out.0 bits h;
        same_length = omega (arith, length-take k bits);
        counts = number-take k bits (rw counts fits) ∙ counts;
      })

  reduce_sum-ReturnsWord :
      (b : CircuitBuilder) (ns ks : List ℕ) (ss zs : List Bool) (k : ℕ)
      → IsValued v b
      → HasWord v b ns ss
      → HasWord v b (widen ks) zs
      → length ns ≡ k + 1
      → length ks ≡ k
      → number ss < number zs + number zs
      → number zs < 2 ^ k
      → (result : List ℕ × CircuitBuilder) × (reduce_sum ns (widen ks) b ≡ ok result)
        × ReturnsWord v b k (number ss % number zs) result
  reduce_sum-ReturnsWord b ns ks ss zs k w hs hz len_n len_k below fits =
      let len_wide = length-append ks (const_zero ∷ []) in
      let (rem, rem_ok, d) =
        wrapping_sub-ReturnsDifference v b ns (widen ks) ss zs w hs hz (omega arith) in
      let len_d = HasWord-length v rem.1 rem.0.0 d.bits d.has in
      let len_rem : length rem.0.0 ≡ length ns = sym len_d ∙ d.same_length in
      let len_s = HasWord-length v b ns ss hs in
      let (out, out_ok, c) =
        switch-ReturnsBits v rem.1 rem.0.0 ns d.bits ss rem.0.1 (ltb (number ss) (number zs))
          (Extends-IsValued v d.extends w) d.has (Extends-HasWord v ns ss d.extends hs) d.underflows
          len_rem in
      let bits = if ltb (number ss) (number zs) then ss else d.bits in
      let len_out : length out.0 ≡ k + 1 =
        sym (HasWord-length v out.1 out.0 bits c.has)
        ∙ chosen (λ xs. length xs ≡ k + 1) (ltb (number ss) (number zs)) (omega arith)
            (omega (arith, d.same_length)) in
      let sum_lt : number ss < 2 ^ length ns = rw (← len_s) (number-lt ss) in
      let power : 2 ^ length ns ≡ 2 ^ (k + 1) = ap (λ (j : ℕ). 2 ^ j) len_n in
      let modulus_lt : number zs < 2 ^ length ns = omega (arith, pow_double k) in
      let positive : 0 < number zs = omega arith in
      let reduced =
        number-choice (ltb (number ss) (number zs)) ss d.bits
        ∙ ap (λ (n : ℕ). if ltb (number ss) (number zs) then number ss else n) d.counts
        ∙ reduce_once (number ss) (number zs) (2 ^ length ns) below sum_lt modulus_lt in
      (
        (take (length out.0 - 1) out.0, out.1),
        rw (rem_ok, out_ok, le→leb 1 (length out.0) (omega arith)) refl,
        ReturnsWord-drop_last k _ out bits (Extends-trans v d.extends c.extends) c.has len_out
            reduced (omega (arith, mod-lt (number ss) positive)),
      )

  -- `add_mod` on words of the same length never fails, and returns nodes for the sum modulo the
  -- modulus, if the sum is below twice the modulus.
  pub add_mod-ReturnsWord :
      (b : CircuitBuilder) (ns ms ks : List ℕ) (xs ys zs : List Bool)
      → IsValued v b
      → HasWord v b ns xs
      → HasWord v b ms ys
      → HasWord v b ks zs
      → length ns ≡ length ms
      → length ns ≡ length ks
      → number xs + number ys < number zs + number zs
      → (result : List ℕ × CircuitBuilder) × (add_mod ns ms ks b ≡ ok result)
        × ReturnsWord v b (length ns) ((number xs + number ys) % number zs) result
  unfolding add_mod
  add_mod-ReturnsWord b ns ms ks xs ys zs w hx hy hz same_m same_k below =
      let (sum, sum_ok, s) =
        wrapping_add-ReturnsWord v b (widen ns) (widen ms) _ _ w (HasWord-widen ns xs w hx)
          (HasWord-widen ms ys w hy)
          (length-append ns (const_zero ∷ [])
            ∙ ap (λ (k : ℕ). k + 1) same_m
            ∙ sym (length-append ms (const_zero ∷ []))) in
      let w1 = Extends-IsValued v s.extends w in
      let hz1 = Extends-HasWord v ks zs s.extends hz in
      let sum_len : length sum.0 ≡ length ns + 1 =
        sym (HasWord-length v _ _ s.bits s.has)
        ∙ s.same_length
        ∙ length-append ns (const_zero ∷ []) in
      let len_x = HasWord-length v b ns xs hx in
      let len_y = HasWord-length v b ms ys hy in
      let len_z = HasWord-length v b ks zs hz in
      let wide_len = length-append ns (const_zero ∷ []) in
      let power : 2 ^ length (widen ns) ≡ 2 * 2 ^ length ns =
        ap (λ (j : ℕ). 2 ^ j) wide_len ∙ pow_double (length ns) in
      let x_lt : number xs < 2 ^ length ns = rw (← len_x) (number-lt xs) in
      let y_lt : number ys < 2 ^ length ns = rw (same_m, ← len_y) (number-lt ys) in
      let sum_number =
        ap₂ (λ (n m : ℕ). (n + m) % 2 ^ length (widen ns)) (number-append_zero xs)
          (number-append_zero ys) in
      let same_number = sum_number ∙ mod-eq_of_lt (omega arith) in
      let same_sum : number s.bits ≡ number xs + number ys = s.counts ∙ same_number in
      let (result, result_ok, r) =
        reduce_sum-ReturnsWord sum.1 sum.0 ks s.bits _ (length ns) w1 s.has
          (HasWord-widen ks zs w1 hz1) sum_len (sym same_k)
          (rw (same_sum, number-append_zero zs) below)
          (rw (number-append_zero zs, same_k, ← len_z) (number-lt zs)) in
      (
        result,
        rw
            (
              (==_iff (length ns) (length ms)).1 same_m,
              (==_iff (length ns) (length ks)).1 same_k,
              sum_ok,
            )
            result_ok,
        record {
          extends = Extends-trans v s.extends r.extends;
          bits = r.bits;
          has = r.has;
          same_length = r.same_length;
          counts = r.counts ∙ ap₂ (λ (n m : ℕ). n % m) same_sum (number-append_zero zs);
        },
      )
