-- ===== src/Circuit/Ops/Words.antt =====
-- Words of nodes, and the numbers that they stand for.
use native.Mathlib.Nat.{
  pow-suc, one-le-pow, mod-eq_of_lt, mul-add-mod_self_left, div-add-mod, mod-lt,
}
use mpz.Prelude.{
  ℕ, suc, ◌+◌, ◌*◌, ◌/◌, ◌%◌, ◌^◌, ◌<◌, ◌≡◌, refl, Bool, true, false, List, [], ◌∷◌, length, arith,
  ap, ◌∙◌,
}
use mpz.Circuit.Builder.{CircuitBuilder}
use mpz.Circuit.Builder.Value.{Values, Extends, Has, Extends-Has}
use mpz.Circuit.Ops.Adders.{bit}

-- The nodes are feeds of the given values, bit by bit.
abbrev pub HasWord : Values → CircuitBuilder → List ℕ → List Bool → Type 0
HasWord v b [] [] = Unit {0}
HasWord v b [] (x ∷ xs) = ⊥
HasWord v b (n ∷ ns) [] = ⊥
HasWord v b (n ∷ ns) (x ∷ xs) = Has v b n x × HasWord v b ns xs

pub Extends-HasWord :
    (v : Values) {b c : CircuitBuilder} (ns : List ℕ) (xs : List Bool)
    → Extends v b c
    → HasWord v b ns xs
    → HasWord v c ns xs
Extends-HasWord v [] [] e h = tt
Extends-HasWord v [] (x ∷ xs) e h = h
Extends-HasWord v (n ∷ ns) [] e h = h
Extends-HasWord v (n ∷ ns) (x ∷ xs) e (h, hs) = (Extends-Has v e h, Extends-HasWord v ns xs e hs)

pub HasWord-length :
    (v : Values) (b : CircuitBuilder) (ns : List ℕ) (xs : List Bool)
    → HasWord v b ns xs
    → length xs ≡ length ns
HasWord-length v b [] [] h = refl
HasWord-length v b [] (x ∷ xs) h = elim h [ ]
HasWord-length v b (n ∷ ns) [] h = elim h [ ]
HasWord-length v b (n ∷ ns) (x ∷ xs) (h, hs) = ap suc (HasWord-length v b ns xs hs)

-- A method that extends the builder and returns nodes of the given bits.
pub record ReturnsBits (v : Values) (b : CircuitBuilder) (xs : List Bool)
    (result : List ℕ × CircuitBuilder) : Type 0 where
  pub extends : Extends v b result.1
  pub has : HasWord v result.1 result.0 xs

-- The number of a word, least significant bit first.
abbrev pub number : List Bool → ℕ
number [] = 0
number (x ∷ xs) = bit x + 2 * number xs

pub number-lt : (xs : List Bool) → number xs < 2 ^ length xs
number-lt [] = omega arith
number-lt (true ∷ xs) = omega (arith, number-lt xs, pow-suc 2 (length xs))
number-lt (false ∷ xs) = omega (arith, number-lt xs, pow-suc 2 (length xs))

split_mod_by : (s m t : ℕ) → s < 2 → 0 < t → (s + 2 * m) % (2 * t) ≡ s + 2 * (m % t)
split_mod_by s m t low pos =
    let e : s + 2 * m ≡ 2 * t * (m / t) + (s + 2 * (m % t)) = omega (arith, div-add-mod m t) in
    ap (λ (n : ℕ). n % (2 * t)) e
    ∙ mul-add-mod_self_left (2 * t) (m / t) (s + 2 * (m % t))
    ∙ mod-eq_of_lt (omega (arith, mod-lt m pos))

-- The low bit of a sum may be split off before the reduction.
pub split_mod : (s m k : ℕ) → s < 2 → (s + 2 * m) % 2 ^ suc k ≡ s + 2 * (m % 2 ^ k)
split_mod s m k low =
    let e : 2 ^ suc k ≡ 2 * 2 ^ k = omega (arith, pow-suc 2 k) in
    rw e (split_mod_by s m (2 ^ k) low (one-le-pow k 2 (omega arith)))
