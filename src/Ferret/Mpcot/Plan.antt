-- ===== src/Ferret/Mpcot/Plan.antt =====
-- What an accepted plan of `crates/ot-core/src/ferret/mpcot.rs` says.
use mpz.Prelude.{
  ℕ, zero, suc, ◌+◌, ◌*◌, ◌/◌, ◌%◌, ◌^◌, ◌≤◌, ◌<◌, ◌≡◌, refl, ap, sym, ◌∙◌, Bool, true, false,
  arith, List, [], ◌∷◌, length, map, replicate, leb, ◌==◌, ==_iff, le→leb, lt→leb, Bool-cases, inl,
  inr, Outcome, ok, ok-injective, bind_returns, ensure, assert, ◌>>◌, not, ltb, ltb→lt, ◌&&◌, ltb,
  ◌&&◌, ltb→lt,
}
use native.Mathlib.Nat.{pow-suc, div-add-mod}
use mpz.Lpn.{power_below}
use mpz.Ferret.Mpcot.{ilog2, interval, spcot_lengths, is_regular, spcot_queries}

pub pow-pos : (n : ℕ) → 0 < 2 ^ n
pow-pos zero = omega arith
pow-pos (suc n) = omega (arith, pow-pos n, pow-suc 2 n)

-- A power of two below `2 ^ n` is `2` to its logarithm.
pub power_below-ilog2 :
    (n k : ℕ) → power_below k n ≡ true → (k < 2 ^ n) × (k ≡ 2 ^ ilog2 k n) × (ilog2 k n < n)
power_below-ilog2 zero k h = cc h
power_below-ilog2 (suc n) k h = elim (Bool-cases (k == 2 ^ n)) [
  | inl this ↦
      let same : k ≡ 2 ^ n = (==_iff k (2 ^ n)).0 this in
      rw (le→leb (2 ^ n) k (omega (arith, same)))
        ((omega (arith, same, pow-suc 2 n, pow-pos n), same, omega arith))
  | inr other ↦
      let (small, same, below) = power_below-ilog2 n k (rw other at h) in
      rw (lt→leb (2 ^ n) k small) ((omega (arith, small, pow-suc 2 n), same, omega (arith, below)))
]

-- The lengths of an accepted plan are equal, and the intervals fill the vector.
abbrev pub IsPlan : ℕ → ℕ → List ℕ → Type 0
IsPlan count len lengths =
    (levels : ℕ) × (0 < count)
    × (lengths ≡ replicate count levels)
    × (levels < 64)
    × (len ≡ count * 2 ^ levels)
    × (len / count ≡ 2 ^ levels)

module _ {E A : Type 0} where
  ensure_bind :
      (c : Bool) (e : E) (m : Outcome E A) {a : A}
      → (ensure c e >> m) ≡ ok a
      → (c ≡ true) × (m ≡ ok a)
  ensure_bind true e m h = (refl, h)
  ensure_bind false e m h = cc h

  assert_bind :
      (c : Bool) (m : Outcome E A) {a : A} → (assert c >> m) ≡ ok a → (c ≡ true) × (m ≡ ok a)
  assert_bind true m h = (refl, h)
  assert_bind false m h = cc h

pub spcot_lengths-IsPlan :
    (count len : ℕ) (lengths : List ℕ)
    → spcot_lengths count len ≡ ok lengths
    → IsPlan count len lengths
unfolding spcot_lengths
spcot_lengths-IsPlan count len lengths h =
    let (fits, h1) = ensure_bind (leb count len) _ _ h in
    let (k, made, h2) = bind_returns (interval count len) _ h1 in
    let (some_index, same_k) = assert_bind (not (count == 0)) (ok (len / count)) made in
    let (multiple, h3) = ensure_bind (len % count == 0) _ _ h2 in
    let (power, h4) = ensure_bind (power_below k 64) _ _ h3 in
    let (small, same, below) = power_below-ilog2 64 k power in
    let quotient : len / count ≡ 2 ^ ilog2 k 64 = ok-injective same_k ∙ same in
    let full : len ≡ count * (len / count) =
      omega (arith, div-add-mod len count, (==_iff (len % count) 0).0 multiple) in
    (
      ilog2 k 64,
      not_zero count some_index,
      sym (ok-injective h4),
      below,
      full ∙ ap (λ q. count * q) quotient,
      quotient,
    )
  where
    not_zero : (n : ℕ) → not (n == 0) ≡ true → 0 < n
    not_zero n h = ground arith

-- The indices of an accepted plan, from interval `i` on, lie in intervals of `k`.
abbrev pub Regular : ℕ → ℕ → List ℕ → Type 0
Regular k i [] = Unit {0}
Regular k i (idx ∷ idxs) = (i * k ≤ idx) × (idx < (i + 1) * k) × Regular k (i + 1) idxs

is_regular-Regular : (k i : ℕ) (idxs : List ℕ) → is_regular k i idxs ≡ true → Regular k i idxs
is_regular-Regular k i [] h = tt
is_regular-Regular k i (idx ∷ idxs) h =
    let (low, high, rest) =
      both (leb (i * k) idx) (ltb idx ((i + 1) * k)) (is_regular k (i + 1) idxs) h in
    (leb→le (i * k) idx low, ltb→lt idx ((i + 1) * k) high, is_regular-Regular k (i + 1) idxs rest)
  where
    both : (a b c : Bool) → (a && b && c) ≡ true → (a ≡ true) × (b ≡ true) × (c ≡ true)
    both a b c h = ground arith

    leb→le : (a b : ℕ) → leb a b ≡ true → a ≤ b
    leb→le a b h = ground arith

pub spcot_queries-IsPlan :
    (idxs : List ℕ) (len : ℕ) (lengths locals : List ℕ)
    → spcot_queries idxs len ≡ ok (lengths, locals)
    → (spcot_lengths (length idxs) len ≡ ok lengths)
      × (locals ≡ map (λ idx. idx % (len / length idxs)) idxs)
      × Regular (len / length idxs) 0 idxs
unfolding spcot_queries
spcot_queries-IsPlan idxs len lengths locals h =
    let (found, planned, h1) = bind_returns (spcot_lengths (length idxs) len) _ h in
    let (k, made, h2) = bind_returns (interval (length idxs) len) _ h1 in
    let (some_index, same_k) = assert_bind (not (length idxs == 0)) (ok (len / length idxs)) made in
    let (regular, h3) = ensure_bind (is_regular k 0 idxs) _ _ h2 in
    let pair = ok-injective h3 in
    let here : k ≡ len / length idxs = sym (ok-injective same_k) in
    (
      planned ∙ ap (λ (p : List ℕ × List ℕ). ok p.0) pair,
      sym (ap (λ (p : List ℕ × List ℕ). p.1) pair) ∙ ap (λ q. map (λ idx. idx % q) idxs) here,
      rw (sym here) (is_regular-Regular k 0 idxs regular),
    )
