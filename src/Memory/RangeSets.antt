-- ===== src/Memory/RangeSets.antt =====
-- The sets of positions that `crates/memory-core` takes from the package `rangeset`: the operations
-- that it calls, and what their documentation says of them.
use mpz.Prelude.{
  ℕ, zero, suc, ◌+◌, ◌≤◌, ◌<◌, ◌≡◌, ◌≢◌, refl, ◌↔◌, ◌⊎◌, Bool, true, false, ◌&&◌, ◌||◌, not, Range,
  range_len, in_range, arith, ap, sym, ◌∙◌, Bool-cases, inl, inr, ◌==◌, ==_iff,
}

pub record RangeSets (S : Type 0) : Type 0 where
  pub empty : S
  -- `|=` and `-=` of a range.
  pub union : S → Range → S
  pub minus : S → Range → S
  pub contains : S → ℕ → Bool
  pub is_subset : Range → S → Bool
  pub is_disjoint : Range → S → Bool

pub record IsRangeSets {S : Type 0} (R : RangeSets S) : Type 0 where
  pub contains-empty : (n : ℕ) → R.contains R.empty n ≡ false
  pub contains-union :
      (s : S) (r : Range) (n : ℕ) → R.contains (R.union s r) n ≡ (R.contains s n || in_range r n)
  pub contains-minus :
      (s : S) (r : Range) (n : ℕ)
      → R.contains (R.minus s r) n ≡ (R.contains s n && not (in_range r n))
  pub is_subset_iff :
      (r : Range) (s : S)
      → (R.is_subset r s ≡ true) ↔ ((n : ℕ) → r.start ≤ n → n < r.stop → R.contains s n ≡ true)
  pub is_disjoint_iff :
      (r : Range) (s : S)
      → (R.is_disjoint r s ≡ true) ↔ ((n : ℕ) → r.start ≤ n → n < r.stop → R.contains s n ≡ false)

both_true_left : (p q : Bool) → p && q ≡ true → p ≡ true
both_true_left p q h = ground arith

both_true_right : (p q : Bool) → p && q ≡ true → q ≡ true
both_true_right p q h = ground arith

true≢false : true ≢ false
true≢false h = ground arith

not-true : (p : Bool) → not p ≡ true → p ≡ false
not-true p h = ground arith

range_end : (r : Range) (n : ℕ) → r.start ≤ n → n < r.stop → n < r.start + range_len r
range_end r n low high = omega arith

range_stop : (r : Range) (n : ℕ) → r.start ≤ n → n < r.start + range_len r → n < r.stop
range_stop r n low high = omega arith

in_range-inside : (r : Range) (n : ℕ) → r.start ≤ n → n < r.stop → in_range r n ≡ true
in_range-inside r n low high = ground arith

or_true : (p q : Bool) → q ≡ true → p || q ≡ true
or_true p q h = ground arith

module _ {S : Type 0} {R : RangeSets S} (L : IsRangeSets R) where
  -- A range is in a set once it has been added.
  pub union-is_subset : (s : S) (r : Range) → R.is_subset r (R.union s r) ≡ true
  union-is_subset s r = (L.is_subset_iff r (R.union s r)).1 λ n low high.
      L.contains-union s r n
      ∙ or_true (R.contains s n) (in_range r n) (in_range-inside r n low high)

  -- A range with a member of the set is not disjoint from it.
  pub member-is_disjoint :
      (s : S) (q : Range) (n : ℕ)
      → R.contains s n ≡ true
      → q.start ≤ n
      → n < q.stop
      → R.is_disjoint q s ≡ false
  member-is_disjoint s q n member low high = elim (Bool-cases (R.is_disjoint q s)) [
    | inl disjoint ↦
        absurd (true≢false (sym member ∙ (L.is_disjoint_iff q s).0 disjoint n low high))
    | inr meets ↦ meets
  ]

  -- An added range is in the set, and so are the members from before.
  pub union-contains_added :
      (s : S) (r : Range) (n : ℕ) → r.start ≤ n → n < r.stop → R.contains (R.union s r) n ≡ true
  union-contains_added s r n low high =
      L.contains-union s r n
      ∙ or_true (R.contains s n) (in_range r n) (in_range-inside r n low high)

  pub union-contains_kept :
      (s : S) (r : Range) (n : ℕ) → R.contains s n ≡ true → R.contains (R.union s r) n ≡ true
  union-contains_kept s r n member = L.contains-union s r n ∙ either (in_range r n) member
    where
      either : {p : Bool} (q : Bool) → p ≡ true → p || q ≡ true
      either q h = ground arith

  -- A member of a set to which a range has been added was in the set or is in the range.
  pub added :
      (s : S) (r : Range) (n : ℕ) {p : Bool}
      → p ≡ (R.contains s n || in_range r n)
      → p ≡ true
      → (R.contains s n ≡ true) ⊎ ((r.start ≤ n) × (n < r.stop))
  added s r n e member = either (R.contains s n) (sym e ∙ member)
    where
      either : (q : Bool) → q || in_range r n ≡ true → (q ≡ true) ⊎ ((r.start ≤ n) × (n < r.stop))
      either true h = inl refl
      either false h = inr (ground arith, ground arith)

-- Whether all of the `k` positions from `n` on pass a test.
abbrev all_from : (ℕ → Bool) → ℕ → ℕ → Bool
all_from test n zero = true
all_from test n (suc k) = test n && all_from test (n + 1) k

all_from→test :
    (test : ℕ → Bool) (n k : ℕ)
    → all_from test n k ≡ true
    → (i : ℕ) → n ≤ i
    → i < n + k
    → test i ≡ true
all_from→test test n zero h i low high = absurd (omega arith)
all_from→test test n (suc k) h i low high = elim (Bool-cases (n == i)) [
  | inl same ↦ ap test (sym ((==_iff n i).0 same)) ∙ both_true_left (test n) _ h
  | inr other ↦
      all_from→test test (n + 1) k (both_true_right (test n) _ h) i (next other) (omega arith)
]
  where
    next : n == i ≡ false → n + 1 ≤ i
    next other = ground arith

test→all_from :
    (test : ℕ → Bool) (n k : ℕ)
    → ((i : ℕ) → n ≤ i → i < n + k → test i ≡ true)
    → all_from test n k ≡ true
test→all_from test n zero h = refl
test→all_from test n (suc k) h =
    rw (h n (omega arith) (omega arith))
      (test→all_from test (n + 1) k λ i low high. h i (omega arith) (omega arith))

-- Sets as tests of positions.
abbrev pub test_sets : RangeSets (ℕ → Bool)
test_sets = record {
  empty = λ n. false;
  union = λ s r n. s n || in_range r n;
  minus = λ s r n. s n && not (in_range r n);
  contains = λ s n. s n;
  is_subset = λ r s. all_from s r.start (range_len r);
  is_disjoint = λ r s. all_from (λ n. not (s n)) r.start (range_len r);
}

pub test_sets-IsRangeSets : IsRangeSets test_sets
test_sets-IsRangeSets = record {
  contains-empty = λ n. refl;
  contains-union = λ s r n. refl;
  contains-minus = λ s r n. refl;
  is_subset_iff = λ r s. (
    λ h n low high. all_from→test s r.start (range_len r) h n low (range_end r n low high),
    λ h. test→all_from s r.start (range_len r) λ i low high. h i low (range_stop r i low high),
  );
  is_disjoint_iff = λ r s. (
    λ h n low high.
        not-true (s n)
          (all_from→test (λ i. not (s i)) r.start (range_len r) h n low (range_end r n low high)),
    λ h.
        test→all_from (λ i. not (s i)) r.start (range_len r)
          λ i low high. ap not (h i low (range_stop r i low high)),
  );
}
