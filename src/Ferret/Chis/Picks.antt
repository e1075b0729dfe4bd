-- ===== src/Ferret/Chis/Picks.antt =====
-- Ascending positions, and those of them below a bound, for `fold_chis` of
-- `crates/ot-core/src/ferret/spcot.rs`.
use mpz.Prelude.{
  drop-drop, ℕ, suc, ◌+◌, ◌≤◌, ◌<◌, ◌≡◌, refl, ap, sym, ◌∙◌, true, arith, List, [], ◌∷◌, length,
  take, drop, ltb, lt→ltb, le→ltb, le→leb, Bool-cases, inl, inr, ltb→lt,
}
use mpz.Ferret.Chis.{ascends, is_sorted, partition_point}

-- The positions ascend, from the lower bound on, and stay below the upper one.
abbrev pub Ascending : ℕ → ℕ → List ℕ → Type 0
Ascending lo hi [] = Unit {0}
Ascending lo hi (p ∷ ps) = (lo ≤ p) × (p < hi) × Ascending p hi ps

ascends-Ascending : (lo hi : ℕ) (ps : List ℕ) → Ascending lo hi ps → ascends lo ps ≡ true
ascends-Ascending lo hi [] h = refl
ascends-Ascending lo hi (p ∷ ps) h = rw (le→leb lo p h.0) (ascends-Ascending p hi ps h.2)

pub is_sorted-Ascending : (lo hi : ℕ) (ps : List ℕ) → Ascending lo hi ps → is_sorted ps ≡ true
is_sorted-Ascending lo hi [] h = refl
is_sorted-Ascending lo hi (p ∷ ps) h = ascends-Ascending p hi ps h.2

pub Ascending-within :
    (lo hi lo' hi' : ℕ) (ps : List ℕ)
    → Ascending lo hi ps
    → ((p : ℕ) → lo ≤ p → p < hi → (lo' ≤ p) × (p < hi'))
    → Ascending lo' hi' ps
Ascending-within lo hi lo' hi' [] h within = h
Ascending-within lo hi lo' hi' (p ∷ ps) h within = (
  (within p h.0 h.1).0,
  (within p h.0 h.1).1,
  Ascending-within p hi p hi' ps h.2
      (λ q above below. (above, (within q (omega (arith, h.0, above)) below).1)),
)

-- What is left of an ascending list without the positions below a bound.
abbrev pub from : ℕ → List ℕ → List ℕ
from bound ps = drop (partition_point bound ps) ps

abbrev pub below : ℕ → List ℕ → List ℕ
below bound ps = take (partition_point bound ps) ps

module _ (bound p : ℕ) (ps : List ℕ) where
  pub partition_point-below :
      p < bound → partition_point bound (p ∷ ps) ≡ suc (partition_point bound ps)
  partition_point-below h = rw (lt→ltb p bound h) refl

  pub partition_point-above : bound ≤ p → partition_point bound (p ∷ ps) ≡ 0
  partition_point-above h = rw (le→ltb p bound h) refl

pub from-Ascending :
    (lo hi bound : ℕ) (ps : List ℕ) → Ascending lo hi ps → Ascending bound hi (from bound ps)
from-Ascending lo hi bound [] h = h
from-Ascending lo hi bound (p ∷ ps) h = elim (Bool-cases (ltb p bound)) [
  | inl lower ↦
      rw (partition_point-below bound p ps (ltb→lt p bound lower))
        (from-Ascending p hi bound ps h.2)
  | inr upper ↦
      (let above : bound ≤ p = ground arith in
        rw (partition_point-above bound p ps above) (above, h.1, h.2))
]

pub below-Ascending :
    (lo hi bound : ℕ) (ps : List ℕ) → Ascending lo hi ps → Ascending lo bound (below bound ps)
below-Ascending lo hi bound [] h = h
below-Ascending lo hi bound (p ∷ ps) h = elim (Bool-cases (ltb p bound)) [
  | inl lower ↦
      (let lt = ltb→lt p bound lower in
        rw (partition_point-below bound p ps lt) (h.0, lt, below-Ascending p hi bound ps h.2))
  | inr upper ↦
      (let above : bound ≤ p = ground arith in rw (partition_point-above bound p ps above) tt)
]

pub partition_point-le : (bound : ℕ) (ps : List ℕ) → partition_point bound ps ≤ length ps
partition_point-le bound [] = omega arith
partition_point-le bound (p ∷ ps) = ground (arith, partition_point-le bound ps)

-- The positions from one bound up to another.
pub partition_point-from :
    (lo hi b c : ℕ) (ps : List ℕ)
    → Ascending lo hi ps
    → b ≤ c
    → partition_point c ps ≡ partition_point b ps + partition_point c (from b ps)
partition_point-from lo hi b c [] h le = omega arith
partition_point-from lo hi b c (p ∷ ps) h le = elim (Bool-cases (ltb p b)) [
  | inl lower ↦
      (let lt = ltb→lt p b lower in
        rw (partition_point-below b p ps lt, partition_point-below c p ps (omega arith))
          (omega (arith, partition_point-from p hi b c ps h.2 le)))
  | inr upper ↦
      (let above : b ≤ p = ground arith in rw (partition_point-above b p ps above) (omega arith))
]

pub partition_point-length :
    (lo hi bound : ℕ) (ps : List ℕ)
    → Ascending lo hi ps
    → hi ≤ bound
    → partition_point bound ps ≡ length ps
partition_point-length lo hi bound [] h le = refl
partition_point-length lo hi bound (p ∷ ps) h le =
    rw (partition_point-below bound p ps (omega (arith, h.1)))
      (omega (arith, partition_point-length p hi bound ps h.2 le))

pub from-from :
    (lo hi b c : ℕ) (ps : List ℕ) → Ascending lo hi ps → b ≤ c → from c (from b ps) ≡ from c ps
from-from lo hi b c ps h le =
    drop-drop (partition_point c (from b ps)) (partition_point b ps) ps
    ∙ ap (λ k. drop k ps) (sym (partition_point-from lo hi b c ps h le))
