-- ===== src/Ferret/Mpcot.antt =====
-- `crates/ot-core/src/ferret/mpcot.rs`, in the default build: the plan of a multi-point extension as single-point
-- ones, one for each interval of the vector. An index of every interval is queried.
pub mod Plan
pub mod Points
pub mod Tests
use mpz.Prelude.{
  ℕ, zero, suc, ◌+◌, ◌*◌, ◌/◌, ◌%◌, ◌^◌, Bool, true, false, ◌&&◌, not, ◌==◌, leb, ltb, List, [],
  ◌∷◌, length, map, replicate, if◌then◌else◌, Outcome, ok, ensure, assert, ◌>>=◌, ◌>>◌,
}
use mpz.Lpn.{power_below}

-- The three texts of a parameter error.
pub data Reason : Type 0 where
  too_many_indices not_a_multiple not_a_power_of_two : Reason

pub data MpcotError : Type 0 where
  params : ℕ → ℕ → Reason → MpcotError
  not_regular : MpcotError

-- `x.ilog2()` for `x` below `2 ^ n`.
abbrev pub ilog2 : ℕ → ℕ → ℕ
ilog2 x zero = 0
ilog2 x (suc n) = let smaller = ilog2 x n in if leb (2 ^ n) x then n else smaller

-- `len / count`, which panics for no indices.
abbrev pub interval : ℕ → ℕ → Outcome MpcotError ℕ
interval count len = do assert (not (count == 0)); ok (len / count)

unfoldable pub spcot_lengths : ℕ → ℕ → Outcome MpcotError (List ℕ)
spcot_lengths count len = do
  ensure (leb count len) (params count len too_many_indices)
  k ← interval count len
  ensure (len % count == 0) (params count len not_a_multiple)
  ensure (power_below k 64) (params count len not_a_power_of_two)
  ok (replicate count (ilog2 k 64))

-- The test of all indices, from interval `i` on.
abbrev pub is_regular : ℕ → ℕ → List ℕ → Bool
is_regular k i [] = true
is_regular k i (idx ∷ idxs) = leb (i * k) idx && ltb idx ((i + 1) * k) && is_regular k (i + 1) idxs

unfoldable pub spcot_queries : List ℕ → ℕ → Outcome MpcotError (List ℕ × List ℕ)
spcot_queries idxs len = do
  lengths ← spcot_lengths (length idxs) len
  k ← interval (length idxs) len
  ensure (is_regular k 0 idxs) not_regular
  ok (lengths, map (λ idx. idx % k) idxs)
