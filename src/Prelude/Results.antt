-- ===== src/Prelude/Results.antt =====
-- The outcome of a Rust call: a value, an error value of the call's own type, or a panic (an index
-- out of range, a failed assertion).
use mathlib.Core.Path.{◌≡◌, refl, ap}
use Prim.Native.Nat.{ℕ, zero, suc, ◌-◌, ◌≤◌, ◌<◌}
use mathlib.Core.Bool.{Bool, true, false, ◌&&◌}
use mathlib.Core.Option.{Option, none, some}
use mathlib.Core.List.{List, [], ◌∷◌}
use native.Mathlib.Omega.{arith}
use mpz.Prelude.Tests.{ltb, leb, lt→ltb, le→leb}
use mpz.Prelude.Lists.{length, get_elem?, get_or, set, take, drop}

pub data Outcome (E : Type 0) (A : Type 0) : Type 0 where
  ok : A → Outcome E A
  err : E → Outcome E A
  panic : Outcome E A

module _ {E : Type 0} where
  infixl 5 ◌>>=◌ ◌>>◌
  abbrev pub ◌>>=◌ : {A B : Type 0} → Outcome E A → (A → Outcome E B) → Outcome E B
  ok a >>= f = f a
  err e >>= f = err e
  panic >>= f = panic

  abbrev pub ◌>>◌ : {B : Type 0} → Outcome E (Unit {0}) → Outcome E B → Outcome E B
  m >> k = m >>= λ _. k

  -- An early `return Err(e)`, and `assert!`.
  abbrev pub ensure : Bool → E → Outcome E (Unit {0})
  ensure true e = ok tt
  ensure false e = err e

  abbrev pub assert : Bool → Outcome E (Unit {0})
  assert true = ok tt
  assert false = panic

  -- A checked index: `none` is a panic.
  abbrev or_panic : {A : Type 0} → Option A → Outcome E A
  or_panic none = panic
  or_panic (some a) = ok a

  pub ok-injective : {A : Type 0} {a b : A} → ◌≡◌ {A = Outcome E A} (ok a) (ok b) → a ≡ b
  ok-injective h = cc h

  -- A chain that returns has a first step that returns.
  pub bind_returns :
      {V W : Type 0} (step : Outcome E V) (rest : V → Outcome E W) {w : W}
      → step >>= rest ≡ ok w
      → (v : V) × (step ≡ ok v) × (rest v ≡ ok w)
  bind_returns panic rest returned = cc
  bind_returns (err e) rest returned = cc
  bind_returns (ok v) rest returned = (v, refl, returned)

  -- A chain with more steps behind one that returns.
  pub bind_then :
      {U V W : Type 0} (step : Outcome E U) (next : U → Outcome E V) (rest : V → Outcome E W)
      {v : V}
      → step >>= next ≡ ok v
      → (step >>= λ u. next u >>= rest) ≡ rest v
  bind_then panic next rest returned = cc
  bind_then (err e) next rest returned = cc
  bind_then (ok u) next rest returned = ap (λ m. m >>= rest) returned

  -- `v[i]` and `v[i] = x` on a vector or a slice.
  abbrev pub get_at : {A : Type 0} → List A → ℕ → Outcome E A
  get_at xs i = or_panic (get_elem? xs i)

  abbrev pub set_at : {A : Type 0} → List A → ℕ → A → Outcome E (List A)
  set_at xs i v = elim (ltb i (length xs)) [ true ↦ ok (set xs i v) | false ↦ panic ]

  -- `v[start..stop]`.
  abbrev pub slice_at : {A : Type 0} → List A → ℕ → ℕ → Outcome E (List A)
  slice_at xs start stop = elim (leb start stop && leb stop (length xs)) [
    | true ↦ ok (take (stop - start) (drop start xs))
    | false ↦ panic
  ]

  -- In range, an index and a write succeed.
  pub get_at_in_range :
      {A : Type 0} (xs : List A) (i : ℕ) (d : A) → i < length xs → get_at xs i ≡ ok (get_or xs i d)
  get_at_in_range [] i d h = absurd (omega arith)
  get_at_in_range (x ∷ xs) zero d h = refl
  get_at_in_range (x ∷ xs) (suc i) d h = get_at_in_range xs i d (omega arith)

  pub set_at_in_range :
      {A : Type 0} (xs : List A) (i : ℕ) (v : A) → i < length xs → set_at xs i v ≡ ok (set xs i v)
  set_at_in_range xs i v h = rw (lt→ltb i (length xs) h, set_at)

  pub slice_at_in_range :
      {A : Type 0} (xs : List A) (start stop : ℕ)
      → start ≤ stop
      → stop ≤ length xs
      → slice_at xs start stop ≡ ok (take (stop - start) (drop start xs))
  slice_at_in_range xs start stop h k =
      rw (le→leb start stop h, le→leb stop (length xs) k, slice_at)

-- A write of a value computed from one or two reads, all in range.
module _ {E A : Type 0} (xs : List A) (d : A) where
  pub unary_in_range :
      {B : Type 0} (x z : ℕ) (f : A → A) (k : A → List A → Outcome E B)
      → x < length xs
      → z < length xs
      → (get_at xs x >>= λ a. set_at xs z (f a) >>= λ ys. k a ys)
        ≡ k (get_or xs x d) (set xs z (f (get_or xs x d)))
  unary_in_range x z f k hx hz = rw (get_at_in_range xs x d hx, set_at_in_range xs z _ hz)

  pub binary_in_range :
      {B : Type 0} (x y z : ℕ) (f : A → A → A) (k : A → A → List A → Outcome E B)
      → x < length xs
      → y < length xs
      → z < length xs
      → (get_at xs x >>= λ a. get_at xs y >>= λ b. set_at xs z (f a b) >>= λ ys. k a b ys)
        ≡ k (get_or xs x d) (get_or xs y d) (set xs z (f (get_or xs x d) (get_or xs y d)))
  binary_in_range x y z f k hx hy hz =
      rw (get_at_in_range xs x d hx, get_at_in_range xs y d hy, set_at_in_range xs z _ hz)

  pub unary_write :
      (x z : ℕ) (f : A → A)
      → x < length xs
      → z < length xs
      → (get_at {E = E} xs x >>= λ a. set_at xs z (f a)) ≡ ok (set xs z (f (get_or xs x d)))
  unary_write x z f hx hz =
      rw (get_at_in_range {E = E} xs x d hx, set_at_in_range {E = E} xs z _ hz)

  pub binary_write :
      (x y z : ℕ) (f : A → A → A)
      → x < length xs
      → y < length xs
      → z < length xs
      → (get_at {E = E} xs x >>= λ a. get_at xs y >>= λ b. set_at xs z (f a b))
        ≡ ok (set xs z (f (get_or xs x d) (get_or xs y d)))
  binary_write x y z f hx hy hz = rw (
    get_at_in_range {E = E} xs x d hx,
    get_at_in_range {E = E} xs y d hy,
    set_at_in_range {E = E} xs z _ hz,
  )

  -- What a write of a value computed from reads has read and written.
  pub unary-eq-ok :
      {B : Type 0} (x z : ℕ) (f : A → A) (k : A → List A → Outcome E B) {r : B}
      → (get_at xs x >>= λ a. set_at xs z (f a) >>= λ ys. k a ys) ≡ ok r
      → (a : A) × (ys : List A) × (get_at {E = E} xs x ≡ ok a)
        × (set_at {E = E} xs z (f a) ≡ ok ys)
        × (k a ys ≡ ok r)
  unary-eq-ok x z f k h =
      let (a, ea, h) = bind_returns (get_at xs x) _ h in
      let (ys, es, h) = bind_returns (set_at xs z (f a)) _ h in (a, ys, ea, es, h)

  pub binary-eq-ok :
      {B : Type 0} (x y z : ℕ) (f : A → A → A) (k : A → A → List A → Outcome E B) {r : B}
      → (get_at xs x >>= λ a. get_at xs y >>= λ b. set_at xs z (f a b) >>= λ ys. k a b ys) ≡ ok r
      → (a : A) × (b : A) × (ys : List A) × (get_at {E = E} xs x ≡ ok a)
        × (get_at {E = E} xs y ≡ ok b)
        × (set_at {E = E} xs z (f a b) ≡ ok ys)
        × (k a b ys ≡ ok r)
  binary-eq-ok x y z f k h =
      let (a, ea, h) = bind_returns (get_at xs x) _ h in
      let (b, eb, h) = bind_returns (get_at xs y) _ h in
      let (ys, es, h) = bind_returns (set_at xs z (f a b)) _ h in (a, b, ys, ea, eb, es, h)
