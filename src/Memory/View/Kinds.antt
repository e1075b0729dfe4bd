-- ===== src/Memory/View/Kinds.antt =====
-- Every allocated position of a view of `crates/memory-core/src/view.rs` is of exactly one kind.
use mpz.Prelude.{
  ℕ, ◌+◌, ◌≡◌, refl, Bool, true, false, ◌&&◌, ◌||◌, not, ltb, le→ltb, leb, Range, in_range, ok,
  ok-injective, assert, ◌>>=◌, arith,
}
use mpz.Memory.RangeSets.{RangeSets, IsRangeSets}
use mpz.Memory.View.{VisibilityView, new, alloc, set_public, set_private, set_blind}

-- A position that is not allocated is in no set; one that is allocated is in exactly one of the sets
-- of uninitialized, public, private and blind positions, and visible if it is public or private.
abbrev one_kind : Bool → Bool → Bool → Bool → Bool → Bool → Bool
one_kind false uninit public private blind visible =
    not uninit && not public && not private && not blind && not visible
one_kind true true public private blind visible =
    not public && not private && not blind && not visible
one_kind true false true private blind visible = not private && not blind && visible
one_kind true false false true blind visible = not blind && visible
one_kind true false false false blind visible = blind && not visible

module _ {S : Type 0} (R : RangeSets S) where
  -- The kind of a position of a view is right.
  abbrev pub IsKind : VisibilityView S → ℕ → Type 0
  IsKind view n =
      one_kind (ltb n view.len) (R.contains view.uninit n) (R.contains view.public n)
        (R.contains view.private n) (R.contains view.blind n) (R.contains view.visible n)
      ≡ true

  -- A view that allocations and settings build, none of which panics.
  pub data Reached : VisibilityView S → Type 0 where
    created : Reached (new R)
    allocated : (view : VisibilityView S) (len : ℕ) → Reached view → Reached (alloc R view len)
    made_public :
        (view view' : VisibilityView S) (range : Range)
        → Reached view
        → set_public R view range ≡ ok view'
        → Reached view'
    made_private :
        (view view' : VisibilityView S) (range : Range)
        → Reached view
        → set_private R view range ≡ ok view'
        → Reached view'
    made_blind :
        (view view' : VisibilityView S) (range : Range)
        → Reached view
        → set_blind R view range ≡ ok view'
        → Reached view'

-- The kind of a position after its range has been made public, private or blind.
one_kind-public :
    (l u p q b v i : Bool)
    → one_kind l u p q b v ≡ true
    → (i ≡ true → l ≡ true)
    → one_kind l (u && not i) (p || i) (q && not i) (b && not i) (v || i) ≡ true
one_kind-public l u p q b v i h inside = ground (arith, inside)

one_kind-private :
    (l u p q b v i : Bool)
    → one_kind l u p q b v ≡ true
    → (i ≡ true → l ≡ true)
    → one_kind l (u && not i) (p && not i) (q || i) (b && not i) (v || i) ≡ true
one_kind-private l u p q b v i h inside = ground (arith, inside)

one_kind-blind :
    (l u p q b v i : Bool)
    → one_kind l u p q b v ≡ true
    → (i ≡ true → l ≡ true)
    → one_kind l (u && not i) (p && not i) (q && not i) (b || i) (v && not i) ≡ true
one_kind-blind l u p q b v i h inside = ground (arith, inside)

-- The kind of a position after an allocation from `len` on.
one_kind-alloc :
    (n len more : ℕ) (u p q b v : Bool)
    → one_kind (ltb n len) u p q b v ≡ true
    → one_kind
        (ltb n (len + more))
        (u || in_range (record { start = len; stop = len + more }) n)
        p
        q
        b
        v
      ≡ true
one_kind-alloc n len more u p q b v h = ground arith

in_range-ltb :
    (r : Range) (len n : ℕ) → leb r.stop len ≡ true → in_range r n ≡ true → ltb n len ≡ true
in_range-ltb r len n fits h = ground arith

module _ {S : Type 0} {R : RangeSets S} (L : IsRangeSets R) where
  -- What an operation that succeeds has asserted.
  asserted :
      {A : Type 0} (t : Bool) {a b : A}
      → (assert {E = ⊥} t >>= λ _. ok a) ≡ ok b
      → (t ≡ true) × (a ≡ b)
  asserted true h = (refl, ok-injective h)
  asserted false h = cc h

  -- In every view that the operations build, every allocated position is of exactly one kind:
  -- uninitialized, public, private or blind. It is visible exactly if it is public or private, and a
  -- position that is not allocated is of no kind.
  pub Reached-IsKind : (view : VisibilityView S) → Reached R view → (n : ℕ) → IsKind R view n
  unfolding alloc set_public set_private set_blind
  Reached-IsKind _ created n = rw (L.contains-empty n, le→ltb n 0 (omega arith)) refl
  Reached-IsKind _ (allocated view len r) n =
      rw (L.contains-union view.uninit _ n)
        (one_kind-alloc n view.len len _ _ _ _ _ (Reached-IsKind view r n))
  Reached-IsKind _ (made_public view view' range r e) n =
      let (fits, same) = asserted (leb range.stop view.len) e in
      rw
        (
          ← same,
          L.contains-minus view.uninit range n,
          L.contains-union view.public range n,
          L.contains-minus view.private range n,
          L.contains-minus view.blind range n,
          L.contains-union view.visible range n,
        )
        (one_kind-public _ _ _ _ _ _ _ (Reached-IsKind view r n)
          (in_range-ltb range view.len n fits))
  Reached-IsKind _ (made_private view view' range r e) n =
      let (fits, same) = asserted (leb range.stop view.len) e in
      rw
        (
          ← same,
          L.contains-minus view.uninit range n,
          L.contains-minus view.public range n,
          L.contains-union view.private range n,
          L.contains-minus view.blind range n,
          L.contains-union view.visible range n,
        )
        (one_kind-private _ _ _ _ _ _ _ (Reached-IsKind view r n)
          (in_range-ltb range view.len n fits))
  Reached-IsKind _ (made_blind view view' range r e) n =
      let (fits, same) = asserted (leb range.stop view.len) e in
      rw
        (
          ← same,
          L.contains-minus view.uninit range n,
          L.contains-minus view.public range n,
          L.contains-minus view.private range n,
          L.contains-union view.blind range n,
          L.contains-minus view.visible range n,
        )
        (one_kind-blind _ _ _ _ _ _ _ (Reached-IsKind view r n)
          (in_range-ltb range view.len n fits))
