-- ===== src/Memory/View.antt =====
-- `crates/memory-core/src/view.rs`: which positions of memory are public, private or blind.
pub mod Kinds
use mpz.Prelude.{ℕ, ◌+◌, Bool, true, false, not, leb, Range, Outcome, ok, assert, ◌>>◌}
use mpz.Memory.RangeSets.{RangeSets}

pub record VisibilityView (S : Type 0) : Type 0 where
  pub len : ℕ
  pub uninit : S
  pub public : S
  pub private : S
  pub blind : S
  pub visible : S

module _ {S : Type 0} (R : RangeSets S) where
  abbrev pub new : VisibilityView S
  new = record {
    len = 0;
    uninit = R.empty;
    public = R.empty;
    private = R.empty;
    blind = R.empty;
    visible = R.empty;
  }

  unfoldable pub alloc : VisibilityView S → ℕ → VisibilityView S
  alloc view len = record view {
    len = view.len + len;
    uninit = R.union view.uninit (record { start = view.len; stop = view.len + len });
  }

  abbrev pub is_visible : VisibilityView S → Range → Bool
  is_visible view range = R.is_subset range view.visible

  abbrev pub is_visible_any : VisibilityView S → Range → Bool
  is_visible_any view range = not (R.is_disjoint range view.visible)

  abbrev pub is_public : VisibilityView S → Range → Bool
  is_public view range = R.is_subset range view.public

  abbrev pub is_public_any : VisibilityView S → Range → Bool
  is_public_any view range = not (R.is_disjoint range view.public)

  abbrev pub is_private : VisibilityView S → Range → Bool
  is_private view range = R.is_subset range view.private

  abbrev pub is_private_any : VisibilityView S → Range → Bool
  is_private_any view range = not (R.is_disjoint range view.private)

  abbrev pub is_blind : VisibilityView S → Range → Bool
  is_blind view range = R.is_subset range view.blind

  abbrev pub is_blind_any : VisibilityView S → Range → Bool
  is_blind_any view range = not (R.is_disjoint range view.blind)

  -- `assert_allocated`.
  abbrev assert_allocated : VisibilityView S → Range → Outcome ⊥ (Unit {0})
  assert_allocated view range = assert (leb range.stop view.len)

  unfoldable pub set_public : VisibilityView S → Range → Outcome ⊥ (VisibilityView S)
  set_public view range = do
    assert_allocated view range
    ok (record view {
      public = R.union view.public range;
      visible = R.union view.visible range;
      uninit = R.minus view.uninit range;
      private = R.minus view.private range;
      blind = R.minus view.blind range;
    })

  unfoldable pub set_private : VisibilityView S → Range → Outcome ⊥ (VisibilityView S)
  set_private view range = do
    assert_allocated view range
    ok (record view {
      private = R.union view.private range;
      visible = R.union view.visible range;
      uninit = R.minus view.uninit range;
      public = R.minus view.public range;
      blind = R.minus view.blind range;
    })

  unfoldable pub set_blind : VisibilityView S → Range → Outcome ⊥ (VisibilityView S)
  set_blind view range = do
    assert_allocated view range
    ok (record view {
      blind = R.union view.blind range;
      visible = R.minus view.visible range;
      uninit = R.minus view.uninit range;
      public = R.minus view.public range;
      private = R.minus view.private range;
    })
