-- ===== src/Memory/Tests.antt =====
-- Runs of the stores with sets of positions as tests.
use mpz.Prelude.{
  ==_iff, ◌==◌, ℕ, ◌≤◌, ◌<◌, ◌≡◌, refl, ◌⊎◌, Bool, true, false, xor, List, [], ◌∷◌, length,
  get_elem?, some, none, ok, err, panic, arith, ◌+◌, ◌-◌, ◌*◌,
}
use mpz.Block.{Block, be_bytes}
use mpz.Memory.{Slice}
use mpz.Memory.RangeSets.{test_sets, test_sets-IsRangeSets}
use mpz.Memory.Store.{Store, new, alloc, try_set, try_get, is_set, uninit}
use mpz.Memory.Store.Laws.{IsStore, try_get-cases, try_get-try_set}
use mpz.Memory.Store.Reach.{Reached, created, allocated, Reached-IsStore}
use mpz.Memory.Vector.{Vector, get, split_off, truncate}
use mpz.Memory.Vector.Bounds.{memory, get-cases, split_off-cases}
use mpz.Memory.View as View
use mpz.Memory.View.{VisibilityView}
use mpz.Memory.View.Kinds.{Reached-IsKind}
use mpz.Memory.Correlated.{
  auth, adjust_key, new_delta, pointer, set_pointer, public_key, public_mac,
}
use mpz.Memory.Correlated.Derandomize.{IsMac, lsb-new_delta, adjust_key-IsMac}
use mpz.Memory.Correlated.Macs.{prove, verify_macs}
use mpz.Memory.Correlated.Proof.{Agrees, verify_macs-prove}
use mpz.Memory.Correlated.Keys.{
  KeyStore, KeyStoreError, already_assigned, Use, bits, transfer, use_keys,
}
use mpz.Memory.Correlated.Once.{unchanged, used_keys, use_keys_once}

abbrev delta : Block
delta = new_delta (be_bytes 1234)

adjust_key-IsMac_example :
    IsMac delta
      (adjust_key (be_bytes 7) (xor true false) delta)
      true
      (set_pointer (auth (be_bytes 7) false delta) true)
    × (pointer (set_pointer (auth (be_bytes 7) false delta) true) ≡ true)
    × (pointer (adjust_key (be_bytes 7) (xor true false) delta) ≡ false)
adjust_key-IsMac_example =
    adjust_key-IsMac delta (be_bytes 7) (auth (be_bytes 7) false delta) true false
      (lsb-new_delta (be_bytes 1234)) refl

-- Three positions, none of them set.
abbrev three : Store (ℕ → Bool) ℕ
three = record { items = 0 ∷ 0 ∷ 0 ∷ []; set = test_sets.empty }

abbrev last_two : Slice
last_two = record { ptr = 1; size = 2 }

three-Reached : Reached test_sets three
unfolding alloc
three-Reached = allocated 0 (new test_sets) 3 created

Reached-IsStore_example : IsStore test_sets-IsRangeSets three
Reached-IsStore_example = Reached-IsStore test_sets-IsRangeSets three three-Reached

try_get-cases_example :
    ((values : List ℕ) × (is_set test_sets three last_two ≡ true)
      × (try_get test_sets three last_two ≡ ok values)
      × (length values ≡ 2)
      × ((i : ℕ) → i < 2 → get_elem? values i ≡ get_elem? three.items (1 + i)))
    ⊎ ((is_set test_sets three last_two ≡ false)
        × (try_get test_sets three last_two ≡ err (uninit last_two)))
try_get-cases_example =
    try_get-cases test_sets-IsRangeSets three last_two
      (Reached-IsStore test_sets-IsRangeSets three three-Reached) (omega arith)

try_get-try_set_example :
    (store' : Store (ℕ → Bool) ℕ) × (try_set test_sets three last_two (5 ∷ 6 ∷ []) ≡ ok store')
    × (try_get test_sets store' last_two ≡ ok (5 ∷ 6 ∷ []))
    × ((n : ℕ)
        → (n < 1) ⊎ (3 ≤ n)
        → (get_elem? store'.items n ≡ get_elem? three.items n)
          × (test_sets.contains store'.set n ≡ test_sets.contains three.set n))
try_get-try_set_example =
    try_get-try_set test_sets-IsRangeSets three last_two (5 ∷ 6 ∷ []) refl (omega arith) refl

-- Two keys, the first of which has been transferred.
abbrev two_keys : KeyStore (ℕ → Bool)
two_keys = record {
  keys = record {
    items = be_bytes 3 ∷ be_bytes 4 ∷ [];
    set = test_sets.union test_sets.empty (record { start = 0; stop = 2 });
  };
  delta = delta;
  used = test_sets.empty;
}

abbrev first : Slice
first = record { ptr = 0; size = 1 }

abbrev first_used : KeyStore (ℕ → Bool)
first_used = record two_keys {
  used = test_sets.union test_sets.empty (record { start = 0; stop = 1 });
}

first-transferred : use_keys test_sets transfer two_keys first ≡ ok (be_bytes 3 ∷ [], first_used)
unfolding mpz.Memory.Correlated.Keys.oblivious_transfer try_get
first-transferred = refl

abbrev second : Slice
second = record { ptr = 1; size = 1 }

abbrev both_used : KeyStore (ℕ → Bool)
both_used = record two_keys {
  used = test_sets.union first_used.used (record { start = 1; stop = 2 });
}

second-transferred : use_keys test_sets transfer first_used second ≡ ok (be_bytes 4 ∷ [], both_used)
unfolding mpz.Memory.Correlated.Keys.oblivious_transfer try_get
second-transferred = refl

-- The first key is refused after the second has been transferred too.
use_keys_once_example :
    use_keys test_sets (bits (true ∷ [])) both_used first ≡ err (already_assigned first)
use_keys_once_example =
    use_keys_once test_sets-IsRangeSets transfer (bits (true ∷ [])) two_keys first_used both_used
      first first (be_bytes 3 ∷ []) 0 first-transferred
      (used_keys transfer first_used both_used second (be_bytes 4 ∷ []) unchanged
        second-transferred)
      refl (omega arith) (omega arith) (omega arith) (omega arith)

-- Three positions, the second of which is blind.
abbrev three_view : VisibilityView (ℕ → Bool)
three_view = View.alloc test_sets (View.new test_sets) 3

abbrev blind_view : VisibilityView (ℕ → Bool)
blind_view = record three_view {
  uninit = test_sets.minus three_view.uninit (record { start = 1; stop = 2 });
  public = test_sets.minus three_view.public (record { start = 1; stop = 2 });
  private = test_sets.minus three_view.private (record { start = 1; stop = 2 });
  blind = test_sets.union three_view.blind (record { start = 1; stop = 2 });
  visible = test_sets.minus three_view.visible (record { start = 1; stop = 2 });
}

blind_view-Reached : View.Kinds.Reached test_sets blind_view
unfolding View.alloc View.set_blind
blind_view-Reached =
    View.Kinds.made_blind three_view blind_view (record { start = 1; stop = 2 })
      (View.Kinds.allocated (View.new test_sets) 3 View.Kinds.created) refl

Reached-IsKind_example : View.Kinds.IsKind test_sets blind_view 1
Reached-IsKind_example = Reached-IsKind test_sets-IsRangeSets blind_view blind_view-Reached 1

-- The MACs of 1 and 0 under the two keys, and a hash that is the number of blocks.
abbrev two_macs : Store (ℕ → Bool) Block
two_macs = record {
  items = auth (be_bytes 3) true delta ∷ auth (be_bytes 4) false delta ∷ [];
  set = test_sets.union test_sets.empty (record { start = 0; stop = 2 });
}

two-Agrees :
    Agrees test_sets two_keys two_macs (record { start = 0; stop = 2 } ∷ []) (true ∷ false ∷ [])
unfolding try_get
two-Agrees =
    Agrees.next (record { start = 0; stop = 2 }) [] (be_bytes 3 ∷ be_bytes 4 ∷ [])
      (true ∷ false ∷ []) [] refl refl refl refl Agrees.none

verify_macs-prove_example :
    (bits : List Bool) × (proof : ℕ) × (prove test_sets
        (λ blocks. length blocks)
        two_macs
        (record { start = 0; stop = 2 } ∷ [])
      ≡ ok (bits, proof))
    × (verify_macs test_sets
          (λ blocks. length blocks)
          (λ m n. m == n)
          two_keys
          (record { start = 0; stop = 2 } ∷ [])
          bits
          proof
        ≡ ok (true ∷ false ∷ []))
verify_macs-prove_example =
    verify_macs-prove test_sets two_keys two_macs (λ blocks. length blocks) (λ m n. m == n)
      (λ h. (==_iff h h).1 refl) (record { start = 0; stop = 2 } ∷ []) (true ∷ false ∷ [])
      (lsb-new_delta (be_bytes 1234)) two-Agrees

abbrev words : Vector
words = record { ptr = 64; item_size = 32; len = 5 }

get-cases_example :
    ((w : Vector) × (get words (record { start = 1; stop = 4 }) ≡ some w)
      × (4 ≤ words.len)
      × (w.item_size ≡ words.item_size)
      × (w.len ≡ 4 - 1)
      × ((memory w).start ≡ (memory words).start + 1 * words.item_size)
      × ((memory w).stop ≡ (memory words).start + 4 * words.item_size)
      × ((memory w).stop ≤ (memory words).stop))
    ⊎ ((words.len < 4) × (get words (record { start = 1; stop = 4 }) ≡ none))
get-cases_example = get-cases words (record { start = 1; stop = 4 }) (omega arith)

split_off-cases_example :
    ((rest : Vector) × (2 ≤ words.len)
      × (split_off {E = Bool} words 2 ≡ ok (rest, truncate words 2))
      × (get words (record { start = 2; stop = 5 }) ≡ some rest)
      × (get words (record { start = 0; stop = 2 }) ≡ some (truncate words 2))
      × ((memory (truncate words 2)).stop ≡ (memory rest).start)
      × ((memory rest).stop ≡ (memory words).stop))
    ⊎ ((words.len < 2) × (split_off {E = Bool} words 2 ≡ panic))
split_off-cases_example = split_off-cases words 2
