-- ===== src/Garble/Relation.antt =====
-- The relation between the garbler's 0-labels, the evaluator's labels and the plain bits, feed by
-- feed, and its preservation by every gate.
use mpz.Prelude.{
  ℕ, ◌≤◌, ◌<◌, ◌≡◌, ◌≢◌, Bool, true, false, not, ◌==◌, xor as bool_xor, List, get_or, set, length,
  get_or-set_self, get_or-set_ne, length-set, Bool-cases, inl, inr, arith, ==_iff,
}
use native.Mathlib.Nat.{le_trans}
use mpz.Block.{Block, bitxor, zero_block}
use mpz.Block.Laws.{Bits_ext, bits}
use mpz.Circuit.Shape.{Feeds, mark}
use mpz.Garble.Gate.{label}

pub record Related (delta : Block) (n : ℕ) (d : Feeds) (keys macs : List Block) (wires : List Bool)
    : Type 0 where
  pub keys_fit : n ≤ length keys
  pub macs_fit : n ≤ length macs
  pub wires_fit : n ≤ length wires
  pub within : (i : ℕ) → d i ≡ true → i < n
  pub related :
      (i : ℕ)
      → d i ≡ true
      → get_or macs i zero_block ≡ label delta (get_or keys i zero_block) (get_or wires i false)

pub bitxor-label :
    (delta k l : Block) (a b : Bool)
    → bitxor (label delta k a) (label delta l b) ≡ label delta (bitxor k l) (bool_xor a b)
unfolding bool_xor
bitxor-label delta k l a b = Bits_ext _ _ (λ i. simp bits (ground arith))

pub label-not :
    (delta k : Block) (a : Bool) → label delta k a ≡ label delta (bitxor k delta) (not a)
unfolding bool_xor
label-not delta k a = Bits_ext _ _ (λ i. simp bits (ground arith))

module _ {delta : Block} {n : ℕ} {d : Feeds} {keys macs : List Block} {wires : List Bool}
    (r : Related delta n d keys macs wires) where
  -- Writing related values keeps the relation, and sets the feed.
  pub Related-set :
      (z : ℕ) (k m : Block) (b : Bool)
      → z < n
      → m ≡ label delta k b
      → Related delta n (mark z d) (set keys z k) (set macs z m) (set wires z b)
  Related-set z k m b fits e = record {
    keys_fit = rw length-set r.keys_fit;
    macs_fit = rw length-set r.macs_fit;
    wires_fit = rw length-set r.wires_fit;
    within = λ i h. ground (arith, r.within i);
    related = λ i h. elim (Bool-cases (i == z)) [
      | inl same ↦ rw ((==_iff i z).0 same) at_feed
      | inr other ↦ elsewhere i (λ q. ground arith) (rw other at h)
    ];
  }
    where
      at_feed :
          get_or (set macs z m) z zero_block
          ≡ label delta (get_or (set keys z k) z zero_block) (get_or (set wires z b) z false)
      at_feed =
          rw
            (
              get_or-set_self macs z m zero_block (le_trans fits r.macs_fit),
              get_or-set_self keys z k zero_block (le_trans fits r.keys_fit),
              get_or-set_self wires z b false (le_trans fits r.wires_fit),
            )
            e

      elsewhere :
          (i : ℕ)
          → z ≢ i
          → d i ≡ true
          → get_or (set macs z m) i zero_block
            ≡ label delta (get_or (set keys z k) i zero_block) (get_or (set wires z b) i false)
      elsewhere i ne h =
          rw
            (
              get_or-set_ne macs z i m zero_block ne,
              get_or-set_ne keys z i k zero_block ne,
              get_or-set_ne wires z i b false ne,
            )
            (r.related i h)
