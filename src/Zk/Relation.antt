-- ===== src/Zk/Relation.antt =====
-- What links the prover and the verifier of `crates/zk-core/src` during an execution: each MAC is one of
-- the wire's bit under the verifier's key, and its pointer bit is that bit.
use mpz.Prelude.{
  ℕ, zero, suc, ◌+◌, ◌<◌, ◌≡◌, refl, ap, ◌∙◌, sym, Bool, true, false, ◌&&◌, xor as bool_xor, ◌==◌,
  List, [], ◌∷◌, ◌++◌, get_or, set, length, get_or-set_self, get_or-set_ne, Bool-cases, inl, inr,
  arith, ==_iff, take, drop, overwrite, replicate,
}
use native.Mathlib.Nat.{le_trans}
use mpz.Block.{Block, zero_block, zeros, lsb}
use mpz.Block.Laws.{Bits_ext, bits}
use mpz.Circuit.{Gate}
use mpz.Circuit.Shape.{Feeds, mark, and_gates}
use mpz.Garble.Gate.{label}
use mpz.Garble.Relation.{Related, Related-set}
use mpz.Memory.Correlated.{auth}
use mpz.Memory.Correlated.Derandomize.{pointer-auth}
use mpz.Zk.{Triple}
use mpz.Zk.Check.{no_triple}
use mpz.Zk.Prover.{ProverExecute}
use mpz.Zk.Verifier.{VerifierExecute}

pub auth-eq-label : (delta key : Block) (x : Bool) → auth key x delta ≡ label delta key x
unfolding auth
auth-eq-label delta key x = refl

-- The two triples of an AND gate.
pub record Matched (delta : Block) (mac key : Triple) : Type 0 where
  pub bit_x : Bool
  pub bit_y : Bool
  pub mac_x : mac.x ≡ label delta key.x bit_x
  pub mac_y : mac.y ≡ label delta key.y bit_y
  pub mac_z : mac.z ≡ label delta key.z (bit_x && bit_y)
  pub pointer_x : lsb mac.x ≡ bit_x
  pub pointer_y : lsb mac.y ≡ bit_y

pub data AllMatched (delta : Block) : List Triple → List Triple → Type 0 where
  none : AllMatched delta [] []
  next :
      (mac key : Triple) (macs keys : List Triple)
      → Matched delta mac key
      → AllMatched delta macs keys
      → AllMatched delta (mac ∷ macs) (key ∷ keys)

module _ {delta : Block} where
  pub AllMatched-append :
      {macs keys macs' keys' : List Triple}
      → AllMatched delta macs keys
      → AllMatched delta macs' keys'
      → AllMatched delta (macs ++ macs') (keys ++ keys')
  AllMatched-append AllMatched.none m = m
  AllMatched-append (AllMatched.next mac key macs keys h t) m =
      AllMatched.next mac key _ _ h (AllMatched-append t m)

  pub AllMatched-take :
      (n : ℕ) {macs keys : List Triple}
      → AllMatched delta macs keys
      → AllMatched delta (take n macs) (take n keys)
  AllMatched-take zero m = AllMatched.none
  AllMatched-take (suc n) AllMatched.none = AllMatched.none
  AllMatched-take (suc n) (AllMatched.next mac key macs keys h t) =
      AllMatched.next mac key _ _ h (AllMatched-take n t)

  pub AllMatched-drop :
      (n : ℕ) {macs keys : List Triple}
      → AllMatched delta macs keys
      → AllMatched delta (drop n macs) (drop n keys)
  AllMatched-drop zero m = m
  AllMatched-drop (suc n) AllMatched.none = AllMatched.none
  AllMatched-drop (suc n) (AllMatched.next mac key macs keys h t) = AllMatched-drop n t

  pub AllMatched-overwrite :
      (n : ℕ) {macs keys macs' keys' : List Triple}
      → AllMatched delta macs keys
      → AllMatched delta macs' keys'
      → AllMatched delta (overwrite macs n macs') (overwrite keys n keys')
  AllMatched-overwrite n AllMatched.none m = AllMatched.none
  AllMatched-overwrite zero (AllMatched.next mac key macs keys h t) AllMatched.none =
      AllMatched.next mac key macs keys h t
  AllMatched-overwrite zero (AllMatched.next mac key macs keys h t)
        (AllMatched.next mac' key' macs' keys' h' t') =
      AllMatched.next mac' key' _ _ h' (AllMatched-overwrite zero t t')
  AllMatched-overwrite (suc n) (AllMatched.next mac key macs keys h t) m =
      AllMatched.next mac key _ _ h (AllMatched-overwrite n t m)

  -- Room for triples to come: two empty triples are matched.
  pub AllMatched-replicate :
      (n : ℕ) → AllMatched delta (replicate n no_triple) (replicate n no_triple)
  unfolding lsb zeros
  AllMatched-replicate zero = AllMatched.none
  AllMatched-replicate (suc n) =
      let same = Bits_ext zero_block _ (λ i. simp bits (unfold bool_xor in ground arith)) in
      AllMatched.next no_triple no_triple _ _
        (record {
          bit_x = false;
          bit_y = false;
          mac_x = same;
          mac_y = same;
          mac_z = same;
          pointer_x = refl;
          pointer_y = refl;
        })
        (AllMatched-replicate n)

  pub length-AllMatched :
      {macs keys : List Triple} → AllMatched delta macs keys → length macs ≡ length keys
  length-AllMatched AllMatched.none = refl
  length-AllMatched (AllMatched.next mac key macs keys h t) = ap suc (length-AllMatched t)

-- Every set wire is related, and its key has the pointer bit 0.
pub record Wired (delta : Block) (n : ℕ) (d : Feeds) (keys macs : List Block) (wires : List Bool)
    : Type 0 where
  pub labels : Related delta n d keys macs wires
  pub clean : (i : ℕ) → d i ≡ true → lsb (get_or keys i zero_block) ≡ false

module _ {delta : Block} {n : ℕ} {d : Feeds} {keys macs : List Block} {wires : List Bool}
    (odd : lsb delta ≡ true) (w : Wired delta n d keys macs wires) where
  -- The pointer bit of a wire's MAC is the wire's bit.
  pub pointer-mac : (i : ℕ) → d i ≡ true → lsb (get_or macs i zero_block) ≡ get_or wires i false
  pointer-mac i h =
      ap lsb (w.labels.related i h ∙ sym (auth-eq-label delta _ _))
      ∙ pointer-auth delta (get_or keys i zero_block) (get_or wires i false) odd
      ∙ ap (λ p. bool_xor p (get_or wires i false)) (w.clean i h)
      ∙ xor_false (get_or wires i false)
    where
      xor_false : (b : Bool) → bool_xor false b ≡ b
      xor_false b = unfold bool_xor in ground arith

  pub Wired-set :
      (z : ℕ) (k m : Block) (b : Bool)
      → z < n
      → m ≡ label delta k b
      → lsb k ≡ false
      → Wired delta n (mark z d) (set keys z k) (set macs z m) (set wires z b)
  Wired-set z k m b fits e c = record {
    labels = Related-set w.labels z k m b fits e;
    clean = λ i h. elim (Bool-cases (i == z)) [
      | inl same ↦
          rw
            (
              (==_iff i z).0 same,
              get_or-set_self keys z k zero_block (le_trans fits w.labels.keys_fit),
            )
            c
      | inr other ↦
          rw (get_or-set_ne keys z i k zero_block (λ q. ground arith)) (w.clean i (rw other at h))
    ];
  }

-- The random transfers that are left for the gates: the bit of each is the prover's mask.
abbrev pub GatesMasked : Block → ℕ → List Block → List Block → List Bool → Type 0
GatesMasked delta n gate_keys gate_macs gate_masks =
    (i : ℕ)
    → i < n
    → get_or gate_macs i zero_block
      ≡ label delta (get_or gate_keys i zero_block) (get_or gate_masks i false)

-- The parties between two AND gates.
pub record Linked (n : ℕ) (d : Feeds) (gs : List Gate) (p : ProverExecute) (v : VerifierExecute)
    (wires : List Bool) : Type 0 where
  pub odd : lsb v.delta ≡ true
  pub wired : Wired v.delta n d v.keys p.macs wires
  pub masked : GatesMasked v.delta p.and_count v.gate_keys p.gate_macs p.gate_masks
  pub keys_count : length v.gate_keys ≡ p.and_count
  pub macs_count : length p.gate_macs ≡ p.and_count
  pub masks_count : length p.gate_masks ≡ p.and_count
  pub same_count : v.and_count ≡ p.and_count
  pub same_counter : v.counter ≡ p.counter
  pub left : p.counter + and_gates gs ≡ p.and_count
  pub matched : AllMatched v.delta p.triples v.triples
  pub same_adjust : v.adjust ≡ p.adjust
  pub triples_count : length p.triples ≡ p.counter
  pub adjust_count : length p.adjust ≡ p.counter
