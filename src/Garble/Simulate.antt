-- ===== src/Garble/Simulate.antt =====
-- Garbling, evaluating and plain evaluation run side by side over the gates of a circuit.
use mpz.Prelude.{
  ℕ, suc, ◌+◌, ◌<◌, ◌≡◌, refl, ap, ◌∙◌, Bool, true, false, ◌&&◌, not, xor as bool_xor, List, [],
  ◌∷◌, ok, ◌>>=◌, get_or, set, length, binary_in_range, unary_in_range, binary_write, unary_write,
}
use native.Mathlib.Nat.{le_trans}
use mpz.Block.{Block, bitxor, zero_block, lsb}
use mpz.Circuit.{Gate, xor, and, inv, id, evaluate_gate, evaluate_gates}
use mpz.Circuit.Shape.{and_gates, Feeds, mark, after, IsOrdered}
use mpz.Garble.Gate.{EncryptedGate, label, garble_and, evaluate_and, evaluate_and-garble_and}
use mpz.Garble.Fold.{garble_gates, consume_gates}
use mpz.Garble.Relation.{Related, Related-set, bitxor-label, label-not}

-- Both folds and the plain evaluation run, and end in related values.
module _ (encrypt : Block → Block) (delta : Block) (n : ℕ) where
  pub record Simulated (d : Feeds) (gs : List Gate) (gid : ℕ) (keys macs : List Block)
      (wires : List Bool) : Type 0 where
    pub gates : List EncryptedGate
    pub keys' : List Block
    pub macs' : List Block
    pub wires' : List Bool
    pub garbled : garble_gates encrypt delta gs gid keys ≡ ok (gates, keys')
    pub consumed : consume_gates encrypt gs gid gates macs ≡ ok macs'
    pub evaluated : evaluate_gates gs wires ≡ ok wires'
    pub gates_len : length gates ≡ and_gates gs
    pub related : Related delta n (after d gs) keys' macs' wires'

  Simulated-nil :
      (gid : ℕ) {d : Feeds} {keys macs : List Block} {wires : List Bool}
      → Related delta n d keys macs wires
      → Simulated d [] gid keys macs wires
  unfolding garble_gates consume_gates evaluate_gates
  Simulated-nil gid {d} {keys} {macs} {wires} r = record {
    gates = [];
    keys' = keys;
    macs' = macs;
    wires' = wires;
    garbled = refl;
    consumed = refl;
    evaluated = refl;
    gates_len = refl;
    related = r;
  }

  module _ (gs : List Gate) (gid x y z : ℕ) {d : Feeds} {keys macs : List Block} {wires : List Bool}
      (r : Related delta n d keys macs wires) (hx : d x ≡ true) (hz : z < n) where
    abbrev key : ℕ → Block
    key i = get_or keys i zero_block

    abbrev mac : ℕ → Block
    mac i = get_or macs i zero_block

    abbrev wire : ℕ → Bool
    wire i = get_or wires i false

    in_keys : (i : ℕ) → d i ≡ true → i < length keys
    in_keys i h = le_trans (r.within i h) r.keys_fit

    in_macs : (i : ℕ) → d i ≡ true → i < length macs
    in_macs i h = le_trans (r.within i h) r.macs_fit

    in_wires : (i : ℕ) → d i ≡ true → i < length wires
    in_wires i h = le_trans (r.within i h) r.wires_fit

    z_keys : z < length keys
    z_keys = le_trans hz r.keys_fit

    z_macs : z < length macs
    z_macs = le_trans hz r.macs_fit

    z_wires : z < length wires
    z_wires = le_trans hz r.wires_fit

    Simulated-xor :
        d y ≡ true
        → Simulated
            (mark z d)
            gs
            gid
            (set keys z (bitxor (key x) (key y)))
            (set macs z (bitxor (mac x) (mac y)))
            (set wires z (bool_xor (wire x) (wire y)))
        → Simulated d (xor x y z ∷ gs) gid keys macs wires
    unfolding garble_gates consume_gates evaluate_gates evaluate_gate
    Simulated-xor hy s = record {
      gates = s.gates;
      keys' = s.keys';
      macs' = s.macs';
      wires' = s.wires';
      garbled =
          binary_in_range keys zero_block x y z bitxor (λ _ _. garble_gates encrypt delta gs gid)
            (in_keys x hx) (in_keys y hy) z_keys
          ∙ s.garbled;
      consumed =
          binary_in_range macs zero_block x y z bitxor (λ _ _. consume_gates encrypt gs gid s.gates)
            (in_macs x hx) (in_macs y hy) z_macs
          ∙ s.consumed;
      evaluated =
          ap (λ m. m >>= evaluate_gates gs)
            (binary_write wires false x y z bool_xor (in_wires x hx) (in_wires y hy) z_wires)
          ∙ s.evaluated;
      gates_len = s.gates_len;
      related = s.related;
    }

    Simulated-and :
        (gate : EncryptedGate) (z_0 z_m : Block)
        → garble_and encrypt delta (key x) (key y) gid ≡ (z_0, gate)
        → evaluate_and encrypt (mac x) (mac y) gate gid ≡ z_m
        → d y ≡ true
        → Simulated
            (mark z d)
            gs
            (gid + 2)
            (set keys z z_0)
            (set macs z z_m)
            (set wires z (wire x && wire y))
        → Simulated d (and x y z ∷ gs) gid keys macs wires
    unfolding garble_gates consume_gates evaluate_gates evaluate_gate
    Simulated-and gate z_0 z_m e f hy s = record {
      gates = gate ∷ s.gates;
      keys' = s.keys';
      macs' = s.macs';
      wires' = s.wires';
      garbled =
          binary_in_range keys zero_block x y z (λ a b. (garble_and encrypt delta a b gid).0)
            (λ a b labels. garble_gates encrypt delta gs (gid + 2) labels >>= λ rest.
              ok ((garble_and encrypt delta a b gid).1 ∷ rest.0, rest.1))
            (in_keys x hx) (in_keys y hy) z_keys
          ∙ rw (e, s.garbled);
      consumed =
          binary_in_range macs zero_block x y z (λ a b. evaluate_and encrypt a b gate gid)
            (λ _ _. consume_gates encrypt gs (gid + 2) s.gates) (in_macs x hx) (in_macs y hy) z_macs
          ∙ rw f s.consumed;
      evaluated =
          ap (λ m. m >>= evaluate_gates gs)
            (binary_write wires false x y z ◌&&◌ (in_wires x hx) (in_wires y hy) z_wires)
          ∙ s.evaluated;
      gates_len = ap suc s.gates_len;
      related = s.related;
    }

    Simulated-inv :
        Simulated
          (mark z d)
          gs
          gid
          (set keys z (bitxor (key x) delta))
          (set macs z (mac x))
          (set wires z (not (wire x)))
        → Simulated d (inv x z ∷ gs) gid keys macs wires
    unfolding garble_gates consume_gates evaluate_gates evaluate_gate
    Simulated-inv s = record {
      gates = s.gates;
      keys' = s.keys';
      macs' = s.macs';
      wires' = s.wires';
      garbled =
          unary_in_range keys zero_block x z (λ a. bitxor a delta)
            (λ _. garble_gates encrypt delta gs gid) (in_keys x hx) z_keys
          ∙ s.garbled;
      consumed =
          unary_in_range macs zero_block x z (λ a. a) (λ _. consume_gates encrypt gs gid s.gates)
            (in_macs x hx) z_macs
          ∙ s.consumed;
      evaluated =
          ap (λ m. m >>= evaluate_gates gs)
            (unary_write wires false x z not (in_wires x hx) z_wires)
          ∙ s.evaluated;
      gates_len = s.gates_len;
      related = s.related;
    }

    Simulated-id :
        Simulated (mark z d) gs gid (set keys z (key x)) (set macs z (mac x)) (set wires z (wire x))
        → Simulated d (id x z ∷ gs) gid keys macs wires
    unfolding garble_gates consume_gates evaluate_gates evaluate_gate
    Simulated-id s = record {
      gates = s.gates;
      keys' = s.keys';
      macs' = s.macs';
      wires' = s.wires';
      garbled =
          unary_in_range keys zero_block x z (λ a. a) (λ _. garble_gates encrypt delta gs gid)
            (in_keys x hx) z_keys
          ∙ s.garbled;
      consumed =
          unary_in_range macs zero_block x z (λ a. a) (λ _. consume_gates encrypt gs gid s.gates)
            (in_macs x hx) z_macs
          ∙ s.consumed;
      evaluated =
          ap (λ m. m >>= evaluate_gates gs)
            (unary_write wires false x z (λ a. a) (in_wires x hx) z_wires)
          ∙ s.evaluated;
      gates_len = s.gates_len;
      related = s.related;
    }

  -- From related values, an ordered list of gates is simulated.
  module _ (pointer : lsb delta ≡ true) where
    pub simulate :
        (gs : List Gate) (gid : ℕ) {d : Feeds} {keys macs : List Block} {wires : List Bool}
        → Related delta n d keys macs wires
        → IsOrdered n d gs
        → Simulated d gs gid keys macs wires
    simulate [] gid r o = Simulated-nil gid r
    simulate (xor x y z ∷ gs) gid {d} {keys} {macs} {wires} r ((hx, hy), hz, o) =
        Simulated-xor gs gid x y z r hx hz hy (simulate gs gid (Related-set r z _ _ _ hz outputs) o)
      where
        outputs :
            bitxor (get_or macs x zero_block) (get_or macs y zero_block)
            ≡ label delta
                (bitxor (get_or keys x zero_block) (get_or keys y zero_block))
                (bool_xor (get_or wires x false) (get_or wires y false))
        outputs = rw (r.related x hx, r.related y hy) (bitxor-label delta _ _ _ _)
    simulate (and x y z ∷ gs) gid {d} {keys} {macs} {wires} r ((hx, hy), hz, o) =
        Simulated-and gs gid x y z r hx hz gate z_0 _ refl outputs hy
          (simulate gs (gid + 2) (Related-set r z z_0 _ _ hz refl) o)
      where
        z_0 : Block
        z_0 = (garble_and encrypt delta (get_or keys x zero_block) (get_or keys y zero_block) gid).0

        gate : EncryptedGate
        gate =
            (garble_and encrypt delta (get_or keys x zero_block) (get_or keys y zero_block) gid).1

        outputs :
            evaluate_and encrypt (get_or macs x zero_block) (get_or macs y zero_block) gate gid
            ≡ label delta z_0 (get_or wires x false && get_or wires y false)
        outputs =
            rw (r.related x hx, r.related y hy)
              (evaluate_and-garble_and encrypt delta _ _ gid _ _ pointer)
    simulate (inv x z ∷ gs) gid {d} {keys} {macs} {wires} r (hx, hz, o) =
        Simulated-inv gs gid x x z r hx hz
          (simulate gs gid (Related-set r z _ _ _ hz (r.related x hx ∙ label-not delta _ _)) o)
    simulate (id x z ∷ gs) gid r (hx, hz, o) =
        Simulated-id gs gid x x z r hx hz
          (simulate gs gid (Related-set r z _ _ _ hz (r.related x hx)) o)
