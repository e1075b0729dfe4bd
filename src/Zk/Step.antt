-- ===== src/Zk/Step.antt =====
-- Every gate of a circuit: `ProverIter::next` and `VerifierConsumer::next` of `crates/zk-core/src` keep
-- the parties linked, gate by gate.
use mpz.Prelude.{
  ℕ, ◌+◌, ◌<◌, ◌≡◌, refl, ap, ◌∙◌, sym, Bool, true, false, ◌&&◌, not, xor as bool_xor, List, [],
  ◌∷◌, ◌++◌, some, ok, ◌>>=◌, get_or, set, length, leb, ltb, get_at_in_range, set_at_in_range,
  binary_in_range, unary_in_range, binary_write, unary_write, arith, length-append, assert, ◌>>◌,
}
use native.Mathlib.Nat.{le_trans}
use mpz.Block.{Block, bitxor, zero_block, lsb}
use mpz.Circuit.{Gate, xor, and, inv, id, evaluate_gate, evaluate_gates}
use mpz.Circuit.Shape.{Feeds, mark}
use mpz.Garble.Gate.{label}
use mpz.Memory.Correlated.{adjust_key, pointer, set_pointer}
use mpz.Memory.Correlated.Derandomize.{adjust_key-IsMac}
use mpz.Zk.Prover.{ProverExecute, next_loop, is_none}
use mpz.Zk.Verifier.{VerifierExecute, consume_loop}
use mpz.Zk.Relation.{
  Linked, Wired, Wired-set, pointer-mac, AllMatched, AllMatched-append, auth-eq-label,
}
use mpz.Zk.Advance.{Advance, Advance-free}

-- A random transfer adjusted to the bit `x`.
pub adjusted :
    (delta key mac : Block) (x r : Bool)
    → lsb delta ≡ true
    → mac ≡ label delta key r
    → (set_pointer mac x ≡ label delta (adjust_key key (bool_xor r x) delta) x)
      × (lsb (adjust_key key (bool_xor r x) delta) ≡ false)
adjusted delta key mac x r odd m =
    let done = adjust_key-IsMac delta key mac x r odd (m ∙ sym (auth-eq-label delta key r)) in
    rw (swap r x) (done.0 ∙ auth-eq-label delta _ x, done.2)
  where
    swap : (a b : Bool) → bool_xor a b ≡ bool_xor b a
    swap a b = unfold bool_xor in ground arith

module _ {n : ℕ} (gs : List Gate) (x y z : ℕ) (p : ProverExecute) (v : VerifierExecute) {d : Feeds}
    {wires : List Bool} (w : Wired v.delta n d v.keys p.macs wires) (hx : d x ≡ true)
    (hz : z < n) where
  abbrev key : ℕ → Block
  key i = get_or v.keys i zero_block

  abbrev mac : ℕ → Block
  mac i = get_or p.macs i zero_block

  abbrev wire : ℕ → Bool
  wire i = get_or wires i false

  in_keys : (i : ℕ) → d i ≡ true → i < length v.keys
  in_keys i h = le_trans (w.labels.within i h) w.labels.keys_fit

  in_macs : (i : ℕ) → d i ≡ true → i < length p.macs
  in_macs i h = le_trans (w.labels.within i h) w.labels.macs_fit

  in_wires : (i : ℕ) → d i ≡ true → i < length wires
  in_wires i h = le_trans (w.labels.within i h) w.labels.wires_fit

  z_keys : z < length v.keys
  z_keys = le_trans hz w.labels.keys_fit

  z_macs : z < length p.macs
  z_macs = le_trans hz w.labels.macs_fit

  z_wires : z < length wires
  z_wires = le_trans hz w.labels.wires_fit

  pub Advance-xor :
      d y ≡ true
      → Advance n
          (mark z d)
          gs
          (record p { macs = set p.macs z (bitxor (mac x) (mac y)) })
          (record v { keys = set v.keys z (bitxor (key x) (key y)) })
          (set wires z (bool_xor (wire x) (wire y)))
      → Advance n d (xor x y z ∷ gs) p v wires
  unfolding next_loop consume_loop evaluate_gates evaluate_gate
  Advance-xor hy =
      Advance-free (xor x y z) gs
        (binary_in_range p.macs zero_block x y z bitxor
          (λ _ _ ms. next_loop gs (record p { macs = ms })) (in_macs x hx) (in_macs y hy) z_macs)
        (λ b.
          binary_in_range v.keys zero_block x y z bitxor
            (λ _ _ ks. consume_loop gs b (record v { keys = ks })) (in_keys x hx) (in_keys y hy)
            z_keys)
        (ap (λ m. m >>= evaluate_gates gs)
          (binary_write wires false x y z bool_xor (in_wires x hx) (in_wires y hy) z_wires))
        refl

  pub Advance-inv :
      Advance n
        (mark z d)
        gs
        (record p { macs = set p.macs z (set_pointer (mac x) (not (pointer (mac x)))) })
        (record v { keys = set v.keys z (adjust_key (key x) true v.delta) })
        (set wires z (not (wire x)))
      → Advance n d (inv x z ∷ gs) p v wires
  unfolding next_loop consume_loop evaluate_gates evaluate_gate
  Advance-inv =
      Advance-free (inv x z) gs
        (unary_in_range p.macs zero_block x z (λ m. set_pointer m (not (pointer m)))
          (λ _ ms. next_loop gs (record p { macs = ms })) (in_macs x hx) z_macs)
        (λ b.
          unary_in_range v.keys zero_block x z (λ k. adjust_key k true v.delta)
            (λ _ ks. consume_loop gs b (record v { keys = ks })) (in_keys x hx) z_keys)
        (ap (λ m. m >>= evaluate_gates gs)
          (unary_write wires false x z not (in_wires x hx) z_wires))
        refl

  pub Advance-id :
      Advance n
        (mark z d)
        gs
        (record p { macs = set p.macs z (mac x) })
        (record v { keys = set v.keys z (key x) })
        (set wires z (wire x))
      → Advance n d (id x z ∷ gs) p v wires
  unfolding next_loop consume_loop evaluate_gates evaluate_gate
  Advance-id =
      Advance-free (id x z) gs
        (unary_in_range p.macs zero_block x z (λ m. m)
          (λ _ ms. next_loop gs (record p { macs = ms })) (in_macs x hx) z_macs)
        (λ b.
          unary_in_range v.keys zero_block x z (λ k. k)
            (λ _ ks. consume_loop gs b (record v { keys = ks })) (in_keys x hx) z_keys)
        (ap (λ m. m >>= evaluate_gates gs)
          (unary_write wires false x z (λ b. b) (in_wires x hx) z_wires))
        refl

  abbrev w_z : Bool
  w_z = pointer (mac x) && pointer (mac y)

  abbrev mac_z : Block
  mac_z = set_pointer (get_or p.gate_macs p.counter zero_block) w_z

  abbrev pub adjust : Bool
  adjust = bool_xor (get_or p.gate_masks p.counter false) w_z

  abbrev key_z : Block
  key_z = adjust_key (get_or v.gate_keys v.counter zero_block) adjust v.delta

  abbrev pub p_and : ProverExecute
  p_and = record p {
    macs = set p.macs z mac_z;
    triples = p.triples ++ record { x = mac x; y = mac y; z = mac_z } ∷ [];
    adjust = p.adjust ++ adjust ∷ [];
    counter = p.counter + 1;
  }

  abbrev pub v_and : VerifierExecute
  v_and = record v {
    keys = set v.keys z key_z;
    triples = v.triples ++ record { x = key x; y = key y; z = key_z } ∷ [];
    adjust = v.adjust ++ adjust ∷ [];
    counter = v.counter + 1;
  }

  -- The AND gate itself, up to the branch at its end.
  pub next_loop-and :
      d y ≡ true
      → p.counter < length p.gate_macs
      → p.counter < length p.gate_masks
      → next_loop (and x y z ∷ gs) p ≡ elim (leb p.and_count (p.counter + 1)) [
        | true ↦ next_loop gs p_and >>= λ rest. assert (is_none rest.0) >> ok (some adjust, rest.1)
        | false ↦ ok (some adjust, record p_and { gates = gs })
      ]
  unfolding next_loop
  next_loop-and hy hm hk = rw (
    get_at_in_range p.macs x zero_block (in_macs x hx),
    get_at_in_range p.macs y zero_block (in_macs y hy),
    get_at_in_range p.gate_macs p.counter zero_block hm,
    get_at_in_range p.gate_masks p.counter false hk,
    set_at_in_range p.macs z mac_z z_macs,
  )

  pub consume_loop-and :
      d y ≡ true
      → v.counter < length v.gate_keys
      → consume_loop (and x y z ∷ gs) adjust v ≡ elim (ltb (v.counter + 1) v.and_count) [
        | true ↦ ok (record v_and { gates = gs })
        | false ↦ consume_loop gs adjust v_and
      ]
  unfolding consume_loop
  consume_loop-and hy hm = rw (
    get_at_in_range v.keys x zero_block (in_keys x hx),
    get_at_in_range v.keys y zero_block (in_keys y hy),
    get_at_in_range v.gate_keys v.counter zero_block hm,
    set_at_in_range v.keys z key_z z_keys,
  )

  pub Linked-and :
      d y ≡ true
      → Linked n d (and x y z ∷ gs) p v wires
      → Linked n (mark z d) gs p_and v_and (set wires z (wire x && wire y))
  Linked-and hy l =
      let counts : p.counter < p.and_count = omega (arith, l.left) in
      let bit : w_z ≡ (wire x && wire y) =
        rw (pointer-mac l.odd w x hx, pointer-mac l.odd w y hy) in
      let gate =
        adjusted v.delta (get_or v.gate_keys v.counter zero_block)
          (get_or p.gate_macs p.counter zero_block) w_z (get_or p.gate_masks p.counter false) l.odd
          (rw l.same_counter (l.masked p.counter counts)) in
      let labelled : mac_z ≡ label v.delta key_z (wire x && wire y) = rw (← bit) gate.0 in
      record {
        odd = l.odd;
        wired = Wired-set l.odd w z key_z mac_z (wire x && wire y) hz labelled gate.1;
        masked = l.masked;
        keys_count = l.keys_count;
        macs_count = l.macs_count;
        masks_count = l.masks_count;
        same_count = l.same_count;
        same_counter = ap (λ k. k + 1) l.same_counter;
        left = omega (arith, l.left);
        matched = AllMatched-append l.matched (
            AllMatched.next _ _ [] []
              (record {
                bit_x = wire x;
                bit_y = wire y;
                mac_x = w.labels.related x hx;
                mac_y = w.labels.related y hy;
                mac_z = labelled;
                pointer_x = pointer-mac l.odd w x hx;
                pointer_y = pointer-mac l.odd w y hy;
              })
              AllMatched.none);
        same_adjust = ap (λ (a : List Bool). a ++ adjust ∷ []) l.same_adjust;
        triples_count =
            length-append p.triples (record { x = mac x; y = mac y; z = mac_z } ∷ [])
            ∙ ap (λ k. k + 1) l.triples_count;
        adjust_count = length-append p.adjust (adjust ∷ []) ∙ ap (λ k. k + 1) l.adjust_count;
      }
