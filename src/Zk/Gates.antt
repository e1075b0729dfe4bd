-- ===== src/Zk/Gates.antt =====
-- The loops of `ProverIter::next` and `VerifierConsumer::next` of `crates/zk-core/src` over the gates
-- that are left, by induction on them.
use mpz.Prelude.{
  ℕ, ◌+◌, ◌<◌, ◌≤◌, ◌≡◌, refl, ap, ap₂, ◌∙◌, Bool, true, false, ◌&&◌, not, xor as bool_xor, List,
  [], ◌∷◌, Option, none, some, ok, ◌>>=◌, get_or, set, length, leb, ltb, Bool-cases, inl, inr,
  arith, assert, ◌>>◌, binary_write,
}
use native.Mathlib.Nat.{le_trans}
use mpz.Block.{Block, bitxor, zero_block, lsb}
use mpz.Block.Laws.{lsb-bitxor}
use mpz.Circuit.{Gate, xor, and, inv, id, evaluate_gate, evaluate_gates}
use mpz.Circuit.Shape.{Feeds, mark, IsOrdered}
use mpz.Garble.Relation.{bitxor-label}
use mpz.Memory.Correlated.{adjust_key, pointer, set_pointer}
use mpz.Zk.Prover.{ProverExecute, next_loop, is_none}
use mpz.Zk.Verifier.{VerifierExecute, consume_loop}
use mpz.Zk.Relation.{Linked, Wired, Wired-set, pointer-mac}
use mpz.Zk.Advance.{yielded, Advance, Advance-nil, Linked-free}
use mpz.Zk.Step.{
  adjusted, p_and, v_and, adjust, next_loop-and, consume_loop-and, Linked-and, Advance-xor,
  Advance-inv, Advance-id,
}

pub yielded-zero : (out : Option Bool) → yielded out ≡ 0 → out ≡ none
yielded-zero none h = refl
yielded-zero (some a) h = absurd (omega arith)

module _ {n : ℕ} (gs : List Gate) (x y z : ℕ) (p : ProverExecute) (v : VerifierExecute) {d : Feeds}
    {wires : List Bool} (l : Linked n d (and x y z ∷ gs) p v wires) (hx : d x ≡ true)
    (hy : d y ≡ true) (hz : z < n) where
  abbrev p_next : ProverExecute
  p_next = p_and gs x y z p v l.wired hx hz

  abbrev v_next : VerifierExecute
  v_next = v_and gs x y z p v l.wired hx hz

  abbrev bit : Bool
  bit = adjust gs x y z p v l.wired hx hz

  abbrev wires_next : List Bool
  wires_next = set wires z (get_or wires x false && get_or wires y false)

  evaluated-and : evaluate_gates (and x y z ∷ gs) wires ≡ evaluate_gates gs wires_next
  unfolding evaluate_gates evaluate_gate
  evaluated-and =
      ap (λ m. m >>= evaluate_gates gs)
        (binary_write wires false x y z ◌&&◌ (fits x hx) (fits y hy)
          (le_trans hz l.wired.labels.wires_fit))
    where
      fits : (i : ℕ) → d i ≡ true → i < length wires
      fits i h = le_trans (l.wired.labels.within i h) l.wired.labels.wires_fit

  counter_fits : p.counter < p.and_count
  counter_fits = omega (arith, l.left)

  prover_and : next_loop (and x y z ∷ gs) p ≡ elim (leb p.and_count (p.counter + 1)) [
    | true ↦ next_loop gs p_next >>= λ rest. assert (is_none rest.0) >> ok (some bit, rest.1)
    | false ↦ ok (some bit, record p_next { gates = gs })
  ]
  prover_and =
      next_loop-and gs x y z p v l.wired hx hz hy (omega (arith, l.macs_count, counter_fits))
        (omega (arith, l.masks_count, counter_fits))

  verifier_and :
      (b : Bool)
      → b ≡ bit
      → consume_loop (and x y z ∷ gs) b v ≡ elim (ltb (v.counter + 1) v.and_count) [
        | true ↦ ok (record v_next { gates = gs })
        | false ↦ consume_loop gs bit v_next
      ]
  verifier_and b h =
      ap (λ c. consume_loop (and x y z ∷ gs) c v) h
      ∙ consume_loop-and gs x y z p v l.wired hx hz hy
          (omega (arith, l.keys_count, l.same_counter, counter_fits))

  -- More AND gates follow: both calls return here.
  Advance-stop :
      IsOrdered n (mark z d) gs
      → p.counter + 1 < p.and_count
      → Advance n d (and x y z ∷ gs) p v wires
  Advance-stop ordered more =
      let linked = Linked-and gs x y z p v l.wired hx hz hy l in
      let p_more : leb p.and_count (p.counter + 1) ≡ false = ground arith in
      let v_more : ltb (v.counter + 1) v.and_count ≡ true =
        ground (arith, l.same_counter, l.same_count) in
      record {
        out = some bit;
        p' = record p_next { gates = gs };
        v' = record v_next { gates = gs };
        d' = mark z d;
        wires' = wires_next;
        prover = prover_and ∙ rw p_more;
        verifier = λ b h. verifier_and b h ∙ rw v_more;
        same_gates = refl;
        linked = record {
          odd = linked.odd;
          wired = linked.wired;
          masked = linked.masked;
          keys_count = linked.keys_count;
          macs_count = linked.macs_count;
          masks_count = linked.masks_count;
          same_count = linked.same_count;
          same_counter = linked.same_counter;
          left = linked.left;
          matched = linked.matched;
          same_adjust = linked.same_adjust;
          triples_count = linked.triples_count;
          adjust_count = linked.adjust_count;
        };
        ordered = ordered;
        reached = refl;
        evaluated = evaluated-and;
        counted = omega arith;
        ended = λ e. cc;
        rest = inl (omega (arith, l.left));
        kept = record {
          circ = refl;
          idx = refl;
          ands = refl;
          v_circ = refl;
          v_idx = refl;
          delta = refl;
        };
      }

  -- The last AND gate: both calls go on to the end.
  Advance-last :
      p.and_count ≤ p.counter + 1
      → Advance n (mark z d) gs p_next v_next wires_next
      → Advance n d (and x y z ∷ gs) p v wires
  Advance-last last a =
      let p_last : leb p.and_count (p.counter + 1) ≡ true = ground arith in
      let v_last : ltb (v.counter + 1) v.and_count ≡ false =
        ground (arith, l.same_counter, l.same_count) in
      let quiet : a.out ≡ none = yielded-zero a.out (omega (arith, l.left, a.counted)) in
      record {
        out = some bit;
        p' = a.p';
        v' = a.v';
        d' = a.d';
        wires' = a.wires';
        prover = prover_and ∙ rw (p_last, a.prover, quiet);
        verifier = λ b h. verifier_and b h ∙ rw v_last (a.verifier bit (rw quiet tt));
        same_gates = a.same_gates;
        linked = a.linked;
        ordered = a.ordered;
        reached = a.reached;
        evaluated = evaluated-and ∙ a.evaluated;
        counted = omega (arith, l.left, a.counted, ap yielded quiet);
        ended = λ e. cc;
        rest = inr (a.ended quiet);
        kept = record {
          circ = a.kept.circ;
          idx = a.kept.idx;
          ands = a.kept.ands;
          v_circ = a.kept.v_circ;
          v_idx = a.kept.v_idx;
          delta = a.kept.delta;
        };
      }

module _ {n : ℕ} {d : Feeds} {delta : Block} {keys macs : List Block} {wires : List Bool}
    (odd : lsb delta ≡ true) (w : Wired delta n d keys macs wires) (x z : ℕ) (hx : d x ≡ true)
    (hz : z < n) where
  abbrev k_x : Block
  k_x = get_or keys x zero_block

  abbrev m_x : Block
  m_x = get_or macs x zero_block

  abbrev b_x : Bool
  b_x = get_or wires x false

  Wired-xor :
      (y : ℕ)
      → d y ≡ true
      → Wired delta n
          (mark z d)
          (set keys z (bitxor k_x (get_or keys y zero_block)))
          (set macs z (bitxor m_x (get_or macs y zero_block)))
          (set wires z (bool_xor b_x (get_or wires y false)))
  unfolding bool_xor
  Wired-xor y hy =
      Wired-set odd w z _ _ _ hz
        (ap₂ bitxor (w.labels.related x hx) (w.labels.related y hy)
          ∙ bitxor-label delta k_x (get_or keys y zero_block) b_x (get_or wires y false))
        (rw (lsb-bitxor k_x (get_or keys y zero_block), w.clean x hx, w.clean y hy) refl)

  Wired-inv :
      Wired delta n
        (mark z d)
        (set keys z (adjust_key k_x true delta))
        (set macs z (set_pointer m_x (not (pointer m_x))))
        (set wires z (not b_x))
  Wired-inv =
      let flipped = adjusted delta k_x m_x (not b_x) b_x odd (w.labels.related x hx) in
      let differ : bool_xor b_x (not b_x) ≡ true = unfold bool_xor in ground arith in
      rw (pointer-mac odd w x hx)
        (Wired-set odd w z _ _ (not b_x) hz (rw (← differ) flipped.0) (rw (← differ) flipped.1))

  Wired-id : Wired delta n (mark z d) (set keys z k_x) (set macs z m_x) (set wires z b_x)
  Wired-id = Wired-set odd w z k_x m_x b_x hz (w.labels.related x hx) (w.clean x hx)

-- From linked parties both calls return, and the parties are linked again.
pub advance :
    {n : ℕ} (gs : List Gate) {d : Feeds} (p : ProverExecute) (v : VerifierExecute)
    {wires : List Bool}
    → IsOrdered n d gs
    → Linked n d gs p v wires
    → Advance n d gs p v wires
advance [] p v ordered l = Advance-nil l
advance (xor x y z ∷ gs) p v ordered l =
    let ((hx, hy), hz, rest) = ordered in
    Advance-xor gs x y z p v l.wired hx hz hy (
      advance gs _ _ rest
        (Linked-free (xor x y z) gs refl l (Wired-xor l.odd l.wired x z hx hz y hy)))
advance (and x y z ∷ gs) p v ordered l =
    let ((hx, hy), hz, rest) = ordered in
    elim (Bool-cases (leb p.and_count (p.counter + 1))) [
      | inl last ↦
          Advance-last gs x y z p v l hx hy hz (ground (arith, last))
            (advance gs _ _ rest (Linked-and gs x y z p v l.wired hx hz hy l))
      | inr more ↦ Advance-stop gs x y z p v l hx hy hz rest (ground (arith, more))
    ]
advance (inv x z ∷ gs) p v ordered l =
    let (hx, hz, rest) = ordered in
    Advance-inv gs x x z p v l.wired hx hz
      (advance gs _ _ rest (Linked-free (inv x z) gs refl l (Wired-inv l.odd l.wired x z hx hz)))
advance (id x z ∷ gs) p v ordered l =
    let (hx, hz, rest) = ordered in
    Advance-id gs x x z p v l.wired hx hz
      (advance gs _ _ rest (Linked-free (id x z) gs refl l (Wired-id l.odd l.wired x z hx hz)))
