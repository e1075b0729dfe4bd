-- ===== src/Zk/Stream.antt =====
-- The whole stream of adjustment bits of `crates/zk/src`: the prover's iterator ends, and the verifier
-- takes exactly its bits.
use mpz.Prelude.{
  ℕ, zero, suc, ◌<◌, ◌≡◌, refl, ap, ◌∙◌, Bool, List, [], ◌∷◌, Option, none, some, ok, ◌>>=◌, ◌⊎◌,
  inl, inr, arith,
}
use mpz.Circuit.{evaluate_gates}
use mpz.Circuit.Shape.{Feeds, after, IsOrdered, and_gates}
use mpz.Zk.Prover.{ProverExecute, next_loop}
use mpz.Zk.Verifier.{VerifierExecute, consume_loop}
use mpz.Zk.Relation.{Linked}
use mpz.Zk.Advance.{Advance, Kept, yielded}
use mpz.Zk.Gates.{advance}
use mpz.Zk.Protocol.{collect, consume_all}

Option-cases : {A : Type 0} (o : Option A) → (o ≡ none) ⊎ ((a : A) × (o ≡ some a))
Option-cases none = inl refl
Option-cases (some a) = inr (a, refl)

pub record Streamed (n : ℕ) (d : Feeds) (fuel : ℕ) (p : ProverExecute) (v : VerifierExecute)
    (wires : List Bool) : Type 0 where
  pub bits : List Bool
  pub p' : ProverExecute
  pub v' : VerifierExecute
  pub d' : Feeds
  pub wires' : List Bool
  pub collected : collect fuel p ≡ ok (bits, p')
  pub consumed : consume_all bits v ≡ ok v'
  pub linked : Linked n d' [] p' v' wires'
  pub reached : d' ≡ after d p.gates
  pub evaluated : evaluate_gates p.gates wires ≡ ok wires'
  pub kept : Kept p p' v v'

module _ {n : ℕ} (fuel : ℕ) {d : Feeds} (p : ProverExecute) (v : VerifierExecute)
    {wires : List Bool} where
  Streamed-end : p.gates ≡ [] → Linked n d p.gates p v wires → Streamed n d (suc fuel) p v wires
  unfolding collect consume_all next_loop evaluate_gates
  Streamed-end empty l = record {
    bits = [];
    p' = record p { gates = [] };
    v' = v;
    d' = d;
    wires' = wires;
    collected = rw empty;
    consumed = refl;
    linked = record {
      odd = l.odd;
      wired = l.wired;
      masked = l.masked;
      keys_count = l.keys_count;
      macs_count = l.macs_count;
      masks_count = l.masks_count;
      same_count = l.same_count;
      same_counter = l.same_counter;
      left = rw empty at l.left;
      matched = l.matched;
      same_adjust = l.same_adjust;
      triples_count = l.triples_count;
      adjust_count = l.adjust_count;
    };
    reached = rw empty;
    evaluated = rw empty;
    kept = record {
      circ = refl;
      idx = refl;
      ands = refl;
      v_circ = refl;
      v_idx = refl;
      delta = refl;
    };
  }

  Streamed-next :
      (same : v.gates ≡ p.gates) (a : Advance n d p.gates p v wires) (bit : Bool)
      → a.out ≡ some bit
      → Streamed n a.d' fuel a.p' a.v' a.wires'
      → Streamed n d (suc fuel) p v wires
  unfolding collect consume_all
  Streamed-next same a bit e s = record {
    bits = bit ∷ s.bits;
    p' = s.p';
    v' = s.v';
    d' = s.d';
    wires' = s.wires';
    collected = rw (a.prover, e, s.collected);
    consumed =
        ap (λ gs. consume_loop gs bit v >>= consume_all s.bits) same
        ∙ rw (a.verifier bit (rw e refl)) s.consumed;
    linked = s.linked;
    reached = s.reached ∙ a.reached;
    evaluated = a.evaluated ∙ s.evaluated;
    kept = record {
      circ = s.kept.circ ∙ a.kept.circ;
      idx = s.kept.idx ∙ a.kept.idx;
      ands = s.kept.ands ∙ a.kept.ands;
      v_circ = s.kept.v_circ ∙ a.kept.v_circ;
      v_idx = s.kept.v_idx ∙ a.kept.v_idx;
      delta = s.kept.delta ∙ a.kept.delta;
    };
  }

-- With more fuel than AND gates are left, the iterator ends by itself.
pub stream :
    {n : ℕ} (fuel : ℕ) {d : Feeds} (p : ProverExecute) (v : VerifierExecute) {wires : List Bool}
    → and_gates p.gates < fuel
    → v.gates ≡ p.gates
    → (0 < and_gates p.gates) ⊎ (p.gates ≡ [])
    → IsOrdered n d p.gates
    → Linked n d p.gates p v wires
    → Streamed n d fuel p v wires
stream zero p v few same rest ordered l = absurd (omega arith)
stream (suc fuel) p v few same (inr empty) ordered l = Streamed-end fuel p v empty l
stream (suc fuel) p v few same (inl some_left) ordered l =
    let a = advance p.gates p v ordered l in
    elim (Option-cases a.out) [
      | inl quiet ↦
          absurd
            (omega (arith, a.counted, ap yielded quiet, ap and_gates (a.ended quiet), some_left))
      | inr found ↦ Streamed-next fuel p v same a found.0 found.1 (
          stream fuel a.p' a.v' (omega (arith, few, a.counted, ap yielded found.1)) a.same_gates
            a.rest a.ordered a.linked)
    ]
