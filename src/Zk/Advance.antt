-- ===== src/Zk/Advance.antt =====
-- One call of `ProverIter::next` and one of `VerifierConsumer::next` of `crates/zk-core/src`, side by
-- side: they stop behind the same gate, and what they hold stays linked.
use mpz.Prelude.{
  ℕ, ◌+◌, ◌<◌, ◌≡◌, refl, ◌∙◌, sym, Bool, List, [], ◌∷◌, Option, none, some, ok, inr, ◌⊎◌,
}
use mpz.Block.{Block}
use mpz.Circuit.{Gate, output_id, evaluate_gates}
use mpz.Circuit.Shape.{Feeds, mark, after, IsOrdered, and_gates}
use mpz.Zk.Prover.{ProverExecute, next_loop}
use mpz.Zk.Verifier.{VerifierExecute, consume_loop}
use mpz.Zk.Relation.{Linked, Wired}

-- The bit that the verifier is given; without one any bit will do.
abbrev pub Agrees : Option Bool → Bool → Type 0
Agrees none b = Unit {0}
Agrees (some a) b = b ≡ a

abbrev pub yielded : Option Bool → ℕ
yielded none = 0
yielded (some a) = 1

-- What neither call changes.
pub record Kept (p p' : ProverExecute) (v v' : VerifierExecute) : Type 0 where
  pub circ : p'.circ ≡ p.circ
  pub idx : p'.check_idx ≡ p.check_idx
  pub ands : p'.and_count ≡ p.and_count
  pub v_circ : v'.circ ≡ v.circ
  pub v_idx : v'.check_idx ≡ v.check_idx
  pub delta : v'.delta ≡ v.delta

pub Kept-refl : (p : ProverExecute) (v : VerifierExecute) → Kept p p v v
Kept-refl p v = record {
  circ = refl;
  idx = refl;
  ands = refl;
  v_circ = refl;
  v_idx = refl;
  delta = refl;
}

pub record Advance (n : ℕ) (d : Feeds) (gs : List Gate) (p : ProverExecute) (v : VerifierExecute)
    (wires : List Bool) : Type 0 where
  pub out : Option Bool
  pub p' : ProverExecute
  pub v' : VerifierExecute
  pub d' : Feeds
  pub wires' : List Bool
  pub prover : next_loop gs p ≡ ok (out, p')
  pub verifier : (b : Bool) → Agrees out b → consume_loop gs b v ≡ ok v'
  pub same_gates : v'.gates ≡ p'.gates
  pub linked : Linked n d' p'.gates p' v' wires'
  pub ordered : IsOrdered n d' p'.gates
  pub reached : after d' p'.gates ≡ after d gs
  pub evaluated : evaluate_gates gs wires ≡ evaluate_gates p'.gates wires'
  pub counted : and_gates p'.gates + yielded out ≡ and_gates gs
  pub ended : out ≡ none → p'.gates ≡ []
  pub rest : (0 < and_gates p'.gates) ⊎ (p'.gates ≡ [])
  pub kept : Kept p p' v v'

module _ {n : ℕ} where
  pub Advance-nil :
      {d : Feeds} {p : ProverExecute} {v : VerifierExecute} {wires : List Bool}
      → Linked n d [] p v wires
      → Advance n d [] p v wires
  unfolding next_loop consume_loop
  Advance-nil {d} {p} {v} {wires} l = record {
    out = none;
    p' = record p { gates = [] };
    v' = record v { gates = [] };
    d' = d;
    wires' = wires;
    prover = refl;
    verifier = λ b _. refl;
    same_gates = refl;
    linked = record {
      odd = l.odd;
      wired = l.wired;
      masked = l.masked;
      keys_count = l.keys_count;
      macs_count = l.macs_count;
      masks_count = l.masks_count;
      same_count = l.same_count;
      same_counter = l.same_counter;
      left = l.left;
      matched = l.matched;
      same_adjust = l.same_adjust;
      triples_count = l.triples_count;
      adjust_count = l.adjust_count;
    };
    ordered = tt;
    reached = refl;
    evaluated = refl;
    counted = refl;
    ended = λ _. refl;
    rest = inr refl;
    kept = record {
      circ = refl;
      idx = refl;
      ands = refl;
      v_circ = refl;
      v_idx = refl;
      delta = refl;
    };
  }

  -- A gate that both parties process without a message.
  pub Advance-free :
      (g : Gate) (gs : List Gate) {d : Feeds} {p : ProverExecute} {v : VerifierExecute}
      {wires wires1 : List Bool} {macs keys : List Block}
      → next_loop (g ∷ gs) p ≡ next_loop gs (record p { macs = macs })
      → ((b : Bool) → consume_loop (g ∷ gs) b v ≡ consume_loop gs b (record v { keys = keys }))
      → evaluate_gates (g ∷ gs) wires ≡ evaluate_gates gs wires1
      → and_gates (g ∷ gs) ≡ and_gates gs
      → Advance n
          (mark (output_id g) d)
          gs
          (record p { macs = macs })
          (record v { keys = keys })
          wires1
      → Advance n d (g ∷ gs) p v wires
  Advance-free g gs ep ev ew ec a = record {
    out = a.out;
    p' = a.p';
    v' = a.v';
    d' = a.d';
    wires' = a.wires';
    prover = ep ∙ a.prover;
    verifier = λ b h. ev b ∙ a.verifier b h;
    same_gates = a.same_gates;
    linked = a.linked;
    ordered = a.ordered;
    reached = a.reached;
    evaluated = ew ∙ a.evaluated;
    counted = a.counted ∙ sym ec;
    ended = a.ended;
    rest = a.rest;
    kept = record {
      circ = a.kept.circ;
      idx = a.kept.idx;
      ands = a.kept.ands;
      v_circ = a.kept.v_circ;
      v_idx = a.kept.v_idx;
      delta = a.kept.delta;
    };
  }

  -- The link behind a gate that both parties process without a message.
  pub Linked-free :
      (g : Gate) (gs : List Gate) {d : Feeds} {p : ProverExecute} {v : VerifierExecute}
      {wires wires1 : List Bool} {macs keys : List Block}
      → and_gates (g ∷ gs) ≡ and_gates gs
      → Linked n d (g ∷ gs) p v wires
      → Wired v.delta n (mark (output_id g) d) keys macs wires1
      → Linked n
          (mark (output_id g) d)
          gs
          (record p { macs = macs })
          (record v { keys = keys })
          wires1
  Linked-free g gs ec l w = record {
    odd = l.odd;
    wired = w;
    masked = l.masked;
    keys_count = l.keys_count;
    macs_count = l.macs_count;
    masks_count = l.masks_count;
    same_count = l.same_count;
    same_counter = l.same_counter;
    left = rw ec at l.left;
    matched = l.matched;
    same_adjust = l.same_adjust;
    triples_count = l.triples_count;
    adjust_count = l.adjust_count;
  }
