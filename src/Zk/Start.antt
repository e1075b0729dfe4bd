-- ===== src/Zk/Start.antt =====
-- The start of an execution of `crates/zk-core/src`: `ProverExecute::iter` and `VerifierExecute::consumer`,
-- which runs a circuit without AND gates at once.
use mpz.Prelude.{
  ℕ, zero, suc, ◌-◌, ◌≤◌, ◌<◌, ◌≡◌, refl, ap, ◌∙◌, sym, Bool, true, false, List, [], ◌∷◌, ◌++◌,
  none, ok, ◌>>=◌, inl, inr, arith, ◌==◌, Bool-cases, length, take, replicate, get_or,
  get_or-append_left, length-append, length-replicate, length-take,
}
use mathlib.Core.Path.{subst}
use mpz.Circuit.{Gate, evaluate_gates}
use mpz.Circuit.Shape.{Feeds, after, IsOrdered, and_gates}
use mpz.Zk.{resize}
use mpz.Zk.Prover.{ProverExecute}
use mpz.Zk.Verifier.{VerifierExecute, consume_loop}
use mpz.Zk.Relation.{Linked}
use mpz.Zk.Advance.{Kept}
use mpz.Zk.Gates.{advance, yielded-zero}
use mpz.Zk.Stream.{stream}
use mpz.Zk.Protocol.{collect, consume_all}

take-all : {A : Type 0} (n : ℕ) (xs : List A) → length xs ≤ n → take n xs ≡ xs
take-all zero [] h = refl
take-all zero (x ∷ xs) h = absurd (omega arith)
take-all (suc n) [] h = refl
take-all (suc n) (x ∷ xs) h = ap (λ (t : List _). x ∷ t) (take-all n xs (omega arith))

pub length-resize : {A : Type 0} (n : ℕ) (value : A) (xs : List A) → length (resize n value xs) ≡ n
length-resize n value xs = omega (
  arith,
  length-append (take n xs) (replicate (n - length xs) value),
  length-take n xs,
  length-replicate (n - length xs) value,
)

module _ {A : Type 0} (n : ℕ) (value : A) (xs : List A) (fits : length xs ≤ n) where
  pub resize-append : resize n value xs ≡ xs ++ replicate (n - length xs) value
  resize-append = ap (λ (t : List A). t ++ replicate (n - length xs) value) (take-all n xs fits)

  pub get_or-resize :
      (i : ℕ) (d : A) → i < length xs → get_or (resize n value xs) i d ≡ get_or xs i d
  get_or-resize i d h =
      ap (λ (t : List A). get_or t i d) resize-append ∙ get_or-append_left xs _ i d h

-- The verifier's consumer and all bits.
pub record Started (n : ℕ) (d : Feeds) (fuel : ℕ) (p : ProverExecute) (v : VerifierExecute)
    (wires : List Bool) : Type 0 where
  pub bits : List Bool
  pub p' : ProverExecute
  pub v' : VerifierExecute
  pub d' : Feeds
  pub wires' : List Bool
  pub collected : collect fuel p ≡ ok (bits, p')
  pub consumed :
      (elim (v.and_count == 0) [ true ↦ consume_loop v.gates false v | false ↦ ok v ]
        >>= consume_all bits)
      ≡ ok v'
  pub linked : Linked n d' [] p' v' wires'
  pub reached : d' ≡ after d p.gates
  pub evaluated : evaluate_gates p.gates wires ≡ ok wires'
  pub kept : Kept p p' v v'

module _ {n : ℕ} {d : Feeds} (p : ProverExecute) (v : VerifierExecute) {wires : List Bool}
    (same : v.gates ≡ p.gates) (ordered : IsOrdered n d p.gates) (l : Linked n d p.gates p v wires)
    (fresh : p.counter ≡ 0) where
  -- Without AND gates no bit is sent.
  Started-free : (fuel : ℕ) → (v.and_count == 0) ≡ true → 0 < fuel → Started n d fuel p v wires
  unfolding collect consume_all evaluate_gates
  Started-free zero free some_fuel = absurd (omega arith)
  Started-free (suc fuel) free some_fuel =
      let a = advance p.gates p v ordered l in
      let quiet : a.out ≡ none =
        yielded-zero a.out (ground (arith, free, l.left, l.same_count, a.counted)) in
      let over = a.ended quiet in
      record {
        bits = [];
        p' = a.p';
        v' = a.v';
        d' = a.d';
        wires' = a.wires';
        collected = rw (a.prover, quiet);
        consumed = rw free (
            ap (λ (gs : List Gate). consume_loop gs false v >>= consume_all []) same
            ∙ rw (a.verifier false (rw quiet tt)));
        linked = subst (λ (gs : List Gate). Linked n a.d' gs a.p' a.v' a.wires') over a.linked;
        reached = ap (λ (gs : List Gate). after a.d' gs) (sym over) ∙ a.reached;
        evaluated = a.evaluated ∙ ap (λ (gs : List Gate). evaluate_gates gs a.wires') over;
        kept = a.kept;
      }

  pub start : (fuel : ℕ) → and_gates p.gates < fuel → Started n d fuel p v wires
  start fuel few = elim (Bool-cases (v.and_count == 0)) [
    | inl free ↦ Started-free fuel free (omega arith)
    | inr some_ands ↦
        (let s =
            stream fuel p v few same (inl (ground (arith, some_ands, l.left, l.same_count, fresh)))
              ordered l in
          record {
            bits = s.bits;
            p' = s.p';
            v' = s.v';
            d' = s.d';
            wires' = s.wires';
            collected = s.collected;
            consumed = rw some_ands s.consumed;
            linked = s.linked;
            reached = s.reached;
            evaluated = s.evaluated;
            kept = s.kept;
          })
  ]
