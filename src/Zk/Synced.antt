-- ===== src/Zk/Synced.antt =====
-- The prover and the verifier of `crates/zk-core/src` between executions, and the triples of an execution
-- written to the check.
use mpz.Prelude.{
  Range, ℕ, ◌+◌, ◌-◌, ◌<◌, ◌≡◌, refl, sym, Bool, true, false, List, ok, arith, length, get_or,
  copy_at_fits, overwrite,
}
use mpz.Block.{Block, zero_block, lsb}
use mpz.Zk.{Triple, resize}
use mpz.Zk.Check.{Check, write, no_triple, reserve}
use mpz.Zk.Prover.{Prover}
use mpz.Zk.Verifier.{Verifier}
use mpz.Zk.Relation.{
  AllMatched, AllMatched-append, AllMatched-take, AllMatched-replicate, AllMatched-overwrite,
  length-AllMatched,
}
use mpz.Zk.Start.{length-resize}

-- The pointer bits of the keys are 0.
abbrev pub AreClean : List Block → Type 0
AreClean keys = (i : ℕ) → i < length keys → lsb (get_or keys i zero_block) ≡ false

-- Between executions: the triples that wait for the check are matched.
pub record Synced (prover : Prover) (verifier : Verifier) : Type 0 where
  pub odd : lsb verifier.delta ≡ true
  pub matched : AllMatched verifier.delta prover.check.triples verifier.check.triples
  pub same_adjust : prover.check.adjust ≡ verifier.check.adjust
  pub same_executions : prover.executions ≡ verifier.executions

-- The check with an execution's triples and bits in the room that was reserved for them.
abbrev pub written : Check → List Triple → List Bool → Check
written c triples adjust =
    let idx = length c.triples in
    record {
      triples = overwrite (resize (idx + length triples) no_triple c.triples) idx triples;
      adjust = overwrite (resize (idx + length triples) false c.adjust) idx adjust;
    }

pub write-reserve :
    {E : Type 0} (c : Check) (n : ℕ) (triples : List Triple) (adjust : List Bool)
    → length triples ≡ n
    → length adjust ≡ n
    → write {E = E} (reserve c n).1 (reserve c n).0 triples adjust ≡ ok (written c triples adjust)
unfolding write
write-reserve {E} c n triples adjust triples_len adjust_len = rw (
  sym triples_len,
  copy_at_fits {E = E} (resize (idx + length triples) no_triple c.triples) span triples
      (omega arith) (omega (arith, length-resize (idx + length triples) no_triple c.triples))
      (omega arith),
  copy_at_fits {E = E} (resize (idx + length triples) false c.adjust) span adjust (omega arith)
      (omega (arith, length-resize (idx + length triples) false c.adjust))
      (omega (arith, triples_len, adjust_len)),
)
  where
    idx : ℕ
    idx = length c.triples

    span : Range
    span = record { start = length c.triples; stop = length c.triples + length triples }

pub written-Synced :
    (prover : Prover) (verifier : Verifier) (macs keys : List Triple) (adjust : List Bool)
    → Synced prover verifier
    → AllMatched verifier.delta macs keys
    → Synced
        (record prover { check = written prover.check macs adjust })
        (record verifier { check = written verifier.check keys adjust })
written-Synced prover verifier macs keys adjust synced matched = record {
  odd = synced.odd;
  matched =
      rw (← length-AllMatched synced.matched, ← length-AllMatched matched)
        (AllMatched-overwrite (length prover.check.triples)
          (AllMatched-append
            (AllMatched-take (length prover.check.triples + length macs) synced.matched)
            (AllMatched-replicate
              (length prover.check.triples + length macs - length prover.check.triples)))
          matched);
  same_adjust =
      rw (length-AllMatched synced.matched, length-AllMatched matched, synced.same_adjust) refl;
  same_executions = synced.same_executions;
}
