-- ===== src/Zk/Prover.antt =====
-- `crates/zk-core/src/prover.rs`: the prover's execution of a circuit, which yields an adjustment bit for
-- each AND gate. The check that the executions share is passed along; `executions` counts those that
-- hold a reference to it.
use mpz.Prelude.{
  ℕ, ◌+◌, ◌-◌, Bool, true, false, ◌&&◌, not, xor as bool_xor, ◌==◌, leb, ltb, List, [], ◌∷◌, ◌++◌,
  Option, none, some, Outcome, ok, err, panic, ◌>>=◌, ◌>>◌, get_at, set_at, slice_at, ensure,
  assert, length, range_len,
}
use mpz.Block.{Block, bitxor, zero_block}
use mpz.Circuit.{Gate, xor, and, inv, id, Circuit}
use mpz.Memory.Correlated.{pointer, set_pointer}
use mpz.Zk.{Triple, resize}
use mpz.Zk.Check.{Clmul, Transcript, CheckError, Uv, Check, reserve, write, check_prover}

pub data ProverError : Type 0 where
  input_mac_count gate_mask_count gate_mac_count : ℕ → ℕ → ProverError
  incomplete in_progress : ProverError
  check_error : CheckError → ProverError

pub record Prover : Type 0 where
  pub check : Check
  pub executions : ℕ

-- `ProverExecute` with its `ProverIter`, whose gates are those that are left.
pub record ProverExecute : Type 0 where
  pub circ : Circuit
  pub macs : List Block
  pub triples : List Triple
  pub adjust : List Bool
  pub gate_masks : List Bool
  pub gate_macs : List Block
  pub check_idx : ℕ
  pub gates : List Gate
  pub counter : ℕ
  pub and_count : ℕ

-- `Prover::execute`.
unfoldable pub execute :
    Prover
    → Circuit
    → List Block
    → List Bool
    → List Block
    → Outcome ProverError (ProverExecute × Prover)
execute prover c input_macs gate_masks gate_macs = do
  ensure (length input_macs == range_len c.inputs)
      (input_mac_count (range_len c.inputs) (length input_macs))
  ensure (length gate_masks == c.and_count) (gate_mask_count c.and_count (length gate_masks))
  ensure (length gate_macs == c.and_count) (gate_mac_count c.and_count (length gate_macs))
  let reserved = reserve prover.check c.and_count
  ok (
    record {
      circ = c;
      macs = input_macs;
      triples = [];
      adjust = [];
      gate_masks = gate_masks;
      gate_macs = gate_macs;
      check_idx = reserved.0;
      gates = [];
      counter = 0;
      and_count = c.and_count;
    },
    record { check = reserved.1; executions = prover.executions + 1 },
  )

-- `ProverExecute::iter`.
unfoldable pub iter : ProverExecute → ProverExecute
iter s = record s {
  macs = resize s.circ.feed_count zero_block s.macs;
  gates = s.circ.gates;
  counter = 0;
}

abbrev pub is_none : {A : Type 0} → Option A → Bool
is_none none = true
is_none (some a) = false

-- The loop of `ProverIter::next`: the free gates, up to and including an AND, and the rest too if it is
-- the last.
unfoldable pub next_loop :
    List Gate → ProverExecute → Outcome ProverError (Option Bool × ProverExecute)
unfolding set_pointer
next_loop [] s = ok (none, record s { gates = [] })
next_loop (xor x y z ∷ gs) s = do
  mac_x ← get_at s.macs x
  mac_y ← get_at s.macs y
  macs ← set_at s.macs z (bitxor mac_x mac_y)
  next_loop gs (record s { macs = macs })
next_loop (and x y z ∷ gs) s = do
  mac_x ← get_at s.macs x
  mac_y ← get_at s.macs y
  gate_mac ← get_at s.gate_macs s.counter
  let w_z = pointer mac_x && pointer mac_y
  let mac_z = set_pointer gate_mac w_z
  mask ← get_at s.gate_masks s.counter
  let adjust = bool_xor mask w_z
  macs ← set_at s.macs z mac_z
  let s = record s {
    macs = macs;
    triples = s.triples ++ record { x = mac_x; y = mac_y; z = mac_z } ∷ [];
    adjust = s.adjust ++ adjust ∷ [];
    counter = s.counter + 1;
  }
  elim (leb s.and_count s.counter) [
    | true ↦ (do rest ← next_loop gs s; assert (is_none rest.0); ok (some adjust, rest.1))
    | false ↦ ok (some adjust, record s { gates = gs })
  ]
next_loop (inv x z ∷ gs) s = do
  mac ← get_at s.macs x
  macs ← set_at s.macs z (set_pointer mac (not (pointer mac)))
  next_loop gs (record s { macs = macs })
next_loop (id x z ∷ gs) s = do
  mac ← get_at s.macs x
  macs ← set_at s.macs z mac
  next_loop gs (record s { macs = macs })

-- `ProverIter::next`.
abbrev pub next : ProverExecute → Outcome ProverError (Option Bool × ProverExecute)
next s = next_loop s.gates s

-- An execution dropped, with its reference to the check.
abbrev pub drop_execution : Prover → Prover
drop_execution prover = record prover { executions = prover.executions - 1 }

-- `ProverExecute::finish`, which takes the execution: after an error too it is dropped.
unfoldable pub finish : Prover → ProverExecute → Outcome ProverError (List Block × Prover)
unfolding write
finish prover s = do
  ensure (s.counter == s.and_count) incomplete
  check ← write prover.check s.check_idx s.triples s.adjust
  outputs ← slice_at s.macs s.circ.outputs.start s.circ.outputs.stop
  ok (outputs, record { check = check; executions = prover.executions - 1 })

abbrev check_result : {A : Type 0} → Outcome CheckError A → Outcome ProverError A
check_result (ok a) = ok a
check_result (err e) = err (check_error e)
check_result panic = panic

-- `Prover::wants_check` and `Prover::pending`.
abbrev pub wants_check : Prover → Bool
wants_check prover = not (length prover.check.triples == 0)

abbrev pub pending : Prover → ℕ
pending prover = length prover.check.triples

-- `Prover::check`, which is refused while an execution is in progress.
unfoldable pub run_check :
    {H : Type 0}
    → Clmul
    → Transcript H
    → Prover
    → H
    → List Bool
    → List Block
    → Outcome ProverError Uv × Prover × H
unfolding check_prover
run_check C T prover t svole_choices svole_ev = elim (ltb 0 prover.executions) [
  | true ↦ (err in_progress, prover, t)
  | false ↦
      (let done = check_prover C T prover.check t svole_choices svole_ev in
        (check_result done.0, record prover { check = done.1 }, done.2))
]
