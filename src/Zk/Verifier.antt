-- ===== src/Zk/Verifier.antt =====
-- `crates/zk-core/src/verifier.rs`: the verifier's execution of a circuit, which takes an adjustment bit
-- for each AND gate.
use mpz.Prelude.{
  ℕ, ◌+◌, ◌-◌, Bool, true, false, not, ◌==◌, leb, ltb, List, [], ◌∷◌, ◌++◌, Outcome, ok, err, panic,
  ◌>>=◌, ◌>>◌, get_at, set_at, slice_at, ensure, length, range_len,
}
use mpz.Block.{Block, bitxor, zero_block}
use mpz.Circuit.{Gate, xor, and, inv, id, Circuit}
use mpz.Memory.Correlated.{adjust_key}
use mpz.Zk.{Triple, resize}
use mpz.Zk.Check.{Clmul, Transcript, CheckError, Uv, Check, reserve, write, check_verifier}

pub data VerifierError : Type 0 where
  input_key_count gate_key_count : ℕ → ℕ → VerifierError
  incomplete in_progress : VerifierError
  check_error : CheckError → VerifierError

pub record Verifier : Type 0 where
  pub delta : Block
  pub check : Check
  pub executions : ℕ

-- `VerifierExecute` with its `VerifierConsumer`, whose gates are those that are left.
pub record VerifierExecute : Type 0 where
  pub circ : Circuit
  pub delta : Block
  pub keys : List Block
  pub gate_keys : List Block
  pub triples : List Triple
  pub adjust : List Bool
  pub check_idx : ℕ
  pub gates : List Gate
  pub counter : ℕ
  pub and_count : ℕ

-- `Verifier::execute`.
unfoldable pub execute :
    Verifier
    → Circuit
    → List Block
    → List Block
    → Outcome VerifierError (VerifierExecute × Verifier)
execute verifier c input_keys gate_keys = do
  ensure (length input_keys == range_len c.inputs)
      (input_key_count (range_len c.inputs) (length input_keys))
  ensure (length gate_keys == c.and_count) (gate_key_count c.and_count (length gate_keys))
  let reserved = reserve verifier.check c.and_count
  ok (
    record {
      circ = c;
      delta = verifier.delta;
      keys = input_keys;
      gate_keys = gate_keys;
      triples = [];
      adjust = [];
      check_idx = reserved.0;
      gates = [];
      counter = 0;
      and_count = c.and_count;
    },
    record verifier { check = reserved.1; executions = verifier.executions + 1 },
  )

abbrev pub wants_adjust : VerifierExecute → Bool
wants_adjust s = ltb s.counter s.and_count

-- The loop of `VerifierConsumer::next`: the free gates, up to and including an AND, and the rest too if
-- no more adjustment bits are wanted.
unfoldable pub consume_loop :
    List Gate → Bool → VerifierExecute → Outcome VerifierError VerifierExecute
unfolding adjust_key
consume_loop [] adjust s = ok (record s { gates = [] })
consume_loop (xor x y z ∷ gs) adjust s = do
  key_x ← get_at s.keys x
  key_y ← get_at s.keys y
  keys ← set_at s.keys z (bitxor key_x key_y)
  consume_loop gs adjust (record s { keys = keys })
consume_loop (and x y z ∷ gs) adjust s = do
  key_x ← get_at s.keys x
  key_y ← get_at s.keys y
  gate_key ← get_at s.gate_keys s.counter
  let key_z = adjust_key gate_key adjust s.delta
  keys ← set_at s.keys z key_z
  let s = record s {
    keys = keys;
    triples = s.triples ++ record { x = key_x; y = key_y; z = key_z } ∷ [];
    adjust = s.adjust ++ adjust ∷ [];
    counter = s.counter + 1;
  }
  elim (wants_adjust s) [ true ↦ ok (record s { gates = gs }) | false ↦ consume_loop gs adjust s ]
consume_loop (inv x z ∷ gs) adjust s = do
  key ← get_at s.keys x
  keys ← set_at s.keys z (adjust_key key true s.delta)
  consume_loop gs adjust (record s { keys = keys })
consume_loop (id x z ∷ gs) adjust s = do
  key ← get_at s.keys x
  keys ← set_at s.keys z key
  consume_loop gs adjust (record s { keys = keys })

-- `VerifierConsumer::next`.
abbrev pub next : Bool → VerifierExecute → Outcome VerifierError VerifierExecute
next adjust s = consume_loop s.gates adjust s

-- `VerifierExecute::consumer`: without AND gates the circuit is run at once.
unfoldable pub consumer : VerifierExecute → Outcome VerifierError VerifierExecute
consumer s =
    let s = record s {
      keys = resize s.circ.feed_count zero_block s.keys;
      gates = s.circ.gates;
      counter = 0;
    } in
    elim (s.and_count == 0) [ true ↦ next false s | false ↦ ok s ]

-- An execution dropped, with its reference to the check.
abbrev pub drop_execution : Verifier → Verifier
drop_execution verifier = record verifier { executions = verifier.executions - 1 }

-- `VerifierExecute::finish`, which takes the execution: after an error too it is dropped.
unfoldable pub finish : Verifier → VerifierExecute → Outcome VerifierError (List Block × Verifier)
unfolding write
finish verifier s = do
  ensure (leb s.and_count s.counter) incomplete
  check ← write verifier.check s.check_idx s.triples s.adjust
  outputs ← slice_at s.keys s.circ.outputs.start s.circ.outputs.stop
  ok (outputs, drop_execution (record verifier { check = check }))

abbrev check_result : {A : Type 0} → Outcome CheckError A → Outcome VerifierError A
check_result (ok a) = ok a
check_result (err e) = err (check_error e)
check_result panic = panic

-- `Verifier::wants_check` and `Verifier::pending`.
abbrev pub wants_check : Verifier → Bool
wants_check verifier = not (length verifier.check.triples == 0)

abbrev pub pending : Verifier → ℕ
pending verifier = length verifier.check.triples

-- `Verifier::check`, which is refused while an execution is in progress.
unfoldable pub run_check :
    {H : Type 0}
    → Clmul
    → Transcript H
    → Verifier
    → H
    → List Block
    → Uv
    → Outcome VerifierError (Unit {0}) × Verifier × H
unfolding check_verifier
run_check C T verifier t svole_keys uv = elim (ltb 0 verifier.executions) [
  | true ↦ (err in_progress, verifier, t)
  | false ↦
      (let done = check_verifier C T verifier.check t verifier.delta svole_keys uv in
        (check_result done.0, record verifier { check = done.1 }, done.2))
]
