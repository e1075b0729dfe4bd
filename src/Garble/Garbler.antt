-- ===== src/Garble/Garbler.antt =====
-- `crates/garble-core/src/garbler.rs`: the garbler's iterator over the encrypted gates.
use mpz.Prelude.{
  Range, range_len, ℕ, zero, suc, ◌+◌, ◌-◌, Bool, true, false, not, ◌==◌, ltb, Option, none, some,
  List, [], ◌∷◌, ◌++◌, Outcome, ok, panic, ◌>>=◌, ◌>>◌, get_at, set_at, slice_at, ensure, assert,
  length, drop, replicate, if◌then◌else◌,
}
use mpz.Block.{Block, bitxor, zero_block}
use mpz.Circuit.{Gate, xor, and, inv, id, Circuit}
use mpz.Garble.Gate.{EncryptedGate, garble_and}

pub data GarblerError : Type 0 where
  input_length : ℕ → ℕ → GarblerError
  not_finished : GarblerError

-- `EncryptedGateIter`. `labels` is the garbler's buffer, `gates` what is left of the iterator.
pub record GateIter : Type 0 where
  pub delta : Block
  pub labels : List Block
  pub gates : List Gate
  pub gid : ℕ
  pub counter : ℕ
  pub and_count : ℕ
  pub outputs : Range
  pub complete : Bool

abbrev pub has_gates : GateIter → Bool
has_gates it = not (it.counter == it.and_count)

abbrev is_none : Option EncryptedGate → Bool
is_none none = true
is_none (some g) = false

-- `buffer.resize(len, Block::default())`, where that makes it longer.
abbrev pub expand : ℕ → List Block → List Block
expand len buffer =
    if ltb (length buffer) len then buffer ++ replicate (len - length buffer) zero_block else buffer

-- `buffer[..inputs.len()].copy_from_slice(inputs)`.
abbrev pub copy_inputs : {E : Type 0} → List Block → List Block → Outcome E (List Block)
copy_inputs inputs buffer = elim (ltb (length buffer) (length inputs)) [
  | true ↦ panic
  | false ↦ ok (inputs ++ drop (length inputs) buffer)
]

-- `Garbler::generate`, which writes the input keys into the garbler's buffer.
unfoldable pub generate : List Block → Circuit → Block → List Block → Outcome GarblerError GateIter
generate buffer c delta inputs = do
  ensure (length inputs == range_len c.inputs) (input_length (range_len c.inputs) (length inputs))
  labels ← copy_inputs inputs (expand c.feed_count buffer)
  ok (record {
    delta = delta;
    labels = labels;
    gates = c.gates;
    gid = 1;
    counter = 0;
    and_count = c.and_count;
    outputs = c.outputs;
    complete = false;
  })

module _ (encrypt : Block → Block) where
  -- The loop of `EncryptedGateIter::next`: it runs the free gates, up to and including an AND. At
  -- the last AND it runs the rest too.
  unfoldable pub next_loop :
      List Gate → GateIter → Outcome GarblerError (Option EncryptedGate × GateIter)
  next_loop [] it = ok (none, record it { gates = [] })
  next_loop (xor x y z ∷ gs) it = do
    x_0 ← get_at it.labels x
    y_0 ← get_at it.labels y
    labels ← set_at it.labels z (bitxor x_0 y_0)
    next_loop gs (record it { labels = labels })
  next_loop (and x y z ∷ gs) it = do
    x_0 ← get_at it.labels x
    y_0 ← get_at it.labels y
    let garbled = garble_and encrypt it.delta x_0 y_0 it.gid
    labels ← set_at it.labels z garbled.0
    let it = record it { labels = labels; gid = it.gid + 2; counter = it.counter + 1 }
    elim (has_gates it) [
      | true ↦ ok (some garbled.1, record it { gates = gs })
      | false ↦ (do
        rest ← next_loop gs it
        assert (is_none rest.0)
        ok (some garbled.1, record (rest.1) { complete = true }))
    ]
  next_loop (inv x z ∷ gs) it = do
    x_0 ← get_at it.labels x
    labels ← set_at it.labels z (bitxor x_0 it.delta)
    next_loop gs (record it { labels = labels })
  next_loop (id x z ∷ gs) it = do
    x_0 ← get_at it.labels x
    labels ← set_at it.labels z x_0
    next_loop gs (record it { labels = labels })

  -- `EncryptedGateIter::next`.
  unfoldable pub next : GateIter → Outcome GarblerError (Option EncryptedGate × GateIter)
  next it = next_loop it.gates it

  -- `EncryptedGateIter::finish`, with the output keys of `GarblerOutput`.
  unfoldable pub finish : GateIter → Outcome GarblerError (List Block)
  unfolding next
  finish it = do
    ensure (not (has_gates it)) not_finished
    it ← (if it.complete then ok it else (do last ← next it; assert (is_none last.0); ok last.1))
    slice_at it.labels it.outputs.start it.outputs.stop

  -- A `for` loop over the iterator, which takes one gate more in each round.
  unfoldable pub collect : ℕ → GateIter → Outcome GarblerError (List EncryptedGate × GateIter)
  unfolding next
  collect zero it = panic
  collect (suc fuel) it = do
    (g, it) ← next it
    elim g [ none ↦ ok ([], it) | some g ↦ (do (gs, it) ← collect fuel it; ok (g ∷ gs, it)) ]

  -- A whole circuit: `generate`, all encrypted gates, `finish`.
  unfoldable pub garble :
      List Block
      → Circuit
      → Block
      → List Block
      → Outcome GarblerError (List EncryptedGate × List Block)
  unfolding generate
  garble buffer c delta inputs = do
    it ← generate buffer c delta inputs
    (gates, it) ← collect (length c.gates + 1) it
    outputs ← finish it
    ok (gates, outputs)
