-- ===== src/Rcot.antt =====
-- `crates/ot-core/src/ideal/rcot.rs`: random correlated oblivious transfer with counted keys, the ideal
-- functionality that the tests and the ideal machines use, and the ids of `crates/ot-core/src/lib.rs`. A queue is the
-- list of its counts, and what is sent to the queued outputs is returned. The random bits of the
-- receiver's generator are a parameter.
pub mod Paired
pub mod Steps
pub mod Calls
pub mod Reach
pub mod Randomize
pub mod Derandomized
pub mod Tests
use mpz.Prelude.{
  ℕ, zero, suc, ◌+◌, ◌-◌, ◌*◌, ◌%◌, ◌^◌, Bool, true, false, ◌&&◌, ◌||◌, not, List, [], ◌∷◌, ◌++◌,
  Option, none, some, length, take, drop, zip_with, ltb, leb, ◌==◌, if◌then◌else◌, Outcome, ok, err,
  panic, ensure, ◌>>=◌, ◌>>◌,
}
use mpz.Block.{Bits, nil, cons, Block, bitxor, zero_block, tabulate, test_bit}
use mpz.Cot.{RcotSender, RcotReceiver}

-- `u128::from_le_bytes` and `u128::to_le_bytes`.
unfoldable pub from_le_bytes : {n : ℕ} → Bits n → ℕ
from_le_bytes nil = 0
from_le_bytes (cons b bs) = (if b then 1 else 0) + 2 * from_le_bytes bs

unfoldable pub to_le_bytes : ℕ → Block
unfolding tabulate
to_le_bytes x = tabulate 128 (λ i. test_bit x i)

-- `TransferId::next`, the id after this one; an id is a `u64`.
abbrev pub next_id : ℕ → ℕ
next_id id = (id + 1) % 2 ^ 64

pub data RcotError : Type 0 where
  not_enough : ℕ → ℕ → RcotError
  count_mismatch : ℕ → ℕ → RcotError

pub record FlushMsg : Type 0 where
  pub seed : Block
  pub offset : ℕ
  pub count : ℕ
  pub delta : Block

-- `generate_keys`, from index `i` on.
unfoldable pub generate_keys : Block → ℕ → ℕ → ℕ → List Block
generate_keys seed offset i zero = []
generate_keys seed offset i (suc count) =
    to_le_bytes (((from_le_bytes seed + offset) % 2 ^ 128 + i) % 2 ^ 128)
    ∷ generate_keys seed offset (i + 1) count

-- `RCOTSenderOutput` and `RCOTReceiverOutput`.
pub record SenderOutput : Type 0 where
  pub id : ℕ
  pub keys : List Block

pub record ReceiverOutput : Type 0 where
  pub id : ℕ
  pub choices : List Bool
  pub msgs : List Block

pub record IdealSender : Type 0 where
  pub delta : Block
  pub seed : Block
  pub offset : ℕ
  pub pending : ℕ
  pub keys : List Block
  pub queue : List ℕ
  pub transfer_id : ℕ

pub record IdealReceiver (R : Type 0) : Type 0 where
  pub rng : R
  pub pending : ℕ
  pub choices : List Bool
  pub msgs : List Block
  pub queue : List ℕ
  pub transfer_id : ℕ
  pub delta : Option Block

-- `v.split_off(at)`: what is taken from the end, and what stays.
abbrev pub split_off : {E A : Type 0} → List A → ℕ → Outcome E (List A × List A)
split_off xs at = elim (leb at (length xs)) [ true ↦ ok (drop at xs, take at xs) | false ↦ panic ]

-- `len - count`, which overflows if there are fewer.
abbrev pub checked_sub : {E : Type 0} → ℕ → ℕ → Outcome E ℕ
checked_sub len count = elim (leb count len) [ true ↦ ok (len - count) | false ↦ panic ]

-- `IdealRCOTSender::new`.
abbrev pub new_sender : Block → Block → IdealSender
new_sender seed delta = record {
  delta = delta;
  seed = seed;
  offset = 0;
  pending = 0;
  keys = [];
  queue = [];
  transfer_id = 0;
}

abbrev pub sender_alloc : IdealSender → ℕ → IdealSender
sender_alloc s count = record s { pending = s.pending + count }

-- The keys of one output: taken from the end, under the next id.
unfoldable pub send_output : IdealSender → ℕ → Outcome RcotError (SenderOutput × IdealSender)
send_output s count = do
  at ← checked_sub (length s.keys) count
  split ← split_off s.keys at
  ok (
    record { id = s.transfer_id; keys = split.0 },
    record s { keys = split.1; transfer_id = next_id s.transfer_id },
  )

-- `IdealRCOTSender::try_send_rcot`.
unfoldable pub try_send_rcot : IdealSender → ℕ → Outcome RcotError (SenderOutput × IdealSender)
unfolding send_output
try_send_rcot s count = do
  ensure (not (ltb (length s.keys) count)) (not_enough (length s.keys) count)
  send_output s count

-- `IdealRCOTSender::queue_send_rcot`: the output, if there are enough keys.
unfoldable pub queue_send_rcot :
    IdealSender → ℕ → Outcome RcotError (Option SenderOutput × IdealSender)
unfolding send_output
queue_send_rcot s count = elim (leb count (length s.keys)) [
  | true ↦ (do sent ← send_output s count; ok (some sent.0, sent.1))
  | false ↦ ok (none, record s { queue = s.queue ++ count ∷ [] })
]

-- The loop over the queue of `IdealRCOTSender::flush`.
unfoldable pub sender_fulfill :
    List ℕ → IdealSender → Outcome RcotError (List SenderOutput × IdealSender)
unfolding send_output
sender_fulfill [] s = ok ([], record s { queue = [] })
sender_fulfill (count ∷ queue) s = do
  sent ← send_output s count
  rest ← sender_fulfill queue sent.1
  ok (sent.0 ∷ rest.0, rest.1)

abbrev pub is_empty : List ℕ → Bool
is_empty [] = true
is_empty (x ∷ xs) = false

-- `IdealRCOTSender::flush`: the message, if there is one, and the outputs that are sent.
unfoldable pub sender_flush :
    IdealSender → Outcome RcotError (Option FlushMsg × List SenderOutput × IdealSender)
unfolding sender_fulfill generate_keys
sender_flush s = elim (s.pending == 0 && is_empty s.queue) [
  | true ↦ ok (none, [], s)
  | false ↦ elim (ltb 0 s.pending) [
    | true ↦
        (let msg : FlushMsg = record {
          seed = s.seed;
          offset = s.offset;
          count = s.pending;
          delta = s.delta;
        } in
          do
            done ← sender_fulfill s.queue (record s {
              keys = s.keys ++ generate_keys s.seed s.offset 0 s.pending;
              offset = (s.offset + s.pending) % 2 ^ 64;
              pending = 0;
            })
            ok (some msg, done.0, done.1))
    | false ↦ (do done ← sender_fulfill s.queue s; ok (none, done.0, done.1))
  ]
]

module _ {R : Type 0} (random : R → Bool × R) where
  -- `IdealRCOTReceiver::from_seed`, with the seeded generator.
  abbrev pub new_receiver : R → IdealReceiver R
  new_receiver rng = record {
    rng = rng;
    pending = 0;
    choices = [];
    msgs = [];
    queue = [];
    transfer_id = 0;
    delta = none;
  }

  abbrev pub receiver_alloc : IdealReceiver R → ℕ → IdealReceiver R
  receiver_alloc r count = record r { pending = r.pending + count }

  -- The choices and messages of one output.
  unfoldable pub receive_output :
      IdealReceiver R → ℕ → Outcome RcotError (ReceiverOutput × IdealReceiver R)
  receive_output r count = do
    at ← checked_sub (length r.choices) count
    choices ← split_off r.choices at
    msgs ← split_off r.msgs at
    ok (
      record { id = r.transfer_id; choices = choices.0; msgs = msgs.0 },
      record r { choices = choices.1; msgs = msgs.1; transfer_id = next_id r.transfer_id },
    )

  -- `IdealRCOTReceiver::try_recv_rcot`.
  unfoldable pub try_recv_rcot :
      IdealReceiver R → ℕ → Outcome RcotError (ReceiverOutput × IdealReceiver R)
  unfolding receive_output
  try_recv_rcot r count = do
    ensure (not (ltb (length r.choices) count)) (not_enough (length r.choices) count)
    receive_output r count

  -- `IdealRCOTReceiver::queue_recv_rcot`.
  unfoldable pub queue_recv_rcot :
      IdealReceiver R → ℕ → Outcome RcotError (Option ReceiverOutput × IdealReceiver R)
  unfolding receive_output
  queue_recv_rcot r count = elim (leb count (length r.choices)) [
    | true ↦ (do got ← receive_output r count; ok (some got.0, got.1))
    | false ↦ ok (none, record r { queue = r.queue ++ count ∷ [] })
  ]

  -- The loop over the queue of `IdealRCOTReceiver::flush`.
  unfoldable pub receiver_fulfill :
      List ℕ → IdealReceiver R → Outcome RcotError (List ReceiverOutput × IdealReceiver R)
  unfolding receive_output
  receiver_fulfill [] r = ok ([], record r { queue = [] })
  receiver_fulfill (count ∷ queue) r = do
    got ← receive_output r count
    rest ← receiver_fulfill queue got.1
    ok (got.0 ∷ rest.0, rest.1)

  abbrev pub random_bits : ℕ → R → List Bool × R
  random_bits zero rng = ([], rng)
  random_bits (suc n) rng =
      let bit = random rng in let rest = random_bits n bit.1 in (bit.0 ∷ rest.0, rest.1)

  -- `IdealRCOTReceiver::flush`, with the outputs that are sent.
  unfoldable pub receiver_flush :
      IdealReceiver R → FlushMsg → Outcome RcotError (List ReceiverOutput × IdealReceiver R)
  unfolding receiver_fulfill generate_keys
  receiver_flush r msg = do
    ensure (msg.count == r.pending) (count_mismatch r.pending msg.count)
    let keys = generate_keys msg.seed msg.offset 0 msg.count
    let drawn = random_bits msg.count r.rng
    let msgs = zip_with (λ key choice. if choice then bitxor key msg.delta else key) keys drawn.0
    receiver_fulfill r.queue (record r {
      delta = some msg.delta;
      rng = drawn.1;
      choices = r.choices ++ drawn.0;
      msgs = r.msgs ++ msgs;
      pending = 0;
    })

  -- `IdealRCOT`, which holds both parties: `new`, `alloc`, `flush` and `transfer`.
  abbrev pub Ideal : Type 0
  Ideal = IdealSender × IdealReceiver R

  abbrev pub new_ideal : Block → Block → R → Ideal
  new_ideal seed delta rng = (new_sender seed delta, new_receiver rng)

  abbrev pub alloc : Ideal → ℕ → Ideal
  alloc i count = (sender_alloc i.0 count, receiver_alloc i.1 count)

  unfoldable pub flush :
      Ideal → Outcome RcotError ((List SenderOutput × List ReceiverOutput) × Ideal)
  unfolding sender_flush receiver_flush
  flush i = do
    sent ← sender_flush i.0
    elim sent.0 [
      | none ↦ ok ((sent.1, []), (sent.2, i.1))
      | some msg ↦ (do got ← receiver_flush i.1 msg; ok ((sent.1, got.0), (sent.2, got.1)))
    ]

  unfoldable pub transfer : Ideal → ℕ → Outcome RcotError ((SenderOutput × ReceiverOutput) × Ideal)
  unfolding try_send_rcot try_recv_rcot
  transfer i count = do
    sent ← try_send_rcot i.0 count
    got ← try_recv_rcot i.1 count
    ok ((sent.0, got.0), (sent.1, got.1))

  -- The traits, as far as the derandomization uses them.
  unfoldable pub ideal_sender : RcotSender IdealSender RcotError
  unfolding try_send_rcot
  ideal_sender = record {
    delta = λ s. s.delta;
    try_send_rcot = λ s count. do
      sent ← try_send_rcot s count
      ok ((sent.0.id, sent.0.keys), sent.1);
  }

  unfoldable pub ideal_receiver : RcotReceiver (IdealReceiver R) RcotError
  unfolding try_recv_rcot
  ideal_receiver = record {
    available = λ r. length r.choices;
    try_recv_rcot = λ r count. do
      got ← try_recv_rcot r count
      ok ((got.0.id, got.0.choices, got.0.msgs), got.1);
  }
