-- ===== src/Ole/Parties.antt =====
-- `crates/ole-core/src/sender.rs` and `receiver.rs`: the parties of random oblivious linear evaluations, over the
-- random transfers of a trait. A queue is the list of its counts, and what is sent to the queued outputs is
-- returned. The generator of the sender's inputs is the parameter `random`.
use mpz.Prelude.{
  ℕ, ◌+◌, ◌*◌, Bool, not, ltb, ◌==◌, List, [], ◌∷◌, ◌++◌, length, take, drop, slice_at, Outcome, ok,
  err, panic, ensure, assert, ◌>>=◌, ◌>>◌,
}
use mpz.Field.{Field}
use mpz.Rcot.{next_id}
use mpz.Zk.Check.{chunks_loop}
use mpz.Ole.{OleShare, new_ole_sender, new_ole_receiver}

-- The traits `ROTSender` and `ROTReceiver`, as far as they are used; an output has an id.
pub record RotSender (T E F : Type 0) : Type 0 where
  pub alloc : T → ℕ → Outcome E T
  pub try_send_rot : T → ℕ → Outcome E ((ℕ × List (F × F)) × T)

pub record RotReceiver (T E F : Type 0) : Type 0 where
  pub alloc : T → ℕ → Outcome E T
  pub try_recv_rot : T → ℕ → Outcome E ((ℕ × List Bool × List F) × T)

-- The errors of both parties; the sender has no wrong count.
pub data OleError (E : Type 0) : Type 0 where
  ot : E → OleError E
  insufficient_ole : ℕ → ℕ → OleError E
  wrong_count : ℕ → ℕ → OleError E

abbrev pub ot_error : {E A : Type 0} → Outcome E A → Outcome (OleError E) A
ot_error (ok a) = ok a
ot_error (err e) = err (ot e)
ot_error panic = panic

-- `ROLESenderOutput` and `ROLEReceiverOutput`.
pub record OleOutput (F : Type 0) : Type 0 where
  pub id : ℕ
  pub shares : List (OleShare F)

pub record OleSender (T F R : Type 0) : Type 0 where
  pub id : ℕ
  pub alloc : ℕ
  pub pending : ℕ
  pub queue : List ℕ
  pub rot : T
  pub prg : R
  pub role : List (OleShare F)

pub record OleReceiver (T F : Type 0) : Type 0 where
  pub id : ℕ
  pub alloc : ℕ
  pub pending : ℕ
  pub queue : List ℕ
  pub rot : T
  pub role : List (OleShare F)

-- The loop over the queue in `send` and `recv`, from share `i` on: the outputs, the next id and the other shares.
unfoldable pub deliver :
    {E F : Type 0}
    → List (OleShare F)
    → ℕ
    → ℕ
    → List ℕ
    → Outcome E (List (OleOutput F) × ℕ × List (OleShare F))
deliver shares i id [] = do others ← slice_at shares i (length shares); ok ([], id, others)
deliver shares i id (count ∷ queue) = do
  here ← slice_at shares i (i + count)
  rest ← deliver shares (i + count) (next_id id) queue
  ok (record { id = id; shares = here } ∷ rest.0, rest.1, rest.2)

module _ {T E F R : Type 0} (field : Field F) (rot : RotSender T E F) (random : R → F × R) where
  unfoldable pub sender_alloc : OleSender T F R → ℕ → Outcome (OleError E) (OleSender T F R)
  sender_alloc s count = do
    allocated ← ot_error (rot.alloc s.rot (count * field.bit_size))
    ok (record s { rot = allocated; alloc = s.alloc + count })

  unfoldable pub try_send_role :
      OleSender T F R → ℕ → Outcome (OleError E) (OleOutput F × OleSender T F R)
  try_send_role s count = do
    ensure (not (ltb (length s.role) count)) (insufficient_ole count (length s.role))
    ok (
      record { id = s.id; shares = take count s.role },
      record s { id = next_id s.id; role = drop count s.role },
    )

  abbrev pub queue_send_role : OleSender T F R → ℕ → OleSender T F R
  queue_send_role s count = record s { pending = s.pending + count; queue = s.queue ++ count ∷ [] }

  -- The shares of the chunks of masks, what is sent for each, and the generator.
  unfoldable pub sender_shares :
      R → List (List (F × F)) → Outcome (OleError E) (List (OleShare F) × List (List F) × R)
  sender_shares prg [] = ok ([], [], prg)
  sender_shares prg (masks ∷ chunks) = do
    let drawn = random prg
    assert (length masks == field.bit_size)
    let made = new_ole_sender field drawn.0 masks
    rest ← sender_shares drawn.1 chunks
    ok (made.0 ∷ rest.0, made.1 ∷ rest.1, rest.2)

  -- `Sender::send`: the outputs of the queue, the message and the sender.
  unfoldable pub send :
      OleSender T F R → Outcome (OleError E) (List (OleOutput F) × List (List F) × OleSender T F R)
  send s = do
    ensure (not (ltb s.alloc s.pending)) (insufficient_ole s.pending s.alloc)
    sent ← ot_error (rot.try_send_rot s.rot (s.alloc * field.bit_size))
    let masks = sent.0.1
    made ← sender_shares s.prg (chunks_loop (length masks) field.bit_size masks)
    done ← deliver made.0 0 s.id s.queue
    ok (
      done.0,
      made.1,
      record {
        id = done.1;
        alloc = 0;
        pending = 0;
        queue = [];
        rot = sent.1;
        prg = made.2;
        role = s.role ++ done.2;
      },
    )

module _ {T E F : Type 0} (field : Field F) (rot : RotReceiver T E F) where
  unfoldable pub receiver_alloc : OleReceiver T F → ℕ → Outcome (OleError E) (OleReceiver T F)
  receiver_alloc r count = do
    allocated ← ot_error (rot.alloc r.rot (count * field.bit_size))
    ok (record r { rot = allocated; alloc = r.alloc + count })

  unfoldable pub try_recv_role :
      OleReceiver T F → ℕ → Outcome (OleError E) (OleOutput F × OleReceiver T F)
  try_recv_role r count = do
    ensure (not (ltb (length r.role) count)) (insufficient_ole count (length r.role))
    ok (
      record { id = r.id; shares = take count r.role },
      record r { id = next_id r.id; role = drop count r.role },
    )

  abbrev pub queue_recv_role : OleReceiver T F → ℕ → OleReceiver T F
  queue_recv_role r count = record r { pending = r.pending + count; queue = r.queue ++ count ∷ [] }

  -- The shares of the chunks of choices and messages, with the masks of each.
  unfoldable pub receiver_shares :
      List (List Bool) → List (List F) → List (List F) → Outcome (OleError E) (List (OleShare F))
  receiver_shares (bits ∷ choices) (corr ∷ msgs) (mask ∷ masks) = do
    assert (length corr == field.bit_size)
    rest ← receiver_shares choices msgs masks
    ok (new_ole_receiver field bits corr mask ∷ rest)
  receiver_shares choices msgs masks = ok []

  -- `Receiver::recv`: the outputs of the queue and the receiver.
  unfoldable pub recv :
      OleReceiver T F → List (List F) → Outcome (OleError E) (List (OleOutput F) × OleReceiver T F)
  recv r masks = do
    ensure (not (ltb r.alloc r.pending)) (insufficient_ole r.pending r.alloc)
    ensure (length masks == r.alloc) (wrong_count r.alloc (length masks))
    got ← ot_error (rot.try_recv_rot r.rot (r.alloc * field.bit_size))
    let choices = got.0.1
    let corr = got.0.2
    shares ←
        receiver_shares (chunks_loop (length choices) field.bit_size choices)
          (chunks_loop (length corr) field.bit_size corr) masks
    done ← deliver shares 0 r.id r.queue
    ok (
      done.0,
      record {
        id = done.1;
        alloc = 0;
        pending = 0;
        queue = [];
        rot = got.1;
        role = r.role ++ done.2;
      },
    )
