-- ===== src/Cot.antt =====
-- `crates/ot-core/src/cot/derandomize.rs`: correlated oblivious transfer from preprocessed random
-- correlated transfers. A queue is the list of its counts, and what is sent to the queued outputs is
-- returned.
pub mod Correct
pub mod Withheld
pub mod Tests
use mpz.Prelude.{
  ℕ, ◌+◌, Bool, true, false, xor, List, [], ◌∷◌, ◌++◌, length, drop, ltb, ◌==◌, if◌then◌else◌,
  slice_at, copy_at, Outcome, ok, err, panic, ensure, ◌>>=◌, ◌>>◌,
}
use mpz.Block.{Block, bitxor, zero_block}

-- The trait `RCOTSender`, as far as it is used; the output has an id and the keys.
pub record RcotSender (T E : Type 0) : Type 0 where
  pub delta : T → Block
  pub try_send_rcot : T → ℕ → Outcome E ((ℕ × List Block) × T)

-- The trait `RCOTReceiver`, as far as it is used; the output has an id, choices and messages.
pub record RcotReceiver (T E : Type 0) : Type 0 where
  pub available : T → ℕ
  pub try_recv_rcot : T → ℕ → Outcome E ((ℕ × List Bool × List Block) × T)

pub data CotError (E : Type 0) : Type 0 where
  rcot_error : E → CotError E
  wrong_length : ℕ → ℕ → CotError E

abbrev pub cot_error : {E A : Type 0} → Outcome E A → Outcome (CotError E) A
cot_error (ok a) = ok a
cot_error (err e) = err (rcot_error e)
cot_error panic = panic

-- `xs.iter_mut().zip(ys)`: elements are changed as long as there are others to go with them.
abbrev pub zip_update : {A B : Type 0} → (A → B → A) → List A → List B → List A
zip_update f [] ys = []
zip_update f (x ∷ xs) [] = x ∷ xs
zip_update f (x ∷ xs) (y ∷ ys) = f x y ∷ zip_update f xs ys

abbrev pub zip : {A B : Type 0} → List A → List B → List (A × B)
zip [] ys = []
zip (x ∷ xs) [] = []
zip (x ∷ xs) (y ∷ ys) = (x, y) ∷ zip xs ys

pub record DerandCotSender (T : Type 0) : Type 0 where
  pub rcot : T
  pub adjust : List Block
  pub queue : List ℕ

pub record DerandCotReceiver (T : Type 0) : Type 0 where
  pub rcot : T
  pub derandomize : List Bool
  pub queue : List ℕ

-- `COTReceiverOutput`.
pub record CotOutput : Type 0 where
  pub id : ℕ
  pub msgs : List Block

module _ {T E : Type 0} (rcot : RcotSender T E) where
  abbrev pub queue_send_cot : DerandCotSender T → List Block → DerandCotSender T
  queue_send_cot s keys = record s {
    adjust = s.adjust ++ keys;
    queue = s.queue ++ length keys ∷ [];
  }

  -- The adjustment of one key, with the flip and the key of the random transfer.
  abbrev pub adjust_one : Block → Block → Bool × Block → Block
  adjust_one delta adjust fk = bitxor (bitxor adjust fk.1) (if fk.0 then delta else zero_block)

  -- The loop over the queue, from index `i`; it returns the ids that are sent.
  unfoldable pub send_loop :
      List Bool
      → Block
      → List ℕ
      → ℕ
      → List Block
      → T
      → Outcome (CotError E) ((List Block × List ℕ) × T)
  send_loop flip delta [] i adjust t = ok ((adjust, []), t)
  send_loop flip delta (count ∷ queue) i adjust t = do
    sent ← cot_error (rcot.try_send_rcot t count)
    old ← slice_at adjust i (i + count)
    flips ← slice_at flip i (i + count)
    adjust ←
        copy_at adjust (record { start = i; stop = i + count })
          (zip_update (adjust_one delta) old (zip flips sent.0.1))
    rest ← send_loop flip delta queue (i + count) adjust sent.1
    ok ((rest.0.0, sent.0.0 ∷ rest.0.1), rest.1)

  -- `DerandCOTSender::adjust`.
  unfoldable pub send_adjust :
      DerandCotSender T
      → List Bool
      → Outcome (CotError E) ((List Block × List ℕ) × DerandCotSender T)
  send_adjust s flip = do
    ensure (length flip == length s.adjust) (wrong_length (length flip) (length s.adjust))
    done ← send_loop flip (rcot.delta s.rcot) s.queue 0 s.adjust s.rcot
    ok (done.0, record { rcot = done.1; adjust = []; queue = [] })

module _ {T E : Type 0} (rcot : RcotReceiver T E) where
  abbrev pub queue_recv_cot : DerandCotReceiver T → List Bool → DerandCotReceiver T
  queue_recv_cot r choices = record r {
    derandomize = r.derandomize ++ choices;
    queue = r.queue ++ length choices ∷ [];
  }

  -- The loop over the queue, from index `i`; it returns the flips, the outputs and the last index.
  unfoldable pub recv_loop :
      List ℕ → ℕ → List Bool → T → Outcome (CotError E) ((List Bool × List CotOutput × ℕ) × T)
  recv_loop [] i flip t = ok ((flip, [], i), t)
  recv_loop (count ∷ queue) i flip t = elim (ltb (rcot.available t) count) [
    | true ↦ ok ((flip, [], i), t)
    | false ↦ (do
      received ← cot_error (rcot.try_recv_rcot t count)
      old ← slice_at flip i (i + count)
      flip ←
          copy_at flip (record { start = i; stop = i + count })
            (zip_update (λ choice mask. xor choice mask) old received.0.1)
      rest ← recv_loop queue (i + count) flip received.1
      ok (
        (rest.0.0, record { id = received.0.0; msgs = received.0.2 } ∷ rest.0.1, rest.0.2),
        rest.1,
      ))
  ]

  -- `DerandCOTReceiver::adjust`: the flips, the outputs and the count that `receive` gets.
  unfoldable pub recv_adjust :
      DerandCotReceiver T
      → Outcome (CotError E) ((List Bool × List CotOutput × ℕ) × DerandCotReceiver T)
  recv_adjust r = do
    done ← recv_loop r.queue 0 r.derandomize r.rcot
    ok (done.0, record r { rcot = done.1; derandomize = [] })

  -- The messages of the outputs, each with the next adjustments.
  unfoldable pub receive_loop : List CotOutput → List Block → List CotOutput
  receive_loop [] adjust = []
  receive_loop (output ∷ outputs) adjust =
      record output { msgs = zip_update (λ msg a. bitxor msg a) output.msgs adjust }
      ∷ receive_loop outputs (drop (length output.msgs) adjust)

  -- `ReceiveAdjust::receive`, with the outputs that are sent.
  unfoldable pub receive :
      DerandCotReceiver T
      → List CotOutput
      → ℕ
      → List Block
      → Outcome (CotError E) (List CotOutput × DerandCotReceiver T)
  receive r cots count adjust = do
    ensure (length adjust == count) (wrong_length (length adjust) count)
    ok (receive_loop cots adjust, record r { queue = drop (length cots) r.queue })
