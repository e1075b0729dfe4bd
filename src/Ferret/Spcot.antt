-- ===== src/Ferret/Spcot.antt =====
-- `crates/ot-core/src/ferret/spcot/sender.rs` and `receiver.rs`: single-point correlated transfers over the
-- correlated GGM tree, in the default build. The trees of a call are expanded one after another, and each
-- fills its slice of the output buffer.
pub mod Tree
pub mod Trees
pub mod Extend
pub mod Check
pub mod CheckSums
pub mod Accept
pub mod Tests
use mpz.Prelude.{
  total, ℕ, zero, suc, ◌+◌, ◌^◌, ◌≡◌, Bool, true, false, not, xor, ◌==◌, leb, ltb, List, [], ◌∷◌,
  ◌++◌, length, map, take, set, zip_with, if◌then◌else◌, Option, none, some, Outcome, ok, err,
  ensure, assert, set_at, ◌>>=◌, ◌>>◌,
}
use mpz.Block.{Block, bitxor, zero_block, test_bit}
use mpz.Ggm.{sum_from, expand, expand_punctured}
use mpz.Ferret.Slices.{concat, slices_from_lengths}

-- `SPCOTSender`, whose `pending` counts the outputs that wait for the check.
pub record SpcotSender : Type 0 where
  pub pending : ℕ
  pub delta : Block

pub data SenderError : Type 0 where
  key_count mask_count output_length : ℕ → ℕ → SenderError

-- `Check` of the receiver.
pub record CheckValue : Type 0 where
  pub w : Block

pub record SpcotReceiver : Type 0 where
  pub lengths : List ℕ
  pub indices : List ℕ
  pub check : Option CheckValue

pub data ReceiverError : Type 0 where
  already_started not_started invalid_check : ReceiverError
  index_count mac_count choice_count correction_count buffer_length : ℕ → ℕ → ReceiverError

abbrev pub new_sender : Block → SpcotSender
new_sender delta = record { pending = 0; delta = delta }

abbrev pub new_receiver : SpcotReceiver
new_receiver = record { lengths = []; indices = []; check = none }

-- `1 << length`, for every length.
abbrev pub powers : List ℕ → List ℕ
powers lengths = map (λ n. 2 ^ n) lengths

-- `idx.iter_lsb0()`, from bit `i` on, of a `usize`.
abbrev pub bits_from : ℕ → ℕ → ℕ → List Bool
bits_from idx i zero = []
bits_from idx i (suc n) = test_bit idx i ∷ bits_from idx (i + 1) n

-- The bits of the indices, least significant first, as many of each as its tree has levels.
abbrev pub index_bits : List ℕ → List ℕ → List Bool
index_bits (idx ∷ idxs) (n ∷ lengths) = take n (bits_from idx 0 64) ++ index_bits idxs lengths
index_bits idxs lengths = []

-- `SPCOTReceiver::derandomize`.
unfoldable pub derandomize : List ℕ → List ℕ → List Bool → Outcome ReceiverError (List Bool)
derandomize lengths idxs masks = do
  ensure (length idxs == length lengths) (index_count (length lengths) (length idxs))
  ensure (length masks == total lengths) (choice_count (total lengths) (length masks))
  ok (zip_with (λ b m. xor (not b) m) (index_bits idxs lengths) masks)

-- The seeds that are drawn from the generator.
unfoldable pub draw_seeds : {R : Type 0} → (R → Block × R) → ℕ → R → List Block × R
draw_seeds random zero rng = ([], rng)
draw_seeds random (suc n) rng =
    let drawn = random rng in let rest = draw_seeds random n drawn.1 in (drawn.0 ∷ rest.0, rest.1)

module _ (encrypt : Block → Block) where
  -- The trees of `SPCOTSender::extend`: the buffer of outputs and the corrections afterwards.
  unfoldable pub sender_trees :
      Block
      → List (List Block)
      → List (List Block)
      → List Block
      → Outcome SenderError (List Block × List Block)
  sender_trees delta (v ∷ vs) (c ∷ cs) (seed ∷ seeds) = do
    assert (leb (length c) 64)
    tree ← expand encrypt delta seed (length v) (length c)
    rest ← sender_trees delta vs cs seeds
    ok (tree.0 ++ rest.0, zip_with bitxor c tree.1 ++ rest.1)
  sender_trees delta vs cs seeds = ok (concat vs, concat cs)

  -- `SPCOTSender::extend`: the outputs, the corrections, the generator and the sender afterwards.
  unfoldable pub sender_extend :
      {R : Type 0}
      → (R → Block × R)
      → SpcotSender
      → R
      → List ℕ
      → List Block
      → List Bool
      → List Block
      → Outcome SenderError (List Block × List Block × R × SpcotSender)
  sender_extend random s rng lengths keys masks vs = do
    ensure (length keys == total lengths) (key_count (total lengths) (length keys))
    ensure (length masks == total lengths) (mask_count (total lengths) (length masks))
    let len = total (powers lengths)
    ensure (length vs == len) (output_length len (length vs))
    let corrections = zip_with (λ key b. if b then bitxor key s.delta else key) keys masks
    let seeds = draw_seeds random (length lengths) rng
    vs_slices ← slices_from_lengths vs (powers lengths)
    cs_trees ← slices_from_lengths corrections lengths
    done ← sender_trees s.delta vs_slices cs_trees seeds.0
    ok (done.0, done.1, seeds.1, record s { pending = s.pending + len })

  -- The trees of `SPCOTReceiver::extend`; the fold of a punctured tree is its output at the index.
  unfoldable pub receiver_trees :
      List (List Block) → List (List Block) → List ℕ → Outcome ReceiverError (List Block)
  receiver_trees (w ∷ ws) (s ∷ sums) (idx ∷ idxs) = do
    punctured ← expand_punctured encrypt idx s (length w)
    filled ← set_at punctured idx (sum_from zero_block punctured)
    rest ← receiver_trees ws sums idxs
    ok (filled ++ rest)
  receiver_trees ws sums idxs = ok (concat ws)

  -- `SPCOTReceiver::extend`: the outputs and the receiver afterwards.
  unfoldable pub receiver_extend :
      SpcotReceiver
      → List ℕ
      → List ℕ
      → List Block
      → List Block
      → List Block
      → Outcome ReceiverError (List Block × SpcotReceiver)
  receiver_extend r lengths idxs macs cs ws = do
    ensure (length idxs == length lengths) (index_count (length lengths) (length idxs))
    ensure (length macs == total lengths) (mac_count (total lengths) (length macs))
    ensure (length cs == total lengths) (correction_count (total lengths) (length cs))
    let len = total (powers lengths)
    ensure (length ws == len) (buffer_length len (length ws))
    sums ← slices_from_lengths (zip_with bitxor macs cs) lengths
    ws_slices ← slices_from_lengths ws (powers lengths)
    done ← receiver_trees ws_slices sums idxs
    ok (done, record r { lengths = r.lengths ++ lengths; indices = r.indices ++ idxs })
