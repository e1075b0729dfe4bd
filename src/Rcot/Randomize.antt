-- ===== src/Rcot/Randomize.antt =====
-- `crates/ot-core/src/rot/randomize.rs`: random transfers of two keys, from correlated ones, with the
-- tweakable hash of `crates/core/src/aes.rs`.
use mpz.Prelude.{
  ℕ, ◌+◌, ◌*◌, ◌^◌, ◌≡◌, refl, ap, ap₂, ◌∙◌, Bool, true, false, xor, List, [], ◌∷◌, zip_with,
  if◌then◌else◌, arith, Outcome, ok, ◌>>=◌,
}
use mpz.Block.{Block, bitxor, zero_block, be_bytes}
use mpz.Block.Cipher.{tccr}
use mpz.Block.Laws.{Bits_ext, bits}
use mpz.Cot.{RcotSender, RcotReceiver}
use mpz.Cot.Correct.{correlated}
use mpz.Rcot.{SenderOutput, ReceiverOutput}
use mpz.Rcot.Paired.{Matches}

-- `ROTSenderOutput<[Block; 2]>` and `ROTReceiverOutput<bool, Block>`.
pub record RotSenderOutput : Type 0 where
  pub id : ℕ
  pub keys : List (Block × Block)

pub record RotReceiverOutput : Type 0 where
  pub id : ℕ
  pub choices : List Bool
  pub msgs : List Block

-- The tweak of the `i`-th transfer: the transfer's id in the upper half.
abbrev pub tweak : ℕ → ℕ → Block
tweak id i = be_bytes (id * 2 ^ 64 + i)

module _ (encrypt : Block → Block) where
  -- The keys from index `i` on.
  unfoldable pub randomize_keys : Block → ℕ → ℕ → List Block → List (Block × Block)
  randomize_keys delta id i [] = []
  randomize_keys delta id i (key ∷ keys) =
      let j = tweak id i in
      let k_0 = tccr encrypt j key in
      let k_1 = tccr encrypt j (bitxor key delta) in
      (k_0, k_1) ∷ randomize_keys delta id (i + 1) keys

  unfoldable pub randomize_sender : Block → SenderOutput → RotSenderOutput
  unfolding randomize_keys
  randomize_sender delta output = record {
    id = output.id;
    keys = randomize_keys delta output.id 0 output.keys;
  }

  -- The messages from index `i` on.
  unfoldable pub randomize_msgs : ℕ → ℕ → List Block → List Block
  randomize_msgs id i [] = []
  randomize_msgs id i (msg ∷ msgs) =
      let j = tweak id i in tccr encrypt j msg ∷ randomize_msgs id (i + 1) msgs

  unfoldable pub randomize_receiver : ReceiverOutput → RotReceiverOutput
  unfolding randomize_msgs
  randomize_receiver output = record {
    id = output.id;
    choices = output.choices;
    msgs = randomize_msgs output.id 0 output.msgs;
  }

  -- The key that a choice is for.
  abbrev pub chosen : Block × Block → Bool → Block
  chosen keys choice = if choice then keys.1 else keys.0

  randomize_msgs-chosen :
      (delta : Block) (id i : ℕ) (keys : List Block) (choices : List Bool)
      → randomize_msgs id i (correlated delta keys choices)
        ≡ zip_with chosen (randomize_keys delta id i keys) choices
  unfolding randomize_msgs randomize_keys
  randomize_msgs-chosen delta id i [] choices = refl
  randomize_msgs-chosen delta id i (k ∷ keys) [] = refl
  randomize_msgs-chosen delta id i (k ∷ keys) (c ∷ choices) =
      ap₂ (λ (x : Block) (t : List Block). x ∷ t) (one c)
        (randomize_msgs-chosen delta id (i + 1) keys choices)
    where
      one :
          (c : Bool)
          → tccr encrypt (tweak id i) (bitxor k (if c then delta else zero_block)) ≡ (
              if c then tccr encrypt (tweak id i) (bitxor k delta) else tccr encrypt (tweak id i) k)
      one true = refl
      one false =
          ap (tccr encrypt (tweak id i))
            (Bits_ext _ _ (λ i. simp bits (unfold xor in ground arith)))

  -- From matching outputs of a correlated transfer, for any permutation: the sender has two keys for each
  -- transfer, and the receiver's message is the one that its choice is for, under the same id.
  pub randomize_receiver-randomize_sender :
      (delta : Block) (n : ℕ) (o : SenderOutput) (o' : ReceiverOutput)
      → Matches delta n o o'
      → let sent = randomize_sender delta o in
        let got = randomize_receiver o' in
        (got.id ≡ sent.id)
        × (got.choices ≡ o'.choices)
        × (got.msgs ≡ zip_with chosen sent.keys got.choices)
  unfolding randomize_sender randomize_receiver
  randomize_receiver-randomize_sender delta n o o' m = (
    m.same_id,
    refl,
    ap₂ (λ (id : ℕ) (msgs : List Block). randomize_msgs id 0 msgs) m.same_id m.msgs
        ∙ randomize_msgs-chosen delta o.id 0 o.keys o'.choices,
  )

  -- `RandomizeRCOTSender::try_send_rot` and `RandomizeRCOTReceiver::try_recv_rot`.
  unfoldable pub try_send_rot :
      {T E : Type 0} → RcotSender T E → T → ℕ → Outcome E (RotSenderOutput × T)
  unfolding randomize_sender
  try_send_rot rcot t count = do
    sent ← rcot.try_send_rcot t count
    ok (randomize_sender (rcot.delta t) (record { id = sent.0.0; keys = sent.0.1 }), sent.1)

  unfoldable pub try_recv_rot :
      {T E : Type 0} → RcotReceiver T E → T → ℕ → Outcome E (RotReceiverOutput × T)
  unfolding randomize_receiver
  try_recv_rot rcot t count = do
    got ← rcot.try_recv_rcot t count
    ok (randomize_receiver (record { id = got.0.0; choices = got.0.1; msgs = got.0.2 }), got.1)
