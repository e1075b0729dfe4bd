-- ===== src/Rcot/Paired.antt =====
-- What ties the two parties of the ideal functionality (`crates/ot-core/src/ideal/rcot.rs`): the receiver's
-- messages are the sender's keys, each offset by delta where the receiver's choice is 1.
use mpz.Prelude.{
  ℕ, zero, suc, ◌+◌, ◌-◌, ◌≤◌, ◌<◌, ◌≡◌, refl, ap, ◌∙◌, Bool, List, [], ◌∷◌, ◌++◌, length, take,
  drop, le→leb, ok, arith, length-take, length-drop, if◌then◌else◌,
}
use mpz.Block.{Block, bitxor, zero_block}
use mpz.Cot.Correct.{correlated}
use mpz.Rcot.{
  IdealSender, IdealReceiver, SenderOutput, ReceiverOutput, send_output, receive_output, next_id,
  checked_sub, split_off,
}

-- Every queued count is more than is available.
abbrev pub AllAbove : ℕ → List ℕ → Type 0
AllAbove n [] = Unit {0}
AllAbove n (count ∷ queue) = (n < count) × AllAbove n queue

pub record Paired {R : Type 0} (s : IdealSender) (r : IdealReceiver R) : Type 0 where
  pub msgs : r.msgs ≡ correlated s.delta s.keys r.choices
  pub same_length : length r.choices ≡ length s.keys
  pub same_pending : r.pending ≡ s.pending
  pub same_queue : r.queue ≡ s.queue
  pub same_id : r.transfer_id ≡ s.transfer_id

-- The two outputs of a transfer of `n`.
pub record Matches (delta : Block) (n : ℕ) (o : SenderOutput) (o' : ReceiverOutput) : Type 0 where
  pub same_id : o'.id ≡ o.id
  pub msgs : o'.msgs ≡ correlated delta o.keys o'.choices
  pub keys_count : length o.keys ≡ n
  pub choices_count : length o'.choices ≡ n

module _ (delta : Block) where
  drop-correlated :
      (n : ℕ) (keys : List Block) (choices : List Bool)
      → drop n (correlated delta keys choices) ≡ correlated delta (drop n keys) (drop n choices)
  drop-correlated zero keys choices = refl
  drop-correlated (suc n) [] choices = refl
  drop-correlated (suc n) (k ∷ keys) [] = no_choices (drop n keys)
    where
      no_choices : (ks : List Block) → [] ≡ correlated delta ks []
      no_choices [] = refl
      no_choices (k ∷ ks) = refl
  drop-correlated (suc n) (k ∷ keys) (c ∷ choices) = drop-correlated n keys choices

  take-correlated :
      (n : ℕ) (keys : List Block) (choices : List Bool)
      → take n (correlated delta keys choices) ≡ correlated delta (take n keys) (take n choices)
  take-correlated zero keys choices = refl
  take-correlated (suc n) [] choices = refl
  take-correlated (suc n) (k ∷ keys) [] = refl
  take-correlated (suc n) (k ∷ keys) (c ∷ choices) =
      ap (λ (t : List Block). bitxor k (if c then delta else zero_block) ∷ t)
        (take-correlated n keys choices)

  pub correlated-append :
      (keys keys' : List Block) (choices choices' : List Bool)
      → length choices ≡ length keys
      → correlated delta (keys ++ keys') (choices ++ choices')
        ≡ correlated delta keys choices ++ correlated delta keys' choices'
  correlated-append [] keys' [] choices' h = refl
  correlated-append [] keys' (c ∷ choices) choices' h = absurd (omega arith)
  correlated-append (k ∷ keys) keys' [] choices' h = absurd (omega arith)
  correlated-append (k ∷ keys) keys' (c ∷ choices) choices' h =
      ap (λ (t : List Block). bitxor k (if c then delta else zero_block) ∷ t)
        (correlated-append keys keys' choices choices' (omega arith))

  pub length-correlated :
      (keys : List Block) (choices : List Bool)
      → length choices ≡ length keys
      → length (correlated delta keys choices) ≡ length keys
  length-correlated [] choices h = refl
  length-correlated (k ∷ keys) [] h = absurd (omega arith)
  length-correlated (k ∷ keys) (c ∷ choices) h =
      ap suc (length-correlated keys choices (omega arith))

pub record OutputPair {R : Type 0} (random : R → Bool × R) (n : ℕ) (s : IdealSender)
    (r : IdealReceiver R) : Type 0 where
  pub o : SenderOutput
  pub s' : IdealSender
  pub o' : ReceiverOutput
  pub r' : IdealReceiver R
  pub sent : send_output s n ≡ ok (o, s')
  pub got : receive_output random r n ≡ ok (o', r')
  pub matches : Matches s.delta n o o'
  pub paired : Paired s' r'
  pub same_delta : s'.delta ≡ s.delta
  pub keys_left : length s'.keys + n ≡ length s.keys
  pub same_queue : s'.queue ≡ s.queue

module _ {R : Type 0} (random : R → Bool × R) where
  -- Paired parties that have `n` transfers give matching outputs, and stay paired.
  pub output_pair :
      (n : ℕ) (s : IdealSender) (r : IdealReceiver R)
      → Paired s r
      → n ≤ length s.keys
      → OutputPair random n s r
  unfolding send_output receive_output
  output_pair n s r p enough =
      let at = length s.keys - n in
      let same_at : length r.choices - n ≡ at = omega (arith, p.same_length) in
      let msgs_len : length r.msgs ≡ length s.keys =
        ap length p.msgs ∙ length-correlated s.delta s.keys r.choices p.same_length in
      record {
        o = record { id = s.transfer_id; keys = drop at s.keys };
        s' = record s { keys = take at s.keys; transfer_id = next_id s.transfer_id };
        o' = record { id = r.transfer_id; choices = drop at r.choices; msgs = drop at r.msgs };
        r' = record r {
          choices = take at r.choices;
          msgs = take at r.msgs;
          transfer_id = next_id r.transfer_id;
        };
        sent = rw (
          le→leb n (length s.keys) enough,
          le→leb at (length s.keys) (omega arith),
          send_output,
          checked_sub,
          split_off,
        );
        got = rw (
          le→leb n (length r.choices) (omega (arith, p.same_length)),
          same_at,
          le→leb at (length r.choices) (omega (arith, p.same_length)),
          le→leb at (length r.msgs) (omega (arith, msgs_len)),
          receive_output,
          checked_sub,
          split_off,
          same_at,
        );
        matches = record {
          same_id = p.same_id;
          msgs = ap (drop at) p.msgs ∙ drop-correlated s.delta at s.keys r.choices;
          keys_count = omega (arith, length-drop at s.keys);
          choices_count = omega (arith, length-drop at r.choices, p.same_length);
        };
        paired = record {
          msgs = ap (take at) p.msgs ∙ take-correlated s.delta at s.keys r.choices;
          same_length =
              length-take at r.choices ∙ omega (arith, p.same_length, length-take at s.keys);
          same_pending = p.same_pending;
          same_queue = p.same_queue;
          same_id = ap next_id p.same_id;
        };
        same_delta = refl;
        keys_left = omega (arith, length-take at s.keys);
        same_queue = refl;
      }
