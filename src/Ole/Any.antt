-- ===== src/Ole/Any.antt =====
-- Random transfers of field elements for the parties of `crates/ole-core`: `crates/ot-core/src/rot/any.rs` and
-- `rot/randomize.rs` over the ideal transfers of `ideal/rcot.rs`. What `Prg::new_with_seed(block).random()` draws is
-- the parameter `sample`.
use mpz.Prelude.{
  ℕ, suc, ◌+◌, ◌≤◌, ◌≡◌, refl, ap, ◌∙◌, Bool, true, false, List, [], ◌∷◌, length, map, zip_with, ok,
  ◌>>=◌, length-map,
}
use mpz.Block.{Block}
use mpz.Rcot.{
  IdealSender, IdealReceiver, RcotError, sender_alloc, receiver_alloc, ideal_sender, ideal_receiver,
}
use mpz.Rcot.Randomize.{
  chosen, randomize_keys, randomize_sender, randomize_receiver, randomize_receiver-randomize_sender,
  try_send_rot, try_recv_rot,
}
use mpz.Rcot.Calls.{Sound, transferred}
use mpz.Ole.Correct.{received}
use mpz.Ole.Parties.{RotSender, RotReceiver}

-- `map_sender` and `map_receiver`.
abbrev pub map_sender : {F : Type 0} → (Block → F) → ℕ × List (Block × Block) → ℕ × List (F × F)
map_sender sample output =
    (output.0, map (λ (k : Block × Block). (sample k.0, sample k.1)) output.1)

abbrev pub map_receiver :
    {F : Type 0} → (Block → F) → ℕ × List Bool × List Block → ℕ × List Bool × List F
map_receiver sample output = (output.0, output.1, map sample output.2)

module _ {T E F : Type 0} (sample : Block → F) where
  -- `AnySender` and `AnyReceiver`.
  abbrev pub any_sender : RotSender T E Block → RotSender T E F
  any_sender rot = record {
    alloc = rot.alloc;
    try_send_rot = λ t count. do
      sent ← rot.try_send_rot t count
      ok (map_sender sample sent.0, sent.1);
  }

  abbrev pub any_receiver : RotReceiver T E Block → RotReceiver T E F
  any_receiver rot = record {
    alloc = rot.alloc;
    try_recv_rot = λ t count. do
      got ← rot.try_recv_rot t count
      ok (map_receiver sample got.0, got.1);
  }

module _ {R : Type 0} (encrypt : Block → Block) (random : R → Bool × R) where
  -- `RandomizeRCOTSender` and `RandomizeRCOTReceiver` over the ideal functionality.
  unfoldable pub randomized_sender : RotSender IdealSender RcotError Block
  unfolding try_send_rot ideal_sender
  randomized_sender = record {
    alloc = λ t count. ok (sender_alloc t count);
    try_send_rot = λ t count. do
      sent ← try_send_rot encrypt (ideal_sender random) t count
      ok ((sent.0.id, sent.0.keys), sent.1);
  }

  unfoldable pub randomized_receiver : RotReceiver (IdealReceiver R) RcotError Block
  unfolding try_recv_rot ideal_receiver
  randomized_receiver = record {
    alloc = λ t count. ok (receiver_alloc random t count);
    try_recv_rot = λ t count. do
      got ← try_recv_rot encrypt (ideal_receiver random) t count
      ok ((got.0.id, got.0.choices, got.0.msgs), got.1);
  }

map-received :
    {F : Type 0} (sample : Block → F) (keys : List (Block × Block)) (choices : List Bool)
    → map sample (zip_with (chosen (λ b. b)) keys choices)
      ≡ received choices (map (λ (k : Block × Block). (sample k.0, sample k.1)) keys)
map-received sample [] [] = refl
map-received sample [] (c ∷ choices) = refl
map-received sample (k ∷ keys) [] = refl
map-received sample (k ∷ keys) (true ∷ choices) =
    ap (λ t. sample k.1 ∷ t) (map-received sample keys choices)
map-received sample (k ∷ keys) (false ∷ choices) =
    ap (λ t. sample k.0 ∷ t) (map-received sample keys choices)

length-randomize_keys :
    (encrypt : Block → Block) (delta : Block) (id i : ℕ) (keys : List Block)
    → length (randomize_keys encrypt delta id i keys) ≡ length keys
unfolding randomize_keys
length-randomize_keys encrypt delta id i [] = refl
length-randomize_keys encrypt delta id i (k ∷ keys) =
    ap suc (length-randomize_keys encrypt delta id (i + 1) keys)

-- Parties of the ideal transfers that have as many of them.
pub record Ready {R : Type 0} (n : ℕ) (t : IdealSender) (t' : IdealReceiver R) : Type 0 where
  pub sound : Sound (t, t')
  pub enough : n ≤ length t.keys

module _ {R F : Type 0} (encrypt : Block → Block) (random : R → Bool × R) (sample : Block → F) where
  abbrev pub sends : RotSender IdealSender RcotError F
  sends = any_sender sample (randomized_sender encrypt random)

  abbrev pub receives : RotReceiver (IdealReceiver R) RcotError F
  receives = any_receiver sample (randomized_receiver encrypt random)

  -- A transfer of what they have gives as many pairs and choices, and the elements chosen of the pairs.
  pub try_recv_rot-try_send_rot :
      (n : ℕ) (t : IdealSender) (t' : IdealReceiver R)
      → Ready n t t'
      → (id : ℕ) × (masks : List (F × F)) × (u : IdealSender) × (id' : ℕ) × (choices : List Bool)
        × (u' : IdealReceiver R) × (sends.try_send_rot t n ≡ ok ((id, masks), u))
        × (receives.try_recv_rot t' n ≡ ok ((id', choices, received choices masks), u'))
        × (length masks ≡ n)
        × (length choices ≡ n)
  unfolding randomized_sender randomized_receiver try_send_rot try_recv_rot ideal_sender
      ideal_receiver randomize_sender randomize_receiver
  try_recv_rot-try_send_rot n t t' ready =
      let d = transferred random n (t, t') ready.sound ready.enough in
      let keys = randomize_keys encrypt t.delta d.o.id 0 d.o.keys in
      let (same_id, _, msgs) =
        randomize_receiver-randomize_sender encrypt t.delta n d.o d.o' d.matches in
      (
        d.o.id,
        map (λ (k : Block × Block). (sample k.0, sample k.1)) keys,
        d.i'.0,
        d.o'.id,
        d.o'.choices,
        d.i'.1,
        rw d.sender_returns refl,
        rw (d.receiver_returns) (
            ap (λ (m : List F). ok ((d.o'.id, d.o'.choices, m), d.i'.1))
              (ap (map sample) msgs ∙ map-received sample keys d.o'.choices)),
        length-map keys _
            ∙ length-randomize_keys encrypt t.delta d.o.id 0 d.o.keys
            ∙ d.matches.keys_count,
        d.matches.choices_count,
      )
