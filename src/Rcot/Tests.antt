-- ===== src/Rcot/Tests.antt =====
-- Runs of the ideal random transfers, with a generator that counts.
use mpz.Prelude.{
  total, ℕ, ◌+◌, ◌%◌, ◌^◌, ◌≤◌, ◌<◌, ◌≡◌, refl, Bool, true, false, List, [], ◌∷◌, some, length,
  ◌==◌, ok, err, panic, zip_with,
}
use mpz.Block.{Block, be_bytes, bitxor}
use mpz.Cot.Correct.{correlated}
use mpz.Rcot.{
  SenderOutput, ReceiverOutput, not_enough, Ideal, new_ideal, alloc, flush, transfer, sender_flush,
  receiver_flush, sender_fulfill, receiver_fulfill, generate_keys, to_le_bytes, from_le_bytes,
}
use mpz.Rcot.Paired.{Matches}
use mpz.Rcot.Steps.{AllMatch}
use mpz.Rcot.Calls.{Sound}
use mpz.Rcot.Reach.{Reached, Reached-Sound, transfer-cases, flush-cases}
use mpz.Rcot.Randomize.{
  randomize_sender, randomize_receiver, chosen, randomize_receiver-randomize_sender,
}

abbrev count_bits : ℕ → Bool × ℕ
count_bits r = (r % 2 == 1, r + 1)

abbrev delta : Block
delta = be_bytes 1234

abbrev keys : List Block
keys = be_bytes 7 ∷ be_bytes 8 ∷ []

abbrev fresh : Ideal count_bits
fresh = new_ideal count_bits (be_bytes 5) delta 0

abbrev allocated : Ideal count_bits
allocated = alloc count_bits fresh 2

allocated-Reached : Reached count_bits allocated
allocated-Reached = Reached.allocated fresh 2 (Reached.created (be_bytes 5) delta 0)

-- The first two keys of the seed.
abbrev keys_0 : Block
keys_0 = to_le_bytes (((from_le_bytes (be_bytes 5) + 0) % 2 ^ 128 + 0) % 2 ^ 128)

abbrev keys_1 : Block
keys_1 = to_le_bytes (((from_le_bytes (be_bytes 5) + 0) % 2 ^ 128 + (0 + 1)) % 2 ^ 128)

abbrev ready : Ideal count_bits
ready = (
  record {
    delta = delta;
    seed = be_bytes 5;
    offset = 2;
    pending = 0;
    keys = keys_0 ∷ keys_1 ∷ [];
    queue = [];
    transfer_id = 0;
  },
  record {
    rng = 2;
    pending = 0;
    choices = false ∷ true ∷ [];
    msgs = keys_0 ∷ bitxor keys_1 delta ∷ [];
    queue = [];
    transfer_id = 0;
    delta = some delta;
  },
)

ready-Reached : Reached count_bits ready
unfolding flush sender_flush receiver_flush sender_fulfill receiver_fulfill generate_keys
ready-Reached = Reached.flushed_out allocated ready ([], []) allocated-Reached refl

transfer-cases_example :
    (2 ≤ length ready.0.keys
      → (o : SenderOutput) × (o' : ReceiverOutput) × (i' : Ideal count_bits) × (transfer count_bits
            ready 2
          ≡ ok ((o, o'), i'))
        × Matches ready.0.delta 2 o o')
    × (length ready.0.keys < 2
        → transfer count_bits ready 2 ≡ err (not_enough (length ready.0.keys) 2))
transfer-cases_example = transfer-cases count_bits 2 ready-Reached

flush-cases_example :
    (0 < allocated.0.pending
      → total allocated.0.queue ≤ length allocated.0.keys + allocated.0.pending
      → (outs : List SenderOutput) × (outs' : List ReceiverOutput) × (i' : Ideal count_bits)
        × (flush count_bits allocated ≡ ok ((outs, outs'), i'))
        × AllMatch allocated.0.delta allocated.0.queue outs outs')
    × (allocated.0.pending ≡ 0
        → allocated.0.queue ≡ []
        → flush count_bits allocated ≡ ok (([], []), allocated))
    × (length allocated.0.keys + allocated.0.pending < total allocated.0.queue
        → flush count_bits allocated ≡ panic)
flush-cases_example = flush-cases count_bits allocated-Reached

Reached-Sound_example : Sound allocated
Reached-Sound_example = Reached-Sound count_bits allocated-Reached

-- Two transfers that both parties hold.
abbrev sent : SenderOutput
sent = record { id = 4; keys = keys }

abbrev got : ReceiverOutput
got = record {
  id = 4;
  choices = false ∷ true ∷ [];
  msgs = correlated delta keys (false ∷ true ∷ []);
}

abbrev mask : Block → Block
mask b = bitxor b (be_bytes 77)

randomize_receiver-randomize_sender_example :
    let s = randomize_sender mask delta sent in
    let g = randomize_receiver mask got in
    (g.id ≡ s.id) × (g.choices ≡ got.choices) × (g.msgs ≡ zip_with (chosen mask) s.keys g.choices)
randomize_receiver-randomize_sender_example =
    randomize_receiver-randomize_sender mask delta 2 sent got
      (record { same_id = refl; msgs = refl; keys_count = refl; choices_count = refl })
