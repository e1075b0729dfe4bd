-- ===== src/Ole/Tests.antt =====
-- Oblivious linear evaluations over the field of one bit.
use mpz.Prelude.{
  ℕ, ◌+◌, ◌<◌, ◌≡◌, ◌⊎◌, not, List, length, replicate, length-replicate, ok, err, arith, refl, Bool,
  true, false, xor, [], ◌∷◌,
}
use mpz.Field.Gf2.{gf2, gf2-IsField}
use mpz.Ole.{OleShare}
use mpz.Ole.Correct.{IsOle, received}
use mpz.Ole.Parties.{
  RotSender, RotReceiver, OleSender, OleReceiver, insufficient_ole, sender_alloc, receiver_alloc,
  send, recv,
}
use mpz.Block.{Block, bitxor, be_bytes, set_lsb, lsb}
use mpz.Rcot.{IdealSender, IdealReceiver, Ideal, new_ideal, flush}
use mpz.Rcot.Reach.{created}
use mpz.Ole.Any as Any
use mpz.Ole.Ideal.{sender_alloc-IsServed}
use mpz.Ole.Transfer.{Paired, IsServed, recv-send}
use mpz.Ole.Adjust.{adjust, offset, sender_finish, receiver_finish, receiver_finish-IsOle}

abbrev pub sender_share : OleShare Bool
sender_share = record { add = true; mul = true }

abbrev pub receiver_share : OleShare Bool
receiver_share = record { add = false; mul = true }

pub shares-IsOle : IsOle gf2 sender_share receiver_share
unfolding gf2 xor
shares-IsOle = refl

receiver_finish-IsOle_example :
    IsOle gf2
      (sender_finish gf2
        (adjust gf2 sender_share false)
        (offset gf2 (adjust gf2 receiver_share true)))
      (receiver_finish gf2
        (adjust gf2 receiver_share true)
        (offset gf2 (adjust gf2 sender_share false)))
receiver_finish-IsOle_example =
    receiver_finish-IsOle gf2-IsField sender_share receiver_share false true shares-IsOle

-- Random transfers of one pair and one choice, over and over.
abbrev pairs : ℕ → List (Bool × Bool)
pairs n = replicate n (true, false)

abbrev choices : ℕ → List Bool
choices n = replicate n true

abbrev sends : RotSender ℕ Bool Bool
sends = record { alloc = λ t n. ok (t + n); try_send_rot = λ t n. ok ((0, pairs n), t) }

abbrev receives : RotReceiver ℕ Bool Bool
receives = record {
  alloc = λ t n. ok (t + n);
  try_recv_rot = λ t n. ok ((0, choices n, received (choices n) (pairs n)), t);
}

abbrev Linked : ℕ → ℕ → ℕ → Type 0
Linked n t t' = Unit {0}

transfers :
    (n t t' : ℕ)
    → Linked n t t'
    → (id : ℕ) × (masks : List (Bool × Bool)) × (u : ℕ) × (id' : ℕ) × (bits : List Bool) × (u' : ℕ)
      × (sends.try_send_rot t n ≡ ok ((id, masks), u))
      × (receives.try_recv_rot t' n ≡ ok ((id', bits, received bits masks), u'))
      × (length masks ≡ n)
      × (length bits ≡ n)
transfers n t t' linked = (
  0,
  pairs n,
  t,
  0,
  choices n,
  t',
  refl,
  refl,
  length-replicate n (true, false),
  length-replicate n true,
)

abbrev flip : Bool → Bool × Bool
flip b = (b, not b)

abbrev sender : OleSender ℕ Bool Bool
sender = record {
  id = 4;
  alloc = 2;
  pending = 1;
  queue = 1 ∷ [];
  rot = 0;
  prg = true;
  role = sender_share ∷ [];
}

abbrev receiver : OleReceiver ℕ Bool
receiver = record {
  id = 4;
  alloc = 2;
  pending = 1;
  queue = 1 ∷ [];
  rot = 0;
  role = receiver_share ∷ [];
}

one_bit : 0 < gf2.bit_size
unfolding gf2
one_bit = omega arith

paired : Paired gf2 sender receiver
paired = record {
  same_id = refl;
  same_alloc = refl;
  same_pending = refl;
  same_queue = refl;
  counted = refl;
  role = (shares-IsOle, tt);
}

recv-send_example :
    IsServed gf2 sends receives flip sender receiver
    ⊎ ((2 < 1)
        × (send gf2 sends flip sender ≡ err (insufficient_ole 1 2))
        × ((sent : List (List Bool))
            → recv gf2 receives receiver sent ≡ err (insufficient_ole 1 2)))
recv-send_example =
    recv-send gf2 gf2-IsField one_bit sends receives flip Linked transfers sender receiver paired tt

-- The ideal transfers, new, with the lowest bits of blocks as field elements.
abbrev transfer_bits : Ideal {R = Bool} (λ b. (b, not b))
transfer_bits = new_ideal (λ b. (b, not b)) (be_bytes 5) (set_lsb true (be_bytes 6)) true

abbrev bit_sender : OleSender IdealSender Bool Bool
bit_sender = record {
  id = 0;
  alloc = 0;
  pending = 3;
  queue = 1 ∷ 2 ∷ [];
  rot = transfer_bits.0;
  prg = true;
  role = sender_share ∷ [];
}

abbrev bit_receiver : OleReceiver (IdealReceiver Bool) Bool
bit_receiver = record {
  id = 0;
  alloc = 0;
  pending = 3;
  queue = 1 ∷ 2 ∷ [];
  rot = transfer_bits.1;
  role = receiver_share ∷ [];
}

-- A permutation in place of AES.
abbrev mask : Block → Block
mask b = bitxor b (be_bytes 77)

sender_alloc-IsServed_example :
    (s' : OleSender IdealSender Bool Bool) × (r' : OleReceiver (IdealReceiver Bool) Bool)
    × (i : Ideal {R = Bool} (λ b. (b, not b))) × (sender_alloc gf2
          (Any.sends mask (λ b. (b, not b)) lsb)
          flip
          bit_sender
          3
        ≡ ok s')
    × (receiver_alloc gf2 (Any.receives mask (λ b. (b, not b)) lsb) bit_receiver 3 ≡ ok r')
    × (s'.alloc ≡ 0 + 3)
    × (s'.queue ≡ 1 ∷ 2 ∷ [])
    × (flush (λ b. (b, not b)) (s'.rot, r'.rot) ≡ ok (([], []), i))
    × IsServed gf2
        (Any.sends mask (λ b. (b, not b)) lsb)
        (Any.receives mask (λ b. (b, not b)) lsb)
        flip
        (record s' { rot = i.0 })
        (record r' { rot = i.1 })
sender_alloc-IsServed_example =
    sender_alloc-IsServed gf2-IsField one_bit mask (λ b. (b, not b)) lsb flip bit_sender
      bit_receiver
      (record {
        same_id = refl;
        same_alloc = refl;
        same_pending = refl;
        same_queue = refl;
        counted = refl;
        role = (shares-IsOle, tt);
      })
      (created (be_bytes 5) (set_lsb true (be_bytes 6)) true) refl (omega arith)
