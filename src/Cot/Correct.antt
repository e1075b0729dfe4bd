-- ===== src/Cot/Correct.antt =====
-- A run of the derandomization of `crates/ot-core/src/cot/derandomize.rs`.
use mpz.Prelude.{
  ℕ, suc, ◌+◌, ◌-◌, ◌≡◌, refl, ◌∙◌, ap, ap₂, Bool, false, xor, List, [], ◌∷◌, length, take,
  zip_with, ltb, le→leb, ==_iff, if◌then◌else◌, copy_at, overwrite, slice_at, slice_at_in_range,
  Outcome, ok, ◌>>=◌, arith,
}
use mpz.Block.{Block, bitxor, zero_block}
use mpz.Block.Laws.{Bits_ext, bits}
use mpz.Cot.{
  RcotSender, RcotReceiver, CotError, CotOutput, zip_update, zip, DerandCotSender,
  DerandCotReceiver, adjust_one, send_loop, send_adjust, recv_loop, recv_adjust, receive_loop,
  receive,
}

-- The messages of a correlated transfer: each key, offset by delta if the choice is 1.
abbrev pub correlated : Block → List Block → List Bool → List Block
correlated delta keys choices =
    zip_with (λ key choice. bitxor key (if choice then delta else zero_block)) keys choices

-- A run: the receiver's flips, the sender's adjustments, and the receiver's outputs.
unfoldable pub run :
    {S T E : Type 0}
    → RcotSender S E
    → RcotReceiver T E
    → DerandCotSender S
    → DerandCotReceiver T
    → Outcome (CotError E) (List CotOutput)
run send recv s r = do
  flips ← recv_adjust recv r
  adjusted ← send_adjust send s flips.0.0
  outputs ← receive recv flips.1 flips.0.1 flips.0.2 adjusted.0.0
  ok outputs.0

derandomize_one :
    (delta key rcot_key : Block) (choice mask : Bool)
    → bitxor
        (bitxor rcot_key (if mask then delta else zero_block))
        (bitxor (bitxor key rcot_key) (if xor choice mask then delta else zero_block))
      ≡ bitxor key (if choice then delta else zero_block)
unfolding xor
derandomize_one delta key rcot_key choice mask = Bits_ext _ _ (λ i. simp bits (ground arith))

-- The flips that the receiver sends, and the adjustments of the sender.
abbrev flips_of : List Bool → List Bool → List Bool
flips_of choices masks = zip_update (λ choice mask. xor choice mask) choices masks

derandomize-correlated :
    {T E : Type 0} (send : RcotSender T E) (delta : Block) (keys rcot_keys : List Block)
    (choices masks : List Bool)
    → length rcot_keys ≡ length keys
    → length choices ≡ length keys
    → length masks ≡ length keys
    → zip_update
        (λ msg a. bitxor msg a)
        (correlated delta rcot_keys masks)
        (zip_update (adjust_one send delta) keys (zip (flips_of choices masks) rcot_keys))
      ≡ correlated delta keys choices
derandomize-correlated send delta [] [] [] [] a b c = refl
derandomize-correlated send delta [] [] [] (m ∷ masks) a b c = absurd (omega arith)
derandomize-correlated send delta [] [] (x ∷ choices) masks a b c = absurd (omega arith)
derandomize-correlated send delta [] (k ∷ rcot_keys) choices masks a b c = absurd (omega arith)
derandomize-correlated send delta (k ∷ keys) [] choices masks a b c = absurd (omega arith)
derandomize-correlated send delta (k ∷ keys) (rk ∷ rcot_keys) [] masks a b c = absurd (omega arith)
derandomize-correlated send delta (k ∷ keys) (rk ∷ rcot_keys) (x ∷ choices) [] a b c =
    absurd (omega arith)
derandomize-correlated send delta (k ∷ keys) (rk ∷ rcot_keys) (x ∷ choices) (m ∷ masks) a b c =
    ap₂ (λ (h : Block) (t : List Block). h ∷ t) (derandomize_one delta k rk x m)
      (derandomize-correlated send delta keys rcot_keys choices masks (omega arith) (omega arith)
        (omega arith))

length-zip_update :
    {A B : Type 0} (f : A → B → A) (xs : List A) (ys : List B)
    → length (zip_update f xs ys) ≡ length xs
length-zip_update f [] ys = refl
length-zip_update f (x ∷ xs) [] = refl
length-zip_update f (x ∷ xs) (y ∷ ys) = ap suc (length-zip_update f xs ys)

take-length : {A : Type 0} (xs : List A) → take (length xs) xs ≡ xs
take-length [] = refl
take-length (x ∷ xs) = ap (λ (t : List _). x ∷ t) (take-length xs)

overwrite-zero : {A : Type 0} (xs ys : List A) → length ys ≡ length xs → overwrite xs 0 ys ≡ ys
overwrite-zero [] [] h = refl
overwrite-zero [] (y ∷ ys) h = absurd (omega arith)
overwrite-zero (x ∷ xs) [] h = absurd (omega arith)
overwrite-zero (x ∷ xs) (y ∷ ys) h = ap (λ (t : List _). y ∷ t) (overwrite-zero xs ys (omega arith))

-- The whole of a list, read and written.
slice_at-whole :
    {E A : Type 0} (xs : List A) (n : ℕ) → length xs ≡ n → slice_at {E = E} xs 0 (0 + n) ≡ ok xs
slice_at-whole xs n h =
    let all : 0 + n - 0 ≡ length xs = omega arith in
    slice_at_in_range xs 0 (0 + n) (omega arith) (omega arith)
    ∙ ap ok (ap (λ (k : ℕ). take k xs) all ∙ take-length xs)

copy_at-whole :
    {E A : Type 0} (xs : List A) (n : ℕ) (ys : List A)
    → length xs ≡ n
    → length ys ≡ n
    → copy_at {E = E} xs (record { start = 0; stop = 0 + n }) ys ≡ ok ys
copy_at-whole xs n ys h k =
    rw
      (
        le→leb 0 (0 + n) (omega arith),
        le→leb (0 + n) (length xs) (omega arith),
        (==_iff (length ys) (0 + n - 0)).1 (omega arith),
        copy_at,
      )
      (ap ok (overwrite-zero xs ys (omega arith)))

module _ {S T E : Type 0} (send : RcotSender S E) (recv : RcotReceiver T E) (n : ℕ)
    (keys rcot_keys : List Block) (choices masks : List Bool) (sent_id got_id : ℕ) (s0 s1 : S)
    (t0 t1 : T) (len_keys : length keys ≡ n) (len_rcot : length rcot_keys ≡ n)
    (len_choices : length choices ≡ n) (len_masks : length masks ≡ n)
    (sends : send.try_send_rcot s0 n ≡ ok ((sent_id, rcot_keys), s1))
    (enough : ltb (recv.available t0) n ≡ false)
    (receives : recv.try_recv_rcot t0 n
      ≡ ok ((got_id, masks, correlated (send.delta s0) rcot_keys masks), t1)) where
  received :
      recv_adjust recv (record { rcot = t0; derandomize = choices; queue = n ∷ [] })
      ≡ ok (
        (
          flips_of choices masks,
          record { id = got_id; msgs = correlated (send.delta s0) rcot_keys masks } ∷ [],
          0 + n,
        ),
        record { rcot = t1; derandomize = []; queue = n ∷ [] },
      )
  unfolding recv_adjust recv_loop
  received =
      rw
        (
          enough,
          receives,
          slice_at-whole {E = CotError E} choices n len_choices,
          copy_at-whole {E = CotError E} choices n (flips_of choices masks) len_choices
              (length-zip_update _ choices masks ∙ len_choices),
          recv_adjust,
          recv_loop,
        )
        refl

  sent :
      send_adjust send
        (record { rcot = s0; adjust = keys; queue = n ∷ [] })
        (flips_of choices masks)
      ≡ ok (
        (
          zip_update
              (adjust_one send (send.delta s0))
              keys
              (zip (flips_of choices masks) rcot_keys),
          sent_id ∷ [],
        ),
        record { rcot = s1; adjust = []; queue = [] },
      )
  unfolding send_adjust send_loop
  sent =
      let flips = flips_of choices masks in
      let len_flips : length flips ≡ n = length-zip_update _ choices masks ∙ len_choices in
      let adjusted = zip_update (adjust_one send (send.delta s0)) keys (zip flips rcot_keys) in
      rw
        (
          (==_iff (length flips) (length keys)).1 (omega arith),
          sends,
          slice_at-whole {E = CotError E} keys n len_keys,
          slice_at-whole {E = CotError E} flips n len_flips,
          copy_at-whole {E = CotError E} keys n adjusted len_keys
              (length-zip_update _ keys (zip flips rcot_keys) ∙ len_keys),
          send_adjust,
          send_loop,
        )
        refl

  -- One queued transfer of `n` keys and as many choices, for which both parties have `n` random
  -- transfers whose messages are correlated by the sender's delta: the run succeeds, and the receiver
  -- outputs the keys that were queued, each offset by delta where the choice that was queued is 1.
  pub run-correlated :
      run send recv
        (record { rcot = s0; adjust = keys; queue = n ∷ [] })
        (record { rcot = t0; derandomize = choices; queue = n ∷ [] })
      ≡ ok (record { id = got_id; msgs = correlated (send.delta s0) keys choices } ∷ [])
  unfolding run receive receive_loop
  run-correlated =
      let flips = flips_of choices masks in
      let adjusted = zip_update (adjust_one send (send.delta s0)) keys (zip flips rcot_keys) in
      let len_adjusted : length adjusted ≡ n =
        length-zip_update _ keys (zip flips rcot_keys) ∙ len_keys in
      rw
        (
          received,
          sent,
          (==_iff (length adjusted) (0 + n)).1 (omega arith),
          run,
          receive,
          derandomize-correlated send (send.delta s0) keys rcot_keys choices masks (omega arith)
              (omega arith) (omega arith),
        )
        refl
