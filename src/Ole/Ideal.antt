-- ===== src/Ole/Ideal.antt =====
-- The parties of `crates/ole-core` over the ideal random transfers: what is allocated is there after a flush, which
-- `flush` of `crates/ole/src/sender.rs` and the tests of `crates/ole-core/src/lib.rs` make before `send`.
use mpz.Prelude.{
  ℕ, ◌+◌, ◌*◌, ◌≤◌, ◌<◌, ◌≡◌, refl, sym, ap, ◌∙◌, Bool, false, ◌&&◌, [], ◌==◌, ==_iff, lt→ltb,
  length, length-append, some, ok, arith, ℕ-cases, inl, inr, ◌⊎◌,
}
use native.Mathlib.Nat.{add-mul}
use mpz.Block.{Block}
use mpz.Field.{Field, IsField}
use mpz.Rcot as Rcot
use mpz.Rcot.{
  IdealSender, IdealReceiver, FlushMsg, Ideal, generate_keys, flush, sender_flush, receiver_flush,
  sender_fulfill, receiver_fulfill, is_empty,
}
use mpz.Rcot.Steps.{grown_sender, grown_receiver, length-generate_keys}
use mpz.Rcot.Calls.{Sound, flush-nothing}
use mpz.Rcot.Reach.{Reached, allocated, flushed_out, Reached-Sound}
use mpz.Ole.Parties.{OleSender, OleReceiver, sender_alloc, receiver_alloc}
use mpz.Ole.Transfer.{Paired, IsServed, recv-send}
use mpz.Ole.Any.{
  randomized_sender, randomized_receiver, Ready, sends, receives, try_recv_rot-try_send_rot,
}

module _ {R : Type 0} (random : R → Bool × R) where
  flush-grown :
      (i : Ideal random)
      → Sound i
      → 0 < i.0.pending
      → i.0.queue ≡ []
      → flush random i ≡ ok (([], []), (grown_sender random i.0, grown_receiver random i.0 i.1))
  unfolding flush sender_flush receiver_flush sender_fulfill receiver_fulfill
  flush-grown i s pending empty =
      let msg : FlushMsg = record {
        seed = i.0.seed;
        offset = i.0.offset;
        count = i.0.pending;
        delta = i.0.delta;
      } in
      let empty' : i.1.queue ≡ [] = s.paired.same_queue ∙ empty in
      let some_pending : (i.0.pending == 0 && is_empty i.0.queue) ≡ false = ground arith in
      let sent : sender_flush i.0 ≡ ok (some msg, [], grown_sender random i.0) =
        rw (some_pending, lt→ltb 0 i.0.pending pending, sender_flush, empty) refl in
      let got : receiver_flush random i.1 msg ≡ ok ([], grown_receiver random i.0 i.1) =
        rw ((==_iff i.0.pending i.1.pending).1 (sym s.paired.same_pending), receiver_flush, empty')
          refl in
      rw (sent, got)

  -- With nothing queued, a flush makes available what was allocated.
  flush-Ready :
      (n : ℕ) (i : Ideal random)
      → Reached random i
      → i.0.queue ≡ []
      → n ≤ length i.0.keys + i.0.pending
      → (i' : Ideal random) × (flush random i ≡ ok (([], []), i')) × Ready n i'.0 i'.1
  flush-Ready n i reached empty enough = elim (ℕ-cases i.0.pending) [
    | inl none_pending ↦ (
      i,
      flush-nothing random i none_pending empty,
      record { sound = Reached-Sound random reached; enough = omega arith },
    )
    | inr pending ↦
        (let returns = flush-grown i (Reached-Sound random reached) pending empty in
          (
            (grown_sender random i.0, grown_receiver random i.0 i.1),
            returns,
            record {
              sound = Reached-Sound random (flushed_out i _ ([], []) reached returns);
              enough = omega (
                arith,
                enough,
                length-append i.0.keys (generate_keys i.0.seed i.0.offset 0 i.0.pending),
                length-generate_keys random i.0.seed i.0.offset 0 i.0.pending,
              );
            },
          ))
  ]

module _ {F R P : Type 0} {field : Field F} (L : IsField field) (positive : 0 < field.bit_size)
    (encrypt : Block → Block) (random : R → Bool × R) (sample : Block → F) (draw : P → F × P) where
  -- Over a field with at least one bit, and the ideal random transfers, randomized and sampled as field elements:
  -- for parties that agree, over transfers that are in a reached state, with nothing queued at the transfers and as
  -- many of them available or pending as the parties have allocated, whatever is queued at the parties: both can
  -- allocate as much as their queue asks for, on top of what is allocated, the flush of the transfers returns, and the next message serves the
  -- whole queue of both with shares of products and leaves them agreeing.
  pub sender_alloc-IsServed :
      (s : OleSender IdealSender F P) (r : OleReceiver (IdealReceiver R) F)
      → Paired field s r
      → Reached random (s.rot, r.rot)
      → s.rot.queue ≡ []
      → s.alloc * field.bit_size ≤ length s.rot.keys + s.rot.pending
      → (s' : OleSender IdealSender F P) × (r' : OleReceiver (IdealReceiver R) F) × (i : Ideal
          random)
        × (sender_alloc field (sends encrypt random sample) draw s s.pending ≡ ok s')
        × (receiver_alloc field (receives encrypt random sample) r s.pending ≡ ok r')
        × (s'.alloc ≡ s.alloc + s.pending)
        × (s'.queue ≡ s.queue)
        × (flush random (s'.rot, r'.rot) ≡ ok (([], []), i))
        × IsServed field
            (sends encrypt random sample)
            (receives encrypt random sample)
            draw
            (record s' { rot = i.0 })
            (record r' { rot = i.1 })
  unfolding sender_alloc receiver_alloc randomized_sender randomized_receiver
  sender_alloc-IsServed s r p reached empty enough =
      let count = s.pending * field.bit_size in
      let bits = (s.alloc + s.pending) * field.bit_size in
      let (i, flushed, ready) =
        flush-Ready random bits _ (allocated (s.rot, r.rot) count reached) empty
          (omega (arith, enough, add-mul s.alloc s.pending field.bit_size)) in
      let more = Rcot.alloc random (s.rot, r.rot) count in
      let s' = record s { rot = more.0; alloc = s.alloc + s.pending } in
      let r' = record r { rot = more.1; alloc = r.alloc + s.pending } in
      let p' : Paired field (record s' { rot = i.0 }) (record r' { rot = i.1 }) = record {
        same_id = p.same_id;
        same_alloc = ap (λ n. n + s.pending) p.same_alloc;
        same_pending = p.same_pending;
        same_queue = p.same_queue;
        counted = p.counted;
        role = p.role;
      } in
      (
        s',
        r',
        i,
        refl,
        refl,
        refl,
        refl,
        flushed,
        served _ _ (omega arith) (
            recv-send field L positive (sends encrypt random sample)
              (receives encrypt random sample) draw Ready
              (try_recv_rot-try_send_rot encrypt random sample) _ _ p' ready),
      )
    where
      served :
          (s' : OleSender IdealSender F P) (r' : OleReceiver (IdealReceiver R) F) {B C : Type 0}
          → s'.pending ≤ s'.alloc
          → IsServed field (sends encrypt random sample) (receives encrypt random sample) draw s' r'
            ⊎ ((s'.alloc < s'.pending) × B × C)
          → IsServed field (sends encrypt random sample) (receives encrypt random sample) draw s' r'
      served s' r' fits (inl done) = done
      served s' r' fits (inr (short, _, _)) = absurd (omega (arith, short, fits))
