-- ===== src/Ole/Transfer.antt =====
-- One transfer between the parties of `crates/ole-core/src/sender.rs` and `receiver.rs`.
use mpz.Prelude.{
  ℕ, ◌+◌, ◌*◌, ◌≤◌, ◌<◌, ◌≡◌, refl, sym, ◌∙◌, Bool, false, arith, List, [], ◌++◌, length,
  length-zip_with, length-append, ltb→lt, total, ltb, ==_iff, ok, err, Bool-cases, ◌⊎◌, inl, inr,
}
use mpz.Field.{Field, IsField}
use mpz.Zk.Check.{chunks_loop}
use mpz.Ole.{OleShare}
use mpz.Ole.Correct.{received}
use mpz.Ole.Shares.{AllOle, AllOle-append, Served, deliver-Served, shares-AllOle}
use mpz.Ole.Parties.{
  RotSender, RotReceiver, OleError, insufficient_ole, OleOutput, OleSender, OleReceiver, deliver,
  sender_shares, receiver_shares, send, recv,
}

module _ {F : Type 0} (field : Field F) where
  -- Both parties agree on what is to come, and the shares they keep make up OLEs.
  pub record Paired {T T' R : Type 0} (s : OleSender T F R) (r : OleReceiver T' F) : Type 0 where
    pub same_id : r.id ≡ s.id
    pub same_alloc : r.alloc ≡ s.alloc
    pub same_pending : r.pending ≡ s.pending
    pub same_queue : r.queue ≡ s.queue
    pub counted : s.pending ≡ total s.queue
    pub role : AllOle field s.role r.role

  -- A transfer that serves both queues, after which the parties agree again and keep all other shares.
  abbrev pub IsServed :
      {T T' E R : Type 0}
      → RotSender T E F
      → RotReceiver T' E F
      → (R → F × R)
      → OleSender T F R
      → OleReceiver T' F
      → Type 0
  IsServed {T} {T'} {E} {R} rot rot' random s r =
      (outs : List (OleOutput F)) × (sent : List (List F)) × (s' : OleSender T F R) × (outs' : List
        (OleOutput F))
      × (r' : OleReceiver T' F) × (send field rot random s ≡ ok (outs, sent, s'))
      × (recv field rot' r sent ≡ ok (outs', r'))
      × Served field s.queue outs outs'
      × Paired s' r'
      × (length s'.role + total s.queue ≡ length s.role + s.alloc)

  module _ {T T' E R : Type 0} (L : IsField field) (positive : 0 < field.bit_size)
      (rot : RotSender T E F) (rot' : RotReceiver T' E F) (random : R → F × R) where
    abbrev after_send : ℕ → T → R → List (OleShare F) → OleSender T F R
    after_send id u prg role = record {
      id = id;
      alloc = 0;
      pending = 0;
      queue = [];
      rot = u;
      prg = prg;
      role = role;
    }

    abbrev after_recv : ℕ → T' → List (OleShare F) → OleReceiver T' F
    after_recv id u role = record {
      id = id;
      alloc = 0;
      pending = 0;
      queue = [];
      rot = u;
      role = role;
    }

    send-eq-ok :
        (s : OleSender T F R) (n id : ℕ) (masks : List (F × F)) (u : T) (ss : List (OleShare F))
        (sent : List (List F)) (prg : R) (outs : List (OleOutput F)) (next : ℕ)
        (more : List (OleShare F))
        → ltb s.alloc s.pending ≡ false
        → rot.try_send_rot s.rot (s.alloc * field.bit_size) ≡ ok ((id, masks), u)
        → length masks ≡ n
        → sender_shares field rot random s.prg (chunks_loop n field.bit_size masks)
          ≡ ok (ss, sent, prg)
        → deliver {E = OleError E} ss 0 s.id s.queue ≡ ok (outs, next, more)
        → send field rot random s ≡ ok (outs, sent, after_send next u prg (s.role ++ more))
    unfolding send
    send-eq-ok s n id masks u ss sent prg outs next more enough sends len made delivered =
        rw (enough, sends, len, made, delivered) refl

    recv-eq-ok :
        (r : OleReceiver T' F) (n id : ℕ) (choices : List Bool) (corr : List F) (u : T')
        (rs : List (OleShare F)) (sent : List (List F)) (outs : List (OleOutput F)) (next : ℕ)
        (more : List (OleShare F))
        → ltb r.alloc r.pending ≡ false
        → length sent ≡ r.alloc
        → rot'.try_recv_rot r.rot (r.alloc * field.bit_size) ≡ ok ((id, choices, corr), u)
        → length choices ≡ n
        → length corr ≡ n
        → receiver_shares field rot'
            (chunks_loop n field.bit_size choices)
            (chunks_loop n field.bit_size corr)
            sent
          ≡ ok rs
        → deliver {E = OleError E} rs 0 r.id r.queue ≡ ok (outs, next, more)
        → recv field rot' r sent ≡ ok (outs, after_recv next u (r.role ++ more))
    unfolding recv
    recv-eq-ok r n id choices corr u rs sent outs next more enough sent_len receives choices_len
          corr_len got delivered =
        rw
          (
            enough,
            (==_iff (length sent) r.alloc).1 sent_len,
            receives,
            choices_len,
            corr_len,
            got,
            delivered,
          )
          refl

    module _ (Linked : ℕ → T → T' → Type 0)
        (transfers : (n : ℕ) (t : T) (t' : T')
          → Linked n t t'
          → (id : ℕ) × (masks : List (F × F)) × (u : T) × (id' : ℕ) × (choices : List Bool)
            × (u' : T') × (rot.try_send_rot t n ≡ ok ((id, masks), u))
            × (rot'.try_recv_rot t' n ≡ ok ((id', choices, received choices masks), u'))
            × (length masks ≡ n)
            × (length choices ≡ n)) where
      -- For a field with at least one bit, random transfers that succeed for both parties with as many pairs and
      -- choices as asked for where they are linked, parties that agree on what is to come, and transfers that are
      -- linked for what is allocated: where the queue asks for no more than is allocated, the message of the
      -- sender is accepted, both serve the queue with outputs under the same ids whose shares make up OLEs of the
      -- counts, agree again, and keep all other shares. Where it asks for more, both return the error.
      pub recv-send :
          (s : OleSender T F R) (r : OleReceiver T' F) (p : Paired s r)
          → Linked (s.alloc * field.bit_size) s.rot r.rot
          → IsServed rot rot' random s r
            ⊎ ((s.alloc < s.pending)
                × (send field rot random s ≡ err (insufficient_ole s.pending s.alloc))
                × ((sent : List (List F))
                    → recv field rot' r sent ≡ err (insufficient_ole s.pending s.alloc)))
      unfolding send recv
      recv-send s r p linked = elim (Bool-cases (ltb s.alloc s.pending)) [
        | inr enough ↦
            (let (id, masks, u, id', choices, u', sends, receives, masks_len, choices_len) =
                transfers (s.alloc * field.bit_size) s.rot r.rot linked in
              let n = s.alloc * field.bit_size in
              let within : total s.queue ≤ s.alloc = ground (arith, enough, p.counted) in
              let corr_len : length (received choices masks) ≡ n =
                length-zip_with _ choices masks (choices_len ∙ sym masks_len) ∙ choices_len in
              let (ss, sent, next, rs, made, got, all, ss_len, sent_len) =
                shares-AllOle field L positive rot rot' random s.alloc n s.prg masks choices
                  (omega arith) masks_len choices_len in
              let (outs, outs', id_after, more, more', delivered, taken, served, rest, left) =
                deliver-Served field {E = OleError E} ss rs 0 s.id s.queue all
                  (omega (arith, ss_len, within)) in
              inl (
                outs,
                sent,
                after_send id_after u next (s.role ++ more),
                outs',
                after_recv id_after u' (r.role ++ more'),
                send-eq-ok s n id masks u ss sent next outs id_after more enough sends masks_len
                    made delivered,
                recv-eq-ok r n id' choices (received choices masks) u' rs sent outs' id_after more'
                    (rw (p.same_alloc, p.same_pending) enough) (sent_len ∙ sym p.same_alloc)
                    (rw p.same_alloc receives) choices_len corr_len got
                    (rw (p.same_id, p.same_queue) taken),
                served,
                record {
                  same_id = refl;
                  same_alloc = refl;
                  same_pending = refl;
                  same_queue = refl;
                  counted = refl;
                  role = AllOle-append field s.role r.role more more' p.role rest;
                },
                omega (arith, left, ss_len, length-append s.role more),
              ))
        | inl short ↦ inr (
          ltb→lt s.alloc s.pending short,
          rw short refl,
          λ sent. rw (p.same_alloc, p.same_pending, short) refl,
        )
      ]
