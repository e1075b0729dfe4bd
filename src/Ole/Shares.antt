-- ===== src/Ole/Shares.antt =====
-- The shares that both parties of `crates/ole-core/src/sender.rs` and `receiver.rs` compute in one transfer, and how
-- they serve their queues.
use mpz.Prelude.{
  ℕ, zero, suc, ◌+◌, ◌-◌, ◌*◌, ◌≤◌, ◌<◌, ◌≡◌, refl, sym, ap, ◌∙◌, Bool, arith, List, [], ◌∷◌, ◌++◌,
  length, take, drop, length-zip_with, length-take, length-drop, total, ==_iff, if◌then◌else◌,
  slice_at_in_range, ok,
}
use native.Mathlib.Nat.{suc-mul}
use mpz.Field.{Field, IsField}
use mpz.Rcot.{next_id}
use mpz.Zk.Check.{chunks_loop}
use mpz.Ferret.Slices.{take-zip_with, drop-zip_with}
use mpz.Lpn.Naive.{chunks_loop-suc}
use mpz.Ole.{OleShare, new_ole_sender, new_ole_receiver}
use mpz.Ole.Correct.{IsOle, received, new_ole_receiver-IsOle}
use mpz.Ole.Parties.{RotSender, RotReceiver, OleOutput, deliver, sender_shares, receiver_shares}

chunks_loop-nil :
    {A : Type 0} (fuel size : ℕ) (xs : List A) → length xs ≡ 0 → chunks_loop fuel size xs ≡ []
chunks_loop-nil zero size xs h = refl
chunks_loop-nil (suc fuel) size [] h = refl
chunks_loop-nil (suc fuel) size (x ∷ xs) h = absurd (omega arith)

module _ {F : Type 0} (field : Field F) where
  -- The shares of both parties, one by one, make up OLEs.
  abbrev pub AllOle : List (OleShare F) → List (OleShare F) → Type 0
  AllOle [] [] = Unit {0}
  AllOle [] (r ∷ rs) = ⊥
  AllOle (s ∷ ss) [] = ⊥
  AllOle (s ∷ ss) (r ∷ rs) = IsOle field s r × AllOle ss rs

  AllOle-take : (n : ℕ) (ss rs : List (OleShare F)) → AllOle ss rs → AllOle (take n ss) (take n rs)
  AllOle-take zero ss rs all = tt
  AllOle-take (suc n) [] [] all = tt
  AllOle-take (suc n) [] (r ∷ rs) all = absurd all
  AllOle-take (suc n) (s ∷ ss) [] all = absurd all
  AllOle-take (suc n) (s ∷ ss) (r ∷ rs) all = (all.0, AllOle-take n ss rs all.1)

  AllOle-drop : (n : ℕ) (ss rs : List (OleShare F)) → AllOle ss rs → AllOle (drop n ss) (drop n rs)
  AllOle-drop zero ss rs all = all
  AllOle-drop (suc n) [] [] all = tt
  AllOle-drop (suc n) [] (r ∷ rs) all = absurd all
  AllOle-drop (suc n) (s ∷ ss) [] all = absurd all
  AllOle-drop (suc n) (s ∷ ss) (r ∷ rs) all = AllOle-drop n ss rs all.1

  pub AllOle-append :
      (ss rs ss' rs' : List (OleShare F))
      → AllOle ss rs
      → AllOle ss' rs'
      → AllOle (ss ++ ss') (rs ++ rs')
  AllOle-append [] [] ss' rs' all all' = all'
  AllOle-append [] (r ∷ rs) ss' rs' all all' = absurd all
  AllOle-append (s ∷ ss) [] ss' rs' all all' = absurd all
  AllOle-append (s ∷ ss) (r ∷ rs) ss' rs' all all' = (all.0, AllOle-append ss rs ss' rs' all.1 all')

  AllOle-length : (ss rs : List (OleShare F)) → AllOle ss rs → length ss ≡ length rs
  AllOle-length [] [] all = refl
  AllOle-length [] (r ∷ rs) all = absurd all
  AllOle-length (s ∷ ss) [] all = absurd all
  AllOle-length (s ∷ ss) (r ∷ rs) all = ap suc (AllOle-length ss rs all.1)

  -- The outputs of both parties: one of each count, under the same id, whose shares make up OLEs.
  abbrev pub Served : List ℕ → List (OleOutput F) → List (OleOutput F) → Type 0
  Served [] [] [] = Unit {0}
  Served (n ∷ queue) (o ∷ outs) (o' ∷ outs') =
      (o.id ≡ o'.id) × (length o.shares ≡ n) × AllOle o.shares o'.shares × Served queue outs outs'
  Served queue outs outs' = ⊥

  pub deliver-Served :
      {E : Type 0} (ss rs : List (OleShare F)) (i id : ℕ) (queue : List ℕ)
      → AllOle ss rs
      → i + total queue ≤ length ss
      → (outs : List (OleOutput F)) × (outs' : List (OleOutput F)) × (next : ℕ) × (more : List
          (OleShare F))
        × (more' : List (OleShare F)) × (deliver {E = E} ss i id queue ≡ ok (outs, next, more))
        × (deliver {E = E} rs i id queue ≡ ok (outs', next, more'))
        × Served queue outs outs'
        × AllOle more more'
        × (length more + (i + total queue) ≡ length ss)
  unfolding deliver
  deliver-Served {E} ss rs i id [] all fits =
      let same = AllOle-length ss rs all in
      (
        [],
        [],
        id,
        take (length ss - i) (drop i ss),
        take (length rs - i) (drop i rs),
        rw (slice_at_in_range {E = E} ss i (length ss) (omega (arith, fits)) (omega arith)) refl,
        rw (slice_at_in_range {E = E} rs i (length rs) (omega (arith, fits, same)) (omega arith))
            refl,
        tt,
        rw (sym same)
            (AllOle-take (length ss - i) (drop i ss) (drop i rs) (AllOle-drop i ss rs all)),
        omega (arith, fits, length-take (length ss - i) (drop i ss), length-drop i ss),
      )
  deliver-Served {E} ss rs i id (n ∷ queue) all fits =
      let same = AllOle-length ss rs all in
      let (outs, outs', next, more, more', sent, got, served, rest, left) =
        deliver-Served {E = E} ss rs (i + n) (next_id id) queue all (omega (arith, fits)) in
      let here = take (i + n - i) (drop i ss) in
      let here' = take (i + n - i) (drop i rs) in
      (
        record { id = id; shares = here } ∷ outs,
        record { id = id; shares = here' } ∷ outs',
        next,
        more,
        more',
        rw (slice_at_in_range {E = E} ss i (i + n) (omega arith) (omega (arith, fits)), sent) refl,
        rw (slice_at_in_range {E = E} rs i (i + n) (omega arith) (omega (arith, fits, same)), got)
            refl,
        (
          refl,
          omega (arith, fits, length-take (i + n - i) (drop i ss), length-drop i ss),
          AllOle-take (i + n - i) (drop i ss) (drop i rs) (AllOle-drop i ss rs all),
          served,
        ),
        rest,
        omega (arith, left),
      )

  module _ {T T' E R : Type 0} (L : IsField field) (positive : 0 < field.bit_size)
      (rot : RotSender T E F) (rot' : RotReceiver T' E F) (random : R → F × R) where
    pub shares-AllOle :
        (n fuel : ℕ) (prg : R) (masks : List (F × F)) (choices : List Bool)
        → n * field.bit_size ≤ fuel
        → length masks ≡ n * field.bit_size
        → length choices ≡ n * field.bit_size
        → (ss : List (OleShare F)) × (sent : List (List F)) × (next : R) × (rs : List (OleShare F))
          × (sender_shares field rot random prg (chunks_loop fuel field.bit_size masks)
              ≡ ok (ss, sent, next))
          × (receiver_shares field rot'
                (chunks_loop fuel field.bit_size choices)
                (chunks_loop fuel field.bit_size (received choices masks))
                sent
              ≡ ok rs)
          × AllOle ss rs
          × (length ss ≡ n)
          × (length sent ≡ n)
    unfolding sender_shares receiver_shares
    shares-AllOle zero fuel prg masks choices few hm hc =
        let none_left : length masks ≡ 0 = omega (arith, hm) in
        let none_chosen : length choices ≡ 0 = omega (arith, hc) in
        (
          [],
          [],
          prg,
          [],
          rw (chunks_loop-nil fuel field.bit_size masks none_left) refl,
          rw (chunks_loop-nil fuel field.bit_size choices none_chosen) refl,
          tt,
          refl,
          refl,
        )
    shares-AllOle (suc n) zero prg masks choices few hm hc =
        absurd (omega (arith, few, positive, suc-mul n field.bit_size))
    shares-AllOle (suc n) (suc fuel) prg masks choices few hm hc =
        let b = field.bit_size in
        let size = suc-mul n b in
        let drawn = random prg in
        let all_masks : length masks ≡ n * b + b = hm ∙ size in
        let all_choices : length choices ≡ n * b + b = hc ∙ size in
        let made = new_ole_sender field drawn.0 (take b masks) in
        let masks_len : length (take b masks) ≡ b = omega (arith, all_masks, length-take b masks) in
        let choices_len : length (take b choices) ≡ b =
          omega (arith, all_choices, length-take b choices) in
        let corr = received (take b choices) (take b masks) in
        let corr_len : length corr ≡ b =
          length-zip_with _ (take b choices) (take b masks) (choices_len ∙ sym masks_len)
          ∙ choices_len in
        let got_len : length (received choices masks) ≡ n * b + b =
          length-zip_with _ choices masks (hc ∙ sym hm) ∙ all_choices in
        let (ss, sent, next, rs, sends, receives, all, ss_len, sent_len) =
          shares-AllOle n fuel drawn.1 (drop b masks) (drop b choices)
            (omega (arith, few, size, positive)) (omega (arith, all_masks, length-drop b masks))
            (omega (arith, all_choices, length-drop b choices)) in
        (
          made.0 ∷ ss,
          made.1 ∷ sent,
          next,
          new_ole_receiver field (take b choices) corr made.1 ∷ rs,
          rw
              (
                chunks_loop-suc fuel b masks (omega (arith, all_masks, positive)),
                (==_iff (length (take b masks)) b).1 masks_len,
                sends,
              )
              refl,
          rw
              (
                chunks_loop-suc fuel b choices (omega (arith, all_choices, positive)),
                chunks_loop-suc fuel b (received choices masks) (omega (arith, got_len, positive)),
                take-zip_with (λ (c : Bool) (m : F × F). if c then m.1 else m.0) b choices masks,
                drop-zip_with (λ (c : Bool) (m : F × F). if c then m.1 else m.0) b choices masks,
                (==_iff (length corr) b).1 corr_len,
                receives,
              )
              refl,
          (
            new_ole_receiver-IsOle L drawn.0 (take b masks) (take b choices)
                (choices_len ∙ sym masks_len),
            all,
          ),
          ap suc ss_len,
          ap suc sent_len,
        )
