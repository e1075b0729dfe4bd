-- ===== src/Garble/Batch/Receive.antt =====
-- The batched consumer, given the gates in batches, takes them all and no message more.
use mpz.Prelude.{
  ℕ, zero, suc, ◌<◌, ◌≡◌, refl, ap, sym, ◌∙◌, true, false, arith, List, [], ◌∷◌, ◌++◌, length, drop,
  Outcome, ok, ◌>>=◌, ℕ-cases, ◌⊎◌, inl, inr,
}
use mathlib.Core.Path.{subst}
use mpz.Block.{Block}
use mpz.Garble.Gate.{EncryptedGate}
use mpz.Garble.Evaluator.{EvaluatorError, Consumer, consume, wants_gates}
use mpz.Garble.Consume.{OnTrack, Consumed, consume_next}
use mpz.Garble.Batch.{core_error, consume_batch, receive_batches}
use mpz.Garble.Batch.Padded.{padded, IsBatched}

module _ (encrypt : Block → Block) where
  -- A consumer that is on its way wants gates just where some are to come.
  wants-OnTrack :
      (s : Consumer) (egs : List EncryptedGate) (labels' : List Block)
      → OnTrack encrypt s egs labels'
      → ((length egs ≡ 0) × (wants_gates s ≡ false)) ⊎ ((0 < length egs) × (wants_gates s ≡ true))
  wants-OnTrack s egs labels' t = elim (ℕ-cases (length egs)) [
    | inl none_left ↦ inl (none_left, ground (arith, none_left, t.exact, t.counted))
    | inr some_left ↦ inr (some_left, ground (arith, some_left, t.exact, t.counted))
  ]

  drop_empty : {A : Type 0} (k : ℕ) (xs : List A) → length xs ≡ 0 → drop k xs ≡ xs
  drop_empty zero xs h = refl
  drop_empty (suc k) [] h = refl
  drop_empty (suc k) (x ∷ xs) h = absurd (omega arith)

  abbrev go_on : List EncryptedGate → Consumer → Outcome EvaluatorError Consumer
  go_on gs s = elim (wants_gates s) [ true ↦ consume_batch encrypt gs s | false ↦ ok s ]

  module _ (g : EncryptedGate) (gs : List EncryptedGate) (s last : Consumer)
      (taken : consume encrypt g s ≡ ok last) where
    consume_batch_next : consume_batch encrypt (g ∷ gs) s ≡ go_on gs last
    unfolding consume_batch
    consume_batch_next = ap (λ m. m >>= go_on gs) taken

    consume_batch_done : wants_gates last ≡ false → consume_batch encrypt (g ∷ gs) s ≡ ok last
    consume_batch_done h = consume_batch_next ∙ rw (h, go_on) refl

    consume_batch_more :
        wants_gates last ≡ true → consume_batch encrypt (g ∷ gs) s ≡ consume_batch encrypt gs last
    consume_batch_more h = consume_batch_next ∙ rw (h, go_on) refl

  -- A batch is taken up to its padding.
  consume_batch-Consumed :
      (k : ℕ) (egs : List EncryptedGate) (s : Consumer) (labels' : List Block)
      → (0 < k → 0 < length egs)
      → OnTrack encrypt s egs labels'
      → Consumed encrypt s (drop k egs) labels' (consume_batch encrypt (padded k egs) s)
  unfolding consume_batch
  consume_batch-Consumed zero egs s labels' some_left t = record {
    last = s;
    returns = refl;
    on_track = t;
    same_outputs = refl;
  }
  consume_batch-Consumed (suc k) [] s labels' some_left t =
      absurd (omega (arith, some_left (omega arith)))
  consume_batch-Consumed (suc k) (g ∷ egs) s labels' some_left t =
      let c = consume_next encrypt g egs s t in
      elim (wants-OnTrack c.last egs labels' c.on_track) [
        | inl (none_left, wanted) ↦ record {
          last = c.last;
          returns = consume_batch_done g (padded k egs) s c.last c.returns wanted;
          on_track =
              subst (λ t. OnTrack encrypt c.last t labels') (sym (drop_empty k egs none_left))
                c.on_track;
          same_outputs = c.same_outputs;
        }
        | inr (more, wanted) ↦
            let d = consume_batch-Consumed k egs c.last labels' (λ _. more) c.on_track in
            record {
              last = d.last;
              returns = consume_batch_more g (padded k egs) s c.last c.returns wanted ∙ d.returns;
              on_track = d.on_track;
              same_outputs = d.same_outputs ∙ c.same_outputs;
            }
      ]

  receive_batches_done :
      (more : List (List EncryptedGate)) (s : Consumer)
      → wants_gates s ≡ false
      → receive_batches encrypt more s ≡ ok (s, more)
  unfolding receive_batches
  receive_batches_done [] s h = rw (h, receive_batches) refl
  receive_batches_done (batch ∷ more) s h = rw (h, receive_batches) refl

  receive_batches_more :
      (batch : List EncryptedGate) (more : List (List EncryptedGate)) (s : Consumer)
      → wants_gates s ≡ true
      → receive_batches encrypt (batch ∷ more) s
        ≡ (core_error (consume_batch encrypt batch s) >>= receive_batches encrypt more)
  unfolding receive_batches
  receive_batches_more batch more s h = rw (h, receive_batches) refl

  -- All batches are taken, and the messages after them are left.
  pub receive_batches-IsBatched :
      (n : ℕ) (egs : List EncryptedGate) (batches more : List (List EncryptedGate)) (s : Consumer)
      (labels' : List Block)
      → 0 < n
      → IsBatched n egs batches
      → OnTrack encrypt s egs labels'
      → (last : Consumer) × (receive_batches encrypt (batches ++ more) s ≡ ok (last, more))
        × OnTrack encrypt last [] labels'
        × (last.outputs ≡ s.outputs)
  receive_batches-IsBatched n egs [] more s labels' positive none_left t =
      elim (wants-OnTrack s egs labels' t) [
        | inl (_, wanted) ↦ (
          s,
          receive_batches_done more s wanted,
          subst (λ e. OnTrack encrypt s e labels') none_left t,
          refl,
        )
        | inr (some_left, wanted) ↦ absurd (omega (arith, some_left, ap length none_left))
      ]
  receive_batches-IsBatched n egs (batch ∷ batches) more s labels' positive (some_left, same, rest)
        t =
      elim (wants-OnTrack s egs labels' t) [
        | inl (none_left, _) ↦ absurd (omega (arith, none_left, some_left))
        | inr (_, wanted) ↦
            let c = consume_batch-Consumed n egs s labels' (λ _. some_left) t in
            let (last, received, on_track, same_outputs) =
              receive_batches-IsBatched n (drop n egs) batches more c.last labels' positive rest
                c.on_track in
            (
              last,
              receive_batches_more batch (batches ++ more) s wanted ∙ rw (same, c.returns) received,
              on_track,
              same_outputs ∙ c.same_outputs,
            )
      ]
