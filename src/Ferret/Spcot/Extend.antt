-- ===== src/Ferret/Spcot/Extend.antt =====
-- A call of `extend` by both parties of `crates/ot-core/src/ferret/spcot`, from the receiver's flips on.
use mpz.Prelude.{
  total, ℕ, zero, suc, ◌+◌, ◌≡◌, refl, ap, ap₂, sym, ◌∙◌, Bool, arith, List, [], ◌∷◌, ◌++◌, length,
  zip_with, length-append, length-zip_with, ==_iff, ok,
}
use mpz.Block.{Block, bitxor}
use mpz.Cot.Correct.{correlated}
use mpz.Ferret.Slices.{slices_of, slices_from_lengths_in_range}
use mpz.Ferret.Spcot.{
  SpcotSender, SpcotReceiver, SenderError, ReceiverError, powers, index_bits, derandomize,
  draw_seeds, sender_trees, sender_extend, receiver_trees, receiver_extend,
}
use mpz.Ferret.Spcot.Tree.{flips_of, take-bits_from, length-bits_from}
use mpz.Ferret.Spcot.Trees.{AllFit, offset_points, trees-Expanded, corrections_of}

pub AllFit-length : (lengths idxs : List ℕ) → AllFit lengths idxs → length idxs ≡ length lengths
AllFit-length [] [] fit = refl
AllFit-length [] (idx ∷ idxs) fit = absurd fit
AllFit-length (n ∷ lengths) [] fit = absurd fit
AllFit-length (n ∷ lengths) (idx ∷ idxs) fit = ap suc (AllFit-length lengths idxs fit.3)

length-index_bits :
    (lengths idxs : List ℕ) → AllFit lengths idxs → length (index_bits idxs lengths) ≡ total lengths
length-index_bits [] [] fit = refl
length-index_bits [] (idx ∷ idxs) fit = absurd fit
length-index_bits (n ∷ lengths) [] fit = absurd fit
length-index_bits (n ∷ lengths) (idx ∷ idxs) fit =
    length-append _ (index_bits idxs lengths)
    ∙ ap₂ ◌+◌ (ap length (take-bits_from n 64 idx 0 fit.1) ∙ length-bits_from n idx 0)
        (length-index_bits lengths idxs fit.3)

length-draw_seeds :
    {R : Type 0} (random : R → Block × R) (n : ℕ) (rng : R) → length (draw_seeds random n rng).0 ≡ n
unfolding draw_seeds
length-draw_seeds random zero rng = refl
length-draw_seeds random (suc n) rng = ap suc (length-draw_seeds random n (random rng).1)

module _ (encrypt : Block → Block) {R : Type 0} (random : R → Block × R) (s : SpcotSender)
    (r : SpcotReceiver) (rng : R) (lengths idxs : List ℕ) (keys : List Block) (choices : List Bool)
    (vs ws : List Block) (fit : AllFit lengths idxs) (hk : length keys ≡ total lengths)
    (hc : length choices ≡ total lengths) (hv : length vs ≡ total (powers lengths))
    (hw : length ws ≡ total (powers lengths)) where
  abbrev flips : List Bool
  flips = flips_of (index_bits idxs lengths) choices

  flips_len : length flips ≡ total lengths
  flips_len =
      length-zip_with _ (index_bits idxs lengths) choices
        (length-index_bits lengths idxs fit ∙ sym hc)
      ∙ length-index_bits lengths idxs fit

  corrections_len :
      length (corrections_of encrypt s.delta lengths idxs keys choices) ≡ total lengths
  corrections_len = length-zip_with _ keys flips (hk ∙ sym flips_len) ∙ hk

  derandomize-eq-ok : derandomize lengths idxs choices ≡ ok flips
  unfolding derandomize
  derandomize-eq-ok =
      rw
        (
          (==_iff (length idxs) (length lengths)).1 (AllFit-length lengths idxs fit),
          (==_iff (length choices) (total lengths)).1 hc,
        )
        refl

  abbrev seeds : List Block × R
  seeds = draw_seeds random (length lengths) rng

  sender_extend-eq-ok :
      (outs cs : List Block)
      → sender_trees encrypt s.delta
          (slices_of vs (powers lengths))
          (slices_of (corrections_of encrypt s.delta lengths idxs keys choices) lengths)
          seeds.0
        ≡ ok (outs, cs)
      → sender_extend encrypt random s rng lengths keys flips vs
        ≡ ok (outs, cs, seeds.1, record s { pending = s.pending + total (powers lengths) })
  unfolding sender_extend
  sender_extend-eq-ok outs cs sent =
      rw
        (
          (==_iff (length keys) (total lengths)).1 hk,
          (==_iff (length flips) (total lengths)).1 flips_len,
          (==_iff (length vs) (total (powers lengths))).1 hv,
          slices_from_lengths_in_range {E = SenderError} vs (powers lengths) (omega (arith, hv)),
          slices_from_lengths_in_range {E = SenderError}
              (corrections_of encrypt s.delta lengths idxs keys choices) lengths
              (omega (arith, corrections_len)),
          sent,
        )
        refl

  receiver_extend-eq-ok :
      (cs ins : List Block)
      → length cs ≡ total lengths
      → receiver_trees encrypt
          (slices_of ws (powers lengths))
          (slices_of (zip_with bitxor (correlated s.delta keys choices) cs) lengths)
          idxs
        ≡ ok ins
      → receiver_extend encrypt r lengths idxs (correlated s.delta keys choices) cs ws
        ≡ ok (ins, record r { lengths = r.lengths ++ lengths; indices = r.indices ++ idxs })
  unfolding receiver_extend
  receiver_extend-eq-ok cs ins cs_len received =
      rw
        (
          (==_iff (length idxs) (length lengths)).1 (AllFit-length lengths idxs fit),
          (==_iff (length macs) (total lengths)).1 macs_len,
          (==_iff (length cs) (total lengths)).1 cs_len,
          (==_iff (length ws) (total (powers lengths))).1 hw,
          slices_from_lengths_in_range {E = ReceiverError} (zip_with bitxor macs cs) lengths
              (omega (arith, length-zip_with bitxor macs cs (macs_len ∙ sym cs_len), macs_len)),
          slices_from_lengths_in_range {E = ReceiverError} ws (powers lengths) (omega (arith, hw)),
          received,
        )
        refl
    where
      macs : List Block
      macs = correlated s.delta keys choices

      macs_len : length macs ≡ total lengths
      macs_len = length-zip_with _ keys choices (hk ∙ sym hc) ∙ hk

  -- For trees of 1 to 64 levels, an index of each, as many keys and choices as levels, messages that are the
  -- keys offset by delta where the choice is 1, and buffers of as many blocks as leaves: the receiver's
  -- flips are returned, the sender extends with them and the receiver with the sender's corrections, and
  -- the receiver's outputs are the sender's, of which those at the indices are offset by delta. Both
  -- remember what waits for the check.
  pub receiver_extend-sender_extend :
      (flips : List Bool) × (outs : List Block) × (cs : List Block) × (next : R) × (derandomize
          lengths idxs choices
        ≡ ok flips)
      × (sender_extend encrypt random s rng lengths keys flips vs
          ≡ ok (outs, cs, next, record s { pending = s.pending + total (powers lengths) }))
      × (length outs ≡ total (powers lengths))
      × (receiver_extend encrypt r lengths idxs (correlated s.delta keys choices) cs ws
          ≡ ok (
            offset_points s.delta lengths idxs outs,
            record r { lengths = r.lengths ++ lengths; indices = r.indices ++ idxs },
          ))
  receiver_extend-sender_extend =
      let (outs, cs, sent, received, outs_len, cs_len) =
        trees-Expanded encrypt s.delta lengths idxs seeds.0 keys choices vs ws fit
          (length-draw_seeds random (length lengths) rng) hk hc hv hw in
      (
        flips,
        outs,
        cs,
        seeds.1,
        derandomize-eq-ok,
        sender_extend-eq-ok outs cs sent,
        outs_len,
        receiver_extend-eq-ok cs (offset_points s.delta lengths idxs outs) cs_len received,
      )
