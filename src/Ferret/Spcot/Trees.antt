-- ===== src/Ferret/Spcot/Trees.antt =====
-- All trees of a call of `extend` of `crates/ot-core/src/ferret/spcot`, one slice of the buffers after another.
use mpz.Prelude.{
  total, ℕ, zero, suc, ◌+◌, ◌^◌, ◌≤◌, ◌<◌, ◌≡◌, refl, ap, ap₂, sym, ◌∙◌, Bool, arith, List, [], ◌∷◌,
  ◌++◌, length, take, drop, set, get_or, zip_with, length-take, length-drop, length-append,
  length-set, length-zip_with, le→leb, set_at_in_range, ok,
}
use mpz.Block.{Block, bitxor, zero_block}
use mpz.Cot.Correct.{correlated}
use mpz.Ggm.{sum_from, expand, expand_punctured}
use mpz.Ggm.Sums.{sum, set-set}
use mpz.Ggm.Punctured.{expand_both}
use mpz.Ferret.Slices.{slices_of, take-append, drop-append, take-zip_with, drop-zip_with}
use mpz.Ferret.Spcot.{
  SenderError, ReceiverError, powers, bits_from, index_bits, sender_trees, receiver_trees,
}
use mpz.Ferret.Spcot.Tree.{
  flips_of, derandomized, decrypted-off_path, take-bits_from, length-bits_from, sum_from-set,
  length-derandomized,
}

-- Every tree has from 1 to 64 levels, and its index is that of a leaf.
abbrev pub AllFit : List ℕ → List ℕ → Type 0
AllFit [] [] = Unit {0}
AllFit [] (idx ∷ idxs) = ⊥
AllFit (n ∷ lengths) [] = ⊥
AllFit (n ∷ lengths) (idx ∷ idxs) = (1 ≤ n) × (n ≤ 64) × (idx < 2 ^ n) × AllFit lengths idxs

-- The outputs of the sender with those at the indices offset by delta.
abbrev pub offset_points : Block → List ℕ → List ℕ → List Block → List Block
offset_points delta (n ∷ lengths) (idx ∷ idxs) vs =
    let v = take (2 ^ n) vs in
    set v idx (bitxor (get_or v idx zero_block) delta)
    ++ offset_points delta lengths idxs (drop (2 ^ n) vs)
offset_points delta lengths idxs vs = vs

module _ (encrypt : Block → Block) (delta : Block) where
  sender_trees-cons :
      (v c seed_leaves seed_sums : List Block) (seed : Block) (vs cs : List (List Block))
      (seeds outs corrections : List Block) (levels : ℕ)
      → length v ≡ 2 ^ levels
      → length c ≡ levels
      → levels ≤ 64
      → expand encrypt {E = SenderError} delta seed (2 ^ levels) levels
        ≡ ok (seed_leaves, seed_sums)
      → sender_trees encrypt delta vs cs seeds ≡ ok (outs, corrections)
      → sender_trees encrypt delta (v ∷ vs) (c ∷ cs) (seed ∷ seeds)
        ≡ ok (seed_leaves ++ outs, zip_with bitxor c seed_sums ++ corrections)
  unfolding sender_trees
  sender_trees-cons v c leaves sums seed vs cs seeds outs corrections levels hv hc few tree rest =
      rw (hv, hc, le→leb levels 64 few, tree, rest) refl

  receiver_trees-cons :
      (w s punctured : List Block) (idx : ℕ) (ws sums : List (List Block)) (idxs : List ℕ)
      (ins : List Block) (size : ℕ)
      → length w ≡ size
      → idx < length punctured
      → expand_punctured encrypt {E = ReceiverError} idx s size ≡ ok punctured
      → receiver_trees encrypt ws sums idxs ≡ ok ins
      → receiver_trees encrypt (w ∷ ws) (s ∷ sums) (idx ∷ idxs)
        ≡ ok (set punctured idx (sum_from zero_block punctured) ++ ins)
  unfolding receiver_trees
  receiver_trees-cons w s punctured idx ws sums idxs ins size hw below tree rest =
      rw
        (
          hw,
          tree,
          set_at_in_range {E = ReceiverError} punctured idx (sum_from zero_block punctured) below,
          rest,
        )
        refl

  abbrev pub corrections_of : List ℕ → List ℕ → List Block → List Bool → List Block
  corrections_of lengths idxs keys choices =
      derandomized delta keys (flips_of (index_bits idxs lengths) choices)

  module _ (n idx : ℕ) (lengths idxs : List ℕ) (keys : List Block) (choices : List Bool)
      (few : n ≤ 64) where
    path_len : length (take n (bits_from idx 0 64)) ≡ n
    path_len = ap length (take-bits_from n 64 idx 0 few) ∙ length-bits_from n idx 0

    take-corrections_of :
        take n (corrections_of (n ∷ lengths) (idx ∷ idxs) keys choices)
        ≡ derandomized delta (take n keys) (flips_of (bits_from idx 0 n) (take n choices))
    take-corrections_of =
        take-zip_with _ n keys _
        ∙ ap (derandomized delta (take n keys)) (
            take-zip_with _ n (index_bits (idx ∷ idxs) (n ∷ lengths)) choices
            ∙ ap (λ (p : List Bool). flips_of p (take n choices))
                (take-append n _ (index_bits idxs lengths) path_len
                  ∙ take-bits_from n 64 idx 0 few))

    drop-corrections_of :
        drop n (corrections_of (n ∷ lengths) (idx ∷ idxs) keys choices)
        ≡ corrections_of lengths idxs (drop n keys) (drop n choices)
    drop-corrections_of =
        drop-zip_with _ n keys _
        ∙ ap (derandomized delta (drop n keys)) (
            drop-zip_with _ n (index_bits (idx ∷ idxs) (n ∷ lengths)) choices
            ∙ ap (λ (p : List Bool). flips_of p (drop n choices))
                (drop-append n _ (index_bits idxs lengths) path_len))

  -- What the receiver decrypts of the first tree, and of the others.
  module _ (n : ℕ) (macs cs rest : List Block) (cs_len : length cs ≡ n) where
    take-decrypted : take n (zip_with bitxor macs (cs ++ rest)) ≡ zip_with bitxor (take n macs) cs
    take-decrypted =
        take-zip_with bitxor n macs (cs ++ rest)
        ∙ ap (zip_with bitxor (take n macs)) (take-append n cs rest cs_len)

    drop-decrypted : drop n (zip_with bitxor macs (cs ++ rest)) ≡ zip_with bitxor (drop n macs) rest
    drop-decrypted =
        drop-zip_with bitxor n macs (cs ++ rest)
        ∙ ap (zip_with bitxor (drop n macs)) (drop-append n cs rest cs_len)

  -- What both parties hold after the trees.
  abbrev pub Expanded :
      List ℕ → List ℕ → List Block → List Block → List Bool → List Block → List Block → Type 0
  Expanded lengths idxs seeds keys choices vs ws =
      (outs : List Block) × (cs : List Block) × (sender_trees encrypt delta
          (slices_of vs (powers lengths))
          (slices_of (corrections_of lengths idxs keys choices) lengths) seeds
        ≡ ok (outs, cs))
      × (receiver_trees encrypt (slices_of ws (powers lengths))
            (slices_of (zip_with bitxor (correlated delta keys choices) cs) lengths) idxs
          ≡ ok (offset_points delta lengths idxs outs))
      × (length outs ≡ total (powers lengths))
      × (length cs ≡ total lengths)

  -- The output of the receiver on one tree, before those on the others.
  offset_points-cons :
      (levels idx : ℕ) (lengths idxs : List ℕ) (leaves outs : List Block)
      → idx < 2 ^ suc levels
      → length leaves ≡ 2 ^ suc levels
      → sum leaves ≡ delta
      → set (set leaves idx zero_block) idx (sum_from zero_block (set leaves idx zero_block))
          ++ offset_points delta lengths idxs outs
        ≡ offset_points delta (suc levels ∷ lengths) (idx ∷ idxs) (leaves ++ outs)
  offset_points-cons levels idx lengths idxs leaves outs below len adds_up =
      ap (λ v. v ++ offset_points delta lengths idxs outs)
        (set-set leaves idx zero_block _
          ∙ ap (set leaves idx) (sum_from-set delta leaves idx (omega (arith, len)) adds_up))
      ∙ ap₂
          (λ v o.
            set v idx (bitxor (get_or v idx zero_block) delta)
            ++ offset_points delta lengths idxs o)
          (sym (take-append (2 ^ suc levels) leaves outs len))
          (sym (drop-append (2 ^ suc levels) leaves outs len))

  module _ (levels idx : ℕ) (lengths idxs : List ℕ) (seed : Block) (seeds keys : List Block)
      (choices : List Bool) (vs ws : List Block) (few : suc levels ≤ 64)
      (below : idx < 2 ^ suc levels) (hk : suc levels ≤ length keys)
      (hc : suc levels ≤ length choices) (hv : 2 ^ suc levels ≤ length vs)
      (hw : 2 ^ suc levels ≤ length ws) where
    Expanded-cons :
        Expanded lengths idxs seeds
          (drop (suc levels) keys)
          (drop (suc levels) choices)
          (drop (2 ^ suc levels) vs)
          (drop (2 ^ suc levels) ws)
        → Expanded (suc levels ∷ lengths) (idx ∷ idxs) (seed ∷ seeds) keys choices vs ws
    Expanded-cons (outs, cs, sent, received, outs_len, cs_len) =
        let n = suc levels in
        let (leaves, sums, tree, leaves_len, sums_len, adds_up, punctured) =
          expand_both encrypt delta seed levels {E = SenderError} {D = ReceiverError} idx below in
        let macs = correlated delta keys choices in
        let path = bits_from idx 0 n in
        let c = derandomized delta (take n keys) (flips_of path (take n choices)) in
        let keys_len : length (take n keys) ≡ n = omega (arith, length-take n keys) in
        let choices_len : length (take n choices) ≡ n = omega (arith, length-take n choices) in
        let c_len : length c ≡ n =
          length-derandomized delta n idx (take n keys) (take n choices) keys_len choices_len in
        let corrected = zip_with bitxor c sums in
        let corrected_len : length corrected ≡ n =
          length-zip_with bitxor c sums (c_len ∙ sym sums_len) ∙ c_len in
        (
          leaves ++ outs,
          corrected ++ cs,
          ap₂
                (λ a b.
                  sender_trees encrypt delta (slices_of vs (powers (n ∷ lengths)))
                    (a ∷ slices_of b lengths) (seed ∷ seeds))
                (take-corrections_of n idx lengths idxs keys choices few)
                (drop-corrections_of n idx lengths idxs keys choices few)
              ∙ sender_trees-cons _ c leaves sums seed _ _ seeds outs cs n
                  (omega (arith, length-take (2 ^ n) vs)) c_len few tree sent,
          ap₂
                (λ a b.
                  receiver_trees encrypt (slices_of ws (powers (n ∷ lengths)))
                    (a ∷ slices_of b lengths) (idx ∷ idxs))
                (take-decrypted n macs corrected cs corrected_len
                  ∙ ap (λ m. zip_with bitxor m corrected) (take-zip_with _ n keys choices)
                  ∙ decrypted-off_path delta idx 0 n (take n keys) sums (take n choices) keys_len
                      choices_len sums_len)
                (drop-decrypted n macs corrected cs corrected_len
                  ∙ ap (λ m. zip_with bitxor m cs) (drop-zip_with _ n keys choices))
              ∙ receiver_trees-cons _ _ (set leaves idx zero_block) idx _ _ idxs _ (2 ^ n)
                  (omega (arith, length-take (2 ^ n) ws))
                  (omega (arith, length-set leaves idx zero_block, leaves_len)) punctured received
              ∙ ap ok
                  (offset_points-cons levels idx lengths idxs leaves outs below leaves_len adds_up),
          length-append leaves outs ∙ ap₂ ◌+◌ leaves_len outs_len,
          length-append corrected cs ∙ ap₂ ◌+◌ corrected_len cs_len,
        )

  pub trees-Expanded :
      (lengths idxs : List ℕ) (seeds keys : List Block) (choices : List Bool) (vs ws : List Block)
      → AllFit lengths idxs
      → length seeds ≡ length lengths
      → length keys ≡ total lengths
      → length choices ≡ total lengths
      → length vs ≡ total (powers lengths)
      → length ws ≡ total (powers lengths)
      → Expanded lengths idxs seeds keys choices vs ws
  unfolding sender_trees receiver_trees
  trees-Expanded [] [] seeds keys choices vs ws fit hs hk hc hv hw =
      ([], [], refl, refl, refl, refl)
  trees-Expanded [] (idx ∷ idxs) seeds keys choices vs ws fit hs hk hc hv hw = absurd fit
  trees-Expanded (n ∷ lengths) [] seeds keys choices vs ws fit hs hk hc hv hw = absurd fit
  trees-Expanded (n ∷ lengths) (idx ∷ idxs) [] keys choices vs ws fit hs hk hc hv hw =
      absurd (omega arith)
  trees-Expanded (zero ∷ lengths) (idx ∷ idxs) (seed ∷ seeds) keys choices vs ws fit hs hk hc hv
        hw =
      absurd (omega (arith, fit.0))
  trees-Expanded (suc levels ∷ lengths) (idx ∷ idxs) (seed ∷ seeds) keys choices vs ws fit hs hk hc
        hv hw =
      let n = suc levels in
      Expanded-cons levels idx lengths idxs seed seeds keys choices vs ws fit.1 fit.2 (omega arith)
        (omega arith) (omega arith) (omega arith)
        (trees-Expanded lengths idxs seeds (drop n keys) (drop n choices) (drop (2 ^ n) vs)
          (drop (2 ^ n) ws) fit.3 (omega arith) (omega (arith, length-drop n keys))
          (omega (arith, length-drop n choices)) (omega (arith, length-drop (2 ^ n) vs))
          (omega (arith, length-drop (2 ^ n) ws)))
