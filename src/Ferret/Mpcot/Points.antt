-- ===== src/Ferret/Mpcot/Points.antt =====
-- A multi-point extension of `crates/ot-core/src/ferret`: the plan of `mpcot.rs`, followed by the single-point
-- extensions of both parties.
use mpz.Prelude.{
  slot_end, total, ℕ, zero, suc, ◌+◌, ◌*◌, ◌-◌, ◌%◌, ◌^◌, ◌≤◌, ◌<◌, ◌≡◌, refl, ap, ap₂, sym, ◌∙◌,
  Bool, arith, List, [], ◌∷◌, ◌++◌, length, map, replicate, take, drop, set, get_or,
  take-append-drop, length-take, length-drop, length-set, ok,
}
use native.Mathlib.Nat.{mod-lt, mod-eq_of_lt, mul-add-mod_self_right, suc-mul}
use mathlib.Core.Path.{subst}
use mpz.Block.{Block, bitxor, zero_block}
use mpz.Cot.Correct.{correlated}
use mpz.Ferret.Spcot.{
  SpcotSender, SpcotReceiver, powers, derandomize, sender_extend, receiver_extend,
}
use mpz.Ferret.Spcot.Trees.{AllFit, offset_points}
use mpz.Ferret.Spcot.Extend.{receiver_extend-sender_extend}
use mpz.Ferret.Mpcot.{spcot_lengths, spcot_queries}
use mpz.Ferret.Mpcot.Plan.{pow-pos, Regular, spcot_lengths-IsPlan, spcot_queries-IsPlan}

module _ (delta : Block) where
  -- The element at one position offset by delta.
  abbrev offset_one : List Block → ℕ → List Block
  offset_one vs i = set vs i (bitxor (get_or vs i zero_block) delta)

  -- The elements at the positions offset by delta, which count from `base`.
  abbrev offset_from : ℕ → List ℕ → List Block → List Block
  offset_from base [] vs = vs
  offset_from base (idx ∷ idxs) vs = offset_from base idxs (offset_one vs (idx - base))

  offset_one-append_left :
      (v w : List Block) (j : ℕ) → j < length v → offset_one (v ++ w) j ≡ offset_one v j ++ w
  offset_one-append_left [] w j h = absurd (omega arith)
  offset_one-append_left (x ∷ v) w zero h = refl
  offset_one-append_left (x ∷ v) w (suc j) h =
      ap (λ (t : List Block). x ∷ t) (offset_one-append_left v w j (omega arith))

  offset_one-append_right :
      (v w : List Block) (j n : ℕ) → n ≡ length v + j → offset_one (v ++ w) n ≡ v ++ offset_one w j
  offset_one-append_right [] w j n h = ap (offset_one w) (omega arith)
  offset_one-append_right (x ∷ v) w j zero h = absurd (omega arith)
  offset_one-append_right (x ∷ v) w j (suc n) h =
      ap (λ (t : List Block). x ∷ t) (offset_one-append_right v w j n (omega arith))

  -- Positions in later intervals leave an interval as it is.
  offset_from-append :
      (k i base : ℕ) (idxs : List ℕ) (v w : List Block)
      → Regular k i idxs
      → base + length v ≤ i * k
      → offset_from base idxs (v ++ w) ≡ v ++ offset_from (base + length v) idxs w
  offset_from-append k i base [] v w regular h = refl
  offset_from-append k i base (idx ∷ idxs) v w regular h =
      ap (offset_from base idxs) (
        offset_one-append_right v w (idx - (base + length v)) (idx - base)
          (omega (arith, h, regular.0)))
      ∙ offset_from-append k (i + 1) base idxs v (offset_one w (idx - (base + length v))) regular.2
          (omega (arith, h, slot_end k i))

  offset_points-Regular :
      (levels i : ℕ) (idxs : List ℕ) (vs : List Block)
      → Regular (2 ^ levels) i idxs
      → length vs ≡ length idxs * 2 ^ levels
      → offset_points delta (replicate (length idxs) levels) (map (λ idx. idx % 2 ^ levels) idxs) vs
        ≡ offset_from (i * 2 ^ levels) idxs vs
  offset_points-Regular levels i [] vs regular h = refl
  offset_points-Regular levels i (idx ∷ idxs) vs regular h =
      let k = 2 ^ levels in
      let base = i * k in
      let j = idx - base in
      let v = take k vs in
      let w = drop k vs in
      let lens : length vs ≡ length idxs * k + k = h ∙ suc-mul (length idxs) k in
      let v_len : length v ≡ k = omega (arith, lens, length-take k vs) in
      let below : j < k = omega (arith, regular.0, regular.1, slot_end k i) in
      let spot : idx % k ≡ j =
        ap (λ n. n % k) (omega (arith, regular.0))
        ∙ mul-add-mod_self_right i k j
        ∙ mod-eq_of_lt below in
      let next : base + length (offset_one v j) ≡ (i + 1) * k =
        omega (arith, slot_end k i, v_len, length-set v j (bitxor (get_or v j zero_block) delta)) in
      ap₂ (λ m rest. offset_one v m ++ rest) spot
        (offset_points-Regular levels (i + 1) idxs w regular.2
            (omega (arith, lens, length-drop k vs))
          ∙ ap (λ (b : ℕ). offset_from b idxs w) (sym next))
      ∙ sym (
          ap (λ t. offset_from base idxs (offset_one t j)) (sym (take-append-drop k vs))
          ∙ ap (offset_from base idxs) (offset_one-append_left v w j (omega (arith, v_len, below)))
          ∙ offset_from-append k (i + 1) base idxs (offset_one v j) w regular.2
              (omega (arith, next)))

  -- The elements at the queried indices offset by delta.
  abbrev pub offset_at : List ℕ → List Block → List Block
  offset_at [] vs = vs
  offset_at (idx ∷ idxs) vs = offset_at idxs (offset_one vs idx)

  offset_from_zero : (idxs : List ℕ) (vs : List Block) → offset_from 0 idxs vs ≡ offset_at idxs vs
  offset_from_zero [] vs = refl
  offset_from_zero (idx ∷ idxs) vs =
      ap (λ (i : ℕ). offset_from 0 idxs (offset_one vs i)) (omega arith)
      ∙ offset_from_zero idxs (offset_one vs idx)

-- Intervals of at least two elements are trees that fit.
plan-AllFit :
    (levels : ℕ) (idxs : List ℕ)
    → 1 ≤ levels
    → levels < 64
    → AllFit (replicate (length idxs) levels) (map (λ idx. idx % 2 ^ levels) idxs)
plan-AllFit levels [] some_level few = tt
plan-AllFit levels (idx ∷ idxs) some_level few = (
  some_level,
  omega (arith, few),
  mod-lt idx (pow-pos levels),
  plan-AllFit levels idxs some_level few,
)

-- An interval of at least two elements has a level.
one_level : (n levels : ℕ) → 0 < n → 2 * n ≤ n * 2 ^ levels → 1 ≤ levels
one_level n zero some_index two = absurd (omega (arith, some_index, two))
one_level n (suc levels) some_index two = omega arith

total-powers : (n levels : ℕ) → total (powers (replicate n levels)) ≡ n * 2 ^ levels
total-powers zero levels = omega arith
total-powers (suc n) levels = omega (arith, total-powers n levels, suc-mul n (2 ^ levels))

-- Both parties of an extension whose plan for the queried indices is accepted, with intervals of at least two
-- elements, as many keys and choices as the plan has levels, messages that are the keys offset by delta where the
-- choice is 1, and buffers of `len` blocks: the sender's plan is the receiver's, both extend, and the receiver's
-- outputs are the sender's, of which those at the queried indices are offset by delta.
pub receiver_extend-spcot_queries :
    (encrypt : Block → Block) {R : Type 0} (random : R → Block × R) (s : SpcotSender)
    (r : SpcotReceiver) (rng : R) (idxs : List ℕ) (len : ℕ) (lengths locals : List ℕ)
    (keys : List Block) (choices : List Bool) (vs ws : List Block)
    → spcot_queries idxs len ≡ ok (lengths, locals)
    → 2 * length idxs ≤ len
    → length keys ≡ total lengths
    → length choices ≡ total lengths
    → length vs ≡ len
    → length ws ≡ len
    → (flips : List Bool) × (outs : List Block) × (cs : List Block) × (next : R) × (spcot_lengths
          (length idxs)
          len
        ≡ ok lengths)
      × (derandomize lengths locals choices ≡ ok flips)
      × (sender_extend encrypt random s rng lengths keys flips vs
          ≡ ok (outs, cs, next, record s { pending = s.pending + len }))
      × (length outs ≡ len)
      × (receiver_extend encrypt r lengths locals (correlated s.delta keys choices) cs ws
          ≡ ok (
            offset_at s.delta idxs outs,
            record r { lengths = r.lengths ++ lengths; indices = r.indices ++ locals },
          ))
receiver_extend-spcot_queries encrypt random s r rng idxs len lengths locals keys choices vs ws
      queried two hk hc hv hw =
    let (planned, same_locals, regular) = spcot_queries-IsPlan idxs len lengths locals queried in
    let (levels, some_index, same_lengths, few, full, quotient) =
      spcot_lengths-IsPlan (length idxs) len lengths planned in
    let same : locals ≡ map (λ idx. idx % 2 ^ levels) idxs =
      same_locals ∙ ap (λ q. map (λ idx. idx % q) idxs) quotient in
    let fit : AllFit lengths locals =
      subst (λ (p : List ℕ × List ℕ). AllFit p.0 p.1) (sym (ap₂ (λ a b. (a, b)) same_lengths same))
        (plan-AllFit levels idxs
          (one_level (length idxs) levels some_index (omega (arith, two, full))) few) in
    let size : total (powers lengths) ≡ len =
      ap (λ t. total (powers t)) same_lengths ∙ total-powers (length idxs) levels ∙ sym full in
    let (flips, outs, cs, next, flipped, sent, outs_len, received) =
      receiver_extend-sender_extend encrypt random s r rng lengths locals keys choices vs ws fit hk
        hc (hv ∙ sym size) (hw ∙ sym size) in
    let points : offset_points s.delta lengths locals outs ≡ offset_at s.delta idxs outs =
      ap₂ (λ a b. offset_points s.delta a b outs) same_lengths same
      ∙ offset_points-Regular s.delta levels 0 idxs outs
          (subst (λ q. Regular q 0 idxs) quotient regular) (outs_len ∙ size ∙ full)
      ∙ ap (λ (b : ℕ). offset_from s.delta b idxs outs) (omega arith)
      ∙ offset_from_zero s.delta idxs outs in
    (
      flips,
      outs,
      cs,
      next,
      planned,
      flipped,
      sent ∙ ap (λ n. ok (outs, cs, next, record s { pending = s.pending + n })) size,
      outs_len ∙ size,
      received
          ∙ ap
              (λ (o : List Block).
                ok (o, record r { lengths = r.lengths ++ lengths; indices = r.indices ++ locals }))
              points,
    )
