-- ===== src/Ferret/Chis/Fold.antt =====
-- The folds of `fold_chis` of `crates/ot-core/src/ferret/spcot.rs` over a batch, as sums.
use mpz.Prelude.{
  ℕ, zero, suc, ◌+◌, ◌-◌, ◌≤◌, ◌<◌, ◌≡◌, refl, ap, sym, ◌∙◌, xor, true, false, arith, List, [], ◌∷◌,
  length, take, drop, leb, ltb, ==_iff, le→leb, lt→leb, get_at, ok, Bool-cases, inl, inr, ltb→lt,
}
use mpz.Block.{Block, bitxor, zero_block}
use mpz.Block.Laws.{Bits_ext, bits}
use mpz.Zk.Check.{Clmul}
use mpz.Zk.Vole.{IsClmul, reduce_gcm-zero}
use mpz.Ferret.Chis.{mul, product_loop, inner_product, chi_of, take_picks}
use mpz.Ferret.Chis.Picks.{
  Ascending, Ascending-within, from, below, partition_point-below, partition_point-above,
}

pub bitxor_assoc : (a b c : Block) → bitxor (bitxor a b) c ≡ bitxor a (bitxor b c)
bitxor_assoc a b c = Bits_ext _ _ (λ i. simp bits (unfold xor in ground arith))

pub bitxor-zero : (a : Block) → bitxor a zero_block ≡ a
bitxor-zero a = Bits_ext _ _ (λ i. simp bits (unfold xor in ground arith))

pub zero-bitxor : (a : Block) → bitxor zero_block a ≡ a
zero-bitxor a = Bits_ext _ _ (λ i. simp bits (unfold xor in ground arith))

-- The challenges at the positions from `b` on.
abbrev pub run : (ℕ → Block) → ℕ → ℕ → List Block
run c b zero = []
run c b (suc n) = c b ∷ run c (b + 1) n

-- The challenges at positions, added up.
abbrev pub sum_at : (ℕ → Block) → List ℕ → Block
sum_at c [] = zero_block
sum_at c (p ∷ ps) = bitxor (c p) (sum_at c ps)

-- The values from position `b` on, each times the challenge at its position, added up.
abbrev pub dot : Clmul → (ℕ → Block) → ℕ → List Block → Block
dot C c b [] = zero_block
dot C c b (v ∷ vs) = bitxor (mul C (c b) v) (dot C c (b + 1) vs)

length-run : (c : ℕ → Block) (b n : ℕ) → length (run c b n) ≡ n
length-run c b zero = refl
length-run c b (suc n) = ap suc (length-run c (b + 1) n)

get_at-run :
    {E : Type 0} (c : ℕ → Block) (b n i : ℕ) → i < n → get_at {E = E} (run c b n) i ≡ ok (c (b + i))
get_at-run c b zero i h = absurd (omega arith)
get_at-run {E} c b (suc n) zero h = ap (λ (k : ℕ). ok (c k)) (omega arith)
get_at-run {E} c b (suc n) (suc i) h =
    get_at-run {E = E} c (b + 1) n i (omega arith) ∙ ap (λ (k : ℕ). ok (c k)) (omega arith)

pub sum_at-split :
    (c : ℕ → Block) (bound : ℕ) (ps : List ℕ)
    → bitxor (sum_at c (below bound ps)) (sum_at c (from bound ps)) ≡ sum_at c ps
sum_at-split c bound [] = zero-bitxor zero_block
sum_at-split c bound (p ∷ ps) = elim (Bool-cases (ltb p bound)) [
  | inl lower ↦
      rw (partition_point-below bound p ps (ltb→lt p bound lower))
        (bitxor_assoc (c p) _ _ ∙ ap (bitxor (c p)) (sum_at-split c bound ps))
  | inr upper ↦ rw (partition_point-above bound p ps (ground arith)) (zero-bitxor _)
]

module _ {E : Type 0} (base : ℕ) (chis : List Block) (picked : Block) (p : ℕ) (ps : List ℕ) where
  take_picks-stop :
      leb (base + length chis) p ≡ true
      → take_picks {E = E} base chis picked (p ∷ ps) ≡ ok (picked, p ∷ ps)
  unfolding take_picks
  take_picks-stop behind = rw (take_picks, behind) refl

  take_picks-next :
      {chi : Block}
      → leb (base + length chis) p ≡ false
      → chi_of {E = E} base chis p ≡ ok chi
      → take_picks {E = E} base chis picked (p ∷ ps)
        ≡ take_picks {E = E} base chis (bitxor picked chi) ps
  unfolding take_picks
  take_picks-next within found = rw (take_picks, within, found) refl

pub take_picks-sum_at :
    {E : Type 0} (c : ℕ → Block) (b n hi : ℕ) (picked : Block) (ps : List ℕ)
    → Ascending b hi ps
    → take_picks {E = E} b (run c b n) picked ps
      ≡ ok (bitxor picked (sum_at c (below (b + n) ps)), from (b + n) ps)
unfolding take_picks
take_picks-sum_at c b n hi picked [] h = ap (λ (x : Block). ok (x, [])) (sym (bitxor-zero picked))
take_picks-sum_at {E} c b n hi picked (p ∷ ps) h = elim (Bool-cases (ltb p (b + n))) [
  | inl lower ↦
      (let lt = ltb→lt p (b + n) lower in
        let found : chi_of {E = E} b (run c b n) p ≡ ok (c p) =
          rw (le→leb b p h.0, chi_of)
            (get_at-run {E = E} c b n (p - b) (omega (arith, h.0, lt))
              ∙ ap (λ (k : ℕ). ok (c k)) (omega (arith, h.0))) in
        take_picks-next b (run c b n) picked p ps
          (lt→leb (b + length (run c b n)) p (omega (arith, length-run c b n, lt))) found
        ∙ take_picks-sum_at {E = E} c b n hi (bitxor picked (c p)) ps
            (Ascending-within p hi b hi ps h.2 (λ q above under. (omega (arith, h.0), under)))
        ∙ rw (partition_point-below (b + n) p ps lt)
            (ap (λ (x : Block). ok (x, from (b + n) ps)) (bitxor_assoc picked (c p) _)))
  | inr upper ↦
      (let above : b + n ≤ p = ground arith in
        take_picks-stop b (run c b n) picked p ps
          (le→leb (b + length (run c b n)) p (omega (arith, length-run c b n, above)))
        ∙ rw (partition_point-above (b + n) p ps above)
            (ap (λ (x : Block). ok (x, p ∷ ps)) (sym (bitxor-zero picked))))
]

module _ {C : Clmul} (L : IsClmul C) (c : ℕ → Block) where
  reduce_gcm-product_loop :
      (b : ℕ) (vs : List Block) (acc : Block × Block)
      → let s = product_loop C acc (run c b (length vs)) vs in
        C.reduce_gcm s.0 s.1 ≡ bitxor (C.reduce_gcm acc.0 acc.1) (dot C c b vs)
  unfolding mul
  reduce_gcm-product_loop b [] acc = sym (bitxor-zero _)
  reduce_gcm-product_loop b (v ∷ vs) acc =
      let t = C.clmul (c b) v in
      reduce_gcm-product_loop (b + 1) vs (bitxor acc.0 t.0, bitxor acc.1 t.1)
      ∙ ap (λ x. bitxor x (dot C c (b + 1) vs)) (L.reduce_gcm-bitxor acc.0 t.0 acc.1 t.1)
      ∙ bitxor_assoc _ _ _

  pub inner_product-dot :
      {E : Type 0} (b : ℕ) (vs : List Block)
      → inner_product C {E = E} (run c b (length vs)) vs ≡ ok (dot C c b vs)
  unfolding inner_product
  inner_product-dot b vs =
      rw ((==_iff (length (run c b (length vs))) (length vs)).1 (length-run c b (length vs))) (
        ap ok (
          reduce_gcm-product_loop b vs (zero_block, zero_block)
          ∙ ap (λ x. bitxor x (dot C c b vs)) (reduce_gcm-zero L)
          ∙ zero-bitxor _))

  pub dot-take-drop :
      (n b : ℕ) (vs : List Block)
      → bitxor (dot C c b (take n vs)) (dot C c (b + n) (drop n vs)) ≡ dot C c b vs
  dot-take-drop zero b vs = zero-bitxor _ ∙ ap (λ (k : ℕ). dot C c k vs) (omega arith)
  dot-take-drop (suc n) b [] = zero-bitxor zero_block
  dot-take-drop (suc n) b (v ∷ vs) =
      bitxor_assoc _ _ _
      ∙ ap (bitxor (mul C (c b) v)) (
          ap (λ (k : ℕ). bitxor (dot C c (b + 1) (take n vs)) (dot C c k (drop n vs))) (omega arith)
          ∙ dot-take-drop n (b + 1) vs)
