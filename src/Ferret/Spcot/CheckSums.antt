-- ===== src/Ferret/Spcot/CheckSums.antt =====
-- The sums of the consistency check in `crates/ot-core/src/ferret/spcot`: over the outputs, and over the keys and
-- messages of the correlated transfers.
use mpz.Prelude.{
  total, ℕ, zero, suc, ◌+◌, ◌^◌, ◌<◌, ◌≡◌, refl, ap, ap₂, sym, ◌∙◌, Bool, xor, arith, List, [], ◌∷◌,
  ◌++◌, length, take, drop, set, get_or, zip_with, length-append, length-set, length-take,
  length-drop, ==_iff, ok,
}
use mpz.Block.{Bits, nil, cons, Block, bitxor, zero_block}
use mpz.Block.Laws.{Bits_ext, bits, bitxor_comm}
use mpz.Cot.{zip}
use mpz.Cot.Correct.{correlated}
use mpz.Zk.Check.{
  Clmul, gfmul, inner_fold, inn_prdt_red, monomials, from_lsb0, vole_sender, vole_receiver,
}
use mpz.Zk.Vole.{IsClmul, gfmul_comm, gfmul-bitxor, gfmul-zero, vole_sender-vole_receiver}
use mpz.Ferret.Chis.{mul, product_loop, inner_product}
use mpz.Ferret.Chis.Picks.{Ascending, Ascending-within}
use mpz.Ferret.Chis.Fold.{bitxor_assoc, bitxor-zero, zero-bitxor, sum_at, dot, dot-take-drop}
use mpz.Ferret.Spcot.{powers}
use mpz.Ferret.Spcot.Check.{bits_of, positions}
use mpz.Ferret.Spcot.Trees.{AllFit, offset_points}

swap_last : (a b c : Block) → bitxor (bitxor a b) c ≡ bitxor (bitxor a c) b
swap_last a b c = Bits_ext _ _ (λ i. simp bits (unfold xor in ground arith))

swap_inner : (a b c d : Block) → bitxor (bitxor a b) (bitxor c d) ≡ bitxor (bitxor a c) (bitxor b d)
swap_inner a b c d = Bits_ext _ _ (λ i. simp bits (unfold xor in ground arith))

pub from_lsb0-bits_of :
    {n : ℕ} (b : Bits n) (choices : List Bool)
    → length choices ≡ n
    → from_lsb0 n (zip_with xor (bits_of b) choices) ≡ bitxor b (from_lsb0 n choices)
unfolding from_lsb0 bits_of bitxor
from_lsb0-bits_of nil choices h = refl
from_lsb0-bits_of (cons b bs) [] h = absurd (omega arith)
from_lsb0-bits_of (cons b bs) (x ∷ choices) h =
    ap (cons (xor b x)) (from_lsb0-bits_of bs choices (omega arith))

pub length-bits_of : {n : ℕ} (b : Bits n) → length (bits_of b) ≡ n
unfolding bits_of
length-bits_of nil = refl
length-bits_of (cons b bs) = ap suc (length-bits_of bs)

pub positions-Ascending :
    (i : ℕ) (lengths idxs : List ℕ)
    → AllFit lengths idxs
    → Ascending i (i + total (powers lengths)) (positions i lengths idxs)
positions-Ascending i [] [] fit = tt
positions-Ascending i [] (idx ∷ idxs) fit = tt
positions-Ascending i (n ∷ lengths) [] fit = tt
positions-Ascending i (n ∷ lengths) (idx ∷ idxs) fit = (
  omega arith,
  omega (arith, fit.2),
  Ascending-within (i + 2 ^ n) (i + 2 ^ n + total (powers lengths)) (i + idx)
      (i + total (powers (n ∷ lengths))) (positions (i + 2 ^ n) lengths idxs)
      (positions-Ascending (i + 2 ^ n) lengths idxs fit.3)
      (λ p above under. (omega (arith, above, fit.2), omega (arith, under))),
)

pub length-offset_points :
    (delta : Block) (lengths idxs : List ℕ) (vs : List Block)
    → length (offset_points delta lengths idxs vs) ≡ length vs
length-offset_points delta [] idxs vs = refl
length-offset_points delta (n ∷ lengths) [] vs = refl
length-offset_points delta (n ∷ lengths) (idx ∷ idxs) vs = omega (
  arith,
  length-append (set (take (2 ^ n) vs) idx (bitxor (get_or (take (2 ^ n) vs) idx zero_block) delta))
      (offset_points delta lengths idxs (drop (2 ^ n) vs)),
  length-set (take (2 ^ n) vs) idx (bitxor (get_or (take (2 ^ n) vs) idx zero_block) delta),
  length-offset_points delta lengths idxs (drop (2 ^ n) vs),
  length-take (2 ^ n) vs,
  length-drop (2 ^ n) vs,
)

module _ {C : Clmul} (L : IsClmul C) where
  pub mul-bitxor : (a b c : Block) → mul C a (bitxor b c) ≡ bitxor (mul C a b) (mul C a c)
  unfolding mul gfmul
  mul-bitxor a b c = gfmul-bitxor L a b c

  mul_comm : (a b : Block) → mul C a b ≡ mul C b a
  unfolding mul gfmul
  mul_comm a b = gfmul_comm L a b

  mul-zero : (a : Block) → mul C a zero_block ≡ zero_block
  unfolding mul gfmul
  mul-zero a = gfmul-zero L a

  module _ (c : ℕ → Block) (delta : Block) where
    dot-append :
        (b : ℕ) (xs ys : List Block)
        → dot C c b (xs ++ ys) ≡ bitxor (dot C c b xs) (dot C c (b + length xs) ys)
    dot-append b [] ys = ap (λ (k : ℕ). dot C c k ys) (omega arith) ∙ sym (zero-bitxor _)
    dot-append b (x ∷ xs) ys =
        ap (bitxor (mul C (c b) x)) (
          dot-append (b + 1) xs ys
          ∙ ap (λ (k : ℕ). bitxor (dot C c (b + 1) xs) (dot C c k ys)) (omega arith))
        ∙ sym (bitxor_assoc _ _ _)

    dot-offset :
        (b idx : ℕ) (vs : List Block)
        → idx < length vs
        → dot C c b (set vs idx (bitxor (get_or vs idx zero_block) delta))
          ≡ bitxor (dot C c b vs) (mul C delta (c (b + idx)))
    dot-offset b idx [] h = absurd (omega arith)
    dot-offset b zero (v ∷ vs) h =
        ap (λ x. bitxor x (dot C c (b + 1) vs))
          (mul-bitxor (c b) v delta ∙ ap (bitxor (mul C (c b) v)) (mul_comm (c b) delta))
        ∙ swap_last _ _ _
        ∙ ap (λ (k : ℕ). bitxor (dot C c b (v ∷ vs)) (mul C delta (c k))) (omega arith)
    dot-offset b (suc idx) (v ∷ vs) h =
        ap (bitxor (mul C (c b) v)) (
          dot-offset (b + 1) idx vs (omega arith)
          ∙ ap (λ (k : ℕ). bitxor (dot C c (b + 1) vs) (mul C delta (c k))) (omega arith))
        ∙ sym (bitxor_assoc _ _ _)

    -- The sum over outputs of which those at the positions are offset by delta.
    pub dot-offset_points :
        (b : ℕ) (lengths idxs : List ℕ) (vs : List Block)
        → AllFit lengths idxs
        → length vs ≡ total (powers lengths)
        → dot C c b (offset_points delta lengths idxs vs)
          ≡ bitxor (dot C c b vs) (mul C delta (sum_at c (positions b lengths idxs)))
    dot-offset_points b [] idxs vs fit h =
        sym (ap (bitxor (dot C c b vs)) (mul-zero delta) ∙ bitxor-zero _)
    dot-offset_points b (n ∷ lengths) [] vs fit h = absurd fit
    dot-offset_points b (n ∷ lengths) (idx ∷ idxs) vs fit h =
        let v = take (2 ^ n) vs in
        let rest = drop (2 ^ n) vs in
        let v_len : length v ≡ 2 ^ n = omega (arith, length-take (2 ^ n) vs) in
        let changed = set v idx (bitxor (get_or v idx zero_block) delta) in
        dot-append b changed (offset_points delta lengths idxs rest)
        ∙ ap₂ bitxor (dot-offset b idx v (omega (arith, fit.2, v_len))) (
            ap (λ (k : ℕ). dot C c k (offset_points delta lengths idxs rest))
              (omega (arith, length-set v idx (bitxor (get_or v idx zero_block) delta), v_len))
            ∙ dot-offset_points (b + 2 ^ n) lengths idxs rest fit.3
                (omega (arith, length-drop (2 ^ n) vs)))
        ∙ swap_inner _ _ _ _
        ∙ ap₂ bitxor (dot-take-drop L c (2 ^ n) b vs)
            (sym (mul-bitxor delta (c (b + idx)) (sum_at c (positions (b + 2 ^ n) lengths idxs))))

  product_loop-eq-inner_fold :
      (acc : Block × Block) (xs ys : List Block)
      → product_loop C acc xs ys ≡ inner_fold C acc (zip xs ys)
  product_loop-eq-inner_fold acc [] ys = refl
  product_loop-eq-inner_fold acc (x ∷ xs) [] = refl
  product_loop-eq-inner_fold acc (x ∷ xs) (y ∷ ys) =
      let t = C.clmul x y in
      ap₂ (λ a b. product_loop C (a, b) xs ys) (bitxor_comm acc.0 t.0) (bitxor_comm acc.1 t.1)
      ∙ product_loop-eq-inner_fold (bitxor t.0 acc.0, bitxor t.1 acc.1) xs ys

  pub inner_product-eq-ok :
      {E : Type 0} (xs ys : List Block)
      → length xs ≡ length ys
      → inner_product C {E = E} xs ys ≡ ok (inn_prdt_red C xs ys)
  unfolding inner_product inn_prdt_red
  inner_product-eq-ok xs ys h = rw ((==_iff (length xs) (length ys)).1 h) (
      ap (λ (s : Block × Block). ok (C.reduce_gcm s.0 s.1))
        (product_loop-eq-inner_fold (zero_block, zero_block) xs ys))

  pub product_of_macs :
      (delta : Block) (keys : List Block) (choices : List Bool)
      → length keys ≡ 128
      → length choices ≡ 128
      → inn_prdt_red C keys (monomials 0 128)
        ≡ bitxor
            (inn_prdt_red C (correlated delta keys choices) (monomials 0 128))
            (mul C delta (from_lsb0 128 choices))
  unfolding mul gfmul vole_sender vole_receiver
  product_of_macs delta keys choices hk hc = vole_sender-vole_receiver L delta keys choices hk hc
