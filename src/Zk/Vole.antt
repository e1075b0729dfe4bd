-- ===== src/Zk/Vole.antt =====
-- `crates/zk-core/src/vole.rs`: from 128 correlated transfers of one bit each, one relation between
-- elements of the field of blocks. Of the crate `clmul` only the laws of a ring are used.
use mpz.Prelude.{
  ℕ, zero, suc, ◌+◌, ◌-◌, ◌≡◌, refl, sym, ap, ap₂, ◌∙◌, Bool, true, false, ◌&&◌, xor, ◌==◌, ltb,
  leb, List, [], ◌∷◌, length, get_or, zip_with, if◌then◌else◌, arith,
}
use mpz.Block.{Block, bitxor, zero_block, get_bit, tabulate}
use mpz.Block.Laws.{Bits_ext, bits, get_bit-zeros}
use mpz.Cot.{zip}
use mpz.Garble.Gate.{label}
use mpz.Zk.Check.{
  Clmul, gfmul, inner_fold, inn_prdt_red, monomial, monomials, from_lsb0, vole_sender,
  vole_receiver,
}

-- What is relied on of the crate: the product is commutative and bilinear, the reduction is linear, and
-- the reduced product is associative.
pub record IsClmul (C : Clmul) : Type 0 where
  pub clmul_comm : (a b : Block) → C.clmul a b ≡ C.clmul b a
  pub clmul-bitxor :
      (a b c : Block)
      → C.clmul a (bitxor b c)
        ≡ (bitxor (C.clmul a b).0 (C.clmul a c).0, bitxor (C.clmul a b).1 (C.clmul a c).1)
  pub reduce_gcm-bitxor :
      (a b c d : Block)
      → C.reduce_gcm (bitxor a b) (bitxor c d) ≡ bitxor (C.reduce_gcm a c) (C.reduce_gcm b d)
  pub gfmul_assoc : (a b c : Block) → gfmul C (gfmul C a b) c ≡ gfmul C a (gfmul C b c)

pub bitxor_self : (a : Block) → bitxor a a ≡ zero_block
bitxor_self a = Bits_ext _ _ (λ i. simp bits (unfold xor in ground arith))

cancel_twice :
    (a s p g : Block) → bitxor a (bitxor s p) ≡ bitxor (bitxor (bitxor a g) s) (bitxor g p)
cancel_twice a s p g = Bits_ext _ _ (λ i. simp bits (unfold xor in ground arith))

get_bit-tabulate : (n : ℕ) (f : ℕ → Bool) (i : ℕ) → get_bit (tabulate n f) i ≡ (ltb i n && f i)
unfolding get_bit tabulate
get_bit-tabulate zero f i = ground arith
get_bit-tabulate (suc n) f zero = ground arith
get_bit-tabulate (suc n) f (suc i) =
    get_bit-tabulate n (λ j. f (suc j)) i ∙ ap (λ b. b && f (suc i)) (ground arith)

get_bit-from_lsb0 :
    (n : ℕ) (choices : List Bool) (i : ℕ)
    → get_bit (from_lsb0 n choices) i ≡ (ltb i n && get_or choices i false)
unfolding get_bit from_lsb0
get_bit-from_lsb0 zero choices i = ground arith
get_bit-from_lsb0 (suc n) [] zero = ground arith
get_bit-from_lsb0 (suc n) [] (suc i) = get_bit-from_lsb0 n [] i ∙ ground arith
get_bit-from_lsb0 (suc n) (c ∷ cs) zero = ground arith
get_bit-from_lsb0 (suc n) (c ∷ cs) (suc i) =
    get_bit-from_lsb0 n cs i ∙ ap (λ b. b && get_or cs i false) (ground arith)

-- The monomials from `i` on that are chosen.
abbrev picked : ℕ → List Bool → Block
picked i [] = zero_block
picked i (c ∷ cs) = bitxor (if c then monomial i else zero_block) (picked (i + 1) cs)

get_or-cons :
    (c : Bool) (cs : List Bool) (k : ℕ)
    → get_or (c ∷ cs) k false ≡ (if k == 0 then c else get_or cs (k - 1) false)
get_or-cons c cs zero = refl
get_or-cons c cs (suc k) = ground (arith, ap (λ m. get_or cs m false) (back k))
  where
    back : (k : ℕ) → suc k - 1 ≡ k
    back k = omega arith

get_bit-picked :
    (i : ℕ) (choices : List Bool) (j : ℕ)
    → get_bit (picked i choices) j ≡ (ltb j 128 && (leb i j && get_or choices (j - i) false))
get_bit-picked i [] j = get_bit-zeros 128 j ∙ ground arith
get_bit-picked i (c ∷ cs) j =
    simp (bits, get_bit-picked (i + 1) cs j, bit_of_monomial, get_or-cons c cs (j - i), earlier)
      (unfold xor in ground arith)
  where
    earlier : j - (i + 1) ≡ j - i - 1
    earlier = omega arith

    bit_of_monomial : get_bit (monomial i) j ≡ (ltb j 128 && j == i)
    bit_of_monomial = unfold monomial in get_bit-tabulate 128 (λ k. k == i) j

module _ {C : Clmul} (L : IsClmul C) where
  pub gfmul_comm : (a b : Block) → gfmul C a b ≡ gfmul C b a
  unfolding gfmul
  gfmul_comm a b = ap (λ (t : Block × Block). C.reduce_gcm t.0 t.1) (L.clmul_comm a b)

  pub gfmul-bitxor : (a b c : Block) → gfmul C a (bitxor b c) ≡ bitxor (gfmul C a b) (gfmul C a c)
  unfolding gfmul
  gfmul-bitxor a b c =
      ap (λ (t : Block × Block). C.reduce_gcm t.0 t.1) (L.clmul-bitxor a b c)
      ∙ L.reduce_gcm-bitxor _ _ _ _

  pub bitxor-gfmul : (a b c : Block) → gfmul C (bitxor a b) c ≡ bitxor (gfmul C a c) (gfmul C b c)
  bitxor-gfmul a b c =
      gfmul_comm (bitxor a b) c ∙ gfmul-bitxor c a b ∙ ap₂ bitxor (gfmul_comm c a) (gfmul_comm c b)

  pub gfmul-zero : (a : Block) → gfmul C a zero_block ≡ zero_block
  gfmul-zero a =
      ap (gfmul C a) (sym (bitxor_self zero_block))
      ∙ gfmul-bitxor a zero_block zero_block
      ∙ bitxor_self (gfmul C a zero_block)

  pub gfmul_left_comm : (a b c : Block) → gfmul C a (gfmul C b c) ≡ gfmul C b (gfmul C a c)
  gfmul_left_comm a b c =
      sym (L.gfmul_assoc a b c) ∙ ap (λ x. gfmul C x c) (gfmul_comm a b) ∙ L.gfmul_assoc b a c

  -- A choice moves from one factor to the other.
  pub gfmul-choice :
      (p : Bool) (a b : Block)
      → gfmul C (if p then a else zero_block) b ≡ gfmul C a (if p then b else zero_block)
  gfmul-choice true a b = refl
  gfmul-choice false a b = gfmul_comm zero_block b ∙ gfmul-zero b ∙ sym (gfmul-zero a)

  pub reduce_gcm-zero : C.reduce_gcm zero_block zero_block ≡ zero_block
  reduce_gcm-zero =
      ap₂ C.reduce_gcm (sym (bitxor_self zero_block)) (sym (bitxor_self zero_block))
      ∙ L.reduce_gcm-bitxor zero_block zero_block zero_block zero_block
      ∙ bitxor_self (C.reduce_gcm zero_block zero_block)

  -- The sum of the reduced products.
  abbrev sum : List (Block × Block) → Block
  sum [] = zero_block
  sum (ab ∷ rest) = bitxor (gfmul C ab.0 ab.1) (sum rest)

  reduce_gcm-inner_fold :
      (terms : List (Block × Block)) (acc : Block × Block)
      → let s = inner_fold C acc terms in
        C.reduce_gcm s.0 s.1 ≡ bitxor (C.reduce_gcm acc.0 acc.1) (sum terms)
  unfolding gfmul
  reduce_gcm-inner_fold [] acc = Bits_ext _ _ (λ i. simp bits (unfold xor in ground arith))
  reduce_gcm-inner_fold (ab ∷ rest) acc =
      let t = C.clmul ab.0 ab.1 in
      reduce_gcm-inner_fold rest (bitxor t.0 acc.0, bitxor t.1 acc.1)
      ∙ ap (λ x. bitxor x (sum rest)) (L.reduce_gcm-bitxor t.0 acc.0 t.1 acc.1)
      ∙ Bits_ext _ _ (λ i. simp bits (unfold xor in ground arith))

  inn_prdt_red-eq-sum : (a b : List Block) → inn_prdt_red C a b ≡ sum (zip a b)
  unfolding inn_prdt_red
  inn_prdt_red-eq-sum a b =
      reduce_gcm-inner_fold (zip a b) (zero_block, zero_block)
      ∙ ap (λ x. bitxor x (sum (zip a b))) reduce_gcm-zero
      ∙ Bits_ext _ _ (λ i. simp bits (unfold xor in ground arith))

  sum-monomials :
      (n i : ℕ) (delta : Block) (keys : List Block) (choices : List Bool)
      → length keys ≡ n
      → length choices ≡ n
      → sum (zip keys (monomials i n))
        ≡ bitxor
            (sum (zip (zip_with (label delta) keys choices) (monomials i n)))
            (gfmul C delta (picked i choices))
  sum-monomials zero i delta [] [] hk hc =
      sym (ap (bitxor zero_block) (gfmul-zero delta) ∙ bitxor_self zero_block)
  sum-monomials zero i delta (k ∷ ks) cs hk hc = absurd (omega arith)
  sum-monomials zero i delta [] (c ∷ cs) hk hc = absurd (omega arith)
  sum-monomials (suc n) i delta [] cs hk hc = absurd (omega arith)
  sum-monomials (suc n) i delta (k ∷ ks) [] hk hc = absurd (omega arith)
  sum-monomials (suc n) i delta (k ∷ ks) (c ∷ cs) hk hc =
      let m = monomial i in
      let chosen = if c then m else zero_block in
      ap (bitxor (gfmul C k m)) (sum-monomials n (i + 1) delta ks cs (omega arith) (omega arith))
      ∙ cancel_twice (gfmul C k m) _ _ (gfmul C delta chosen)
      ∙ ap₂ bitxor
          (ap (λ x. bitxor x (sum (zip (zip_with (label delta) ks cs) (monomials (i + 1) n))))
            (ap (bitxor (gfmul C k m)) (sym (gfmul-choice c delta m))
              ∙ sym (bitxor-gfmul k (if c then delta else zero_block) m)))
          (sym (gfmul-bitxor delta chosen (picked (i + 1) cs)))

  picked-eq-from_lsb0 : (choices : List Bool) → picked 0 choices ≡ from_lsb0 128 choices
  picked-eq-from_lsb0 choices = Bits_ext _ _ (λ j.
      get_bit-picked 0 choices j
      ∙ ground (arith, ap (λ k. get_or choices k false) (whole j))
      ∙ sym (get_bit-from_lsb0 128 choices j))
    where
      whole : (j : ℕ) → j - 0 ≡ j
      whole j = omega arith

  -- For a carry-less product with the laws of a ring: from 128 keys, choices and messages of correlated
  -- transfers the sender gets `b` and the receiver `(a_0, a_1)` with `b = a_0 + delta * a_1`.
  pub vole_sender-vole_receiver :
      (delta : Block) (keys : List Block) (choices : List Bool)
      → length keys ≡ 128
      → length choices ≡ 128
      → let a = vole_receiver C choices (zip_with (label delta) keys choices) in
        vole_sender C keys ≡ bitxor a.0 (gfmul C delta a.1)
  unfolding vole_sender vole_receiver
  vole_sender-vole_receiver delta keys choices hk hc =
      inn_prdt_red-eq-sum keys (monomials 0 128)
      ∙ sum-monomials 128 0 delta keys choices hk hc
      ∙ ap₂ bitxor
          (sym (inn_prdt_red-eq-sum (zip_with (label delta) keys choices) (monomials 0 128)))
          (ap (gfmul C delta) (picked-eq-from_lsb0 choices))
