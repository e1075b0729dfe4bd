-- ===== src/Block/Laws.antt =====
-- The laws of the bitwise operations on blocks. Two blocks are equal when their bits are, so an
-- equation of XORs comes down to one of Booleans.
use mpz.Prelude.{
  ℕ, zero, suc, ◌≡◌, refl, ap, ap₂, Bool, true, false, ◌&&◌, xor, arith, if◌then◌else◌,
}
use mpz.Block.{
  Bits, nil, cons, Block, get_bit, bitxor, bitand, zeros, ones, select_mask, zero_block, lsb,
}

pub Bits_ext : {n : ℕ} (a b : Bits n) → ((i : ℕ) → get_bit a i ≡ get_bit b i) → a ≡ b
unfolding get_bit
Bits_ext nil nil h = refl
Bits_ext (cons a as') (cons b bs) h = ap₂ cons (h 0) (Bits_ext as' bs (λ i. h (suc i)))

pub get_bit-bitxor :
    {n : ℕ} (a b : Bits n) (i : ℕ) → get_bit (bitxor a b) i ≡ xor (get_bit a i) (get_bit b i)
unfolding get_bit bitxor xor
get_bit-bitxor nil nil i = refl
get_bit-bitxor (cons a as') (cons b bs) zero = refl
get_bit-bitxor (cons a as') (cons b bs) (suc i) = get_bit-bitxor as' bs i

pub get_bit-bitand :
    {n : ℕ} (a b : Bits n) (i : ℕ) → get_bit (bitand a b) i ≡ (get_bit a i && get_bit b i)
unfolding get_bit bitand
get_bit-bitand nil nil i = refl
get_bit-bitand (cons a as') (cons b bs) zero = refl
get_bit-bitand (cons a as') (cons b bs) (suc i) = get_bit-bitand as' bs i

pub get_bit-zeros : (n i : ℕ) → get_bit (zeros n) i ≡ false
unfolding get_bit zeros
get_bit-zeros zero i = refl
get_bit-zeros (suc n) zero = refl
get_bit-zeros (suc n) (suc i) = get_bit-zeros n i

bitand-zeros : {n : ℕ} (a : Bits n) → bitand (zeros n) a ≡ zeros n
unfolding bitand zeros
bitand-zeros nil = refl
bitand-zeros (cons b bs) = ap (cons false) (bitand-zeros bs)

bitand-ones : {n : ℕ} (a : Bits n) → bitand (ones n) a ≡ a
unfolding bitand ones
bitand-ones nil = refl
bitand-ones (cons b bs) = ap (cons b) (bitand-ones bs)

pub bitand_comm : {n : ℕ} (a b : Bits n) → bitand a b ≡ bitand b a
unfolding bitand
bitand_comm nil nil = refl
bitand_comm (cons a as') (cons b bs) = ap₂ cons (and_comm a b) (bitand_comm as' bs)
  where
    and_comm : (x y : Bool) → (x && y) ≡ (y && x)
    and_comm true true = refl
    and_comm true false = refl
    and_comm false true = refl
    and_comm false false = refl

pub bitxor_comm : {n : ℕ} (a b : Bits n) → bitxor a b ≡ bitxor b a
bitxor_comm a b = Bits_ext _ _ (λ i. simp get_bit-bitxor (xor_swap (get_bit a i) (get_bit b i)))
  where
    xor_swap : (x y : Bool) → xor x y ≡ xor y x
    xor_swap x y = unfold xor in ground arith

pub lsb-bitxor : (a b : Block) → lsb (bitxor a b) ≡ xor (lsb a) (lsb b)
unfolding lsb bitxor xor
lsb-bitxor (cons a as') (cons b bs) = refl

-- A masked block, bit by bit: the mask on either side, and the choice between a block and zero.
pub get_bit-bitand_mask :
    (p : Bool) (a : Block) (i : ℕ) → get_bit (bitand (select_mask p) a) i ≡ (p && get_bit a i)
get_bit-bitand_mask true a i = rw bitand-ones
get_bit-bitand_mask false a i = rw bitand-zeros (get_bit-zeros 128 i)

pub get_bit-bitand_mask_right :
    (p : Bool) (a : Block) (i : ℕ) → get_bit (bitand a (select_mask p)) i ≡ (p && get_bit a i)
get_bit-bitand_mask_right p a i = rw (bitand_comm a (select_mask p)) (get_bit-bitand_mask p a i)

pub get_bit-choice :
    (p : Bool) (a : Block) (i : ℕ) → get_bit (if p then a else zero_block) i ≡ (p && get_bit a i)
get_bit-choice true a i = refl
get_bit-choice false a i = get_bit-zeros 128 i

pub lsb-choice : (p : Bool) (a : Block) → lsb (if p then a else zero_block) ≡ (p && lsb a)
unfolding lsb zeros
lsb-choice true a = refl
lsb-choice false a = refl

-- The equations that turn a bit of a block into a Boolean expression.
pub ruleset bits =
    (get_bit-bitxor, get_bit-bitand_mask, get_bit-bitand_mask_right, get_bit-choice, get_bit-zeros)
