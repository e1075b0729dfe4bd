-- ===== src/Block.antt =====
-- `crates/core/src/block.rs`: a block of 128 bits, with its bitwise operations. The 16 bytes are
-- kept as 128 bits in the order of `GetBit<Lsb0>`: the least significant bit of byte 0 comes first.
pub mod Laws
pub mod Cipher
use mpz.Prelude.{
  ℕ, zero, suc, ◌+◌, ◌*◌, ◌-◌, ◌/◌, ◌%◌, ◌^◌, ◌≡◌, refl, Bool, true, false, ◌&&◌, xor, ◌==◌,
}

pub data Bits : ℕ → Type 0 where
  nil : Bits zero
  cons : {n : ℕ} → Bool → Bits n → Bits (suc n)

abbrev pub Block : Type 0
Block = Bits 128

-- The bits `f 0`, `f 1`, and so on.
unfoldable pub tabulate : (n : ℕ) → (ℕ → Bool) → Bits n
tabulate zero f = nil
tabulate (suc n) f = cons (f 0) (tabulate n (λ i. f (suc i)))

-- Bit `i` of a number.
abbrev pub test_bit : ℕ → ℕ → Bool
test_bit x i = x / 2 ^ i % 2 == 1

-- `GetBit<Lsb0>::get_bit`; there is no bit past the end.
unfoldable pub get_bit : {n : ℕ} → Bits n → ℕ → Bool
get_bit nil i = false
get_bit (cons b bs) zero = b
get_bit (cons b bs) (suc i) = get_bit bs i

-- `BitXor` and `BitAnd`.
unfoldable pub bitxor : {n : ℕ} → Bits n → Bits n → Bits n
unfolding xor
bitxor nil nil = nil
bitxor (cons a as') (cons b bs) = cons (xor a b) (bitxor as' bs)

unfoldable pub bitand : {n : ℕ} → Bits n → Bits n → Bits n
bitand nil nil = nil
bitand (cons a as') (cons b bs) = cons (a && b) (bitand as' bs)

unfoldable pub zeros : (n : ℕ) → Bits n
zeros zero = nil
zeros (suc n) = cons false (zeros n)

unfoldable pub ones : (n : ℕ) → Bits n
ones zero = nil
ones (suc n) = cons true (ones n)

-- `Block::ZERO`, `Block::ONES` and `Block::SELECT_MASK`.
abbrev pub zero_block : Block
zero_block = zeros 128

abbrev pub ones_block : Block
ones_block = ones 128

abbrev pub select_mask : Bool → Block
select_mask true = ones_block
select_mask false = zero_block

-- `lsb`, `set_lsb` and `xor_lsb`, on the least significant bit of byte 0.
unfoldable pub lsb : Block → Bool
lsb (cons b bs) = b

unfoldable pub set_lsb : Bool → Block → Block
set_lsb value (cons b bs) = cons value bs

unfoldable pub xor_lsb : Bool → Block → Block
unfolding xor
xor_lsb bit (cons b bs) = cons (xor b bit) bs

-- `u128::to_be_bytes` as a block: byte `j` holds the bits of weight `8 * (15 - j)` and up.
unfoldable pub be_bytes : ℕ → Block
unfolding tabulate
be_bytes x = tabulate 128 (λ i. test_bit x (8 * (15 - i / 8) + i % 8))
