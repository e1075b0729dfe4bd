-- ===== src/Memory/Correlated/Derandomize.antt =====
-- The relation of `crates/memory-core/src/correlated.rs` between keys, bits and MACs, and that
-- derandomization keeps it.
use mpz.Prelude.{◌≡◌, refl, sym, ◌∙◌, ap, Bool, true, false, xor, if◌then◌else◌, arith}
use mpz.Block.{Block, cons, bitxor, zero_block, lsb, set_lsb}
use mpz.Block.Laws.{Bits_ext, bits, lsb-bitxor, lsb-choice}
use mpz.Memory.Correlated.{
  auth, adjust_key, pointer, set_pointer, new_delta, public_key, public_mac, public_one, mac_one,
  from_bytes,
}

-- `M = k + x * delta`.
abbrev pub IsMac : Block → Block → Bool → Block → Type 0
IsMac delta key x mac = mac ≡ auth key x delta

lsb-set_lsb : (p : Bool) (b : Block) → lsb (set_lsb p b) ≡ p
unfolding lsb set_lsb
lsb-set_lsb p (cons b bs) = refl

set_lsb-lsb : (b : Block) → set_lsb (lsb b) b ≡ b
unfolding lsb set_lsb
set_lsb-lsb (cons b bs) = refl

set_lsb_same : (p : Bool) (b : Block) → lsb b ≡ p → set_lsb p b ≡ b
set_lsb_same p b h = ap (λ (q : Bool). set_lsb q b) (sym h) ∙ set_lsb-lsb b

set_lsb-bitxor :
    (q : Bool) (a b : Block) → bitxor (set_lsb false a) (set_lsb q b) ≡ set_lsb q (bitxor a b)
unfolding set_lsb bitxor xor
set_lsb-bitxor false (cons a as') (cons b bs) = refl
set_lsb-bitxor true (cons a as') (cons b bs) = refl

pub lsb-new_delta : (b : Block) → lsb (new_delta b) ≡ true
unfolding new_delta
lsb-new_delta b = lsb-set_lsb true b

-- The pointer bit of a MAC is that of its key, flipped for a 1.
pub pointer-auth :
    (delta key : Block) (x : Bool)
    → lsb delta ≡ true
    → pointer (auth key x delta) ≡ xor (pointer key) x
unfolding auth
pointer-auth delta key x h = simp (lsb-bitxor, lsb-choice, h) (unfold xor in ground arith)

choice_bit :
    (x : Bool) (delta : Block) → lsb delta ≡ true → lsb (if x then delta else zero_block) ≡ x
choice_bit x delta h = simp (lsb-choice, h) (ground arith)

two_steps :
    (delta key : Block) (x r : Bool)
    → bitxor (bitxor key (if xor x r then delta else zero_block)) (if x then delta else zero_block)
      ≡ bitxor key (if r then delta else zero_block)
unfolding xor
two_steps delta key x r = Bits_ext _ _ (λ i. simp bits (ground arith))

-- Derandomization: the sender adjusts the key by `d = x + r`, the receiver sets the pointer bit of the
-- MAC of `r` to `x`. Then the MAC is one of `x`, its pointer bit is `x` and that of the key is 0.
pub adjust_key-IsMac :
    (delta key mac : Block) (x r : Bool)
    → lsb delta ≡ true
    → IsMac delta key r mac
    → IsMac delta (adjust_key key (xor x r) delta) x (set_pointer mac x)
      × (pointer (set_pointer mac x) ≡ x)
      × (pointer (adjust_key key (xor x r) delta) ≡ false)
unfolding auth adjust_key set_pointer
adjust_key-IsMac delta key mac x r h m =
    let flip = bitxor key (if xor x r then delta else zero_block) in
    let chosen = if x then delta else zero_block in
    (
      ap (λ (b : Block). set_lsb x b) (m ∙ sym (two_steps delta key x r))
          ∙ sym (set_lsb-bitxor x flip chosen)
          ∙ ap (λ (b : Block). bitxor (set_lsb false flip) b)
              (set_lsb_same x chosen (choice_bit x delta h)),
      lsb-set_lsb x mac,
      lsb-set_lsb false flip,
    )

lsb-mac_one : lsb mac_one ≡ true
unfolding lsb from_bytes
lsb-mac_one = refl

twice : (a b : Block) → a ≡ bitxor (bitxor a b) b
twice a b = Bits_ext _ _ (λ i. simp bits (unfold xor in ground arith))

-- The public keys and MACs are related, so a public bit needs no message.
pub public_key-IsMac :
    (delta : Block) (x : Bool)
    → lsb delta ≡ true
    → IsMac delta (public_key delta x) x (public_mac x)
unfolding auth public_one
public_key-IsMac delta true h =
    sym (set_lsb_same true mac_one lsb-mac_one)
    ∙ ap (λ (b : Block). set_lsb true b) (twice mac_one delta)
    ∙ sym (set_lsb-bitxor true (bitxor mac_one delta) delta)
    ∙ ap (λ (b : Block). bitxor (set_lsb false (bitxor mac_one delta)) b)
        (set_lsb_same true delta h)
public_key-IsMac delta false h = Bits_ext _ _ (λ i. simp bits (unfold xor in ground arith))
