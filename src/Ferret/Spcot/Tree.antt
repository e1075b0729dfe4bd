-- ===== src/Ferret/Spcot/Tree.antt =====
-- One tree of `crates/ot-core/src/ferret/spcot`: the sums that the receiver decrypts are those off the path of
-- its index, and what it folds is the sender's output at the index, offset by delta.
use mpz.Prelude.{
  ℕ, zero, suc, ◌+◌, ◌≤◌, ◌<◌, ◌≡◌, refl, ap, ap₂, ◌∙◌, sym, Bool, true, false, not, xor, arith,
  List, [], ◌∷◌, length, take, set, get_or, zip_with, length-zip_with, if◌then◌else◌,
}
use mpz.Block.{Block, bitxor, zero_block, test_bit}
use mpz.Block.Laws.{Bits_ext, bits}
use mpz.Cot.Correct.{correlated}
use mpz.Ggm.{sum_from}
use mpz.Ggm.Sums.{sum, sum_from-zero, sum-set}
use mpz.Ggm.Punctured.{off_path}
use mpz.Ferret.Spcot.{bits_from}

-- The flips of the receiver, and the keys that the sender derandomizes with them.
abbrev pub flips_of : List Bool → List Bool → List Bool
flips_of path choices = zip_with (λ b m. xor (not b) m) path choices

abbrev pub derandomized : Block → List Block → List Bool → List Block
derandomized delta keys flips = zip_with (λ key b. if b then bitxor key delta else key) keys flips

-- What the receiver decrypts: its messages added to the corrections.
abbrev pub decrypted : List Block → List Block → List Block → List Block
decrypted macs corrections sums = zip_with bitxor macs (zip_with bitxor corrections sums)

pub take-bits_from : (n m idx i : ℕ) → n ≤ m → take n (bits_from idx i m) ≡ bits_from idx i n
take-bits_from zero m idx i h = refl
take-bits_from (suc n) zero idx i h = absurd (omega arith)
take-bits_from (suc n) (suc m) idx i h =
    ap (λ (t : List Bool). test_bit idx i ∷ t) (take-bits_from n m idx (i + 1) (omega arith))

pub length-bits_from : (n idx i : ℕ) → length (bits_from idx i n) ≡ n
length-bits_from zero idx i = refl
length-bits_from (suc n) idx i = ap suc (length-bits_from n idx (i + 1))

pub length-derandomized :
    (delta : Block) (n idx : ℕ) (keys : List Block) (choices : List Bool)
    → length keys ≡ n
    → length choices ≡ n
    → length (derandomized delta keys (flips_of (bits_from idx 0 n) choices)) ≡ n
length-derandomized delta n idx keys choices hk hc =
    length-zip_with _ keys (flips_of path choices) (hk ∙ sym flips_len) ∙ hk
  where
    path : List Bool
    path = bits_from idx 0 n

    flips_len : length (flips_of path choices) ≡ n
    flips_len =
        length-zip_with _ path choices (length-bits_from n idx 0 ∙ sym hc)
        ∙ length-bits_from n idx 0

decrypted_one :
    (delta key s : Block) (b m : Bool)
    → bitxor
        (bitxor key (if m then delta else zero_block))
        (bitxor (if xor (not b) m then bitxor key delta else key) s)
      ≡ (if b then s else bitxor s delta)
unfolding xor
decrypted_one delta key s true true = Bits_ext _ _ (λ i. simp bits (unfold xor in ground arith))
decrypted_one delta key s true false = Bits_ext _ _ (λ i. simp bits (unfold xor in ground arith))
decrypted_one delta key s false true = Bits_ext _ _ (λ i. simp bits (unfold xor in ground arith))
decrypted_one delta key s false false = Bits_ext _ _ (λ i. simp bits (unfold xor in ground arith))

pub decrypted-off_path :
    (delta : Block) (idx i n : ℕ) (keys sums : List Block) (choices : List Bool)
    → length keys ≡ n
    → length choices ≡ n
    → length sums ≡ n
    → decrypted
        (correlated delta keys choices)
        (derandomized delta keys (flips_of (bits_from idx i n) choices))
        sums
      ≡ off_path delta idx i sums
decrypted-off_path delta idx i zero [] [] [] a b c = refl
decrypted-off_path delta idx i zero keys (s ∷ sums) choices a b c = absurd (omega arith)
decrypted-off_path delta idx i zero (k ∷ keys) [] choices a b c = absurd (omega arith)
decrypted-off_path delta idx i zero [] [] (m ∷ choices) a b c = absurd (omega arith)
decrypted-off_path delta idx i (suc n) [] sums choices a b c = absurd (omega arith)
decrypted-off_path delta idx i (suc n) (k ∷ keys) [] choices a b c = absurd (omega arith)
decrypted-off_path delta idx i (suc n) (k ∷ keys) (s ∷ sums) [] a b c = absurd (omega arith)
decrypted-off_path delta idx i (suc n) (k ∷ keys) (s ∷ sums) (m ∷ choices) a b c =
    ap₂ ◌∷◌ (decrypted_one delta k s (test_bit idx i) m) (
      decrypted-off_path delta idx (i + 1) n keys sums choices (omega arith) (omega arith)
        (omega arith))

-- The fold of the leaves without one of them, where all of them sum up to delta.
pub sum_from-set :
    (delta : Block) (leaves : List Block) (idx : ℕ)
    → idx < length leaves
    → sum leaves ≡ delta
    → sum_from zero_block (set leaves idx zero_block) ≡ bitxor (get_or leaves idx zero_block) delta
sum_from-set delta leaves idx below sums =
    sum_from-zero (set leaves idx zero_block)
    ∙ split (sum (set leaves idx zero_block)) (sum leaves)
    ∙ ap₂ bitxor (sum-set leaves idx zero_block below) sums
  where
    split : (a s : Block) → a ≡ bitxor (bitxor (bitxor a zero_block) s) s
    split a s = Bits_ext _ _ (λ i. simp bits (unfold xor in ground arith))
