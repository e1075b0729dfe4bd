-- ===== src/Ggm/Sums.antt =====
-- Sums of the nodes of a level of `crates/core/src/cggm.rs`, and lists of nodes of which one is changed.
use mpz.Prelude.{
  ℕ, zero, suc, ◌+◌, ◌<◌, ◌≡◌, refl, ap, ◌∙◌, xor, arith, List, [], ◌∷◌, ◌++◌, length, map, set,
  get_or, zip_with,
}
use mpz.Block.{Block, bitxor, zero_block}
use mpz.Block.Laws.{Bits_ext, bits}
use mpz.Ggm.{sum_from}

-- The sum, by recursion on the nodes.
abbrev pub sum : List Block → Block
sum [] = zero_block
sum (node ∷ nodes) = bitxor node (sum nodes)

pub sum_from-eq-bitxor :
    (acc : Block) (nodes : List Block) → sum_from acc nodes ≡ bitxor acc (sum nodes)
sum_from-eq-bitxor acc [] = Bits_ext _ _ (λ i. simp bits (unfold xor in ground arith))
sum_from-eq-bitxor acc (n ∷ nodes) =
    sum_from-eq-bitxor (bitxor acc n) nodes
    ∙ Bits_ext _ _ (λ i. simp bits (unfold xor in ground arith))

pub sum_from-zero : (nodes : List Block) → sum_from zero_block nodes ≡ sum nodes
sum_from-zero nodes =
    sum_from-eq-bitxor zero_block nodes ∙ Bits_ext _ _ (λ i. simp bits (unfold xor in ground arith))

pub sum-append : (xs ys : List Block) → sum (xs ++ ys) ≡ bitxor (sum xs) (sum ys)
sum-append [] ys = Bits_ext _ _ (λ i. simp bits (unfold xor in ground arith))
sum-append (x ∷ xs) ys =
    ap (bitxor x) (sum-append xs ys) ∙ Bits_ext _ _ (λ i. simp bits (unfold xor in ground arith))

pub sum-zip_with :
    (xs ys : List Block)
    → length xs ≡ length ys
    → sum (zip_with bitxor xs ys) ≡ bitxor (sum xs) (sum ys)
sum-zip_with [] [] h = Bits_ext _ _ (λ i. simp bits (unfold xor in ground arith))
sum-zip_with [] (y ∷ ys) h = absurd (omega arith)
sum-zip_with (x ∷ xs) [] h = absurd (omega arith)
sum-zip_with (x ∷ xs) (y ∷ ys) h =
    ap (bitxor (bitxor x y)) (sum-zip_with xs ys (omega arith))
    ∙ Bits_ext _ _ (λ i. simp bits (unfold xor in ground arith))

-- What the sum of a list of which one node is changed lacks is that node.
pub sum-set :
    (nodes : List Block) (i : ℕ) (v : Block)
    → i < length nodes
    → bitxor (bitxor (sum (set nodes i v)) v) (sum nodes) ≡ get_or nodes i zero_block
sum-set [] i v h = absurd (omega arith)
sum-set (n ∷ nodes) zero v h = Bits_ext _ _ (λ i. simp bits (unfold xor in ground arith))
sum-set (n ∷ nodes) (suc i) v h =
    cancel n (sum (set nodes i v)) v (sum nodes) ∙ sum-set nodes i v (omega arith)
  where
    cancel : (a b c d : Block) → bitxor (bitxor (bitxor a b) c) (bitxor a d) ≡ bitxor (bitxor b c) d
    cancel a b c d = Bits_ext _ _ (λ i. simp bits (unfold xor in ground arith))

module _ {A : Type 0} where
  pub map-set :
      {B : Type 0} (f : A → B) (xs : List A) (i : ℕ) (v : A)
      → map f (set xs i v) ≡ set (map f xs) i (f v)
  map-set f [] i v = refl
  map-set f (x ∷ xs) zero v = refl
  map-set f (x ∷ xs) (suc i) v = ap (λ (t : List _). f x ∷ t) (map-set f xs i v)

  pub zip_with-set :
      {B C : Type 0} (f : A → B → C) (xs : List A) (ys : List B) (i : ℕ) (v : A) (w : B)
      → zip_with f (set xs i v) (set ys i w) ≡ set (zip_with f xs ys) i (f v w)
  zip_with-set f [] ys i v w = refl
  zip_with-set f (x ∷ xs) [] zero v w = refl
  zip_with-set f (x ∷ xs) [] (suc i) v w = refl
  zip_with-set f (x ∷ xs) (y ∷ ys) zero v w = refl
  zip_with-set f (x ∷ xs) (y ∷ ys) (suc i) v w =
      ap (λ (t : List _). f x y ∷ t) (zip_with-set f xs ys i v w)

  pub set-append_left :
      (xs ys : List A) (i : ℕ) (v : A) → i < length xs → set (xs ++ ys) i v ≡ set xs i v ++ ys
  set-append_left [] ys i v h = absurd (omega arith)
  set-append_left (x ∷ xs) ys zero v h = refl
  set-append_left (x ∷ xs) ys (suc i) v h =
      ap (λ (t : List A). x ∷ t) (set-append_left xs ys i v (omega arith))

  pub set-append_right :
      (xs ys : List A) (i k : ℕ) (v : A) → k ≡ i + length xs → set (xs ++ ys) k v ≡ xs ++ set ys i v
  set-append_right [] ys i k v h = ap (λ (j : ℕ). set ys j v) (omega arith)
  set-append_right (x ∷ xs) ys i zero v h = absurd (omega arith)
  set-append_right (x ∷ xs) ys i (suc k) v h =
      ap (λ (t : List A). x ∷ t) (set-append_right xs ys i k v (omega arith))

  pub set-set : (xs : List A) (i : ℕ) (v w : A) → set (set xs i v) i w ≡ set xs i w
  set-set [] i v w = refl
  set-set (x ∷ xs) zero v w = refl
  set-set (x ∷ xs) (suc i) v w = ap (λ (t : List A). x ∷ t) (set-set xs i v w)

  pub set-get_or : (xs : List A) (i : ℕ) (d : A) → set xs i (get_or xs i d) ≡ xs
  set-get_or [] i d = refl
  set-get_or (x ∷ xs) zero d = refl
  set-get_or (x ∷ xs) (suc i) d = ap (λ (t : List A). x ∷ t) (set-get_or xs i d)
