-- ===== src/Ggm.antt =====
-- `crates/core/src/cggm.rs`: the correlated GGM tree, in the default build, where no bit of a leaf is cleared. A
-- level is the list of its nodes, the prefix of the buffer that it fills: the left children stand in the
-- lower half, the right children in the upper half.
pub mod Sums
pub mod Level
pub mod Punctured
pub mod Tests
use mpz.Prelude.{
  ℕ, zero, suc, ◌+◌, ◌-◌, ◌^◌, ◌%◌, ◌≡◌, Bool, true, false, not, ◌==◌, leb, ltb, List, [], ◌∷◌,
  ◌++◌, length, set, get_or, zip_with, if◌then◌else◌, Outcome, ok, assert, ◌>>=◌, ◌>>◌,
}
use mpz.Block.{Block, bitxor, zero_block, test_bit}
use mpz.Block.Cipher.{ccr, ccr_blocks}

-- The fold that adds up the nodes of one side.
abbrev pub sum_from : Block → List Block → Block
sum_from sum [] = sum
sum_from sum (node ∷ nodes) = sum_from (bitxor sum node) nodes

-- `idx & 1` and `(idx >> i) & 1`.
abbrev pub path_bit : ℕ → ℕ → Bool
path_bit idx i = test_bit idx i

module _ (encrypt : Block → Block) where
  -- `expand_level`: the children of the nodes, and the sum of one side.
  unfoldable pub expand_level : List Block → Bool → List Block × Block
  expand_level nodes right =
      let h = ccr_blocks encrypt nodes in
      let right_half = zip_with bitxor nodes h in
      (h ++ right_half, sum_from zero_block (if right then right_half else h))

  -- The loop of `expand` over the levels that are left: the leaves, and the sum of each level.
  unfoldable pub expand_loop : ℕ → List Block → List Block × List Block
  unfolding expand_level
  expand_loop zero nodes = (nodes, [])
  expand_loop (suc levels) nodes =
      let l = expand_level nodes false in
      let rest = expand_loop levels l.0 in (rest.0, l.1 ∷ rest.1)

  -- `expand`, with the depth of the tree and the number of leaves that there is room for.
  unfoldable pub expand : {E : Type 0} → Block → Block → ℕ → ℕ → Outcome E (List Block × List Block)
  unfolding expand_loop
  expand delta seed leaves depth = do
    assert (leb 1 depth)
    assert (leaves == 2 ^ depth)
    let rest = expand_loop (depth - 1) (seed ∷ bitxor delta seed ∷ [])
    ok (rest.0, seed ∷ rest.1)

  -- A round of the loop of `expand_punctured`, for the level whose parents number `half`: the nodes, of
  -- which that at `pos` is zero, are expanded, and the sibling on the path is recovered.
  abbrev pub punctured_level : Bool → ℕ → ℕ → Block → List Block → List Block
  punctured_level b half pos expected nodes =
      let l = expand_level nodes (not b) in
      let junk = get_or l.0 pos zero_block in
      let cleared = set (set l.0 pos zero_block) (pos + half) zero_block in
      let sibling = bitxor (bitxor l.1 junk) expected in
      set cleared (pos + (if b then 0 else half)) sibling

  -- The loop of `expand_punctured`, from bit `i` of the index on.
  unfoldable pub punctured_loop : ℕ → List Block → ℕ → ℕ → List Block → List Block
  unfolding expand_level
  punctured_loop idx [] i pos nodes = nodes
  punctured_loop idx (expected ∷ sums) i pos nodes =
      let b = path_bit idx i in
      let half = 2 ^ i in
      punctured_loop idx sums (i + 1) (pos + (if b then half else 0))
        (punctured_level b half pos expected nodes)

  -- `expand_punctured`.
  unfoldable pub expand_punctured : {E : Type 0} → ℕ → List Block → ℕ → Outcome E (List Block)
  unfolding punctured_loop
  expand_punctured idx [] leaves = assert false >> ok []
  expand_punctured idx (expected ∷ sums) leaves = do
    assert (leaves == 2 ^ suc (length sums))
    assert (ltb idx leaves)
    let b = path_bit idx 0
    let nodes = if b then expected ∷ zero_block ∷ [] else zero_block ∷ expected ∷ []
    ok (punctured_loop idx sums 1 (if b then 1 else 0) nodes)
