-- ===== src/Ggm/Tests.antt =====
-- Runs of the tree, with a permutation in place of AES.
use mpz.Prelude.{◌^◌, ◌≡◌, refl, List, length, set, Outcome, ok, arith}
use mpz.Block.{Block, bitxor, be_bytes, zero_block}
use mpz.Ggm.{expand, expand_punctured}
use mpz.Ggm.Sums.{sum}
use mpz.Ggm.Punctured.{off_path, sum-expand, expand_punctured-expand}

abbrev mask : Block → Block
mask b = bitxor b (be_bytes 77)

abbrev delta : Block
delta = be_bytes 1234

sum-expand_example :
    (leaves : List Block) × (sums : List Block) × (expand mask {E = Unit {0}} delta
        (be_bytes 5)
        (2 ^ 3)
        3
      ≡ ok (leaves, sums))
    × (length leaves ≡ 2 ^ 3)
    × (length sums ≡ 3)
    × (sum leaves ≡ delta)
sum-expand_example = sum-expand mask delta (be_bytes 5) 2

expand_punctured-expand_example :
    (leaves : List Block) × (sums : List Block) × (expand mask {E = Unit {0}} delta
        (be_bytes 5)
        (2 ^ 3)
        3
      ≡ ok (leaves, sums))
    × (expand_punctured mask {E = Unit {0}} 5 (off_path delta 5 0 sums) (2 ^ 3)
        ≡ ok (set leaves 5 zero_block))
expand_punctured-expand_example = expand_punctured-expand mask delta (be_bytes 5) 2 5 (omega arith)

-- Depth 0 is refused, and so is a buffer of another length.
expand_refused :
    (expand mask {E = Unit {0}} delta (be_bytes 5) 1 0 ≡ Outcome.panic)
    × (expand mask {E = Unit {0}} delta (be_bytes 5) 3 1 ≡ Outcome.panic)
unfolding expand
expand_refused = (refl, refl)
