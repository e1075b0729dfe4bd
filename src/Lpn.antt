-- ===== src/Lpn.antt =====
-- `crates/core/src/lpn.rs`: the encoder of a local linear code, in the default build, without `rayon`. Bytes of packed
-- bits are the list of their bits, least significant first. The permutation, with its key, is the parameter
-- `prp`.
pub mod Row
pub mod Linear
pub mod Encode
pub mod Naive
pub mod Tests
use mpz.Prelude.{
  ℕ, zero, suc, ◌+◌, ◌*◌, ◌-◌, ◌/◌, ◌%◌, ◌^◌, Bool, true, false, xor, ◌&&◌, ◌==◌, leb, ltb, List,
  [], ◌∷◌, ◌++◌, length, take, drop, if◌then◌else◌, Outcome, ok, panic, assert, get_at, slice_at,
  ◌>>=◌, ◌>>◌,
}
use mpz.Block.{Block, bitxor, tabulate, get_bit, test_bit}
use mpz.Zk.Check.{chunks_loop}
use mpz.Ferret.Slices.{concat}

-- `LpnEncoder<D>`, with `D` as a field.
pub record LpnEncoder : Type 0 where
  pub d : ℕ
  pub k : ℕ
  pub mask : ℕ

-- `x.is_power_of_two()`: `x` is one of the powers below `2 ^ 32`.
abbrev pub power_below : ℕ → ℕ → Bool
power_below x zero = false
power_below x (suc n) = let smaller = power_below x n in if x == 2 ^ n then true else smaller

-- `LpnEncoder::new`.
unfoldable pub new : {E : Type 0} → ℕ → ℕ → Outcome E LpnEncoder
new d k = do assert (power_below k 32); ok (record { d = d; k = k; mask = k - 1 })

-- `index_block`: two 64-bit numbers, in little-endian order.
unfoldable pub index_block : ℕ → ℕ → Block
unfolding tabulate
index_block pos d = tabulate 128 (λ i. if ltb i 64 then test_bit pos i else test_bit d (i - 64))

-- The number with the given bits, and the four 32-bit numbers of a block.
abbrev pub number : (ℕ → Bool) → ℕ → ℕ
number f zero = 0
number f (suc n) = (if f 0 then 1 else 0) + 2 * number (λ i. f (suc i)) n

unfoldable pub words : Block → List ℕ
words b =
    number (λ i. get_bit b i) 32
    ∷ number (λ i. get_bit b (32 + i)) 32
    ∷ number (λ i. get_bit b (64 + i)) 32
    ∷ number (λ i. get_bit b (96 + i)) 32
    ∷ []

-- `a & b` of `n`-bit numbers.
abbrev pub and_bits : ℕ → ℕ → ℕ → ℕ
and_bits zero a b = 0
and_bits (suc n) a b = (if a % 2 == 1 && b % 2 == 1 then 1 else 0) + 2 * and_bits n (a / 2) (b / 2)

-- A row, to which the selected elements of `x` are added.
unfoldable pub fold_row : {E : Type 0} → List Block → ℕ → Block → List ℕ → Outcome E Block
fold_row x mask acc [] = ok acc
fold_row x mask acc (raw ∷ col) = do
  selected ← get_at x (and_bits 32 raw mask)
  fold_row x mask (bitxor acc selected) col

unfoldable pub fold_row_with_bits :
    {E : Type 0} → List Block → List Bool → ℕ → Block → Bool → List ℕ → Outcome E (Block × Bool)
fold_row_with_bits x x_bits mask acc bit [] = ok (acc, bit)
fold_row_with_bits x x_bits mask acc bit (raw ∷ col) = do
  selected ← get_at x (and_bits 32 raw mask)
  selected_bit ← get_at x_bits (and_bits 32 raw mask)
  fold_row_with_bits x x_bits mask (bitxor acc selected) (xor bit selected_bit) col

-- The rows of a group of four, each with its run of indices.
unfoldable pub group_rows :
    {E : Type 0} → List Block → ℕ → List Block → List (List ℕ) → Outcome E (List Block)
group_rows x mask (y ∷ ys) (col ∷ cols) = do
  row ← fold_row x mask y col
  rest ← group_rows x mask ys cols
  ok (row ∷ rest)
group_rows x mask ys cols = ok ys

unfoldable pub group_rows_with_bits :
    {E : Type 0}
    → List Block
    → List Bool
    → ℕ
    → List Block
    → List Bool
    → List (List ℕ)
    → Outcome E (List Block × List Bool)
group_rows_with_bits x x_bits mask (y ∷ ys) (b ∷ bs) (col ∷ cols) = do
  row ← fold_row_with_bits x x_bits mask y false col
  rest ← group_rows_with_bits x x_bits mask ys bs cols
  ok (row.0 ∷ rest.0, xor b row.1 ∷ rest.1)
group_rows_with_bits x x_bits mask (y ∷ ys) [] (col ∷ cols) = panic
group_rows_with_bits x x_bits mask ys bs cols = ok (ys, bs)

-- `chunks`, with the length as fuel.
abbrev pub chunks : {A : Type 0} → List A → ℕ → List (List A)
chunks xs size = chunks_loop (length xs) size xs

module _ (prp : Block → Block → Block) (encoder : LpnEncoder) (seed : Block) where
  -- `compute_indices` for the group at `pos`: the blocks from `i` on, flattened, and the runs of `D`.
  abbrev pub indices_from : ℕ → ℕ → ℕ → List ℕ
  indices_from pos i zero = []
  indices_from pos i (suc n) = words (prp seed (index_block pos i)) ++ indices_from pos (i + 1) n

  unfoldable pub compute_indices : ℕ → List (List ℕ)
  compute_indices pos = chunks (indices_from pos 0 encoder.d) encoder.d

  -- The loop of `compute_rows` over the groups, from row `pos` on.
  unfoldable pub compute_rows :
      {E : Type 0} → List Block → ℕ → List (List Block) → Outcome E (List Block)
  compute_rows x pos [] = ok []
  compute_rows x pos (group ∷ groups) = do
    rows ← group_rows x encoder.mask group (compute_indices pos)
    rest ← compute_rows x (pos + 4) groups
    ok (rows ++ rest)

  -- The loop of `compute_rows_with_bits`, on the bits of the rows from `pos` on.
  unfoldable pub compute_rows_with_bits :
      {E : Type 0}
      → List Block
      → List Bool
      → ℕ
      → List (List Block)
      → List Bool
      → Outcome E (List Block × List Bool)
  compute_rows_with_bits x x_bits pos [] y_bits = ok ([], y_bits)
  compute_rows_with_bits x x_bits pos (group ∷ groups) y_bits = do
    rows ← group_rows_with_bits x x_bits encoder.mask group (take 4 y_bits) (compute_indices pos)
    rest ← compute_rows_with_bits x x_bits (pos + 4) groups (drop 4 y_bits)
    ok (rows.0 ++ rest.0, rows.1 ++ rest.1)

  -- The chunks of sixteen rows, from chunk `i` on.
  unfoldable pub compute_chunks :
      {E : Type 0} → List Block → ℕ → List (List Block) → Outcome E (List Block)
  unfolding compute_rows
  compute_chunks x i [] = ok []
  compute_chunks x i (y ∷ ys) = do
    rows ← compute_rows x (i * 16) (chunks y 4)
    rest ← compute_chunks x (i + 1) ys
    ok (rows ++ rest)

  unfoldable pub compute_chunks_with_bits :
      {E : Type 0}
      → List Block
      → List Bool
      → ℕ
      → List (List Block)
      → List (List Bool)
      → Outcome E (List Block × List Bool)
  unfolding compute_rows_with_bits
  compute_chunks_with_bits x x_bits i (y ∷ ys) (y_bits ∷ bits) = do
    inside ← slice_at x 0 (encoder.mask + 1)
    inside_bits ← slice_at x_bits 0 (8 * (encoder.mask / 8 + 1))
    rows ← compute_rows_with_bits inside inside_bits (i * 16) (chunks y 4) y_bits
    rest ← compute_chunks_with_bits x x_bits (i + 1) ys bits
    ok (rows.0 ++ rest.0, rows.1 ++ rest.1)
  compute_chunks_with_bits x x_bits i ys bits = ok (concat ys, concat bits)

  unfoldable pub compute : {E : Type 0} → List Block → List Block → Outcome E (List Block)
  compute y x = do
    assert (length x % 2 ^ 32 == encoder.k)
    assert (leb encoder.d (length x))
    compute_chunks x 0 (chunks y 16)

  unfoldable pub compute_with_bits :
      {E : Type 0}
      → List Block
      → List Bool
      → List Block
      → List Bool
      → Outcome E (List Block × List Bool)
  compute_with_bits y y_bits x x_bits = do
    assert (length x % 2 ^ 32 == encoder.k)
    assert (length x_bits % 2 ^ 32 == encoder.k)
    assert (length y_bits == 8 * ((length y + 7) / 8))
    assert (leb encoder.d (length x))
    compute_chunks_with_bits x x_bits 0 (chunks y 16) (chunks y_bits 16)
