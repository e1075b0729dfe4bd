-- ===== src/Ferret/Chis.antt =====
-- `fold_chis` of `crates/ot-core/src/ferret/spcot.rs`, without `rayon`, and the inner product of
-- `crates/fields/src/lib.rs` and `gf2_128/soft.rs`. The product of two polynomials as its two halves and its
-- reduction are those of `Clmul`; `aes` is the cipher, with its key.
pub mod Picks
pub mod Fold
pub mod Batches
pub mod Sum
use mpz.Prelude.{
  ℕ, zero, suc, ◌+◌, ◌*◌, ◌-◌, ◌^◌, Bool, true, false, ◌&&◌, ◌==◌, leb, ltb, List, [], ◌∷◌, length,
  if◌then◌else◌, Outcome, ok, panic, assert, get_at, slice_at, ◌>>=◌, ◌>>◌,
}
use mpz.Block.{Block, bitxor, zero_block, tabulate, test_bit}
use mpz.Zk.Check.{Clmul, chunks_loop}

module _ (C : Clmul) where
  -- `Gf2_128::mul`.
  unfoldable pub mul : Block → Block → Block
  mul a b = let product = C.clmul a b in C.reduce_gcm product.0 product.1

  -- The loop of `inner_product` of the software backend.
  abbrev pub product_loop : Block × Block → List Block → List Block → Block × Block
  product_loop acc (x ∷ xs) (y ∷ ys) =
      let t = C.clmul x y in product_loop (bitxor acc.0 t.0, bitxor acc.1 t.1) xs ys
  product_loop acc xs ys = acc

  unfoldable pub inner_product : {E : Type 0} → List Block → List Block → Outcome E Block
  inner_product a b = do
    assert (length a == length b)
    let acc = product_loop (zero_block, zero_block) a b
    ok (C.reduce_gcm acc.0 acc.1)

-- `CHI_CHUNK_SIZE` and `CHI_BATCH_SIZE`.
abbrev pub chunk_size : ℕ
chunk_size = 65536

abbrev pub batch_size : ℕ
batch_size = 1024

-- `chunks`, with the length as fuel.
abbrev pub chunks : {A : Type 0} → List A → ℕ → List (List A)
chunks xs size = chunks_loop (length xs) size xs

-- `is_sorted`, and the number of leading elements below a bound, which is `partition_point` on a sorted list.
abbrev pub ascends : ℕ → List ℕ → Bool
ascends p [] = true
ascends p (q ∷ qs) = leb p q && ascends q qs

abbrev pub is_sorted : List ℕ → Bool
is_sorted [] = true
is_sorted (p ∷ ps) = ascends p ps

abbrev pub partition_point : ℕ → List ℕ → ℕ
partition_point bound [] = 0
partition_point bound (p ∷ ps) =
    let rest = partition_point bound ps in if ltb p bound then suc rest else 0

-- A counter and a stream, each as eight bytes in little-endian order.
unfoldable pub counter_block : ℕ → ℕ → Block
unfolding tabulate
counter_block counter stream =
    tabulate 128 (λ k. if ltb k 64 then test_bit counter k else test_bit stream (k - 64))

-- `chis[pick - base]`.
abbrev pub chi_of : {E : Type 0} → ℕ → List Block → ℕ → Outcome E Block
chi_of base chis pick = elim (leb base pick) [ true ↦ get_at chis (pick - base) | false ↦ panic ]

-- The loop over the picks that fall into a batch, with those that are left.
unfoldable pub take_picks :
    {E : Type 0} → ℕ → List Block → Block → List ℕ → Outcome E (Block × List ℕ)
take_picks base chis picked [] = ok (picked, [])
take_picks base chis picked (pick ∷ picks) = elim (leb (base + length chis) pick) [
  | true ↦ ok (picked, pick ∷ picks)
  | false ↦ (do chi ← chi_of base chis pick; take_picks base chis (bitxor picked chi) picks)
]

module _ (C : Clmul) (aes : Block → Block → Block) (seed : Block) where
  -- The challenges of a batch, from a counter on.
  abbrev pub chis_from : ℕ → ℕ → ℕ → List Block
  chis_from stream counter zero = []
  chis_from stream counter (suc n) =
      aes seed (counter_block counter stream) ∷ chis_from stream (counter + 1) n

  -- The loop over the batches of a chunk, from batch `j` on.
  unfoldable pub fold_batches :
      {E : Type 0}
      → ℕ
      → ℕ
      → ℕ
      → List (List Block)
      → List ℕ
      → Block × Block
      → Outcome E (Block × Block)
  fold_batches stream start j [] picks acc = ok acc
  fold_batches stream start j (values ∷ rest) picks acc = do
    let chis = chis_from stream (j * batch_size) (length values)
    product ← inner_product C chis values
    taken ← take_picks (start + j * batch_size) chis acc.1 picks
    fold_batches stream start (j + 1) rest taken.1 (bitxor acc.0 product, taken.0)

  -- `fold_chunk`.
  unfoldable pub fold_chunk : {E : Type 0} → List ℕ → ℕ → List Block → Outcome E (Block × Block)
  unfolding fold_batches
  fold_chunk picks i chunk = do
    let start = i * chunk_size
    inside ←
        slice_at picks (partition_point start picks) (partition_point (start + length chunk) picks)
    fold_batches i start 0 (chunks chunk batch_size) inside (zero_block, zero_block)

  -- The fold over the chunks, from chunk `i` on.
  unfoldable pub fold_chunks :
      {E : Type 0} → List ℕ → ℕ → Block × Block → List (List Block) → Outcome E (Block × Block)
  fold_chunks picks i acc [] = ok acc
  fold_chunks picks i acc (chunk ∷ rest) = do
    folded ← fold_chunk picks i chunk
    fold_chunks picks (i + 1) (bitxor acc.0 folded.0, bitxor acc.1 folded.1) rest

  unfoldable pub fold_chis : {E : Type 0} → List Block → List ℕ → Outcome E (Block × Block)
  fold_chis values picks = do
    assert (is_sorted picks)
    fold_chunks picks 0 (zero_block, zero_block) (chunks values chunk_size)
