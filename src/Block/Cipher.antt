-- ===== src/Block/Cipher.antt =====
-- `crates/core/src/aes.rs`: the hash functions built from fixed-key AES. The permutation of the
-- `aes` crate under the fixed key is the parameter `encrypt`.
use mpz.Prelude.{◌+◌, ◌%◌, ◌&&◌, xor, leb, ◌≡◌, refl, ap₂, List, [], ◌∷◌, map, zip_with}
use mpz.Block.{Block, bitxor, tabulate, get_bit}

-- `sigma`, on the little-endian value: the halves are swapped, and the upper one is folded in.
unfoldable pub sigma : Block → Block
unfolding tabulate get_bit xor
sigma block = tabulate 128 (λ i. xor (get_bit block ((i + 64) % 128)) (leb 64 i && get_bit block i))

module _ (encrypt : Block → Block) where
  -- `FixedKeyAes::ccr`, and `FixedKeyAes::ccr_blocks_to` on any number of blocks.
  unfoldable pub ccr : Block → Block
  unfolding sigma
  ccr block = let b = sigma block in bitxor b (encrypt b)

  abbrev pub ccr_blocks : List Block → List Block
  ccr_blocks blocks = map ccr blocks

  -- `FixedKeyAes::tccr`: `π(π(x) ⊕ i) ⊕ π(x)`.
  unfoldable pub tccr : Block → Block → Block
  tccr tweak block = let h1 = encrypt block in let h2 = encrypt (bitxor h1 tweak) in bitxor h1 h2

  -- `FixedKeyAes::tccr_many`, which encrypts all blocks at once, then all tweaked blocks.
  unfoldable pub tccr_many : List Block → List Block → List Block
  tccr_many tweaks blocks =
      let blocks' = map encrypt blocks in
      let buf = map encrypt (zip_with bitxor blocks' tweaks) in zip_with bitxor blocks' buf

  -- Hashing many blocks at once is hashing each with its tweak.
  pub tccr_many-eq-zip_with :
      (tweaks blocks : List Block) → tccr_many tweaks blocks ≡ zip_with tccr tweaks blocks
  unfolding tccr_many tccr
  tccr_many-eq-zip_with [] [] = refl
  tccr_many-eq-zip_with [] (b ∷ bs) = refl
  tccr_many-eq-zip_with (t ∷ ts) [] = refl
  tccr_many-eq-zip_with (t ∷ ts) (b ∷ bs) = ap₂ ◌∷◌ refl (tccr_many-eq-zip_with ts bs)
