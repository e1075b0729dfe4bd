-- ===== src/Lpn/Tests.antt =====
-- A run of the encoder, with addition of the key in place of AES.
use mpz.Prelude.{◌≡◌, refl, Bool, true, false, List, ◌∷◌, replicate, arith}
use mpz.Block.{Block, bitxor, be_bytes}
use mpz.Cot.Correct.{correlated}
use mpz.Ferret.Spcot.{SenderError}
use mpz.Lpn.{LpnEncoder, new, compute, compute_with_bits}
use mpz.Lpn.Linear.{Correlated}
use mpz.Lpn.Naive.{compute_naive, compute-compute_naive}
use mpz.Lpn.Encode.{compute_with_bits-compute}

abbrev seed : Block
seed = be_bytes 99

abbrev delta : Block
delta = be_bytes 1234

abbrev encoder : LpnEncoder
encoder = record { d = 2; k = 8; mask = 7 }

abbrev secret : List Block
secret = be_bytes 1 ∷ be_bytes 2 ∷ replicate 6 (be_bytes 3)

abbrev noise : List Block
noise = be_bytes 4 ∷ replicate 7 (be_bytes 5)

abbrev secret_bits : List Bool
secret_bits = true ∷ false ∷ replicate 6 true

abbrev noise_bits : List Bool
noise_bits = false ∷ true ∷ replicate 6 false

compute_with_bits-compute_example :
    Correlated {E = SenderError} delta 8 (compute bitxor encoder seed noise secret) (
      compute_with_bits bitxor encoder seed
        (correlated delta noise noise_bits)
        noise_bits
        (correlated delta secret secret_bits)
        secret_bits)
unfolding new
compute_with_bits-compute_example =
    compute_with_bits-compute bitxor seed delta 2 8 0 1 encoder secret noise secret_bits noise_bits
      refl (omega arith) (omega arith) (omega arith) refl refl refl refl

compute-compute_naive_example :
    compute bitxor encoder seed {E = SenderError} noise secret
    ≡ compute_naive bitxor encoder seed secret noise
compute-compute_naive_example = compute-compute_naive bitxor encoder seed secret noise (omega arith)
