-- ===== src/Zk/Tests.antt =====
-- Runs of the proof of a small circuit, and of its check. In place of the crate `clmul` stands the ring of
-- blocks with AND as its product.
use mpz.Prelude.{
  ℕ, zero, suc, ◌+◌, ◌*◌, ◌≡◌, refl, ap, ap₂, Bool, true, false, List, [], ◌∷◌, ok, length,
  zip_with, replicate, xor, arith,
}
use mpz.Block.{Block, bitxor, bitand, be_bytes, set_lsb, zero_block, lsb}
use mpz.Block.Laws.{Bits_ext, bits, get_bit-bitand, bitand_comm}
use mpz.Circuit.{evaluate}
use mpz.Garble.Gate.{label}
use mpz.Garble.Tests.{nand, nand-IsCircuit, delta, delta-pointer}
use mpz.Zk.Check.{Clmul, Transcript, Uv, empty_check, gfmul, from_lsb0, vole_sender, vole_receiver}
use mpz.Zk.Prover as Prover
use mpz.Zk.Prover.{Prover}
use mpz.Zk.Verifier as Verifier
use mpz.Zk.Verifier.{Verifier}
use mpz.Zk.Relation.{AllMatched}
use mpz.Zk.Vole.{IsClmul, vole_sender-vole_receiver}
use mpz.Zk.Protocol.{prove_circuit, verify_circuit}
use mpz.Zk.Synced.{Synced, AreClean}
use mpz.Zk.Execute.{verify_circuit-prove_circuit}
use mpz.Zk.Accept.{verifier_check-prover_check}

abbrev pub and_product : Clmul
and_product = record { clmul = λ a b. (bitand a b, zero_block); reduce_gcm = λ a b. bitxor a b }

pub and_product-IsClmul : IsClmul and_product
unfolding gfmul
and_product-IsClmul = record {
  clmul_comm = λ a b. ap (λ (x : Block). (x, zero_block)) (bitand_comm a b);
  clmul-bitxor = λ a b c. ap₂ (λ (x y : Block). (x, y)) (products a b c) zeros_twice;
  reduce_gcm-bitxor = λ a b c d. Bits_ext _ _ (λ i. simp bits (unfold xor in ground arith));
  gfmul_assoc =
      λ a b c. Bits_ext _ _ (λ i. simp (bits, get_bit-bitand) (unfold xor in ground arith));
}
  where
    products : (a b c : Block) → bitand a (bitxor b c) ≡ bitxor (bitand a b) (bitand a c)
    products a b c = Bits_ext _ _ (λ i. simp (bits, get_bit-bitand) (unfold xor in ground arith))

    zeros_twice : zero_block ≡ bitxor zero_block zero_block
    zeros_twice = Bits_ext _ _ (λ i. simp bits (unfold xor in ground arith))

-- The transcript is what it was fed, latest first.
abbrev listed : Transcript (List Block)
listed = record {
  update_bits = λ t bits. from_lsb0 128 bits ∷ t;
  update_block = λ t block. block ∷ t;
  chi = λ t stream i. be_bytes (length t + stream * 512 + i);
}

abbrev new_prover : Prover
new_prover = record { check = empty_check; executions = 0 }

abbrev new_verifier : Verifier
new_verifier = record { delta = delta; check = empty_check; executions = 0 }

new-Synced : Synced new_prover new_verifier
new-Synced = record {
  odd = delta-pointer;
  matched = AllMatched.none;
  same_adjust = refl;
  same_executions = refl;
}

abbrev even : ℕ → Block
even n = set_lsb false (be_bytes n)

even_keys : AreClean (even 5 ∷ even 9 ∷ [])
unfolding lsb set_lsb be_bytes
even_keys zero h = refl
even_keys (suc zero) h = refl
even_keys (suc (suc i)) h = absurd (omega arith)

verify_circuit-prove_circuit_example :
    (bits : List Bool) × (output_keys : List Block) × (outputs : List Bool) × (prover' : Prover)
    × (verifier' : Verifier) × (prove_circuit new_prover nand
          (zip_with (label delta) (even 5 ∷ even 9 ∷ []) (true ∷ false ∷ []))
          (true ∷ [])
          (zip_with (label delta) (be_bytes 7 ∷ []) (true ∷ []))
        ≡ ok (bits, zip_with (label delta) output_keys outputs, prover'))
    × (verify_circuit new_verifier nand (even 5 ∷ even 9 ∷ []) (be_bytes 7 ∷ []) bits
        ≡ ok (output_keys, verifier'))
    × (evaluate nand (true ∷ false ∷ []) ≡ ok outputs)
    × Synced prover' verifier'
verify_circuit-prove_circuit_example =
    verify_circuit-prove_circuit new_prover new_verifier nand (even 5 ∷ even 9 ∷ [])
      (be_bytes 7 ∷ []) (true ∷ []) (true ∷ false ∷ []) nand-IsCircuit new-Synced refl refl refl
      refl even_keys

abbrev svole_keys : List Block
svole_keys = replicate 128 (be_bytes 3)

abbrev svole_choices : List Bool
svole_choices = true ∷ replicate 127 false

vole_sender-vole_receiver_example :
    let a =
      vole_receiver and_product svole_choices (zip_with (label delta) svole_keys svole_choices) in
    vole_sender and_product svole_keys ≡ bitxor a.0 (gfmul and_product delta a.1)
vole_sender-vole_receiver_example =
    vole_sender-vole_receiver and_product-IsClmul delta svole_keys svole_choices refl refl

-- One AND gate of two ones that waits for the check.
abbrev waiting_prover : Prover
waiting_prover = record {
  check = record {
    triples =
        record {
          x = label delta (even 5) true;
          y = label delta (even 9) true;
          z = label delta (even 7) true;
        }
        ∷ [];
    adjust = true ∷ [];
  };
  executions = 0;
}

abbrev waiting_verifier : Verifier
waiting_verifier = record {
  delta = delta;
  check = record {
    triples = record { x = even 5; y = even 9; z = even 7 } ∷ [];
    adjust = true ∷ [];
  };
  executions = 0;
}

waiting-Synced : Synced waiting_prover waiting_verifier
unfolding lsb set_lsb be_bytes bitxor xor
waiting-Synced = record {
  odd = delta-pointer;
  matched =
      AllMatched.next _ _ [] []
        (record {
          bit_x = true;
          bit_y = true;
          mac_x = refl;
          mac_y = refl;
          mac_z = refl;
          pointer_x = refl;
          pointer_y = refl;
        })
        AllMatched.none;
  same_adjust = refl;
  same_executions = refl;
}

verifier_check-prover_check_example :
    (uv : Uv) × (t' : List Block) × (Prover.run_check and_product listed waiting_prover []
        svole_choices
        (zip_with (label delta) svole_keys svole_choices)
      ≡ (ok uv, record { check = empty_check; executions = 0 }, t'))
    × (Verifier.run_check and_product listed waiting_verifier [] svole_keys uv
        ≡ (ok tt, record { delta = delta; check = empty_check; executions = 0 }, t'))
verifier_check-prover_check_example =
    verifier_check-prover_check listed waiting_prover waiting_verifier [] svole_keys svole_choices
      and_product-IsClmul waiting-Synced refl refl refl
