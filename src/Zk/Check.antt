-- ===== src/Zk/Check.antt =====
-- `crates/zk-core/src/check.rs`: the triples that wait for the check, and the check of both parties. The
-- hasher and the random number generator that is seeded from it are parameters, and so are the
-- carry-less product and the reduction of the crate `clmul`.
use mpz.Prelude.{
  ℕ, zero, suc, ◌+◌, Bool, true, false, List, [], ◌∷◌, length, take, drop, ◌==◌, Outcome, ok, err,
  ◌>>=◌, ensure, copy_at, if◌then◌else◌, not, xor, ◌&&◌,
}
use mpz.Block.{Bits, nil, cons, Block, bitxor, zero_block, lsb, tabulate}
use mpz.Cot.{zip}
use mpz.Zk.{Triple, resize}

-- The calls of the crate `clmul`: the product of two polynomials as its two halves, and a polynomial
-- reduced modulo the GCM polynomial.
pub record Clmul : Type 0 where
  pub clmul : Block → Block → Block × Block
  pub reduce_gcm : Block → Block → Block

-- The transcript, a `blake3::Hasher`: what it is fed, and the blocks of the generator that is seeded
-- with its digest, by stream and position.
pub record Transcript (H : Type 0) : Type 0 where
  pub update_bits : H → List Bool → H
  pub update_block : H → Block → H
  pub chi : H → ℕ → ℕ → Block

pub data CheckError : Type 0 where
  svole invalid : CheckError

-- `UV`.
pub record Uv : Type 0 where
  pub u : Block
  pub v : Block

pub record Check : Type 0 where
  pub triples : List Triple
  pub adjust : List Bool

abbrev pub no_triple : Triple
no_triple = record { x = zero_block; y = zero_block; z = zero_block }

abbrev pub empty_check : Check
empty_check = record { triples = []; adjust = [] }

-- `Check::reserve`, with the index from which there is room.
abbrev pub reserve : Check → ℕ → ℕ × Check
reserve c n =
    let idx = length c.triples in
    (
      idx,
      record {
        triples = resize (idx + n) no_triple c.triples;
        adjust = resize (idx + n) false c.adjust;
      },
    )

-- `Check::write`.
unfoldable pub write : {E : Type 0} → Check → ℕ → List Triple → List Bool → Outcome E Check
write c idx triples adjust = do
  new_triples ← copy_at c.triples (record { start = idx; stop = idx + length triples }) triples
  new_adjust ← copy_at c.adjust (record { start = idx; stop = idx + length triples }) adjust
  ok (record { triples = new_triples; adjust = new_adjust })

-- `slice::chunks`, with the length as fuel.
abbrev pub chunks_loop : {A : Type 0} → ℕ → ℕ → List A → List (List A)
chunks_loop zero size xs = []
chunks_loop (suc fuel) size [] = []
chunks_loop (suc fuel) size (x ∷ xs) =
    take size (x ∷ xs) ∷ chunks_loop fuel size (drop size (x ∷ xs))

abbrev pub segment_size : ℕ
segment_size = 512

abbrev pub segments : List Triple → List (List Triple)
segments triples = chunks_loop (length triples) segment_size triples

-- `Block::MONOMIAL[i]`.
unfoldable pub monomial : ℕ → Block
unfolding tabulate
monomial i = tabulate 128 (λ j. j == i)

-- `Block::MONOMIAL`, from the index `i` on.
abbrev pub monomials : ℕ → ℕ → List Block
monomials i zero = []
monomials i (suc n) = monomial i ∷ monomials (i + 1) n

-- `from_lsb0_iter` on a block of `n` bits: bits that are not given are 0.
unfoldable pub from_lsb0 : (n : ℕ) → List Bool → Bits n
from_lsb0 zero bits = nil
from_lsb0 (suc n) [] = cons false (from_lsb0 n [])
from_lsb0 (suc n) (b ∷ bits) = cons b (from_lsb0 n bits)

-- `==` on blocks.
unfoldable pub block_eq : {n : ℕ} → Bits n → Bits n → Bool
unfolding xor
block_eq nil nil = true
block_eq (cons a as') (cons b bs) = not (xor a b) && block_eq as' bs

module _ (C : Clmul) where
  -- `Block::gfmul`.
  unfoldable pub gfmul : Block → Block → Block
  gfmul a b = let product = C.clmul a b in C.reduce_gcm product.0 product.1

  -- The fold of `Block::inn_prdt_no_red`.
  abbrev pub inner_fold : Block × Block → List (Block × Block) → Block × Block
  inner_fold acc [] = acc
  inner_fold acc (ab ∷ rest) =
      let t = C.clmul ab.0 ab.1 in inner_fold (bitxor t.0 acc.0, bitxor t.1 acc.1) rest

  -- `Block::inn_prdt_red`, of vectors of one length.
  unfoldable pub inn_prdt_red : List Block → List Block → Block
  inn_prdt_red a b =
      let sum = inner_fold (zero_block, zero_block) (zip a b) in C.reduce_gcm sum.0 sum.1

  -- `vole_sender` and `vole_receiver` of `vole.rs`.
  unfoldable pub vole_sender : List Block → Block
  unfolding inn_prdt_red
  vole_sender keys = inn_prdt_red keys (monomials 0 128)

  -- `vole_receiver`; `Block::from_lsb0_iter` is `from_lsb0`.
  unfoldable pub vole_receiver : List Bool → List Block → Block × Block
  unfolding inn_prdt_red
  vole_receiver choices ev = (inn_prdt_red ev (monomials 0 128), from_lsb0 128 choices)

  -- `compute_terms` of the prover: the pointer bit of a MAC is the authenticated bit.
  unfoldable pub compute_terms : Triple → Block → Block × Block
  compute_terms triple chi =
      let u = gfmul (gfmul triple.x triple.y) chi in
      let a_10 = if lsb triple.x then triple.y else zero_block in
      let a_11 = if lsb triple.y then triple.x else zero_block in
      let v = gfmul (bitxor (bitxor a_10 a_11) triple.z) chi in (u, v)

  -- `compute_term` of the verifier.
  unfoldable pub compute_term : Triple → Block → Block → Block
  compute_term triple chi delta =
      gfmul (bitxor (gfmul triple.x triple.y) (gfmul delta triple.z)) chi

  module _ {H : Type 0} (T : Transcript H) where
    -- `process_segment` of the prover, from position `i` of a stream, and the fold over the segments.
    unfoldable pub prover_segment : H → ℕ → ℕ → Block × Block → List Triple → Block × Block
    prover_segment t stream i acc [] = acc
    prover_segment t stream i acc (triple ∷ rest) =
        let terms = compute_terms triple (T.chi t stream i) in
        prover_segment t stream (i + 1) (bitxor acc.0 terms.0, bitxor acc.1 terms.1) rest

    unfoldable pub prover_fold : H → ℕ → Block × Block → List (List Triple) → Block × Block
    prover_fold t stream acc [] = acc
    prover_fold t stream acc (segment ∷ rest) =
        let s = prover_segment t stream 0 (zero_block, zero_block) segment in
        prover_fold t (stream + 1) (bitxor acc.0 s.0, bitxor acc.1 s.1) rest

    -- `Check::check_prover`: the result, and the state and the transcript that it leaves. An argument
    -- that is not 128 long is an error, after the triples are consumed.
    unfoldable pub check_prover :
        Check → H → List Bool → List Block → Outcome CheckError Uv × Check × H
    check_prover c t svole_choices svole_ev =
        let t = T.update_bits t c.adjust in
        let sum = prover_fold t 0 (zero_block, zero_block) (segments c.triples) in
        elim (length svole_choices == 128 && length svole_ev == 128) [
          | false ↦ (err svole, record c { triples = [] }, t)
          | true ↦
              (let a = vole_receiver svole_choices svole_ev in
                let u = bitxor sum.0 a.0 in
                let v = bitxor sum.1 a.1 in
                (ok (record { u = u; v = v }), empty_check, T.update_block (T.update_block t u) v))
        ]

    -- `process_segment` of the verifier, and the fold over the segments.
    unfoldable pub verifier_segment : H → Block → ℕ → ℕ → Block → List Triple → Block
    verifier_segment t delta stream i acc [] = acc
    verifier_segment t delta stream i acc (triple ∷ rest) =
        verifier_segment t delta stream (i + 1)
          (bitxor acc (compute_term triple (T.chi t stream i) delta)) rest

    unfoldable pub verifier_fold : H → Block → ℕ → Block → List (List Triple) → Block
    verifier_fold t delta stream acc [] = acc
    verifier_fold t delta stream acc (segment ∷ rest) =
        verifier_fold t delta (stream + 1)
          (bitxor acc (verifier_segment t delta stream 0 zero_block segment)) rest

    -- `Check::check_verifier`.
    unfoldable pub check_verifier :
        Check → H → Block → List Block → Uv → Outcome CheckError (Unit {0}) × Check × H
    check_verifier c t delta svole_keys uv =
        let t = T.update_bits t c.adjust in
        let w = verifier_fold t delta 0 zero_block (segments c.triples) in
        elim (length svole_keys == 128) [
          | false ↦ (err svole, record c { triples = [] }, t)
          | true ↦
              (let w = bitxor w (vole_sender svole_keys) in
                (
                  ensure (block_eq w (bitxor uv.u (gfmul delta uv.v))) invalid,
                  empty_check,
                  T.update_block (T.update_block t uv.u) uv.v,
                ))
        ]
