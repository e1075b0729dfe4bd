-- ===== src/Zk/Accept.antt =====
-- `crates/zk-core/src/check.rs`: the verifier's check accepts what an honest prover sends.
use mpz.Prelude.{
  ℕ, zero, suc, ◌+◌, ◌≡◌, refl, sym, ap, ap₂, ◌∙◌, Bool, true, false, ◌&&◌, xor, List, [], ◌∷◌,
  length, zip_with, if◌then◌else◌, arith, ok, length-zip_with,
}
use mpz.Block.{Bits, nil, cons, Block, bitxor, zero_block}
use mpz.Block.Laws.{Bits_ext, bits}
use mpz.Garble.Gate.{label}
use mpz.Zk.{Triple}
use mpz.Zk.Check.{
  Clmul, Transcript, Uv, empty_check, gfmul, chunks_loop, segments, segment_size, block_eq,
  compute_terms, compute_term, prover_segment, prover_fold, verifier_segment, verifier_fold,
  vole_receiver, check_prover, check_verifier,
}
use mpz.Zk.Prover as Prover
use mpz.Zk.Prover.{Prover}
use mpz.Zk.Verifier as Verifier
use mpz.Zk.Verifier.{Verifier}
use mpz.Zk.Synced.{Synced}
use mpz.Zk.Vole.{
  IsClmul, gfmul-bitxor, bitxor-gfmul, gfmul_comm, gfmul-choice, gfmul-zero,
  vole_sender-vole_receiver,
}
use mpz.Zk.Relation.{Matched, AllMatched, AllMatched-take, AllMatched-drop, length-AllMatched}

block_eq_refl : {n : ℕ} (a : Bits n) → block_eq a a ≡ true
unfolding block_eq
block_eq_refl nil = refl
block_eq_refl (cons b bs) = rw (block_eq_refl bs) (unfold xor in ground arith)

-- The segments of both lists, one by one.
data AllSegments (delta : Block) : List (List Triple) → List (List Triple) → Type 0 where
  none : AllSegments delta [] []
  next :
      (macs keys : List Triple) (rest rest' : List (List Triple))
      → AllMatched delta macs keys
      → AllSegments delta rest rest'
      → AllSegments delta (macs ∷ rest) (keys ∷ rest')

chunks_loop-AllSegments :
    {delta : Block} (fuel : ℕ) (size : ℕ) {macs keys : List Triple}
    → AllMatched delta macs keys
    → AllSegments delta (chunks_loop fuel size macs) (chunks_loop fuel size keys)
chunks_loop-AllSegments zero size m = AllSegments.none
chunks_loop-AllSegments (suc fuel) size AllMatched.none = AllSegments.none
chunks_loop-AllSegments (suc fuel) size (AllMatched.next mac key macs keys h t) =
    let m = AllMatched.next mac key macs keys h t in
    AllSegments.next _ _ _ _ (AllMatched-take size m)
      (chunks_loop-AllSegments fuel size (AllMatched-drop size m))

module _ {C : Clmul} (L : IsClmul C) (delta : Block) where
  -- What ties the verifier's sum to the prover's.
  abbrev Tied : Block → Block × Block → Type 0
  Tied w uv = w ≡ bitxor uv.0 (gfmul C delta uv.1)

  Tied-bitxor :
      {w w' : Block} (uv uv' : Block × Block)
      → Tied w uv
      → Tied w' uv'
      → Tied (bitxor w w') (bitxor uv.0 uv'.0, bitxor uv.1 uv'.1)
  Tied-bitxor uv uv' h k =
      ap₂ bitxor h k
      ∙ swap uv.0 (gfmul C delta uv.1) uv'.0 (gfmul C delta uv'.1)
      ∙ ap (bitxor (bitxor uv.0 uv'.0)) (sym (gfmul-bitxor L delta uv.1 uv'.1))
    where
      swap : (a b c d : Block) → bitxor (bitxor a b) (bitxor c d) ≡ bitxor (bitxor a c) (bitxor b d)
      swap a b c d = Bits_ext _ _ (λ i. simp bits (unfold xor in ground arith))

  Tied-zero : Tied zero_block (zero_block, zero_block)
  Tied-zero =
      Bits_ext _ _ (λ i. simp bits (unfold xor in ground arith))
      ∙ ap (bitxor zero_block) (sym (gfmul-zero L delta))

  abbrev choose : Bool → Block → Block
  choose p a = if p then a else zero_block

  choose-choose : (a b : Bool) (c : Block) → choose a (choose b c) ≡ choose (a && b) c
  choose-choose true b c = refl
  choose-choose false b c = refl

  -- The product of the keys, with `x = k_x + a * delta` and `y = k_y + b * delta`.
  product-Tied :
      (x y z : Block) (a b : Bool)
      → let m_x = label delta x a in
        let m_y = label delta y b in
        let m_z = label delta z (a && b) in
        bitxor (gfmul C x y) (gfmul C delta z)
        ≡ bitxor
            (gfmul C m_x m_y)
            (gfmul C delta (bitxor (bitxor (choose a m_y) (choose b m_x)) m_z))
  product-Tied x y z a b =
      let m_x = label delta x a in
      let m_y = label delta y b in
      let a_delta = choose a delta in
      let b_delta = choose b delta in
      let both = gfmul C a_delta b_delta in
      let left : gfmul C m_x m_y
          ≡ bitxor (bitxor (gfmul C x y) (gfmul C b_delta x)) (bitxor (gfmul C a_delta y) both) =
        bitxor-gfmul L x a_delta m_y
        ∙ ap₂ bitxor
            (gfmul-bitxor L x y b_delta ∙ ap (bitxor (gfmul C x y)) (gfmul_comm L x b_delta))
            (gfmul-bitxor L a_delta y b_delta) in
      let first : gfmul C delta (choose a m_y) ≡ bitxor (gfmul C a_delta y) both =
        sym (gfmul-choice L a delta m_y) ∙ gfmul-bitxor L a_delta y b_delta in
      let second : gfmul C delta (choose b m_x) ≡ bitxor (gfmul C b_delta x) both =
        sym (gfmul-choice L b delta m_x)
        ∙ gfmul-bitxor L b_delta x a_delta
        ∙ ap (bitxor (gfmul C b_delta x)) (gfmul_comm L b_delta a_delta) in
      let third : gfmul C delta (label delta z (a && b)) ≡ bitxor (gfmul C delta z) both =
        gfmul-bitxor L delta z (choose (a && b) delta)
        ∙ ap (bitxor (gfmul C delta z)) (
            ap (gfmul C delta) (sym (choose-choose a b delta))
            ∙ sym (gfmul-choice L a delta b_delta)) in
      cancel (gfmul C x y) (gfmul C delta z) (gfmul C a_delta y) (gfmul C b_delta x) both
      ∙ sym (
          ap₂ bitxor left (
            gfmul-bitxor L delta (bitxor (choose a m_y) (choose b m_x)) (label delta z (a && b))
            ∙ ap₂ bitxor
                (gfmul-bitxor L delta (choose a m_y) (choose b m_x) ∙ ap₂ bitxor first second)
                third))
    where
      cancel :
          (p z q r s : Block)
          → bitxor p z
            ≡ bitxor
                (bitxor (bitxor p r) (bitxor q s))
                (bitxor (bitxor (bitxor q s) (bitxor r s)) (bitxor z s))
      cancel p z q r s = Bits_ext _ _ (λ i. simp bits (unfold xor in ground arith))

  -- The terms of one gate: with `x = k_x + a * delta` and so on, and the product of the bits for `z`.
  compute_term-Tied :
      (mac key : Triple) (chi : Block)
      → Matched delta mac key
      → Tied (compute_term C key chi delta) (compute_terms C mac chi)
  unfolding compute_term compute_terms
  compute_term-Tied mac key chi m =
      ap (λ (t : Block). gfmul C t chi)
        (product-Tied key.x key.y key.z m.bit_x m.bit_y
          ∙ rw (← m.mac_x, ← m.mac_y, ← m.mac_z, ← m.pointer_x, ← m.pointer_y) refl)
      ∙ bitxor-gfmul L _ _ chi
      ∙ ap (bitxor _) (L.gfmul_assoc delta _ chi)

  prover_segment-Tied :
      {H : Type 0} (T : Transcript H) (t : H) (stream i : ℕ) {macs keys : List Triple} {w : Block}
      (uv : Block × Block)
      → AllMatched delta macs keys
      → Tied w uv
      → Tied (verifier_segment C T t delta stream i w keys) (prover_segment C T t stream i uv macs)
  unfolding verifier_segment prover_segment
  prover_segment-Tied T t stream i uv AllMatched.none h = h
  prover_segment-Tied T t stream i uv (AllMatched.next mac key macs keys m rest) h =
      prover_segment-Tied T t stream (i + 1) _ rest
        (Tied-bitxor uv _ h (compute_term-Tied mac key (T.chi t stream i) m))

  prover_fold-Tied :
      {H : Type 0} (T : Transcript H) (t : H) (stream : ℕ) {macs keys : List (List Triple)}
      {w : Block} (uv : Block × Block)
      → AllSegments delta macs keys
      → Tied w uv
      → Tied (verifier_fold C T t delta stream w keys) (prover_fold C T t stream uv macs)
  unfolding verifier_fold prover_fold
  prover_fold-Tied T t stream uv AllSegments.none h = h
  prover_fold-Tied T t stream uv (AllSegments.next macs keys rest rest' m more) h =
      prover_fold-Tied T t (stream + 1) _ more
        (Tied-bitxor uv _ h (prover_segment-Tied T t stream 0 _ m Tied-zero))

  segments-AllSegments :
      {macs keys : List Triple}
      → AllMatched delta macs keys
      → AllSegments delta (segments macs) (segments keys)
  segments-AllSegments {macs} {keys} m =
      rw (← length-AllMatched m) (chunks_loop-AllSegments (length macs) segment_size m)

-- Between executions, with a carry-less product that has the laws of a ring: with 128 keys and choices of
-- correlated transfers and one transcript, the prover's check returns values that the verifier's check
-- accepts. Both are left with nothing to check, and with one transcript.
pub verifier_check-prover_check :
    {H : Type 0} {C : Clmul} (T : Transcript H) (prover : Prover) (verifier : Verifier) (t : H)
    (svole_keys : List Block) (svole_choices : List Bool)
    → IsClmul C
    → Synced prover verifier
    → prover.executions ≡ 0
    → length svole_keys ≡ 128
    → length svole_choices ≡ 128
    → (uv : Uv) × (t' : H) × (Prover.run_check C T prover t svole_choices
          (zip_with (label verifier.delta) svole_keys svole_choices)
        ≡ (ok uv, record { check = empty_check; executions = 0 }, t'))
      × (Verifier.run_check C T verifier t svole_keys uv
          ≡ (ok tt, record { delta = verifier.delta; check = empty_check; executions = 0 }, t'))
unfolding Prover.run_check Verifier.run_check check_prover check_verifier
verifier_check-prover_check {H} {C} T prover verifier t keys choices L synced idle hk hc =
    let delta = verifier.delta in
    let ev = zip_with (label delta) keys choices in
    let ev_len = length-zip_with (label delta) keys choices (hk ∙ sym hc) ∙ hk in
    let fed = T.update_bits t prover.check.adjust in
    let zero_pair : Block × Block = (zero_block, zero_block) in
    let sum = prover_fold C T fed 0 zero_pair (segments prover.check.triples) in
    let a = vole_receiver C choices ev in
    let u = bitxor sum.0 a.0 in
    let v = bitxor sum.1 a.1 in
    let tied =
      Tied-bitxor L delta sum a
        (prover_fold-Tied L delta T fed 0 zero_pair (segments-AllSegments L delta synced.matched)
          (Tied-zero L delta))
        (vole_sender-vole_receiver L delta keys choices hk hc) in
    (
      record { u = u; v = v },
      T.update_block (T.update_block fed u) v,
      rw (idle, hc, ev_len, Prover.run_check, check_prover, idle),
      rw (
        ← synced.same_executions,
        idle,
        hk,
        ← synced.same_adjust,
        tied,
        block_eq_refl (bitxor u (gfmul C delta v)),
        Verifier.run_check,
        check_verifier,
        ← synced.same_executions,
        idle,
      ),
    )
