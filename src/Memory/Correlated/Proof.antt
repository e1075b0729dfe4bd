-- ===== src/Memory/Correlated/Proof.antt =====
-- A proof of the store of MACs is verified by the store of keys, and authenticates the bits.
use mpz.Prelude.{
  append_assoc, ℕ, ◌+◌, ◌-◌, ◌≡◌, refl, sym, ◌∙◌, ap, ap₂, Bool, true, xor, List, [], ◌∷◌, ◌++◌,
  length, length-append, length-map, length-zip_with, map, zip_with, take, drop, ◌==◌, ==_iff,
  Bool-cases, inl, inr, Range, range_len, slice_at, slice_at_in_range, ok, arith,
}
use mpz.Block.{Block, lsb}
use mpz.Memory.{from_range}
use mpz.Memory.RangeSets.{RangeSets}
use mpz.Memory.Store as Store
use mpz.Memory.Correlated.{auth, pointer}
use mpz.Memory.Correlated.Derandomize.{pointer-auth}
use mpz.Memory.Correlated.Keys.{KeyStore, KeyStoreError}
use mpz.Memory.Correlated.Macs.{ranges_len, prove_loop, verify_loop, prove, verify_macs}

-- The MACs of some bits.
abbrev pub auths : Block → List Block → List Bool → List Block
auths delta keys bits = zip_with (λ key bit. auth key bit delta) keys bits

drop-append : {A : Type 0} (xs ys : List A) → drop (length xs) (xs ++ ys) ≡ ys
drop-append [] ys = refl
drop-append (x ∷ xs) ys = drop-append xs ys

take-append : {A : Type 0} (xs ys : List A) → take (length xs) (xs ++ ys) ≡ xs
take-append [] ys = refl
take-append (x ∷ xs) ys = ap (λ (t : List _). x ∷ t) (take-append xs ys)

slice_at-middle :
    {E A : Type 0} (pre xs post : List A) (n : ℕ)
    → length xs ≡ n
    → slice_at {E = E} (pre ++ (xs ++ post)) (length pre) (length pre + n) ≡ ok xs
slice_at-middle pre xs post n h =
    let count : length pre + n - length pre ≡ length xs = omega arith in
    slice_at_in_range (pre ++ (xs ++ post)) (length pre) (length pre + n) (omega arith)
      (omega (arith, length-append pre (xs ++ post), length-append xs post))
    ∙ ap ok (
        ap₂ (λ (k : ℕ) (t : List _). take k t) count (drop-append pre (xs ++ post))
        ∙ take-append xs post)

both_empty : (xs ys : List Bool) → length xs ≡ 0 → length ys ≡ 0 → xs ≡ ys
both_empty [] [] h k = refl
both_empty [] (y ∷ ys) h k = absurd (omega arith)
both_empty (x ∷ xs) ys h k = absurd (omega arith)

twice : (p q : Bool) → xor p (xor p q) ≡ q
unfolding xor
twice p q = ground arith

-- The pointer bits of the keys and the MACs give the bits.
values-auths :
    (delta : Block) (keys : List Block) (bits : List Bool)
    → lsb delta ≡ true
    → length bits ≡ length keys
    → zip_with (λ key mac_bit. xor (pointer key) mac_bit) keys (map pointer (auths delta keys bits))
      ≡ bits
values-auths delta [] [] d h = refl
values-auths delta [] (b ∷ bits) d h = absurd (omega arith)
values-auths delta (k ∷ keys) [] d h = absurd (omega arith)
values-auths delta (k ∷ keys) (b ∷ bits) d h =
    ap₂ (λ (x : Bool) (t : List Bool). x ∷ t)
      (ap (λ (p : Bool). xor (pointer k) p) (pointer-auth delta k b d) ∙ twice (pointer k) b)
      (values-auths delta keys bits d (omega arith))

module _ {S : Type 0} (R : RangeSets S) (store : KeyStore S) (macs : Store.Store S Block) where
  -- On all ranges the MACs are those of the bits, under the keys and the delta of the key store.
  pub data Agrees : List Range → List Bool → Type 0 where
    none : Agrees [] []
    next :
        (range : Range) (ranges : List Range) (keys : List Block) (bits rest : List Bool)
        → Store.try_get R store.keys (from_range range) ≡ ok keys
        → Store.try_get R macs (from_range range) ≡ ok (auths store.delta keys bits)
        → length bits ≡ length keys
        → length keys ≡ range_len range
        → Agrees ranges rest
        → Agrees (range ∷ ranges) (bits ++ rest)

  record Proves (ranges : List Range) (xs : List Bool) : Type 0 where
    pub pointers : List Bool
    pub fed : List Block
    pub proved : prove_loop R macs ranges ≡ ok (pointers, fed)
    pub pointers_len : length pointers ≡ ranges_len ranges
    pub xs_len : length xs ≡ ranges_len ranges
    pub verified :
        (pre : List Bool) → verify_loop R store (pre ++ pointers) (length pre) ranges ≡ ok (xs, fed)

  Agrees-Proves :
      lsb store.delta ≡ true
      → (ranges : List Range) (xs : List Bool) → Agrees ranges xs
      → Proves ranges xs
  unfolding prove_loop verify_loop
  Agrees-Proves d _ _ none = record {
    pointers = [];
    fed = [];
    proved = refl;
    pointers_len = refl;
    xs_len = refl;
    verified = λ pre. refl;
  }
  Agrees-Proves d _ _ (next range ranges keys bits rest got_keys got_macs len_bits len_keys a) =
      let r = Agrees-Proves d ranges rest a in
      let got = auths store.delta keys bits in
      let shown = map pointer got in
      let len_got : length got ≡ length keys = length-zip_with _ keys bits (sym len_bits) in
      let len_shown : length shown ≡ range_len range =
        length-map got pointer ∙ len_got ∙ len_keys in
      record {
        pointers = shown ++ r.pointers;
        fed = got ++ r.fed;
        proved = rw (got_macs, r.proved, prove_loop) refl;
        pointers_len = omega (arith, length-append shown r.pointers, r.pointers_len);
        xs_len = omega (arith, length-append bits rest, r.xs_len);
        verified = λ pre.
            let at : length (pre ++ shown) ≡ length pre + range_len range =
              length-append pre shown ∙ ap (λ (k : ℕ). length pre + k) len_shown in
            let later : verify_loop R store (pre ++ (shown ++ r.pointers))
                  (length pre + range_len range) ranges
                ≡ ok (rest, r.fed) =
              ap₂ (λ (bs : List Bool) (k : ℕ). verify_loop R store bs k ranges)
                (append_assoc pre shown r.pointers) (sym at)
              ∙ r.verified (pre ++ shown) in
            rw
              (
                got_keys,
                slice_at-middle {E = KeyStoreError} pre shown r.pointers (range_len range)
                    len_shown,
                values-auths store.delta keys bits d len_bits,
                later,
                verify_loop,
              )
              refl;
      }

  module _ {Hash : Type 0} (digest : List Block → Hash) (same : Hash → Hash → Bool)
      (same_refl : (h : Hash) → same h h ≡ true) where
    -- If a hash is the same as itself, the delta has pointer bit 1, and on all ranges both stores hold keys
    -- and MACs of some bits: the store of MACs proves them, and the store of keys accepts that proof
    -- and returns the bits.
    pub verify_macs-prove :
        (ranges : List Range) (xs : List Bool)
        → lsb store.delta ≡ true
        → Agrees ranges xs
        → (bits : List Bool) × (proof : Hash) × (prove R digest macs ranges ≡ ok (bits, proof))
          × (verify_macs R digest same store ranges bits proof ≡ ok xs)
    unfolding prove verify_macs
    verify_macs-prove ranges xs d a =
        let r = Agrees-Proves d ranges xs a in
        let lengths = (==_iff (ranges_len ranges) (length r.pointers)).1 (sym r.pointers_len) in
        (
          r.pointers,
          digest r.fed,
          rw (r.proved, prove) refl,
          elim (Bool-cases (ranges_len ranges == 0)) [
            | inl empty ↦
                (let no_ranges = (==_iff (ranges_len ranges) 0).0 empty in
                  rw (lengths, empty, verify_macs)
                    (ap ok (
                      both_empty r.pointers xs (r.pointers_len ∙ no_ranges)
                        (r.xs_len ∙ no_ranges))))
            | inr some_ranges ↦
                rw (lengths, some_ranges, r.verified [], same_refl (digest r.fed), verify_macs) refl
          ],
        )
