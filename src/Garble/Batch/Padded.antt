-- ===== src/Garble/Batch/Padded.antt =====
-- Encrypted gates, cut into batches of which the last is padded.
use mpz.Prelude.{
  ℕ, zero, suc, ◌+◌, ◌≤◌, ◌<◌, ◌≡◌, refl, ap, sym, ◌∙◌, arith, List, [], ◌∷◌, ◌++◌, length, take,
  drop, replicate, length-take, length-append, length-drop, take-append-drop, append_assoc,
  append-nil, take_whole, ltb, le→ltb, lt→ltb, Bool-cases, inl, inr, ok,
}
use mpz.Ferret.Slices.{take-append}
use mpz.Garble.Gate.{EncryptedGate}
use mpz.Garble.Evaluator.{default_gate}
use mpz.Garble.Batch.{receive_gates}

-- The first `n` gates, and default gates after them.
abbrev pub padded : ℕ → List EncryptedGate → List EncryptedGate
padded zero egs = []
padded (suc n) [] = default_gate ∷ padded n []
padded (suc n) (g ∷ egs) = g ∷ padded n egs

abbrev pub IsBatched : ℕ → List EncryptedGate → List (List EncryptedGate) → Type 0
IsBatched n egs [] = egs ≡ []
IsBatched n egs (batch ∷ batches) =
    (0 < length egs) × (batch ≡ padded n egs) × IsBatched n (drop n egs) batches

pub padded-nil : (n : ℕ) → padded n [] ≡ replicate n default_gate
padded-nil zero = refl
padded-nil (suc n) = ap (λ t. default_gate ∷ t) (padded-nil n)

padded-full : (n : ℕ) (egs : List EncryptedGate) → n ≤ length egs → padded n egs ≡ take n egs
padded-full zero egs h = refl
padded-full (suc n) [] h = absurd (omega arith)
padded-full (suc n) (g ∷ egs) h = ap (λ t. g ∷ t) (padded-full n egs (omega arith))

padded-short :
    (n : ℕ) (egs : List EncryptedGate)
    → length egs ≤ n
    → (pad : List EncryptedGate) × (padded n egs ≡ egs ++ pad)
padded-short n [] h = (padded n [], refl)
padded-short zero (g ∷ egs) h = absurd (omega arith)
padded-short (suc n) (g ∷ egs) h =
    let (pad, same) = padded-short n egs (omega arith) in (pad, ap (λ t. g ∷ t) same)

drop-short : {A : Type 0} (n : ℕ) (xs : List A) → length xs ≤ n → drop n xs ≡ []
drop-short zero [] h = refl
drop-short zero (x ∷ xs) h = absurd (omega arith)
drop-short (suc n) [] h = refl
drop-short (suc n) (x ∷ xs) h = drop-short n xs (omega arith)

-- With the count reached, no message is taken.
receive_gates_done :
    (count : ℕ) (gates : List EncryptedGate) (more : List (List EncryptedGate))
    → count ≤ length gates
    → receive_gates count gates more ≡ ok (take count gates, more)
unfolding receive_gates
receive_gates_done count gates [] h = rw (le→ltb (length gates) count h, receive_gates) refl
receive_gates_done count gates (batch ∷ more) h =
    rw (le→ltb (length gates) count h, receive_gates) refl

receive_gates_more :
    (count : ℕ) (gates batch : List EncryptedGate) (more : List (List EncryptedGate))
    → length gates < count
    → receive_gates count gates (batch ∷ more) ≡ receive_gates count (gates ++ batch) more
unfolding receive_gates
receive_gates_more count gates batch more h = rw (lt→ltb (length gates) count h, receive_gates) refl

-- The last batch: what pads it is cut off.
receive_gates_last :
    (n count : ℕ) (egs done : List EncryptedGate) (batches more : List (List EncryptedGate))
    → length egs ≤ n
    → IsBatched n (drop n egs) batches
    → length done + length egs ≡ count
    → receive_gates count (done ++ padded n egs) (batches ++ more) ≡ ok (done ++ egs, more)
receive_gates_last n count egs done [] more short rest size =
    let (pad, same) = padded-short n egs short in
    let all : done ++ padded n egs ≡ (done ++ egs) ++ pad =
      ap (λ t. done ++ t) same ∙ append_assoc done egs pad in
    let len : length (done ++ egs) ≡ count = length-append done egs ∙ size in
    rw all (
      receive_gates_done count ((done ++ egs) ++ pad) more
        (omega (arith, len, length-append (done ++ egs) pad))
      ∙ ap (λ t. ok (t, more)) (take-append count (done ++ egs) pad len))
receive_gates_last n count egs done (batch ∷ batches) more short rest size =
    absurd (omega (arith, rest.0, ap length (drop-short n egs short)))

-- The received gates, cut to the count, are the gates, and no message is taken after them.
pub receive_gates-IsBatched :
    (n count : ℕ) (egs done : List EncryptedGate) (batches more : List (List EncryptedGate))
    → IsBatched n egs batches
    → length done + length egs ≡ count
    → receive_gates count done (batches ++ more) ≡ ok (done ++ egs, more)
receive_gates-IsBatched n count egs done [] more none_left size =
    let size' : length done ≡ count = omega (arith, size, ap length none_left) in
    receive_gates_done count done more (omega (arith, size'))
    ∙ ap (λ t. ok (t, more))
        (take_whole count done size' ∙ sym (append-nil done) ∙ ap (λ t. done ++ t) (sym none_left))
receive_gates-IsBatched n count egs done (batch ∷ batches) more (some_left, same, rest) size =
    receive_gates_more count done batch (batches ++ more) (omega (arith, some_left, size))
    ∙ ap (λ t. receive_gates count (done ++ t) (batches ++ more)) same
    ∙ (elim (Bool-cases (ltb (length egs) n)) [
      | inl short ↦
          receive_gates_last n count egs done batches more (ground (arith, short)) rest size
      | inr full ↦
          (let enough : n ≤ length egs = ground (arith, full) in
            rw (padded-full n egs enough) (
              receive_gates-IsBatched n count (drop n egs) (done ++ take n egs) batches more rest (
                omega (
                  arith,
                  size,
                  enough,
                  length-append done (take n egs),
                  length-take n egs,
                  length-drop n egs,
                ))
              ∙ ap (λ t. ok (t, more))
                  (sym (append_assoc done (take n egs) (drop n egs))
                    ∙ ap (λ t. done ++ t) (take-append-drop n egs))))
    ])
