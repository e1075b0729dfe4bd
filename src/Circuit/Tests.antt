-- ===== src/Circuit/Tests.antt =====
-- Runs of the builder's operations on words of three bits.
use mpz.Prelude.{ℕ, ◌≡◌, refl, Bool, true, false, List, [], ◌∷◌, get_or, ok, arith}
use mpz.Circuit.Builder.{CircuitBuilder}
use mpz.Circuit.Builder.Value.{Values, IsValued, run_gates}
use mpz.Circuit.Ops.{wrapping_add, wrapping_sub}
use mpz.Circuit.Ops.Words.{HasWord}
use mpz.Circuit.Ops.Add.{ReturnsWord, wrapping_add-ReturnsWord}
use mpz.Circuit.Ops.Sub.{ReturnsDifference, wrapping_sub-ReturnsDifference}
use mpz.Circuit.Ops.Reduce.{add_mod, add_mod-ReturnsWord}

-- Nine inputs, that hold 6, 3 and 7.
abbrev three_words : CircuitBuilder
three_words = record {
  feed_id = 11;
  inputs = 2 ∷ 3 ∷ 4 ∷ 5 ∷ 6 ∷ 7 ∷ 8 ∷ 9 ∷ 10 ∷ [];
  outputs = [];
  gates = [];
  and_count = 0;
  xor_count = 0;
}

abbrev held : Values
held n =
    get_or (false ∷ true ∷ false ∷ true ∷ true ∷ true ∷ true ∷ false ∷ true ∷ true ∷ true ∷ []) n
      false

abbrev six : List Bool
six = false ∷ true ∷ true ∷ []

abbrev three : List Bool
three = true ∷ true ∷ false ∷ []

abbrev seven : List Bool
seven = true ∷ true ∷ true ∷ []

three_words-IsValued : IsValued held three_words
unfolding run_gates
three_words-IsValued = record { constants = omega arith; zero_false = refl; one_true = refl }

six-HasWord : HasWord held three_words (2 ∷ 3 ∷ 4 ∷ []) six
unfolding run_gates
six-HasWord = (
  record { is_feed = omega arith; has_value = refl },
  (
    record { is_feed = omega arith; has_value = refl },
    (record { is_feed = omega arith; has_value = refl }, tt),
  ),
)

three-HasWord : HasWord held three_words (5 ∷ 6 ∷ 7 ∷ []) three
unfolding run_gates
three-HasWord = (
  record { is_feed = omega arith; has_value = refl },
  (
    record { is_feed = omega arith; has_value = refl },
    (record { is_feed = omega arith; has_value = refl }, tt),
  ),
)

seven-HasWord : HasWord held three_words (8 ∷ 9 ∷ 10 ∷ []) seven
unfolding run_gates
seven-HasWord = (
  record { is_feed = omega arith; has_value = refl },
  (
    record { is_feed = omega arith; has_value = refl },
    (record { is_feed = omega arith; has_value = refl }, tt),
  ),
)

wrapping_add-ReturnsWord_example :
    (result : List ℕ × CircuitBuilder) × (wrapping_add (2 ∷ 3 ∷ 4 ∷ []) (5 ∷ 6 ∷ 7 ∷ []) three_words
      ≡ ok result)
    × ReturnsWord held three_words 3 1 result
wrapping_add-ReturnsWord_example =
    wrapping_add-ReturnsWord held three_words (2 ∷ 3 ∷ 4 ∷ []) (5 ∷ 6 ∷ 7 ∷ []) six three
      three_words-IsValued six-HasWord three-HasWord refl

wrapping_sub-ReturnsDifference_example :
    (result : (List ℕ × ℕ) × CircuitBuilder) × (wrapping_sub
        (5 ∷ 6 ∷ 7 ∷ [])
        (2 ∷ 3 ∷ 4 ∷ [])
        three_words
      ≡ ok result)
    × ReturnsDifference held three_words 3 3 6 result
wrapping_sub-ReturnsDifference_example =
    wrapping_sub-ReturnsDifference held three_words (5 ∷ 6 ∷ 7 ∷ []) (2 ∷ 3 ∷ 4 ∷ []) three six
      three_words-IsValued three-HasWord six-HasWord refl

add_mod-ReturnsWord_example :
    (result : List ℕ × CircuitBuilder) × (add_mod
        (2 ∷ 3 ∷ 4 ∷ [])
        (5 ∷ 6 ∷ 7 ∷ [])
        (8 ∷ 9 ∷ 10 ∷ [])
        three_words
      ≡ ok result)
    × ReturnsWord held three_words 3 2 result
add_mod-ReturnsWord_example =
    add_mod-ReturnsWord held three_words (2 ∷ 3 ∷ 4 ∷ []) (5 ∷ 6 ∷ 7 ∷ []) (8 ∷ 9 ∷ 10 ∷ []) six
      three seven three_words-IsValued six-HasWord three-HasWord seven-HasWord refl refl
      (omega arith)
