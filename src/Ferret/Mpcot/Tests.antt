-- ===== src/Ferret/Mpcot/Tests.antt =====
-- A run of a multi-point extension, with a permutation in place of AES.
use mpz.Prelude.{
  ℕ, ◌+◌, ◌≡◌, refl, Bool, true, false, List, [], ◌∷◌, ◌++◌, length, replicate, ok, err, none,
  arith,
}
use mpz.Block.{Block, bitxor, be_bytes, zero_block}
use mpz.Cot.Correct.{correlated}
use mpz.Ferret.Spcot.{new_sender, new_receiver, derandomize, sender_extend, receiver_extend}
use mpz.Ferret.Mpcot.{
  spcot_lengths, spcot_queries, params, not_regular, too_many_indices, not_a_multiple,
  not_a_power_of_two,
}
use mpz.Ferret.Mpcot.Points.{offset_at, receiver_extend-spcot_queries}

abbrev mask : Block → Block
mask b = bitxor b (be_bytes 77)

abbrev counter : ℕ → Block × ℕ
counter n = (be_bytes n, n + 1)

abbrev delta : Block
delta = be_bytes 1234

abbrev queried : List ℕ
queried = 1 ∷ 6 ∷ []

abbrev lengths : List ℕ
lengths = 2 ∷ 2 ∷ []

abbrev locals : List ℕ
locals = 1 ∷ 2 ∷ []

abbrev keys : List Block
keys = be_bytes 3 ∷ be_bytes 4 ∷ be_bytes 5 ∷ be_bytes 6 ∷ []

abbrev choices : List Bool
choices = true ∷ false ∷ true ∷ true ∷ []

abbrev buffer : List Block
buffer = replicate 8 zero_block

-- An index outside its interval, and the three errors of the parameters.
irregular : spcot_queries (1 ∷ 3 ∷ []) 8 ≡ err not_regular
unfolding spcot_queries spcot_lengths
irregular = refl

too_many : spcot_lengths 3 2 ≡ err (params 3 2 too_many_indices)
unfolding spcot_lengths
too_many = refl

uneven : spcot_lengths 2 5 ≡ err (params 2 5 not_a_multiple)
unfolding spcot_lengths
uneven = refl

not_a_power : spcot_lengths 2 6 ≡ err (params 2 6 not_a_power_of_two)
unfolding spcot_lengths
not_a_power = refl

accepted : spcot_queries queried 8 ≡ ok (lengths, locals)
unfolding spcot_queries spcot_lengths
accepted = refl

receiver_extend-spcot_queries_example :
    (flips : List Bool) × (outs : List Block) × (cs : List Block) × (next : ℕ) × (spcot_lengths
        (length queried)
        8
      ≡ ok lengths)
    × (derandomize lengths locals choices ≡ ok flips)
    × (sender_extend mask counter (new_sender delta) 7 lengths keys flips buffer
        ≡ ok (outs, cs, next, record { pending = 0 + 8; delta = delta }))
    × (length outs ≡ 8)
    × (receiver_extend mask new_receiver lengths locals (correlated delta keys choices) cs buffer
        ≡ ok (
          offset_at delta queried outs,
          record { lengths = [] ++ lengths; indices = [] ++ locals; check = none },
        ))
receiver_extend-spcot_queries_example =
    receiver_extend-spcot_queries mask counter (new_sender delta) new_receiver 7 queried 8 lengths
      locals keys choices buffer buffer accepted (omega arith) refl refl refl refl
