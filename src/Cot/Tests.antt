-- ===== src/Cot/Tests.antt =====
-- Runs of the derandomization with constant random transfers.
use mpz.Prelude.{ℕ, ◌≤◌, ◌≡◌, refl, true, false, [], ◌∷◌, replicate, get_elem?, ok}
use mpz.Block.{Block, be_bytes}
use mpz.Cot.{RcotSender, RcotReceiver, DerandCotReceiver, recv_adjust, recv_loop}
use mpz.Cot.Correct.{correlated, run, run-correlated}
use mpz.Cot.Withheld.{recv_adjust-withheld}

abbrev delta : Block
delta = be_bytes 1234

abbrev sender : RcotSender (Unit {0}) (Unit {0})
sender = record { delta = λ s. delta; try_send_rcot = λ s n. ok ((4, replicate n (be_bytes 9)), s) }

abbrev receiver : RcotReceiver (Unit {0}) (Unit {0})
receiver = record {
  available = λ t. 2;
  try_recv_rcot = λ t n.
      ok ((5, replicate n true, correlated delta (replicate n (be_bytes 9)) (replicate n true)), t);
}

run-correlated_example :
    run sender receiver
      (record { rcot = tt; adjust = be_bytes 7 ∷ be_bytes 8 ∷ []; queue = 2 ∷ [] })
      (record { rcot = tt; derandomize = false ∷ true ∷ []; queue = 2 ∷ [] })
    ≡ ok (
        record {
          id = 5;
          msgs = correlated delta (be_bytes 7 ∷ be_bytes 8 ∷ []) (false ∷ true ∷ []);
        }
        ∷ [])
run-correlated_example =
    run-correlated sender receiver 2 (be_bytes 7 ∷ be_bytes 8 ∷ []) (be_bytes 9 ∷ be_bytes 9 ∷ [])
      (false ∷ true ∷ []) (true ∷ true ∷ []) 4 5 tt tt tt tt refl refl refl refl refl refl refl

-- Three choices are queued where two random transfers are left.
abbrev waiting : DerandCotReceiver (Unit {0})
waiting = record { rcot = tt; derandomize = true ∷ false ∷ true ∷ []; queue = 3 ∷ [] }

abbrev emptied : DerandCotReceiver (Unit {0})
emptied = record waiting { derandomize = [] }

waiting-adjusted : recv_adjust receiver waiting ≡ ok ((true ∷ false ∷ true ∷ [], [], 0), emptied)
unfolding recv_adjust recv_loop
waiting-adjusted = refl

recv_adjust-withheld_example :
    ((n : ℕ) → 0 ≤ n → get_elem? (true ∷ false ∷ true ∷ []) n ≡ get_elem? waiting.derandomize n)
    × (emptied.derandomize ≡ [])
recv_adjust-withheld_example =
    recv_adjust-withheld receiver waiting emptied (true ∷ false ∷ true ∷ []) [] 0 waiting-adjusted
