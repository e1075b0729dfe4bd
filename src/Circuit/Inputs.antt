-- ===== src/Circuit/Inputs.antt =====
-- The input loop of `Circuit::evaluate` (`crates/circuits-core/src/circuit.rs`).
use mpz.Prelude.{
  ℕ, zero, suc, ◌+◌, ◌≤◌, ◌<◌, ◌≡◌, refl, ◌∙◌, Bool, false, List, [], ◌∷◌, Outcome, ok, length,
  get_or, set, length-set, get_or-set_self, get_or-set_ne, set_at_in_range, arith,
}
use mpz.Circuit.{CircuitError, set_inputs}

-- `count` inputs stand in the feeds from `i`, and the feeds before `i` are as they were.
pub record HasInputs (count i : ℕ) (input feeds : List Bool)
    (result : Outcome CircuitError (List Bool)) : Type 0 where
  pub set_feeds : List Bool
  pub returns : result ≡ ok set_feeds
  pub same_length : length set_feeds ≡ length feeds
  pub inside : (j : ℕ) → j < count → get_or set_feeds (i + j) false ≡ get_or input j false
  pub before : (j : ℕ) → j < i → get_or set_feeds j false ≡ get_or feeds j false

HasInputs-suc :
    (expected count i : ℕ) (value : Bool) (input feeds : List Bool)
    → i < length feeds
    → HasInputs count
        (i + 1)
        input
        (set feeds i value)
        (set_inputs expected count (i + 1) input (set feeds i value))
    → HasInputs
        (suc count)
        i
        (value ∷ input)
        feeds
        (set_inputs expected (suc count) i (value ∷ input) feeds)
HasInputs-suc expected count i value input feeds fits rest = record {
  set_feeds = rest.set_feeds;
  returns =
      unfold set_inputs in rw (set_at_in_range {E = CircuitError} feeds i value fits) rest.returns;
  same_length = rest.same_length ∙ length-set feeds i value;
  inside = inside;
  before =
      λ j h. rest.before j (omega arith) ∙ get_or-set_ne feeds i j value false (λ e. omega arith);
}
  where
    inside :
        (j : ℕ)
        → j < suc count
        → get_or rest.set_feeds (i + j) false ≡ get_or (value ∷ input) j false
    inside zero h =
        let e : i + zero ≡ i = omega arith in
        rw e (rest.before i (omega arith) ∙ get_or-set_self feeds i value false fits)
    inside (suc j) h =
        let e : i + suc j ≡ i + 1 + j = omega arith in rw e (rest.inside j (omega arith))

-- With enough inputs, and feeds for all of them, the loop sets the feeds.
pub set_inputs-HasInputs :
    (expected count i : ℕ) (input feeds : List Bool)
    → count ≤ length input
    → i + count ≤ length feeds
    → HasInputs count i input feeds (set_inputs expected count i input feeds)
set_inputs-HasInputs expected zero i input feeds enough fits = record {
  set_feeds = feeds;
  returns = unfold set_inputs in refl;
  same_length = refl;
  inside = λ j h. absurd (omega arith);
  before = λ j h. refl;
}
set_inputs-HasInputs expected (suc count) i [] feeds enough fits = absurd (omega arith)
set_inputs-HasInputs expected (suc count) i (value ∷ input) feeds enough fits =
    HasInputs-suc expected count i value input feeds (omega arith) (
      set_inputs-HasInputs expected count (i + 1) input (set feeds i value) (omega arith)
        (rw length-set (omega arith)))
