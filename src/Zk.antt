-- ===== src/Zk.antt =====
-- `crates/zk-core/src`: the QuickSilver proof of a circuit. The prover holds a MAC for each wire, the
-- verifier a key; each AND gate adds a triple, and the triples are checked together at the end.
pub mod Check
pub mod Prover
pub mod Verifier
pub mod Relation
pub mod Advance
pub mod Step
pub mod Gates
pub mod Protocol
pub mod Stream
pub mod Start
pub mod Synced
pub mod Execute
pub mod Vole
pub mod Accept
pub mod Tests
use mpz.Prelude.{ℕ, ◌-◌, Bool, List, [], ◌∷◌, ◌++◌, length, take, replicate}
use mpz.Block.{Block}

-- `Triple` of `check.rs`: what the parties hold for the wires `x`, `y` and `z` of an AND gate.
pub record Triple : Type 0 where
  pub x : Block
  pub y : Block
  pub z : Block

-- `Vec::resize_with`.
abbrev pub resize : {A : Type 0} → ℕ → A → List A → List A
resize n value xs = take n xs ++ replicate (n - length xs) value
