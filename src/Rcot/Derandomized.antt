-- ===== src/Rcot/Derandomized.antt =====
-- The derandomized transfer of `crates/ot-core/src/cot/derandomize.rs` over the ideal random transfers of
-- `crates/ot-core/src/ideal/rcot.rs`.
use mpz.Block.{Block}
