-- ===== src/Garble.antt =====
-- garbled circuits
pub mod Gate
pub mod Garbler
pub mod Evaluator
pub mod Fold
pub mod Relation
pub mod Simulate
pub mod Stream
pub mod Consume
pub mod Correct
pub mod Bulk
pub mod Batch
pub mod Tests
