-- ===== src/Ferret.antt =====
-- `crates/ot-core/src/ferret`: the single-point and multi-point correlated oblivious transfers that the
-- Ferret extension is made of. An element of `Gf2_128` is its block, and its sum is `bitxor`.
pub mod Slices
pub mod Chis
pub mod Spcot
pub mod Mpcot
