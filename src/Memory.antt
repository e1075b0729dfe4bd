-- ===== src/Memory.antt =====
-- `crates/memory-core`: slices of linear memory, stores of values, and correlated keys and MACs.
pub mod RangeSets
pub mod Store
pub mod Correlated
pub mod View
pub mod Vector
pub mod Tests
use mpz.Prelude.{ℕ, ◌+◌, ◌-◌, Range, range_len}

-- `Slice` of `lib.rs`; `ptr` is the position that the pointer holds.
pub record Slice : Type 0 where
  pub ptr : ℕ
  pub size : ℕ

-- `Slice::to_range` and `Slice::from_range_unchecked`.
abbrev pub to_range : Slice → Range
to_range slice = record { start = slice.ptr; stop = slice.ptr + slice.size }

abbrev pub from_range : Range → Slice
from_range range = record { ptr = range.start; size = range_len range }
