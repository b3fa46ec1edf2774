-- ===== src/Column.antt =====
-- lib/column: the columns of a block.
pub mod LowCardinality
pub mod BigInt
pub mod Enum
pub mod Numbers
pub mod Array
pub mod Nullable
pub mod Enum8
