-- ===== src/Generic.antt =====
-- The abstract classes `ReadOnly` and `WriteOnly` of lib/public/StormByte/buffer/generic.hxx, as
-- what a client of a buffer may call. A virtual method is a field that returns the new buffer.
pub mod Convert
pub mod Writes
pub mod Counted
pub mod Forward
pub mod Moved
pub mod Build
pub mod Whole
use storm_byte_buffer.Prelude.{ℕ, Bool}
use storm_byte_buffer.Typedefs.{Data, Transfer}

pub record ReadOnly (S : Type 0) : Type 0 where
  pub read : ℕ → Data → S → Transfer S
  pub extract : ℕ → Data → S → Transfer S
  pub available_bytes : S → ℕ

-- `Write(count, DataType&&)`, which every other `Write` of a vector ends in.
pub record WriteOnly (S : Type 0) : Type 0 where
  pub write : ℕ → Data → S → Bool × S
