-- ===== src/Typedefs.antt =====
-- The enumerations of lib/public/StormByte/buffer/typedefs.hxx and of `FIFO`, and the helpers of
-- the StormByte base library that the buffers call.
use storm_byte_buffer.Prelude.{ℕ, ◌≡◌, List, ◌++◌, Bool}

abbrev pub Byte : Type 0
Byte = ℕ

-- A text is the list of its character codes.
abbrev pub Text : Type 0
Text = List ℕ

-- `DataType`, a `std::vector<std::byte>`.
abbrev pub Data : Type 0
Data = List Byte

pub data Position : Type 0 where
  absolute relative : Position

pub data ExecutionMode : Type 0 where
  sync async : ExecutionMode

-- `FIFO::Operation`.
pub data Operation : Type 0 where
  extract read peek : Operation

-- `append_vector` of StormByte/helpers.hxx, by copy and by move. The move overload leaves
-- something in its source, of which nothing is assumed.
pub record Helpers : Type 0 where
  pub append_vector : Data → Data → Data
  pub append_vector_move : Data → Data → Data × Data
  pub append_vector_lem : (dst src : Data) → append_vector dst src ≡ dst ++ src
  pub append_vector_move_lem : (dst src : Data) → (append_vector_move dst src).0 ≡ dst ++ src

-- What a read leaves: its result, the caller's vector and the buffer read from.
pub record Transfer (S : Type 0) : Type 0 where
  pub done : Bool
  pub out : Data
  pub source : S
