-- ===== src/Generic/Forward.antt =====
-- The overloads of `WriteOnly::Write` of lib/public/StormByte/buffer/generic.hxx that take a range by
-- a forwarding reference, for any buffer with a `Write(count, DataType&&)`. They are chosen for
-- an lvalue that is not `const`, vectors included, and for an rvalue that is no vector: one of a vector
-- is taken by the overload for a `DataType&&`.
use storm_byte_buffer.Prelude.{ℕ, Bool, List, [], ltb, ◌==◌, if◌then◌else◌, length, take}
use storm_byte_buffer.Typedefs.{Byte, Data}
use storm_byte_buffer.Generic.Convert.{data_convert, convert_some}

-- The argument, by the test `std::same_as<Dec, DataType>`.
pub data Range (E : Type 0) : Type 0 where
  vector : Data → Range E
  elements : List E → Range E

-- The result is followed by what is left in the argument, and the buffer.
module _ {E S : Type 0} (to_byte : E → Byte) (write_move : ℕ → Data → S → Bool × Data × S) where
  -- `Write(r)`.
  unfoldable pub write_forward : Range E → S → Bool × Range E × S
  write_forward (vector r) s =
      let (done, left, s') = write_move (length r) r s in (done, vector left, s')
  write_forward (elements r) s =
      let tmp = data_convert to_byte r in
      let (done, _, s') = write_move (length tmp) tmp s in (done, elements r, s')

  -- `Write(count, r)`. A vector is moved into another one, which leaves it empty.
  unfoldable pub write_count_forward : ℕ → Range E → S → Bool × Range E × S
  write_count_forward count (vector r) s =
      let tmp = if ltb count (length r) then take count r else r in
      let (done, _, s') = write_move (length tmp) tmp s in
      if count == 0 then write_forward (vector r) s else (done, vector [], s')
  write_count_forward count (elements r) s =
      let tmp = convert_some to_byte count 0 r in
      let (done, _, s') = write_move (length tmp) tmp s in
      if count == 0 then write_forward (elements r) s else (done, elements r, s')
