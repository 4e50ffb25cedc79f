-- ===== src/Fifo/Methods.antt =====
-- The methods of fifo.hxx that pass on to those of fifo.cxx.
use storm_byte_buffer.Prelude.{ℕ, Bool, true, Option}
use storm_byte_buffer.Typedefs.{Data, Operation}
use storm_byte_buffer.Generic.{ReadOnly, WriteOnly}
use storm_byte_buffer.Fifo.{Fifo}
use storm_byte_buffer.Fifo.Reading.{
  read_internal_into, read_until_eof_internal, read_until_eof_internal_into,
}
use storm_byte_buffer.Fifo.Writing.{write_internal_from, write_internal_from_move}

unfoldable pub data_of : Fifo → Data
data_of f = f.buffer

unfoldable pub is_readable : Fifo → Bool
is_readable f = true

unfoldable pub is_writable : Fifo → Bool
is_writable f = true

-- Until the end, into a vector: with the fuel of the loop.
unfoldable pub extract_until_eof : ℕ → Data → Fifo → Option (Data × Fifo)
extract_until_eof fuel out f = read_until_eof_internal fuel out Operation.extract f

unfoldable pub read_until_eof : ℕ → Data → Fifo → Option (Data × Fifo)
read_until_eof fuel out f = read_until_eof_internal fuel out Operation.read f

module _ {S : Type 0} (sink : WriteOnly S) where
  unfoldable pub extract_into : ℕ → S → Fifo → Bool × S × Fifo
  extract_into count s f = read_internal_into sink count s Operation.extract f

  unfoldable pub peek_into : ℕ → S → Fifo → Bool × S × Fifo
  peek_into count s f = read_internal_into sink count s Operation.peek f

  unfoldable pub read_into : ℕ → S → Fifo → Bool × S × Fifo
  read_into count s f = read_internal_into sink count s Operation.read f

  unfoldable pub extract_until_eof_into : ℕ → S → Fifo → Option (S × Fifo)
  extract_until_eof_into fuel s f = read_until_eof_internal_into sink fuel s Operation.extract f

  unfoldable pub read_until_eof_into : ℕ → S → Fifo → Option (S × Fifo)
  read_until_eof_into fuel s f = read_until_eof_internal_into sink fuel s Operation.read f

module _ {S : Type 0} (src : ReadOnly S) where
  unfoldable pub write_from : ℕ → S → Fifo → Bool × S × Fifo
  write_from count s f = write_internal_from src count s f

  unfoldable pub write_from_move : ℕ → S → Fifo → Bool × S × Fifo
  write_from_move count s f = write_internal_from_move src count s f
