-- ===== src/External.antt =====
-- The external readers and writers of lib/public/StormByte/buffer/external.hxx and external.cxx, and
-- the `FIFO` as a buffer for them.
use storm_byte_buffer.Prelude.{ℕ, Bool, [], if◌then◌else◌, length}
use storm_byte_buffer.Typedefs.{Data, Helpers}
use storm_byte_buffer.Generic.{ReadOnly, WriteOnly}
use storm_byte_buffer.Fifo
use storm_byte_buffer.Fifo.{Fifo}
use storm_byte_buffer.Fifo.Reading
use storm_byte_buffer.Fifo.Writing

-- `ExternalReader`: the result, the caller's vector and the reader.
pub record ExternalReader (S : Type 0) : Type 0 where
  pub read : ℕ → Data → S → Bool × Data × S

pub record ExternalWriter (S : Type 0) : Type 0 where
  pub write : Data → S → Bool × S

-- `ExternalBufferReader::Read`, of which the `const` overload and the other are one text. A read
-- that succeeds replaces what the vector held.
unfoldable pub external_read : {S : Type 0} → ReadOnly S → ℕ → Data → S → Bool × Data × S
external_read b bytes out s =
    let r = b.read bytes [] s in (r.done, if r.done then r.out else out, r.source)

abbrev pub buffer_reader : {S : Type 0} → ReadOnly S → ExternalReader S
buffer_reader b = record { read = external_read b }

-- `ExternalBufferWriter::Write`.
unfoldable pub external_write : {S : Type 0} → WriteOnly S → Data → S → Bool × S
external_write b bytes s = b.write (length bytes) bytes s

abbrev pub buffer_writer : {S : Type 0} → WriteOnly S → ExternalWriter S
buffer_writer b = record { write = external_write b }

-- What a `FIFO` overrides of `ReadOnly` and of `WriteOnly`.
abbrev pub fifo_reader : ReadOnly Fifo
fifo_reader = record {
  read = Reading.read;
  extract = Reading.extract;
  available_bytes = Fifo.available_bytes;
}

module _ ⦃h : Helpers⦄ where
  unfoldable pub write_moved : ℕ → Data → Fifo → Bool × Fifo
  write_moved count bytes f = let (done, _, f') = Writing.write_move count bytes f in (done, f')

  abbrev pub fifo_writer : WriteOnly Fifo
  fifo_writer = record { write = write_moved }
