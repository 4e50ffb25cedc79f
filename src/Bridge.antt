-- ===== src/Bridge.antt =====
-- The class `Bridge`: lib/public/StormByte/buffer/bridge.hxx and bridge.cxx.
pub mod Chunks
pub mod Passthrough
pub mod Conserve
pub mod Loss
pub mod Life
pub mod Moves
pub mod Fifos
use storm_byte_buffer.Prelude.{
  ℕ, zero, suc, Bool, true, false, [], ◌∷◌, ◌++◌, Option, none, some, leb, ◌==◌, if◌then◌else◌,
  length, take, drop, add_size,
}
use storm_byte_buffer.Typedefs.{Data, Helpers}
use storm_byte_buffer.Fifo
use storm_byte_buffer.Fifo.{Fifo}
use storm_byte_buffer.Fifo.Reading
use storm_byte_buffer.Fifo.Writing
use storm_byte_buffer.External.{ExternalReader, ExternalWriter}

pub record Bridge (R W : Type 0) : Type 0 where
  pub buffer : Fifo
  pub read_handler : R
  pub write_handler : W
  pub chunk_size : ℕ

unfoldable pub bridge : {R W : Type 0} → R → W → ℕ → Bridge R W
bridge input output chunk_size = record {
  buffer = Fifo.empty_fifo;
  read_handler = input;
  write_handler = output;
  chunk_size = chunk_size;
}

unfoldable pub pending_bytes : {R W : Type 0} → Bridge R W → ℕ
pending_bytes b = Fifo.size b.buffer

-- The `while` loop, with fuel: whether the last write succeeded, the position behind the chunks
-- that did, and the writer. `none` when the fuel runs out.
unfoldable pub write_chunks :
    {W : Type 0} → ExternalWriter W → ℕ → ℕ → Data → ℕ → W → Option (Bool × ℕ × W)
write_chunks writer zero chunk_size combined position w = none
write_chunks writer (suc fuel) chunk_size combined position w =
    let (done, w') = writer.write (take chunk_size (drop position combined)) w in
    elim (leb (add_size position chunk_size) (length combined)) [
      | false ↦ some (true, position, w)
      | true ↦ elim done [
        | true ↦ write_chunks writer fuel chunk_size combined (add_size position chunk_size) w'
        | false ↦ some (false, position, w')
      ]
    ]

-- `m_buffer.Clear()`, and then a write of the remainder if there is one.
unfoldable pub store_remainder : ⦃h : Helpers⦄ → Data → Fifo → Fifo
store_remainder remainder f =
    if length remainder == 0
    then Fifo.clear f
    else (Writing.write_move (length remainder) remainder (Fifo.clear f)).2

module _ {R W : Type 0} ⦃h : Helpers⦄ (writer : ExternalWriter W) where
  -- With no chunks everything is written at once, and the buffer is cleared before.
  unfoldable pub write_all : Data → Bridge R W → Bool × Bridge R W
  write_all combined b =
      let (done, w) = writer.write combined b.write_handler in
      if length combined == 0
      then (true, record b { buffer = Fifo.clear b.buffer })
      else (done, record b { buffer = Fifo.clear b.buffer; write_handler = w })

  unfoldable pub passthrough_write : Data → Bridge R W → Option (Bool × Bridge R W)
  unfolding write_all
  passthrough_write bytes b =
      let combined = b.buffer.buffer ++ bytes in
      let chunked =
        write_chunks writer (suc (length combined)) b.chunk_size combined 0 b.write_handler in
      if b.chunk_size == 0 then some (write_all combined b) else elim chunked [
        | none ↦ none
        | some (done, position, w) ↦ some (
          done,
          record b {
            buffer = store_remainder (drop position combined) b.buffer;
            write_handler = w;
          },
        )
      ]

  -- Both overloads of `Passthrough`: `m_read_handler` points to the same reader in a `const` bridge.
  unfoldable pub passthrough : ExternalReader R → ℕ → Bridge R W → Option (Bool × Bridge R W)
  passthrough reader bytes b =
      let (done, out, r) = reader.read bytes [] b.read_handler in
      let b' : Bridge R W = record b { read_handler = r } in
      if done then passthrough_write out b' else some (false, b')

module _ {R W : Type 0} (writer : ExternalWriter W) where
  -- Also what the destructor calls.
  unfoldable pub flush : Bridge R W → Bool × Bridge R W
  flush b =
      let r = Reading.extract 0 [] b.buffer in
      let (done, w) = writer.write r.out b.write_handler in
      if Fifo.is_empty b.buffer
      then (true, b)
      else if r.done
      then (done, record b { buffer = r.source; write_handler = w })
      else (false, record b { buffer = r.source })
