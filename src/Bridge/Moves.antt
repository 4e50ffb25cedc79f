-- ===== src/Bridge/Moves.antt =====
-- The moves of a `Bridge`, which are defaulted: bridge.hxx.
use storm_byte_buffer.Prelude.{ℕ, Bool, true, Option, none, some, if◌then◌else◌}
use storm_byte_buffer.Typedefs.{Data}
use storm_byte_buffer.Fifo
use storm_byte_buffer.Fifo.{Fifo}
use storm_byte_buffer.Fifo.Writing
use storm_byte_buffer.Bridge.{Bridge}

-- A bridge that has been moved from: both its handlers are null.
pub record Husk : Type 0 where
  pub buffer : Fifo
  pub chunk_size : ℕ

unfoldable pub chunk_size : {R W : Type 0} → Bridge R W → ℕ
chunk_size b = b.chunk_size

unfoldable pub move : {R W : Type 0} → Bridge R W → Bridge R W × Husk
move other =
    let (buffer, left) = Writing.move_fifo other.buffer in
    (
      record {
        buffer = buffer;
        read_handler = other.read_handler;
        write_handler = other.write_handler;
        chunk_size = other.chunk_size;
      },
      record { buffer = left; chunk_size = other.chunk_size },
    )

-- Nothing of the bridge assigned to is used: what was pending there goes, and its writer is not called.
-- `rest` is what the move leaves in the vector of the other bridge.
unfoldable pub move_assign : {R W : Type 0} → Data → Bridge R W → Bridge R W → Bridge R W × Husk
move_assign rest other b =
    let (buffer, left) = Writing.move_assign rest other.buffer in
    (
      record {
        buffer = buffer;
        read_handler = other.read_handler;
        write_handler = other.write_handler;
        chunk_size = other.chunk_size;
      },
      record { buffer = left; chunk_size = other.chunk_size },
    )

-- The destructor flushes: with anything pending it would call through the null handler.
unfoldable pub destroy_husk : Husk → Option Bool
destroy_husk husk = if Fifo.is_empty husk.buffer then some true else none
