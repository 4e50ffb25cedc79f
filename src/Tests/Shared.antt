-- ===== src/Tests/Shared.antt =====
-- Tests and examples of the modules `Shared.UntilEof` and `Shared.Into`.
use storm_byte_buffer.Prelude.{true, ◌≡◌, false, [], ◌∷◌, some, arith}
use storm_byte_buffer.Typedefs.{Operation}
use storm_byte_buffer.Tape.{take_from}
use storm_byte_buffer.Fifo.{Fifo}
use storm_byte_buffer.Fifo.Bounds.{IsValid}
use storm_byte_buffer.Fifo.Refine.{view}
use storm_byte_buffer.External.{fifo_writer}
use storm_byte_buffer.Shared
use storm_byte_buffer.Shared.{Shared, finished, blocked, reading}
use storm_byte_buffer.Shared.Loops.{
  read_until_eof_internal_into, ended_into, Loop, read_until_eof_internal,
}
use storm_byte_buffer.Shared.UntilEof.{read_until_eof_shared}
use storm_byte_buffer.Shared.Into.{Passed, hand_on, read_internal_into, read_internal_into_shared}
use storm_byte_buffer.Tests.Setup.{plain, started, fresh}
use storm_byte_buffer.Shared.UntilEofInto.{read_until_eof_shared_into}

-- A buffer that is open, with two bytes unread.
abbrev running : Shared
running = record { fifo = started; closed = false; error = false }

-- The two bytes are read, and the loop waits for the next one.
read_until_eof_shared_example :
    (f : Fifo) × (read_until_eof_internal 1 [] Operation.read running
      ≡ some (Loop.waits 1 (reading 1 Operation.peek) (20 ∷ 30 ∷ []) (record running { fifo = f })))
    × (view f ≡ take_from 2 Operation.read (view started))
    × IsValid f
read_until_eof_shared_example =
    read_until_eof_shared 0 [] Operation.read running (λ e. cc) (omega arith)

read_internal_into_shared_example :
    read_internal_into fifo_writer 1 fresh Operation.extract running
    ≡ elim (Shared.read_internal 1 Operation.extract running) [
      | finished x ↦ hand_on fifo_writer fresh x
      | blocked n p ↦ Passed.waits n
    ]
read_internal_into_shared_example =
    read_internal_into_shared fifo_writer 1 fresh Operation.extract running

-- The same loop into another buffer, of a `SharedFIFO` that is closed.
read_until_eof_shared_into_example :
    (f : Fifo) × (read_until_eof_internal_into fifo_writer 1 fresh Operation.extract
        (record running { closed = true })
      ≡ some (
          ended_into
            (fifo_writer.write 2 (20 ∷ 30 ∷ []) fresh).1
            (record running { fifo = f; closed = true })))
    × (view f ≡ take_from 2 Operation.extract (view started))
    × IsValid f
read_until_eof_shared_into_example =
    read_until_eof_shared_into fifo_writer 0 fresh Operation.extract
      (record running { closed = true }) (λ e. cc) (omega arith)
