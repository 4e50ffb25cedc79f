-- ===== src/Tests/Sessions.antt =====
-- Tests and examples of the modules under `Session`.
use storm_byte_buffer.Prelude.{◌≡◌, ◌≢◌, ◌⊎◌, refl, true, false, List, [], ◌∷◌, ◌++◌, arith}
use storm_byte_buffer.Typedefs.{Operation}
use storm_byte_buffer.Fifo.{available_bytes}
use storm_byte_buffer.Fifo.Reading
use storm_byte_buffer.Fifo.Writing.{write_internal}
use storm_byte_buffer.Shared
use storm_byte_buffer.Shared.{Shared}
use storm_byte_buffer.Monitor.{writes, closes, set_errors, start}
use storm_byte_buffer.Session.{
  Move, own, other, over, begin, ask, advance, pass, intervene, step, run,
}
use storm_byte_buffer.Session.Moves.{ahead, IsDone}
use storm_byte_buffer.Session.All.{until_eof_keeps_all}
use storm_byte_buffer.Tests.Setup.{plain, started, two}

abbrev opened : Shared
opened = record { fifo = started; closed = false; error = false }

-- The loop reads and goes to sleep; two bytes are written, and it wakes; the buffer is closed.
abbrev feed : List Move
feed = own ∷ own ∷ other (writes 0 two) ∷ own ∷ other closes ∷ []

abbrev finish : List Move
finish = own ∷ other (writes 1 two) ∷ own ∷ other set_errors ∷ own ∷ []

abbrev whole : List Move
whole = feed ++ own ∷ own ∷ []

session_run : run Operation.read whole (begin Operation.read (5 ∷ []) opened) ≡ (
  two,
  record {
    shared = record {
      fifo = record { buffer = 10 ∷ 20 ∷ 30 ∷ 40 ∷ 50 ∷ []; position_offset = 5 };
      closed = true;
      error = false;
    };
    out = 5 ∷ 20 ∷ 30 ∷ 40 ∷ 50 ∷ [];
    phase = over;
    roused = true;
  },
)
unfolding run step begin ask advance pass intervene start Shared.read_internal Shared.write_internal
    Shared.resume Shared.wait Shared.ready Shared.close write_internal Reading.read_internal
    Reading.serve available_bytes
session_run = refl

until_eof_keeps_all_example :
    let (xs, m) = run Operation.extract feed (begin Operation.extract (5 ∷ []) opened) in
    (m.out ++ ahead m.shared ≡ (5 ∷ 20 ∷ 30 ∷ []) ++ xs) × ((m.phase ≢ over) ⊎ IsDone m.shared)
until_eof_keeps_all_example =
    until_eof_keeps_all Operation.extract (5 ∷ []) opened feed (λ e. cc e) (omega arith)
      (omega arith) (omega arith)
