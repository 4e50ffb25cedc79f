-- ===== src/Tests/Relays.antt =====
-- Tests and examples of the modules under `Relay`.
use storm_byte_buffer.Prelude.{◌-◌, ◌≡◌, refl, List, [], ◌∷◌, ◌++◌}
use storm_byte_buffer.Typedefs.{Byte, Operation}
use storm_byte_buffer.Fifo
use storm_byte_buffer.Fifo.{available_bytes}
use storm_byte_buffer.Fifo.Reading
use storm_byte_buffer.Fifo.Writing.{write_internal}
use storm_byte_buffer.Shared
use storm_byte_buffer.Monitor.{writes, closes, start}
use storm_byte_buffer.Session.{begin, ask, advance, pass, intervene}
use storm_byte_buffer.Chain.{fresh}
use storm_byte_buffer.Relay.{
  Move, feeds, relays, reads, laid, extract_chunk, test_eof, end, relay, step, run,
}
use storm_byte_buffer.Relay.Finish.{again, three_reads}
use storm_byte_buffer.Tests.Setup.{plain, two}

abbrev inverted : Byte → Byte
inverted b = 255 - b

-- Two chunks are passed on, the first of which the reader gets before the second is written.
abbrev opening : List Move
opening =
    feeds (writes 0 two)
    ∷ relays
    ∷ relays
    ∷ relays
    ∷ reads
    ∷ reads
    ∷ feeds (writes 1 two)
    ∷ feeds closes
    ∷ []

abbrev shift : List Move
shift = opening ++ again 6 three_reads

shift_runs :
    (run inverted Operation.read shift (laid Operation.read)).1.output.out ≡ 215 ∷ 205 ∷ 215 ∷ []
unfolding run step relay laid extract_chunk test_eof end fresh begin ask advance pass intervene
    start Shared.read_internal Shared.write_internal Shared.resume Shared.wait Shared.ready
    Shared.close Shared.eof Shared.empty_shared write_internal Reading.read_internal Reading.serve
    available_bytes Fifo.empty_fifo
shift_runs = refl
