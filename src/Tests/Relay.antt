-- ===== src/Tests/Relay.antt =====
-- Tests and examples of the modules under `Bridge`.
use storm_byte_buffer.Prelude.{
  ◌*◌, ◌≡◌, refl, Bool, false, List, [], ◌∷◌, ◌++◌, some, length, drop, leb, if◌then◌else◌, arith,
}
use storm_byte_buffer.Typedefs.{Data}
use storm_byte_buffer.Fifo
use storm_byte_buffer.Fifo.{Fifo, holding, available_bytes}
use storm_byte_buffer.Fifo.Reading
use storm_byte_buffer.External.{
  ExternalWriter, external_read, fifo_reader, buffer_reader, fifo_writer, buffer_writer,
}
use storm_byte_buffer.Bridge.{Bridge, passthrough_write, passthrough, flush}
use storm_byte_buffer.Bridge.Chunks.{feed, full_chunks}
use storm_byte_buffer.Bridge.Passthrough.{passthrough_write_lem}
use storm_byte_buffer.Bridge.Conserve.{Recorder, IsValid, Passed, passthrough_conserves}
use storm_byte_buffer.Bridge.Loss.{flush_lem}
use storm_byte_buffer.Tests.Setup.{plain, started, fresh}
use storm_byte_buffer.Bridge.Life.{run, destroy, bridge_delivers}
use storm_byte_buffer.Bridge.Fifos.{ahead, fifos_bridged}

-- A writer that takes chunks of at most two bytes.
abbrev Log : Type 0
Log = Data

abbrev small_writer : ExternalWriter Log
small_writer = record { write = λ c w. (leb (length c) 2, if leb (length c) 2 then w ++ c else w) }

small_logs :
    (c : Data) (w : Log)
    → let (done, w') = small_writer.write c w in w' ≡ (if done then w ++ c else w)
small_logs c w = refl

abbrev small_recorder : Recorder Log
small_recorder = record { writer = small_writer; log = λ w. w; log-write = small_logs }

-- One byte is pending, and two are unread in the reader.
abbrev relay : Bridge Fifo Log
relay = record {
  buffer = record { buffer = 5 ∷ []; position_offset = 0 };
  read_handler = started;
  write_handler = [];
  chunk_size = 2;
}

relay-IsValid : IsValid Fifo Log relay
relay-IsValid = record { unread = refl; chunks = omega arith; wide = omega arith }

passthrough_write_lem_example :
    let (done, k, w) = feed small_writer (full_chunks 2 (5 ∷ 6 ∷ 7 ∷ [])) [] in
    passthrough_write small_writer (6 ∷ 7 ∷ []) relay
    ≡ some
        (done, record relay { buffer = holding (drop (k * 2) (5 ∷ 6 ∷ 7 ∷ [])); write_handler = w })
passthrough_write_lem_example =
    passthrough_write_lem small_writer (6 ∷ 7 ∷ []) relay (omega arith) (omega arith) (omega arith)

passthrough_conserves_example :
    let (given, out, source) = (buffer_reader fifo_reader).read 0 [] started in
    (done : Bool) × (b' : Bridge Fifo Log) × (passthrough small_writer
        (buffer_reader fifo_reader)
        0
        relay
      ≡ some (done, b'))
    × (b'.read_handler ≡ source)
    × (if given
        then Passed Fifo Log small_recorder relay out done b'
        else (done ≡ false) × (b' ≡ record relay { read_handler = source }))
unfolding external_read Reading.read Reading.read_internal available_bytes
passthrough_conserves_example =
    passthrough_conserves small_recorder (buffer_reader fifo_reader) 0 relay relay-IsValid
      (omega arith)

flush_lem_example :
    let (done, b') = flush small_writer relay in
    (b'.buffer ≡ holding []) × (b'.write_handler ≡ (if done then 5 ∷ [] else []))
unfolding Fifo.is_empty Fifo.size
flush_lem_example = flush_lem small_recorder relay refl

-- The bridge is given the two bytes of the reader, then refused, then destroyed.
bridge_delivers_example :
    (oks : List Bool) × (b' : Bridge Fifo Log) × (run small_writer
        (buffer_reader fifo_reader)
        (2 ∷ 1 ∷ [])
        relay
      ≡ some (oks, b'))
    × (b'.write_handler ++ b'.buffer.buffer ≡ 5 ∷ 20 ∷ 30 ∷ [])
    × (destroy small_writer b'
        ≡ (if (flush small_writer b').0 then 5 ∷ 20 ∷ 30 ∷ [] else b'.write_handler))
unfolding external_read Reading.read Reading.read_internal Reading.serve available_bytes
bridge_delivers_example =
    bridge_delivers small_recorder (buffer_reader fifo_reader) (2 ∷ 1 ∷ []) relay relay-IsValid
      (omega arith)

-- From one `FIFO` to another, in chunks of two bytes, with one pending.
abbrev link : Bridge Fifo Fifo
link = record {
  buffer = record { buffer = 5 ∷ []; position_offset = 0 };
  read_handler = started;
  write_handler = fresh;
  chunk_size = 2;
}

-- The second passthrough asks for more than there is.
fifos_bridged_example :
    (oks : List Bool) × (b' : Bridge Fifo Fifo) × (run
        (buffer_writer fifo_writer)
        (buffer_reader fifo_reader)
        (1 ∷ 5 ∷ 1 ∷ [])
        link
      ≡ some (oks, b'))
    × ((destroy (buffer_writer fifo_writer) b').buffer ++ ahead b'.read_handler
        ≡ 10 ∷ 20 ∷ 30 ∷ 5 ∷ 20 ∷ 30 ∷ [])
fifos_bridged_example =
    fifos_bridged (1 ∷ 5 ∷ 1 ∷ []) link (omega arith) (omega arith) (omega arith)
