-- ===== src/Tests/Buffer.antt =====
-- Tests and examples of the modules under `Fifo`.
use storm_byte_buffer.Prelude.{
  ◌<◌, ◌≡◌, ◌↔◌, ◌⊎◌, refl, true, List, [], ◌∷◌, ◌++◌, pos, negsuc, arith,
}
use storm_byte_buffer.Typedefs.{Position, Operation}
use storm_byte_buffer.Fifo.{holding, clean, seek, drop_bytes, available_bytes}
use storm_byte_buffer.Fifo.Reading.{extract, read_internal}
use storm_byte_buffer.Fifo.Bounds.{IsValid}
use storm_byte_buffer.Fifo.Refine.{view, see}
use storm_byte_buffer.Fifo.Calls.{Call, writes, reads, drops, seeks, cleans, clears, run, run_tape}
use storm_byte_buffer.Fifo.Sequence.{run_refines}
use storm_byte_buffer.Fifo.Stream.{first_in_first_out, all_given, all_taken}
use storm_byte_buffer.Fifo.Moves.{ahead-clean_iff}
use storm_byte_buffer.Tests.Setup.{plain, started, fresh, two}
use storm_byte_buffer.Fifo.Observe.{same_ahead_lem}
use storm_byte_buffer.Fifo.Whole.{whole_lem}
use storm_byte_buffer.Fifo.Methods.{read_into, extract_into}
use storm_byte_buffer.Generic.Whole.{read_whole, extract_whole, read_whole_into, extract_whole_into}
use storm_byte_buffer.External.{fifo_reader, fifo_writer}

started-IsValid : IsValid started
started-IsValid = omega arith

fresh-IsValid : IsValid fresh
fresh-IsValid = omega arith

-- `Seek` clamps at both ends, and `Clean` forgets what has been read.
seek_clamps :
    (seek (pos 9) Position.absolute started ≡ record started { position_offset = 3 })
    × (seek (negsuc 4) Position.relative started ≡ fresh)
unfolding seek
seek_clamps = (refl, refl)

clean-started : clean started ≡ record { buffer = 20 ∷ 30 ∷ []; position_offset = 0 }
unfolding clean
clean-started = refl

-- A clean, or a drop of no byte, at position 0 loses all the bytes.
clean-fresh :
    (clean fresh ≡ record { buffer = []; position_offset = 0 })
    × (drop_bytes 0 fresh ≡ (true, record { buffer = []; position_offset = 0 }))
unfolding clean drop_bytes seek available_bytes
clean-fresh = (refl, refl)

extract_two : extract 2 (1 ∷ []) started ≡ record {
  done = true;
  out = 1 ∷ 20 ∷ 30 ∷ [];
  source = record { buffer = 10 ∷ []; position_offset = 1 };
}
unfolding extract read_internal available_bytes
extract_two = refl

abbrev script : List Call
script =
    writes 0 two
    ∷ reads 2 Operation.read
    ∷ reads 9 Operation.extract
    ∷ drops 1
    ∷ seeks (negsuc 0) Position.relative
    ∷ reads 0 Operation.peek
    ∷ cleans
    ∷ clears
    ∷ []

abbrev traffic : List Call
traffic =
    writes 1 two
    ∷ reads 2 Operation.read
    ∷ reads 9 Operation.extract
    ∷ reads 0 Operation.extract
    ∷ []

run_refines_example :
    let (rs, f') = run script started in (rs, view f') ≡ run_tape script (view started)
run_refines_example = run_refines script (omega arith) started-IsValid (omega arith)

first_in_first_out_example :
    let (rs, f') = run traffic started in
    (20 ∷ 30 ∷ []) ++ all_given traffic rs ≡ all_taken traffic rs ++ (view f').ahead
first_in_first_out_example = first_in_first_out traffic (omega arith) started-IsValid (omega arith)

ahead-clean_iff_example :
    ((view (clean fresh)).ahead ≡ (view fresh).ahead) ↔ ((0 < 0) ⊎ (fresh.buffer ≡ []))
ahead-clean_iff_example = ahead-clean_iff fresh-IsValid

-- Of one a byte has been read.
same_ahead_lem_example :
    let f = holding (20 ∷ 30 ∷ []) in
    ((run traffic started).0 ≡ (run traffic f).0)
    × ((view (run traffic started).1).ahead ≡ (view (run traffic f).1).ahead)
unfolding holding
same_ahead_lem_example =
    same_ahead_lem started (holding (20 ∷ 30 ∷ [])) traffic (omega arith) started-IsValid
      (omega arith) (omega arith) (omega arith) refl

whole_lem_example :
    (see (read_whole fifo_reader (5 ∷ []) started) ≡ record {
      done = true;
      out = 5 ∷ 20 ∷ 30 ∷ [];
      source = record { passed = 10 ∷ 20 ∷ 30 ∷ []; ahead = [] };
    })
    × (see (extract_whole fifo_reader (5 ∷ []) started) ≡ record {
      done = true;
      out = 5 ∷ 20 ∷ 30 ∷ [];
      source = record { passed = 10 ∷ []; ahead = [] };
    })
    × ((read_whole_into (read_into fifo_writer) fresh started).1
        ≡ record fresh { buffer = fresh.buffer ++ 20 ∷ 30 ∷ [] })
    × ((extract_whole_into (extract_into fifo_writer) fresh started).1
        ≡ record fresh { buffer = fresh.buffer ++ 20 ∷ 30 ∷ [] })
whole_lem_example = whole_lem (5 ∷ []) fresh started started-IsValid
