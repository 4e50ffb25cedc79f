-- ===== src/Tests/Writes.antt =====
-- Tests and examples of the modules under `Generic`, and of one `FIFO` written to another.
use storm_byte_buffer.Prelude.{false, none, ℕ, ◌%◌, ◌≡◌, refl, true, [], ◌∷◌, arith}
use storm_byte_buffer.Typedefs.{Byte}
use storm_byte_buffer.Generic.Convert.{data_convert}
use storm_byte_buffer.Generic.Writes.{write_literal, write_string, write_range, write_chars}
use storm_byte_buffer.Fifo.Writing.{write, write_move, write_internal_move}
use storm_byte_buffer.Fifo.Refine.{view}
use storm_byte_buffer.External.{fifo_writer, write_moved}
use storm_byte_buffer.Tests.Setup.{two, plain, started, fresh}
use storm_byte_buffer.Generic.Forward.{vector, write_count_forward}
use storm_byte_buffer.Generic.Moved.{write_count_forward_lem}
use storm_byte_buffer.Fifo.Build.{written_roundtrip}
use storm_byte_buffer.Shared.Build
use storm_byte_buffer.Shared.Build.{of_fifo, of_fifo_move, of_fifo_lem}
use storm_byte_buffer.Fifo.Refine.{view}
use storm_byte_buffer.Fifo.{holding}
use storm_byte_buffer.Fifo.Reading.{extract}
use storm_byte_buffer.Fifo.{empty_fifo}

-- `static_cast<std::byte>` of an unsigned integer.
abbrev low_byte : ℕ → Byte
low_byte n = n % 256

-- Without the null character at the end.
literal :
    (write_literal low_byte fifo_writer (65 ∷ 66 ∷ 0 ∷ []) fresh).1.buffer
    ≡ 10 ∷ 20 ∷ 30 ∷ 65 ∷ 66 ∷ []
unfolding write_literal write_string data_convert write_moved write_move write_internal_move
literal = refl

-- A count of 5 of a vector of two bytes.
write_count_forward_lem_example :
    let written = record fresh { buffer = 10 ∷ 20 ∷ 30 ∷ 40 ∷ 50 ∷ [] } in
    (write_count_forward low_byte write_move 5 (vector two) fresh ≡ (true, vector [], written))
    × (write 5 two fresh ≡ (false, fresh))
write_count_forward_lem_example = write_count_forward_lem low_byte 5 two fresh (omega arith)

written_roundtrip_example :
    (write_range low_byte fifo_writer (257 ∷ 2 ∷ []) empty_fifo ≡ (true, holding (1 ∷ 2 ∷ [])))
    × (write_chars low_byte fifo_writer none empty_fifo ≡ (true, holding []))
    × ((extract 0 [] (write_range low_byte fifo_writer (257 ∷ 2 ∷ []) empty_fifo).1).out
        ≡ 1 ∷ 2 ∷ [])
    × ((extract 0 [] (write_range low_byte fifo_writer (257 ∷ 2 ∷ []) empty_fifo).1).source
        ≡ empty_fifo)
written_roundtrip_example = written_roundtrip low_byte (257 ∷ 2 ∷ []) none

of_fifo_lem_example :
    let s = of_fifo started in
    (s ≡ record {
      fifo = record { buffer = []; position_offset = 1 };
      closed = false;
      error = false;
    })
    × (of_fifo_move started ≡ (s, started))
    × ((view (write 0 two s.fifo).1).ahead ≡ 50 ∷ [])
of_fifo_lem_example = of_fifo_lem started two
