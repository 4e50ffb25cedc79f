-- ===== src/Shared/Build.antt =====
-- The constructors of `SharedFIFO` from vectors, ranges, strings and a `FIFO`, and `operator!=`:
-- shared_fifo.hxx.
use storm_byte_buffer.Prelude.{◌≡◌, refl, Bool, false, not, List, [], none, arith, drop}
use storm_byte_buffer.Typedefs.{Byte, Data, Helpers}
use storm_byte_buffer.Generic.Build.{
  complete, base, virtual_base, virtual_base_move, generic, read_write_copy, read_write_move,
}
use storm_byte_buffer.Generic.Forward.{Range}
use storm_byte_buffer.Fifo.{Fifo}
use storm_byte_buffer.Fifo.Build.{
  from_data, from_copy, from_move, from_range, from_forward, from_string,
}
use storm_byte_buffer.Fifo.Refine.{view}
use storm_byte_buffer.Fifo.Writing
use storm_byte_buffer.Shared.{Shared, equals}

-- None names the virtual base, so that its vector is empty when the `FIFO` is constructed.
abbrev vacant : Data
vacant = virtual_base complete (generic none) []

unfoldable pub of_data : Data → Shared
of_data bytes = record { fifo = from_data base bytes vacant; closed = false; error = false }

unfoldable pub of_fifo : Fifo → Shared
of_fifo other = record { fifo = from_copy base other vacant; closed = false; error = false }

-- With what is left of the other one.
unfoldable pub of_fifo_move : Fifo → Shared × Fifo
of_fifo_move other =
    let (fifo, left) = from_move base other vacant in
    (record { fifo = fifo; closed = false; error = false }, left)

module _ {E : Type 0} (to_byte : E → Byte) where
  unfoldable pub of_range : List E → Shared
  of_range r = record { fifo = from_range to_byte base r vacant; closed = false; error = false }

  unfoldable pub of_forward : Range E → Range E × Shared
  of_forward r =
      let (left, fifo) = from_forward to_byte base r vacant in
      (left, record { fifo = fifo; closed = false; error = false })

  unfoldable pub of_string : List E → Shared
  of_string r = record { fifo = from_string to_byte base r vacant; closed = false; error = false }

unfoldable pub differs : Shared → Shared → Bool
differs s t = not (equals s t)

module _ ⦃h : Helpers⦄ where
  -- A `SharedFIFO` constructed from a `FIFO` is open and has none of its bytes, but its read position,
  -- by copy and by move, and the move leaves the `FIFO` as it was. Of what is written to it next so
  -- many bytes as had been read off the `FIFO` are not unread, until a seek back.
  pub of_fifo_lem :
      (f : Fifo) (src : Data)
      → let s = of_fifo f in
        (s ≡ record {
          fifo = record { buffer = []; position_offset = f.position_offset };
          closed = false;
          error = false;
        })
        × (of_fifo_move f ≡ (s, f))
        × ((view (Writing.write 0 src s.fifo).1).ahead ≡ drop f.position_offset src)
  unfolding of_fifo of_fifo_move from_copy from_move virtual_base virtual_base_move generic
      read_write_copy read_write_move Writing.write Writing.write_internal
  of_fifo_lem f src = (refl, refl, ground (arith, h.append_vector_lem [] src))
