-- ===== src/Fifo/Writing.antt =====
-- `FIFO::WriteInternal`, with the methods of fifo.hxx that call it, and the copies and moves of a
-- `FIFO`.
use storm_byte_buffer.Prelude.{
  ℕ, Bool, true, false, ◌&&◌, [], ◌++◌, ltb, ◌==◌, if◌then◌else◌, length, take, drop,
}
use storm_byte_buffer.Typedefs.{Data, Helpers}
use storm_byte_buffer.Generic.{ReadOnly}
use storm_byte_buffer.Fifo.{Fifo}

module _ ⦃h : Helpers⦄ where
  open h use {append_vector, append_vector_move}

  -- From a `const DataType&`.
  unfoldable pub write_internal : ℕ → Data → Fifo → Bool × Fifo
  write_internal count src f =
      let real_count = if count == 0 then length src else count in
      if ltb 0 count && ltb (length src) count
      then (false, f)
      else if real_count == length src
      then (true, record f { buffer = append_vector f.buffer src })
      else (true, record f { buffer = f.buffer ++ take real_count src })

  -- From a `DataType&&`: the middle part is what is left in the source.
  unfoldable pub write_internal_move : ℕ → Data → Fifo → Bool × Data × Fifo
  write_internal_move count src f =
      let real_count = if count == 0 then length src else count in
      let (joined, left) = append_vector_move f.buffer src in
      if ltb 0 count && ltb (length src) count
      then (false, src, f)
      else if real_count == length src
      then (true, left, record f { buffer = joined })
      else (true, drop real_count src, record f { buffer = f.buffer ++ take real_count src })

  unfoldable pub write : ℕ → Data → Fifo → Bool × Fifo
  write count bytes f = write_internal count bytes f

  unfoldable pub write_move : ℕ → Data → Fifo → Bool × Data × Fifo
  write_move count bytes f = write_internal_move count bytes f

-- From another buffer, by `Read` or, if it is moved from, by `Extract`: into the vector itself.
module _ {S : Type 0} (src : ReadOnly S) where
  unfoldable pub write_internal_from : ℕ → S → Fifo → Bool × S × Fifo
  write_internal_from count s f =
      let r = src.read count f.buffer s in (r.done, r.source, record f { buffer = r.out })

  unfoldable pub write_internal_from_move : ℕ → S → Fifo → Bool × S × Fifo
  write_internal_from_move count s f =
      let r = src.extract count f.buffer s in (r.done, r.source, record f { buffer = r.out })

  -- `Write(const ReadOnly&)` and `Write(ReadOnly&&)`: as many bytes as are available.
  unfoldable pub write_available : S → Fifo → Bool × S × Fifo
  write_available s f = write_internal_from (src.available_bytes s) s f

  unfoldable pub write_available_move : S → Fifo → Bool × S × Fifo
  write_available_move s f = write_internal_from_move (src.available_bytes s) s f

-- `FIFO(const FIFO&)` and copy assignment: the copy.
unfoldable pub copy_fifo : Fifo → Fifo
copy_fifo other = record { buffer = other.buffer; position_offset = other.position_offset }

-- `FIFO(FIFO&&)`: the new buffer, and what is left of the old one, whose vector is empty.
unfoldable pub move_fifo : Fifo → Fifo × Fifo
move_fifo other = (
  record { buffer = other.buffer; position_offset = other.position_offset },
  record other { buffer = [] },
)

-- Move assignment leaves the other vector unspecified: `left` stands for it.
unfoldable pub move_assign : Data → Fifo → Fifo × Fifo
move_assign left other = (
  record { buffer = other.buffer; position_offset = other.position_offset },
  record other { buffer = left },
)
