-- ===== src/Fifo/Growth.antt =====
-- How long the vector of a `FIFO` can get by a call: fifo.cxx.
use storm_byte_buffer.Prelude.{
  ℕ, ◌+◌, ◌-◌, ◌≤◌, ◌≡◌, length, take, drop, length-append, length-take, length-drop, max_size, ℤ,
  pos, negsuc, [], to_ptrdiff, arith,
}
use storm_byte_buffer.Typedefs.{Data, Position, Operation, Helpers}
use storm_byte_buffer.Fifo.{Fifo, available_bytes, clean, seek, drop_bytes, move_to_front, clear}
use storm_byte_buffer.Fifo.Reading.{read_internal, serve}
use storm_byte_buffer.Fifo.Writing.{write, write_internal}
use storm_byte_buffer.Fifo.Bounds.{
  IsValid, clean-IsValid, seek-IsValid, drop_bytes-IsValid, read_internal-IsValid,
  write_internal-IsValid,
}
use storm_byte_buffer.Fifo.Calls.{Call, writes, reads, drops, seeks, cleans, clears, step, added}

pub length-clean-le : (f : Fifo) → length (clean f).buffer ≤ length f.buffer
unfolding clean move_to_front
length-clean-le f = ground (
  arith,
  length-take (length f.buffer - f.position_offset)
      (move_to_front f.position_offset (length f.buffer - f.position_offset) f.buffer),
)

pub buffer-seek : (offset : ℤ) (mode : Position) (f : Fifo) → (seek offset mode f).buffer ≡ f.buffer
unfolding seek
buffer-seek (negsuc n) Position.absolute f = ground arith
buffer-seek (negsuc n) Position.relative f = ground arith
buffer-seek (pos n) Position.absolute f = ground arith
buffer-seek (pos n) Position.relative f = ground arith

pub length-drop_bytes-le :
    (count : ℕ) (f : Fifo) → length (drop_bytes count f).1.buffer ≤ length f.buffer
unfolding drop_bytes
length-drop_bytes-le count f = ground (
  arith,
  length-clean-le (seek (to_ptrdiff count) Position.relative f),
  buffer-seek (to_ptrdiff count) Position.relative f,
)

length-serve-le :
    (n : ℕ) (out : Data) (flag : Operation) (f : Fifo)
    → length (serve n out flag f).source.buffer ≤ length f.buffer
unfolding serve
length-serve-le n out Operation.read f = ground arith
length-serve-le n out Operation.peek f = ground arith
length-serve-le n out Operation.extract f = ground (
  arith,
  length-append (take f.position_offset f.buffer) (drop (f.position_offset + n) f.buffer),
  length-take f.position_offset f.buffer,
  length-drop (f.position_offset + n) f.buffer,
)

pub length-read_internal-le :
    (count : ℕ) (out : Data) (flag : Operation) (f : Fifo)
    → length (read_internal count out flag f).source.buffer ≤ length f.buffer
unfolding read_internal
length-read_internal-le count out flag f =
    ground (arith, length-serve-le count out flag f, length-serve-le (available_bytes f) out flag f)

module _ ⦃h : Helpers⦄ where
  pub length-write-le :
      (count : ℕ) (src : Data) (f : Fifo)
      → length (write count src f).1.buffer ≤ length f.buffer + length src
  unfolding write write_internal
  length-write-le count src f = ground (
    arith,
    h.append_vector_lem f.buffer src,
    length-append f.buffer src,
    length-append f.buffer (take count src),
    length-take count src,
  )

  pub length-step-le :
      (c : Call) (f : Fifo) → length (step c f).1.buffer ≤ length f.buffer + added c
  unfolding step clear
  length-step-le (writes count bytes) f = ground (arith, length-write-le count bytes f)
  length-step-le (reads count flag) f = ground (arith, length-read_internal-le count [] flag f)
  length-step-le (drops count) f = ground (arith, length-drop_bytes-le count f)
  length-step-le (seeks offset mode) f = ground (arith, buffer-seek offset mode f)
  length-step-le cleans f = ground (arith, length-clean-le f)
  length-step-le clears f = ground arith

  -- Every call keeps the position inside the buffer, as long as the bytes fit into a vector.
  pub step-IsValid :
      {f : Fifo} (c : Call)
      → IsValid f
      → length f.buffer + added c ≤ max_size
      → IsValid (step c f).1
  unfolding step clear write
  step-IsValid (writes count bytes) v room =
      ground (arith, write_internal-IsValid count bytes v room)
  step-IsValid (reads count flag) v room = ground (arith, read_internal-IsValid count [] flag v)
  step-IsValid (drops count) v room = ground (arith, drop_bytes-IsValid count v)
  step-IsValid (seeks offset mode) v room = ground (arith, seek-IsValid offset mode v)
  step-IsValid cleans v room = ground (arith, clean-IsValid v)
  step-IsValid clears v room = ground arith
