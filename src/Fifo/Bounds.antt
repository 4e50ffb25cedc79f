-- ===== src/Fifo/Bounds.antt =====
-- The well-formedness of a `FIFO`, and what each operation makes of it: fifo.cxx.
use storm_byte_buffer.Prelude.{
  ℕ, ◌+◌, ◌-◌, ◌≤◌, ◌≡◌, length, take, drop, length-append, length-take, length-drop, max_size, ℤ,
  pos, negsuc, to_ptrdiff, arith,
}
use storm_byte_buffer.Typedefs.{Data, Position, Operation, Helpers}
use storm_byte_buffer.Fifo.{Fifo, available_bytes, clean, seek, drop_bytes, move_to_front}
use storm_byte_buffer.Fifo.Reading.{read_internal, serve}
use storm_byte_buffer.Fifo.Writing.{write_internal}

pub record IsValid (f : Fifo) : Type 0 where
  pub inside : f.position_offset ≤ length f.buffer
  pub small : length f.buffer ≤ max_size

pub available_bytes_lem :
    {f : Fifo} → IsValid f → available_bytes f + f.position_offset ≡ length f.buffer
unfolding available_bytes
available_bytes_lem v = ground arith

pub clean-IsValid : {f : Fifo} → IsValid f → IsValid (clean f)
unfolding clean move_to_front
clean-IsValid {f} v = ground (
  arith,
  length-take (length f.buffer - f.position_offset)
      (move_to_front f.position_offset (length f.buffer - f.position_offset) f.buffer),
)

pub seek-IsValid :
    {f : Fifo} (offset : ℤ) (mode : Position) → IsValid f → IsValid (seek offset mode f)
unfolding seek
seek-IsValid (negsuc n) Position.absolute v = ground arith
seek-IsValid (negsuc n) Position.relative v = ground arith
seek-IsValid (pos n) Position.absolute v = ground arith
seek-IsValid (pos n) Position.relative v = ground arith

pub drop_bytes-IsValid : {f : Fifo} (count : ℕ) → IsValid f → IsValid (drop_bytes count f).1
unfolding drop_bytes
drop_bytes-IsValid {f} count v =
    ground (arith, clean-IsValid (seek-IsValid (to_ptrdiff count) Position.relative v))

serve-IsValid :
    {f : Fifo} (n : ℕ) (out : Data) (flag : Operation)
    → IsValid f
    → n + f.position_offset ≤ length f.buffer
    → IsValid (serve n out flag f).source
unfolding serve
serve-IsValid n out Operation.read v h = ground arith
serve-IsValid n out Operation.peek v h = v
serve-IsValid {f} n out Operation.extract v h = ground (
  arith,
  length-append (take f.position_offset f.buffer) (drop (f.position_offset + n) f.buffer),
  length-take f.position_offset f.buffer,
  length-drop (f.position_offset + n) f.buffer,
)

pub read_internal-IsValid :
    {f : Fifo} (count : ℕ) (out : Data) (flag : Operation)
    → IsValid f
    → IsValid (read_internal count out flag f).source
unfolding read_internal
read_internal-IsValid {f} count out flag v = ground (
  arith,
  available_bytes_lem v,
  serve-IsValid count out flag v,
  serve-IsValid (available_bytes f) out flag v,
)

module _ ⦃h : Helpers⦄ where
  pub write_internal-IsValid :
      {f : Fifo} (count : ℕ) (src : Data)
      → IsValid f
      → length f.buffer + length src ≤ max_size
      → IsValid (write_internal count src f).1
  unfolding write_internal
  write_internal-IsValid {f} count src v room = ground (
    arith,
    h.append_vector_lem f.buffer src,
    length-append f.buffer src,
    length-append f.buffer (take count src),
    length-take count src,
  )
