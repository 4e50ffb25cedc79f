-- ===== src/Fifo.antt =====
-- The class `FIFO`: lib/public/StormByte/buffer/fifo.hxx and fifo.cxx.
pub mod Reading
pub mod Writing
pub mod Bounds
pub mod Refine
pub mod Calls
pub mod Growth
pub mod Sequence
pub mod Stream
pub mod UntilEof
pub mod Into
pub mod Moves
pub mod Shrink
pub mod Between
pub mod Equality
pub mod Methods
pub mod Build
pub mod Drain
pub mod Whole
pub mod Observe
use storm_byte_buffer.Prelude.{
  ℕ, ◌-◌, min, Bool, true, false, ◌&&◌, ◌||◌, [], ◌++◌, ltb, leb, ◌==◌, if◌then◌else◌, length, take,
  drop, add_size, ℤ, pos, negsuc, ◌+ℤ◌, to_ptrdiff, clamp_zero,
}
use storm_byte_buffer.Typedefs.{Data, Position}

-- The capacity of the vector, which no operation reads but to give memory back, is left out.
pub record Fifo : Type 0 where
  pub buffer : Data
  pub position_offset : ℕ

unfoldable pub empty_fifo : Fifo
empty_fifo = record { buffer = []; position_offset = 0 }

-- Some bytes, none of them read.
unfoldable pub holding : Data → Fifo
holding bytes = record { buffer = bytes; position_offset = 0 }

unfoldable pub available_bytes : Fifo → ℕ
available_bytes f =
    let current_size = length f.buffer in
    if leb f.position_offset current_size then current_size - f.position_offset else 0

unfoldable pub size : Fifo → ℕ
size f = length f.buffer

unfoldable pub is_empty : Fifo → Bool
is_empty f = size f == 0

unfoldable pub eof : Fifo → Bool
eof f = available_bytes f == 0

unfoldable pub clear : Fifo → Fifo
clear f = record { buffer = []; position_offset = 0 }

-- `memmove` of `n` bytes from `src` to the front.
pub move_to_front : ℕ → ℕ → Data → Data
move_to_front src n bytes = take n (drop src bytes) ++ drop n bytes

unfoldable pub clean : Fifo → Fifo
unfolding move_to_front
clean f =
    let remaining = length f.buffer - f.position_offset in
    record {
      buffer =
          if ltb 0 f.position_offset && leb f.position_offset (length f.buffer)
          then (if ltb 0 remaining
              then take remaining (move_to_front f.position_offset remaining f.buffer)
              else [])
          else [];
      position_offset = 0;
    }

unfoldable pub seek : ℤ → Position → Fifo → Fifo
seek (negsuc n) Position.absolute f = record f { position_offset = 0 }
seek (pos n) Position.absolute f = record f { position_offset = min n (length f.buffer) }
seek (negsuc n) Position.relative f = record f {
  position_offset = clamp_zero (to_ptrdiff f.position_offset +ℤ negsuc n);
}
seek (pos n) Position.relative f = record f {
  position_offset = min (add_size f.position_offset n) (length f.buffer);
}

-- `Drop`.
unfoldable pub drop_bytes : ℕ → Fifo → Bool × Fifo
drop_bytes count f =
    if (available_bytes f == 0) || ltb (available_bytes f) count
    then (false, f)
    else (true, clean (seek (to_ptrdiff count) Position.relative f))
