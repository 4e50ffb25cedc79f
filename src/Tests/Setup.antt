-- ===== src/Tests/Setup.antt =====
-- Concrete values for the tests: the helpers of the base library, and a few buffers.
use storm_byte_buffer.Prelude.{refl, [], ◌∷◌, ◌++◌}
use storm_byte_buffer.Typedefs.{Data, Helpers}
use storm_byte_buffer.Fifo.{Fifo}

-- `append_vector` appends; its move overload empties the source.
instance abbrev pub plain : Helpers
plain = record {
  append_vector = λ dst src. dst ++ src;
  append_vector_move = λ dst src. (dst ++ src, []);
  append_vector_lem = λ dst src. refl;
  append_vector_move_lem = λ dst src. refl;
}

-- Three bytes, one of them read.
abbrev pub started : Fifo
started = record { buffer = 10 ∷ 20 ∷ 30 ∷ []; position_offset = 1 }

-- Three bytes, none of them read.
abbrev pub fresh : Fifo
fresh = record { buffer = 10 ∷ 20 ∷ 30 ∷ []; position_offset = 0 }

abbrev pub two : Data
two = 40 ∷ 50 ∷ []
