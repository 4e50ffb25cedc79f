-- ===== src/Generic/Counted.antt =====
-- The writes of ranges and strings into a `FIFO`: generic.hxx and fifo.cxx.
use storm_byte_buffer.Prelude.{◌≡◌, refl, ap, true, List, [], ◌∷◌, ◌++◌, map, length, arith}
use storm_byte_buffer.Typedefs.{Byte, Data, Helpers}
use storm_byte_buffer.Generic.Convert.{data_convert}
use storm_byte_buffer.Fifo.{Fifo}
use storm_byte_buffer.Fifo.Writing
use storm_byte_buffer.External.{fifo_writer, write_moved}

module _ ⦃h : Helpers⦄ where
  pub fifo_write_all :
      (bytes : Data) (f : Fifo)
      → fifo_writer.write (length bytes) bytes f ≡ (true, record f { buffer = f.buffer ++ bytes })
  unfolding write_moved Writing.write_move Writing.write_internal_move
  fifo_write_all bytes f = ground (arith, h.append_vector_move_lem f.buffer bytes)

module _ {E : Type 0} (to_byte : E → Byte) where
  pub data_convert_lem : (xs : List E) → data_convert to_byte xs ≡ map to_byte xs
  unfolding data_convert
  data_convert_lem [] = refl
  data_convert_lem (x ∷ xs) = ap (λ r. to_byte x ∷ r) (data_convert_lem xs)
