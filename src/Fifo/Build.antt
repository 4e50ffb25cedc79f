-- ===== src/Fifo/Build.antt =====
-- The constructors of fifo.hxx and fifo.cxx, of a whole `FIFO` and of the base of another object, in
-- which `stored` is the vector that is there already.
use storm_byte_buffer.Prelude.{
  ◌≡◌, refl, ap, ◌∙◌, true, List, [], ◌∷◌, map, Option, none, some, length, arith, take-all,
  drop-all,
}
use storm_byte_buffer.Typedefs.{Byte, Data, Helpers}
use storm_byte_buffer.Generic.Build.{
  Role, complete, base, virtual_base, virtual_base_move, generic, read_write, read_write_copy,
  read_write_move,
}
use storm_byte_buffer.Generic.Convert.{data_convert}
use storm_byte_buffer.Generic.Forward.{Range, vector, elements}
use storm_byte_buffer.Generic.Writes.{write_range, write_string, write_chars}
use storm_byte_buffer.Generic.Counted.{data_convert_lem, fifo_write_all}
use storm_byte_buffer.External.{fifo_writer}
use storm_byte_buffer.Fifo.{Fifo, empty_fifo, holding, available_bytes}
use storm_byte_buffer.Fifo.Reading.{extract, read_internal, serve}
use storm_byte_buffer.Fifo.Writing.{copy_fifo, move_fifo}

-- No constructor but the copy and the move names the virtual base, which is empty then.
unfoldable pub from_data : Role → Data → Data → Fifo
from_data role bytes stored = record {
  buffer = read_write base (some bytes) (virtual_base role (generic none) stored);
  position_offset = 0;
}

unfoldable pub from_copy : Role → Fifo → Data → Fifo
from_copy role other stored = record {
  buffer = read_write_copy base other.buffer (virtual_base role other.buffer stored);
  position_offset = other.position_offset;
}

-- With what is left of the other one.
unfoldable pub from_move : Role → Fifo → Data → Fifo × Fifo
from_move role other stored =
    let (moved, left) = virtual_base_move role other.buffer stored in
    let (kept, left') = read_write_move base left moved in
    (
      record { buffer = kept; position_offset = other.position_offset },
      record other { buffer = left' },
    )

-- A text that is null is an empty one.
abbrev pub chars_or_none : {E : Type 0} → Option (List E) → List E
chars_or_none none = []
chars_or_none (some r) = r

module _ {E : Type 0} (to_byte : E → Byte) where
  -- From a `const` range.
  unfoldable pub from_range : Role → List E → Data → Fifo
  from_range role r stored = record {
    buffer =
        read_write base (some (data_convert to_byte r)) (virtual_base role (generic none) stored);
    position_offset = 0;
  }

  -- From an lvalue that is not `const`, where a vector is moved from, or an rvalue that is no vector: one
  -- of a vector goes to the constructor for a `DataType&&`, and stays as it is.
  unfoldable pub from_forward : Role → Range E → Data → Range E × Fifo
  from_forward role (vector r) stored = (
    vector [],
    record {
      buffer = read_write base (some r) (virtual_base role (generic none) stored);
      position_offset = 0;
    },
  )
  from_forward role (elements r) stored = (
    elements r,
    record {
      buffer =
          read_write base (some (data_convert to_byte r)) (virtual_base role (generic none) stored);
      position_offset = 0;
    },
  )

  unfoldable pub from_string : Role → List E → Data → Fifo
  from_string role r stored = record {
    buffer =
        read_write base (some (data_convert to_byte r)) (virtual_base role (generic none) stored);
    position_offset = 0;
  }

  unfoldable pub from_chars : Option (List E) → Fifo
  from_chars s = from_string complete (chars_or_none s) []

extracted : (xs : Data) → (extract 0 [] (holding xs)).out ≡ xs
unfolding extract read_internal serve available_bytes holding
extracted [] = refl
extracted (x ∷ xs) = ground (arith, take-all (length xs) xs)

emptied : (xs : Data) → (extract 0 [] (holding xs)).source ≡ empty_fifo
unfolding extract read_internal serve available_bytes holding empty_fifo
emptied [] = refl
emptied (x ∷ xs) = ground (arith, drop-all (length xs) xs)

-- The copy and the move of a whole `FIFO` name the virtual base.
pub copies_lem :
    (f : Fifo) → (from_copy complete f [] ≡ copy_fifo f) × (from_move complete f [] ≡ move_fifo f)
unfolding from_copy from_move copy_fifo move_fifo virtual_base virtual_base_move read_write_copy
    read_write_move
copies_lem f = (refl, refl)

module _ {E : Type 0} (to_byte : E → Byte) ⦃h : Helpers⦄ where
  written :
      (r : List E) → write_range to_byte fifo_writer r empty_fifo ≡ (true, holding (map to_byte r))
  unfolding write_range empty_fifo holding
  written r =
      fifo_write_all (data_convert to_byte r) empty_fifo
      ∙ ap (λ xs. (true, holding xs)) (data_convert_lem to_byte r)

  written_chars :
      (s : Option (List E))
      → write_chars to_byte fifo_writer s empty_fifo
        ≡ (true, holding (map to_byte (chars_or_none s)))
  unfolding write_string write_chars empty_fifo holding data_convert
  written_chars none = fifo_write_all [] empty_fifo
  written_chars (some r) =
      fifo_write_all (data_convert to_byte r) empty_fifo
      ∙ ap (λ xs. (true, holding xs)) (data_convert_lem to_byte r)

  -- A range that is written to a `FIFO` just made by default is in it from its start, and so is a
  -- text, which may be null. Extracting all of it gives exactly the converted elements, in order, and
  -- leaves an empty `FIFO`.
  pub written_roundtrip :
      (r : List E) (s : Option (List E))
      → (write_range to_byte fifo_writer r empty_fifo ≡ (true, holding (map to_byte r)))
        × (write_chars to_byte fifo_writer s empty_fifo
            ≡ (true, holding (map to_byte (chars_or_none s))))
        × ((extract 0 [] (write_range to_byte fifo_writer r empty_fifo).1).out ≡ map to_byte r)
        × ((extract 0 [] (write_range to_byte fifo_writer r empty_fifo).1).source ≡ empty_fifo)
  written_roundtrip r s = (
    written r,
    written_chars s,
    ap (λ p. (extract 0 [] p.1).out) (written r) ∙ extracted (map to_byte r),
    ap (λ p. (extract 0 [] p.1).source) (written r) ∙ emptied (map to_byte r),
  )
