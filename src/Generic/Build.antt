-- ===== src/Generic/Build.antt =====
-- The constructors of `Generic`, `ReadOnly`, `WriteOnly` and `ReadWrite` of
-- lib/public/StormByte/buffer/generic.hxx: what they make of `m_buffer`. `Generic` is a virtual base:
-- only a constructor of the class that an object is of initialises it, before all else, and what the
-- constructor of a base says of it is ignored.
use storm_byte_buffer.Prelude.{[], Option, none, some}
use storm_byte_buffer.Typedefs.{Data}

-- Whether a constructor makes the whole object, or a base of another.
pub data Role : Type 0 where
  complete base : Role

-- The vector after the initialiser of the virtual base, when `stored` was there.
unfoldable pub virtual_base : Role → Data → Data → Data
virtual_base complete given stored = given
virtual_base base given stored = stored

-- The same with a vector that is moved from, of which the second part is left.
unfoldable pub virtual_base_move : Role → Data → Data → Data × Data
virtual_base_move complete given stored = (given, [])
virtual_base_move base given stored = (stored, given)

-- `Generic()`, `Generic(data)`.
unfoldable pub generic : Option Data → Data
generic none = []
generic (some bytes) = bytes

unfoldable pub read_only : Role → Option Data → Data → Data
read_only role given stored = virtual_base role (generic given) stored

unfoldable pub write_only : Role → Option Data → Data → Data
write_only role given stored = virtual_base role (generic given) stored

-- The bases that are not virtual are constructed by default.
unfoldable pub read_write : Role → Option Data → Data → Data
read_write role given stored =
    write_only base none (read_only base none (virtual_base role (generic given) stored))

-- The copy and the move that are defaulted.
unfoldable pub read_write_copy : Role → Data → Data → Data
read_write_copy role other stored = virtual_base role other stored

unfoldable pub read_write_move : Role → Data → Data → Data × Data
read_write_move role other stored = virtual_base_move role other stored
