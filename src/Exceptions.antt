-- ===== src/Exceptions.antt =====
-- The exception classes of lib/public/StormByte/buffer/exception.hxx. The class that they come from,
-- StormByte::Exception of the base library, is an argument: what its constructor makes of the name of
-- a component, a format and its arguments. A text is the list of its character codes.
use storm_byte_buffer.Prelude.{◌≡◌, refl, [], ◌∷◌, ◌++◌}
use storm_byte_buffer.Typedefs.{Text}

-- `"Buffer::"`.
abbrev pub prefix : Text
prefix = 66 ∷ 117 ∷ 102 ∷ 102 ∷ 101 ∷ 114 ∷ 58 ∷ 58 ∷ []

-- `"Buffer::ReadError"` and `"Buffer::WriteError"`.
abbrev pub read_component : Text
read_component = prefix ++ 82 ∷ 101 ∷ 97 ∷ 100 ∷ 69 ∷ 114 ∷ 114 ∷ 111 ∷ 114 ∷ []

abbrev pub write_component : Text
write_component = prefix ++ 87 ∷ 114 ∷ 105 ∷ 116 ∷ 101 ∷ 69 ∷ 114 ∷ 114 ∷ 111 ∷ 114 ∷ []

module _ {Format Args E : Type 0} (make : Text → Format → Args → E) where
  unfoldable pub exception : Text → Format → Args → E
  exception component fmt args = make (prefix ++ component) fmt args

  -- It inherits the constructor.
  unfoldable pub error : Text → Format → Args → E
  error component fmt args = exception component fmt args

  unfoldable pub read_error : Format → Args → E
  read_error fmt args = error read_component fmt args

  unfoldable pub write_error : Format → Args → E
  write_error fmt args = error write_component fmt args

  -- The names that the base class gets begin with the prefix twice.
  doubled_prefix :
      (fmt : Format) (args : Args)
      → (read_error fmt args ≡ make (prefix ++ read_component) fmt args)
        × (write_error fmt args ≡ make (prefix ++ write_component) fmt args)
  unfolding read_error write_error error exception
  doubled_prefix fmt args = (refl, refl)
