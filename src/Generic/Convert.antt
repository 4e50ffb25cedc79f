-- ===== src/Generic/Convert.antt =====
-- `Generic::DataConvert` of lib/public/StormByte/buffer/generic.hxx: a range of elements as bytes. The
-- conversion `static_cast<std::byte>` of the elements is an argument.
use storm_byte_buffer.Prelude.{ℕ, suc, List, [], ◌∷◌, Option, none, some, ltb, if◌then◌else◌}
use storm_byte_buffer.Typedefs.{Byte, Data}

module _ {E : Type 0} (to_byte : E → Byte) where
  -- `std::transform` into a vector.
  unfoldable pub data_convert : List E → Data
  data_convert [] = []
  data_convert (x ∷ xs) = to_byte x ∷ data_convert xs

  -- From a `const char*`, which may be null.
  unfoldable pub data_convert_chars : Option (List E) → Data
  data_convert_chars none = []
  data_convert_chars (some xs) = data_convert xs

  -- `for (; it != end && written < count; ++it, ++written) tmp.push_back(...)`.
  unfoldable pub convert_some : ℕ → ℕ → List E → Data
  convert_some count written [] = []
  convert_some count written (x ∷ xs) =
      let rest = convert_some count (suc written) xs in
      if ltb written count then to_byte x ∷ rest else []
