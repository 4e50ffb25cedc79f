-- ===== src/Generic/Writes.antt =====
-- The overloads of `WriteOnly::Write` of lib/public/StormByte/buffer/generic.hxx that end in
-- `Write(count, DataType&&)`, for any buffer that has this one.
use storm_byte_buffer.Prelude.{
  ℕ, Bool, List, [], Option, none, some, ◌-◌, ◌==◌, if◌then◌else◌, min, length, take,
}
use storm_byte_buffer.Typedefs.{Byte}
use storm_byte_buffer.Generic.{WriteOnly}
use storm_byte_buffer.Generic.Convert.{data_convert, convert_some}

module _ {E S : Type 0} (to_byte : E → Byte) (w : WriteOnly S) where
  -- `Write(r)` of a range.
  unfoldable pub write_range : List E → S → Bool × S
  write_range r s = let tmp = data_convert to_byte r in w.write (length tmp) tmp s

  -- `Write(std::string_view)`.
  unfoldable pub write_string : List E → S → Bool × S
  write_string r s = let tmp = data_convert to_byte r in w.write (length tmp) tmp s

  -- `Write(first, last)` of a pair of iterators.
  unfoldable pub write_iterators : List E → S → Bool × S
  write_iterators r s = let tmp = data_convert to_byte r in w.write (length tmp) tmp s

  -- `Write(const char*)`: null is nothing.
  unfoldable pub write_chars : Option (List E) → S → Bool × S
  write_chars none s = w.write 0 [] s
  write_chars (some r) s = write_string r s

  -- `Write(const char (&s)[N])`, of all the `N` characters but the last.
  unfoldable pub write_literal : List E → S → Bool × S
  write_literal r s =
      if length r == 0 then w.write 0 [] s else write_string (take (length r - 1) r) s

  -- `Write(count, std::string_view)`.
  unfoldable pub write_count_string : ℕ → List E → S → Bool × S
  write_count_string count r s =
      let to_write = if count == 0 then length r else min count (length r) in
      w.write to_write (data_convert to_byte (take to_write r)) s

  -- `Write(count, r)` of a range.
  unfoldable pub write_count_range : ℕ → List E → S → Bool × S
  write_count_range count r s =
      let tmp = convert_some to_byte count 0 r in
      if count == 0 then write_range r s else w.write (length tmp) tmp s

  -- `Write(count, first, last)` of a pair of iterators.
  unfoldable pub write_count_iterators : ℕ → List E → S → Bool × S
  write_count_iterators count r s =
      let tmp = convert_some to_byte count 0 r in
      if count == 0 then write_iterators r s else w.write (length tmp) tmp s

  -- `Write(count, const char*)`.
  unfoldable pub write_count_chars : ℕ → Option (List E) → S → Bool × S
  write_count_chars count none s = w.write count [] s
  write_count_chars count (some r) s = write_count_string count r s
