-- ===== src/Hex/Dump.antt =====
-- `FIFO::HexDump` as a whole: fifo.cxx.
use storm_byte_buffer.Prelude.{
  ℕ, suc, ◌+◌, ◌-◌, ◌≤◌, ◌<◌, ◌≡◌, refl, sym, inl, inr, true, false, List, [], ◌∷◌, ◌++◌, some, ltb,
  ◌==◌, if◌then◌else◌, length, length-drop, take, take-all, drop-all, size_mod, Bool-cases, arith,
}
use storm_byte_buffer.Fifo.{Fifo}
use storm_byte_buffer.Fifo.Bounds.{IsValid}
use storm_byte_buffer.Fifo.Refine.{view}
use storm_byte_buffer.Typedefs.{Text}
use storm_byte_buffer.Hex.{
  joined, hex_lines, format_hex_lines, dump_with, hex_dump, hex_dump_header,
}
use storm_byte_buffer.Hex.Digits.{AreBytes}
use storm_byte_buffer.Hex.Lines.{bytes_of, drop-AreBytes, hex_lines_roundtrip}

dump_some :
    (header : Text) (columns : ℕ) (f : Fifo) (ts : List Text)
    → let cols = if columns == 0 then 16 else columns in
      ltb f.position_offset (length f.buffer) ≡ true
      → take (length f.buffer - f.position_offset) (view f).ahead ≡ (view f).ahead
      → (if cols == 0 then 16 else cols) ≡ cols
      → hex_lines (suc (length (view f).ahead)) f.position_offset cols 0 (view f).ahead ≡ some ts
      → dump_with header columns 0 f ≡ some (header ++ 10 ∷ joined ts)
unfolding dump_with format_hex_lines
dump_some header columns f ts e whole twice ran = rw (e, whole, twice, ran) refl

dump_none :
    (header : Text) (columns : ℕ) (f : Fifo)
    → ltb f.position_offset (length f.buffer) ≡ false
    → dump_with header columns 0 f ≡ some (header ++ 10 ∷ joined [])
unfolding dump_with joined
dump_none header columns f e = rw e refl

pub dump_with_lem :
    (header : Text) (columns : ℕ) (f : Fifo)
    → columns < size_mod
    → IsValid f
    → AreBytes f.buffer
    → let cols = if columns == 0 then 16 else columns in
      (ts : List Text) × (dump_with header columns 0 f ≡ some (header ++ 10 ∷ joined ts))
      × (bytes_of cols ts ≡ (view f).ahead)
dump_with_lem header columns f wide v a =
    let cols = if columns == 0 then 16 else columns in
    let ahead = (view f).ahead in
    let whole : take (length f.buffer - f.position_offset) ahead ≡ ahead =
      take-all _ ahead (omega (arith, length-drop f.position_offset f.buffer)) in
    let (ts, ran, back) =
      hex_lines_roundtrip f.position_offset cols ahead (ground arith) (ground arith)
        (omega (arith, length-drop f.position_offset f.buffer, v.small))
        (drop-AreBytes f.position_offset f.buffer a) in
    let twice : (if cols == 0 then 16 else cols) ≡ cols = ground arith in
    elim (Bool-cases (ltb f.position_offset (length f.buffer))) [
      | inl e ↦ (ts, dump_some header columns f ts e whole twice ran, back)
      | inr e ↦ (
        [],
        dump_none header columns f e,
        sym (drop-all f.position_offset f.buffer (ground arith)),
      )
    ]

-- A dump with no limit of a valid `FIFO`, for any number of columns, 16 for 0: the header, an empty
-- line, and lines from which the unread bytes, and no others, can be read back in order.
pub hex_dump_roundtrip :
    (columns : ℕ) (f : Fifo)
    → columns < size_mod
    → IsValid f
    → AreBytes f.buffer
    → let cols = if columns == 0 then 16 else columns in
      (ts : List Text) × (hex_dump columns 0 f ≡ some (hex_dump_header f ++ 10 ∷ joined ts))
      × (bytes_of cols ts ≡ (view f).ahead)
unfolding hex_dump
hex_dump_roundtrip columns f wide v a = dump_with_lem (hex_dump_header f) columns f wide v a

-- A limit so large that its sum with the read position wraps around, which can only be where some
-- bytes have been read, gives a dump with no bytes at all, though bytes may be unread.
pub hex_dump_wraps :
    (columns byte_limit : ℕ) (f : Fifo)
    → IsValid f
    → byte_limit < size_mod
    → size_mod ≤ f.position_offset + byte_limit
    → hex_dump columns byte_limit f ≡ some (hex_dump_header f ++ 10 ∷ [])
unfolding hex_dump dump_with
hex_dump_wraps columns byte_limit f v small wraps = ground arith
