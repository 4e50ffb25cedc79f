-- ===== src/Hex.antt =====
-- `FIFO::HexDump`, `FIFO::FormatHexLines` and `FIFO::HexDumpHeader`: fifo.cxx of
-- lib/public/StormByte/buffer. A text is the list of its character codes.
pub mod Digits
pub mod Lines
pub mod Dump
pub mod Status
use storm_byte_buffer.Prelude.{
  ℕ, zero, suc, ◌+◌, ◌-◌, ◌*◌, ◌/◌, ◌%◌, min, Bool, ◌&&◌, Option, none, some, ◌>>=◌, List, [], ◌∷◌,
  ◌++◌, ltb, leb, ◌==◌, if◌then◌else◌, length, take, drop, add_size,
}
use storm_byte_buffer.Typedefs.{Byte, Data, Text}
use storm_byte_buffer.Fifo.{Fifo}

-- `0` to `9`, then `A` to `F`.
unfoldable pub digit : ℕ → ℕ
digit d = if ltb d 10 then 48 + d else 55 + d

-- A number to a base, with fuel.
unfoldable pub digits : ℕ → ℕ → ℕ → Text
digits base zero n = []
digits base (suc fuel) n =
    let before = digits base fuel (n / base) in
    if ltb n base then digit n ∷ [] else before ++ digit (n % base) ∷ []

unfoldable pub number : ℕ → ℕ → Text
number base n = digits base (suc n) n

abbrev pub repeat : ℕ → ℕ → Text
repeat c zero = []
repeat c (suc n) = c ∷ repeat c n

-- `std::setw` and `std::setfill('0')`.
unfoldable pub padded : ℕ → Text → Text
padded width t = repeat 48 (width - length t) ++ t

-- The two hex digits of a byte and a space.
unfoldable pub cell : Byte → Text
cell b = padded 2 (number 16 b) ++ 32 ∷ []

-- One cell for each of the columns, blank where there is no byte.
unfoldable pub cells : ℕ → Data → Text
cells zero row = []
cells (suc columns) [] = 32 ∷ 32 ∷ 32 ∷ cells columns []
cells (suc columns) (x ∷ xs) = cell x ++ cells columns xs

-- `std::isprint`, or a dot.
unfoldable pub shown : Data → Text
shown [] = []
shown (x ∷ xs) = (if leb 32 x && leb x 126 then x else 46) ∷ shown xs

unfoldable pub line : ℕ → ℕ → Data → Text
line offset columns row =
    padded 8 (number 16 offset) ++ (58 ∷ 32 ∷ (cells columns row ++ (32 ∷ 32 ∷ shown row)))

-- The loop over the lines, with fuel: `none` when the fuel runs out.
unfoldable pub hex_lines : ℕ → ℕ → ℕ → ℕ → Data → Option (List Text)
hex_lines zero start columns i bytes = none
hex_lines (suc fuel) start columns i bytes =
    let next = add_size i columns in
    let rest = hex_lines fuel start columns next bytes in
    if ltb i (length bytes)
    then (rest >>= λ ts.
        some (line (add_size start i) (next - i) (take (next - i) (drop i bytes)) ∷ ts))
    else some []

-- Joined by line ends.
unfoldable pub joined : List Text → Text
joined [] = []
joined (t ∷ []) = t
joined (t ∷ u ∷ ts) = t ++ 10 ∷ joined (u ∷ ts)

unfoldable pub format_hex_lines : Data → ℕ → ℕ → Option Text
format_hex_lines bytes start columns =
    let cols = if columns == 0 then 16 else columns in
    hex_lines (suc (length bytes)) start cols 0 bytes >>= λ ts. some (joined ts)

-- `Size: ` and ` bytes`, `Read Position: `.
unfoldable pub hex_dump_header : Fifo → Text
hex_dump_header f =
    (83 ∷ 105 ∷ 122 ∷ 101 ∷ 58 ∷ 32 ∷ [])
    ++ number 10 (length f.buffer)
    ++ (32 ∷ 98 ∷ 121 ∷ 116 ∷ 101 ∷ 115 ∷ 10 ∷ [])
    ++ (82 ∷ 101 ∷ 97 ∷ 100 ∷ 32 ∷ 80 ∷ 111 ∷ 115 ∷ 105 ∷ 116 ∷ 105 ∷ 111 ∷ 110 ∷ 58 ∷ 32 ∷ [])
    ++ number 10 f.position_offset
    ++ (10 ∷ [])

-- `HexDump`, of which `HexDumpHeader` is virtual: with what it returns.
unfoldable pub dump_with : Text → ℕ → ℕ → Fifo → Option Text
dump_with header columns byte_limit f =
    let cols = if columns == 0 then 16 else columns in
    let end =
      if ltb 0 byte_limit
      then min (length f.buffer) (add_size f.position_offset byte_limit)
      else length f.buffer in
    let view = take (end - f.position_offset) (drop f.position_offset f.buffer) in
    let lines =
      if ltb f.position_offset end then format_hex_lines view f.position_offset cols else some [] in
    lines >>= λ t. some (header ++ 10 ∷ t)

unfoldable pub hex_dump : ℕ → ℕ → Fifo → Option Text
hex_dump columns byte_limit f = dump_with (hex_dump_header f) columns byte_limit f
