-- ===== src/Tests/Dump.antt =====
-- Tests and examples of the modules under `Hex`.
use storm_byte_buffer.Prelude.{true, false, ◌≡◌, refl, List, [], ◌∷◌, ◌++◌, some, arith}
use storm_byte_buffer.Typedefs.{Text}
use storm_byte_buffer.Hex.{
  joined, hex_dump, hex_dump_header, line, padded, number, digits, digit, cells, cell, shown,
}
use storm_byte_buffer.Hex.Lines.{bytes_of}
use storm_byte_buffer.Hex.Dump.{hex_dump_roundtrip, hex_dump_wraps}
use storm_byte_buffer.Tests.Setup.{started}
use storm_byte_buffer.Hex.Status.{status}

hex_dump_roundtrip_example :
    (ts : List Text) × (hex_dump 0 0 started ≡ some (hex_dump_header started ++ 10 ∷ joined ts))
    × (bytes_of 16 ts ≡ 20 ∷ 30 ∷ [])
hex_dump_roundtrip_example = hex_dump_roundtrip 0 started (omega arith) (omega arith) (omega arith)

hex_dump_wraps_example :
    hex_dump 0 18446744073709551615 started ≡ some (hex_dump_header started ++ 10 ∷ [])
hex_dump_wraps_example =
    hex_dump_wraps 0 18446744073709551615 started (omega arith) (omega arith) (omega arith)

-- `0000001F: 14 41     .A`.
one_line :
    line 31 3 (20 ∷ 65 ∷ [])
    ≡ 48 ∷ 48 ∷ 48 ∷ 48 ∷ 48 ∷ 48 ∷ 49 ∷ 70 ∷ 58 ∷ 32 ∷ 49 ∷ 52 ∷ 32 ∷ 52 ∷ 49 ∷ 32 ∷ 32 ∷ 32 ∷ 32
      ∷ 32 ∷ 32 ∷ 46 ∷ 65 ∷ []
unfolding line padded number digits digit cells cell shown
one_line = refl

-- `Status: closed and ready`.
status_line :
    status true false
    ≡ 83 ∷ 116 ∷ 97 ∷ 116 ∷ 117 ∷ 115 ∷ 58 ∷ 32 ∷ 99 ∷ 108 ∷ 111 ∷ 115 ∷ 101 ∷ 100 ∷ 32 ∷ 97 ∷ 110
      ∷ 100 ∷ 32 ∷ 114 ∷ 101 ∷ 97 ∷ 100 ∷ 121 ∷ []
unfolding status
status_line = refl
