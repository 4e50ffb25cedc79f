-- ===== src/Hex/Status.antt =====
-- `SharedFIFO::HexDump` and `SharedFIFO::HexDumpHeader`: shared_fifo.cxx.
use storm_byte_buffer.Prelude.{
  ℕ, ◌<◌, ◌≡◌, refl, Bool, true, false, List, [], ◌∷◌, ◌++◌, Option, some, ◌==◌, if◌then◌else◌,
  drop, size_mod,
}
use storm_byte_buffer.Fifo.Bounds.{IsValid}
use storm_byte_buffer.Fifo.Refine.{view}
use storm_byte_buffer.Shared.{Shared}
use storm_byte_buffer.Typedefs.{Text}
use storm_byte_buffer.Hex.{joined, dump_with, hex_dump_header}
use storm_byte_buffer.Hex.Digits.{AreBytes}
use storm_byte_buffer.Hex.Lines.{bytes_of}
use storm_byte_buffer.Hex.Dump.{dump_with_lem}

-- `closed` or `opened`.
abbrev closed_word : Bool → Text
closed_word true = 99 ∷ 108 ∷ 111 ∷ 115 ∷ 101 ∷ 100 ∷ []
closed_word false = 111 ∷ 112 ∷ 101 ∷ 110 ∷ 101 ∷ 100 ∷ []

-- `error` or `ready`.
abbrev error_word : Bool → Text
error_word true = 101 ∷ 114 ∷ 114 ∷ 111 ∷ 114 ∷ []
error_word false = 114 ∷ 101 ∷ 97 ∷ 100 ∷ 121 ∷ []

-- `Status: `, a word, ` and ` and a word.
unfoldable pub status : Bool → Bool → Text
status closed error =
    (83 ∷ 116 ∷ 97 ∷ 116 ∷ 117 ∷ 115 ∷ 58 ∷ 32 ∷ [])
    ++ closed_word closed
    ++ (32 ∷ 97 ∷ 110 ∷ 100 ∷ 32 ∷ [])
    ++ error_word error

unfoldable pub shared_dump_header : Shared → Text
shared_dump_header s = hex_dump_header s.fifo ++ status s.closed s.error

unfoldable pub shared_hex_dump : ℕ → ℕ → Shared → Option Text
shared_hex_dump columns byte_limit s = dump_with (shared_dump_header s) columns byte_limit s.fifo

-- What a status line says, by the first letters of its two words.
abbrev pub said : Text → Bool × Bool
said t = elim (drop 8 t) [
  | [] ↦ (false, false)
  | c ∷ cs ↦ elim (drop 10 cs) [ [] ↦ (false, false) | e ∷ es ↦ (c == 99, e == 101) ]
]

said-status : (closed error : Bool) → said (status closed error) ≡ (closed, error)
unfolding status
said-status true true = refl
said-status true false = refl
said-status false true = refl
said-status false false = refl

-- A dump with no limit of a valid `SharedFIFO`, for any number of columns, 16 for 0: the header of a
-- `FIFO`, a line from which both flags can be read back, and lines from which the unread bytes, and
-- no others, can be read back in order.
pub shared_hex_dump_roundtrip :
    (columns : ℕ) (s : Shared)
    → columns < size_mod
    → IsValid s.fifo
    → AreBytes s.fifo.buffer
    → let cols = if columns == 0 then 16 else columns in
      (line : Text) × (ts : List Text) × (shared_hex_dump columns 0 s
        ≡ some ((hex_dump_header s.fifo ++ line) ++ 10 ∷ joined ts))
      × (said line ≡ (s.closed, s.error))
      × (bytes_of cols ts ≡ (view s.fifo).ahead)
unfolding shared_hex_dump shared_dump_header
shared_hex_dump_roundtrip columns s wide v a =
    let (ts, e, back) = dump_with_lem (shared_dump_header s) columns s.fifo wide v a in
    (status s.closed s.error, ts, e, said-status s.closed s.error, back)
