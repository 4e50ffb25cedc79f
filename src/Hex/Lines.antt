-- ===== src/Hex/Lines.antt =====
-- The lines of `FIFO::FormatHexLines`, read back: fifo.cxx.
use storm_byte_buffer.Prelude.{
  ℕ, zero, suc, ◌+◌, ◌-◌, ◌≤◌, ◌<◌, ◌≡◌, refl, sym, ap, ap₂, ◌∙◌, ◌⊎◌, inl, inr, true, List, [],
  ◌∷◌, ◌++◌, some, ltb, length, length-take, take, drop, drop-all, drop-add, take-append-drop,
  add_size, size_mod, max_size, Bool-cases, arith,
}
use storm_byte_buffer.Typedefs.{Text, Data}
use storm_byte_buffer.Hex.{cells, shown, line, hex_lines}
use storm_byte_buffer.Hex.Digits.{
  after_colon, after_colon-padded, decode_cells, decode_cells-cells, AreBytes,
}

-- The bytes that a line shows, from the two digits of each.
abbrev pub decode : ℕ → Text → Data
decode columns t = decode_cells columns (drop 1 (after_colon t))

abbrev pub bytes_of : ℕ → List Text → Data
bytes_of columns [] = []
bytes_of columns (t ∷ ts) = decode columns t ++ bytes_of columns ts

take-AreBytes : (n : ℕ) (xs : Data) → AreBytes xs → AreBytes (take n xs)
take-AreBytes zero xs a = tt
take-AreBytes (suc n) [] a = tt
take-AreBytes (suc n) (x ∷ xs) a = (a.0, take-AreBytes n xs a.1)

pub drop-AreBytes : (n : ℕ) (xs : Data) → AreBytes xs → AreBytes (drop n xs)
drop-AreBytes zero xs a = a
drop-AreBytes (suc n) [] a = tt
drop-AreBytes (suc n) (x ∷ xs) a = drop-AreBytes n xs a.1

decode-line :
    (offset columns : ℕ) (row : Data)
    → length row ≤ columns
    → AreBytes row
    → decode columns (line offset columns row) ≡ row
unfolding line
decode-line offset columns row h a =
    let ends : Text = 32 ∷ 32 ∷ shown row in
    ap (λ (t : Text). decode_cells columns (drop 1 t))
      (after_colon-padded 8 offset (32 ∷ (cells columns row ++ ends)))
    ∙ decode_cells-cells columns row ends h a

lines_step :
    (fuel start columns i : ℕ) (bytes : Data) (ts : List Text)
    → ltb i (length bytes) ≡ true
    → add_size i columns ≡ i + columns
    → hex_lines fuel start columns (i + columns) bytes ≡ some ts
    → hex_lines (suc fuel) start columns i bytes
      ≡ some (line (add_size start i) columns (take columns (drop i bytes)) ∷ ts)
unfolding hex_lines
lines_step fuel start columns i bytes ts e next ran =
    let width : i + columns - i ≡ columns = omega arith in rw (next, width, ran, e) refl

lines_lem :
    (fuel start columns i : ℕ) (bytes : Data)
    → 0 < columns
    → columns < size_mod
    → length bytes ≤ max_size
    → AreBytes bytes
    → (i ≡ 0) ⊎ (columns ≤ i)
    → length bytes - i < fuel
    → (ts : List Text) × (hex_lines fuel start columns i bytes ≡ some ts)
      × (bytes_of columns ts ≡ drop i bytes)
unfolding hex_lines
lines_lem zero start columns i bytes p wide small a at h = absurd (omega arith)
lines_lem (suc fuel) start columns i bytes p wide small a at h =
    elim (Bool-cases (ltb i (length bytes))) [
      | inl e ↦
          let next : add_size i columns ≡ i + columns = ground arith in
          let (ts, ran, back) =
            lines_lem fuel start columns (i + columns) bytes p wide small a (inr (omega arith))
              (ground arith) in
          let row = take columns (drop i bytes) in
          (
            line (add_size start i) columns row ∷ ts,
            lines_step fuel start columns i bytes ts e next ran,
            ap₂ (λ xs ys. xs ++ ys)
                  (decode-line (add_size start i) columns row
                    (omega (arith, length-take columns (drop i bytes)))
                    (take-AreBytes columns (drop i bytes) (drop-AreBytes i bytes a)))
                  (back ∙ drop-add i columns (i + columns) bytes refl)
                ∙ take-append-drop columns (drop i bytes),
          )
      | inr e ↦ ([], rw e refl, sym (drop-all i bytes (ground arith)))
    ]

-- The loop ends, and its lines show all the bytes, in order.
pub hex_lines_roundtrip :
    (start columns : ℕ) (bytes : Data)
    → 0 < columns
    → columns < size_mod
    → length bytes ≤ max_size
    → AreBytes bytes
    → (ts : List Text) × (hex_lines (suc (length bytes)) start columns 0 bytes ≡ some ts)
      × (bytes_of columns ts ≡ bytes)
hex_lines_roundtrip start columns bytes p wide small a =
    lines_lem (suc (length bytes)) start columns 0 bytes p wide small a (inl refl) (omega arith)
