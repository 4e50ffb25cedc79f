-- ===== src/Hex/Digits.antt =====
-- The hex digits of a byte, read back.
use storm_byte_buffer.Prelude.{
  ℕ, zero, suc, ◌+◌, ◌-◌, ◌*◌, ◌/◌, ◌%◌, ◌≤◌, ◌<◌, ◌≡◌, refl, ap, ap₂, ◌∙◌, inl, inr, false, [],
  ◌∷◌, ◌++◌, append_assoc, ltb, ◌==◌, if◌then◌else◌, length, Bool-cases, arith,
}
use storm_byte_buffer.Typedefs.{Text, Data}
use storm_byte_buffer.Hex.{digit, digits, number, repeat, padded, cell, cells}

-- What a digit stands for.
abbrev pub value : ℕ → ℕ
value c = if ltb c 58 then c - 48 else c - 55

-- The text behind the first colon.
abbrev pub after_colon : Text → Text
after_colon [] = []
after_colon (c ∷ t) = if c == 58 then t else after_colon t

-- The bytes of the cells, up to the first blank one.
abbrev pub decode_cells : ℕ → Text → Data
decode_cells zero t = []
decode_cells (suc columns) (a ∷ b ∷ c ∷ t) =
    if a == 32 then [] else (value a * 16 + value b) ∷ decode_cells columns t
decode_cells (suc columns) _ = []

value-digit : (d : ℕ) → d < 16 → value (digit d) ≡ d
unfolding digit
value-digit d h = ground arith

digit_plain : (d : ℕ) → ((digit d == 58) ≡ false) × ((digit d == 32) ≡ false)
unfolding digit
digit_plain d = (ground arith, ground arith)

after_colon-digits :
    (base fuel n : ℕ) (t : Text) → after_colon (digits base fuel n ++ t) ≡ after_colon t
unfolding digits
after_colon-digits base zero n t = refl
after_colon-digits base (suc fuel) n t = elim (Bool-cases (ltb n base)) [
  | inl e ↦ rw (e, (digit_plain n).0) refl
  | inr e ↦
      rw (e, append_assoc (digits base fuel (n / base)) (digit (n % base) ∷ []) t)
        (after_colon-digits base fuel (n / base) (digit (n % base) ∷ t)
          ∙ rw ((digit_plain (n % base)).0) refl)
]

after_colon-repeat : (n : ℕ) (t : Text) → after_colon (repeat 48 n ++ t) ≡ after_colon t
after_colon-repeat zero t = refl
after_colon-repeat (suc n) t = after_colon-repeat n t

pub after_colon-padded :
    (width n : ℕ) (t : Text) → after_colon (padded width (number 16 n) ++ 58 ∷ t) ≡ t
unfolding padded number
after_colon-padded width n t =
    let ds = digits 16 (suc n) n in
    let zeros = repeat 48 (width - length ds) in
    ap after_colon (append_assoc zeros ds (58 ∷ t))
    ∙ after_colon-repeat (width - length ds) (ds ++ 58 ∷ t)
    ∙ after_colon-digits 16 (suc n) n (58 ∷ t)

-- A byte has two digits.
cell_lem : (b : ℕ) → b < 256 → cell b ≡ digit (b / 16) ∷ digit (b % 16) ∷ 32 ∷ []
unfolding cell padded number digits digit
cell_lem zero h = refl
cell_lem (suc b) h = ground arith

abbrev pub AreBytes : Data → Type 0
AreBytes [] = Unit {0}
AreBytes (x ∷ xs) = (x < 256) × AreBytes xs

pub decode_cells-cells :
    (columns : ℕ) (row : Data) (t : Text)
    → length row ≤ columns
    → AreBytes row
    → decode_cells columns (cells columns row ++ t) ≡ row
unfolding cells
decode_cells-cells zero [] t h a = refl
decode_cells-cells zero (x ∷ xs) t h a = absurd (omega arith)
decode_cells-cells (suc columns) [] t h a = refl
decode_cells-cells (suc columns) (x ∷ xs) t h a =
    let ih = decode_cells-cells columns xs t (omega arith) a.1 in
    let back : value (digit (x / 16)) * 16 + value (digit (x % 16)) ≡ x =
      ap₂ (λ p q. p * 16 + q) (value-digit (x / 16) (omega arith))
        (value-digit (x % 16) (omega arith))
      ∙ omega arith in
    rw (cell_lem x a.0, (digit_plain (x / 16)).1) (ap₂ (λ p q. p ∷ q) back ih)
