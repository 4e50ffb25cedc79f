-- ===== src/Prelude/Words.antt =====
-- `std::size_t` and `std::ptrdiff_t`, both of 64 bits.
use Prim.Native.Nat.{ℕ, suc, ◌+◌, ◌-◌, ◌%◌, ◌^◌, ◌≤◌}
use storm_byte_buffer.Prelude.Tests.{ltb, leb, if◌then◌else◌}

abbrev pub size_mod : ℕ
size_mod = 2 ^ 64

-- No `std::vector` holds more bytes than `std::ptrdiff_t` counts.
abbrev pub max_size : ℕ
max_size = 2 ^ 63 - 1

-- `a + b` at `std::size_t`.
abbrev pub add_size : ℕ → ℕ → ℕ
add_size a b = (a + b) % size_mod

-- `negsuc n` is -(n + 1).
pub data ℤ : Type 0 where
  pos : ℕ → ℤ
  negsuc : ℕ → ℤ

-- a - b, as an integer.
abbrev pub sub_ℕ : ℕ → ℕ → ℤ
sub_ℕ a b = if leb b a then pos (a - b) else negsuc (b - a - 1)

-- `static_cast<std::ptrdiff_t>(x)` of a `std::size_t`.
abbrev pub to_ptrdiff : ℕ → ℤ
to_ptrdiff x = if ltb x (2 ^ 63) then pos x else negsuc (size_mod - x - 1)

infixl 65 ◌+ℤ◌
abbrev pub ◌+ℤ◌ : ℤ → ℤ → ℤ
pos a +ℤ pos b = pos (a + b)
pos a +ℤ negsuc b = sub_ℕ a (suc b)
negsuc a +ℤ pos b = sub_ℕ b (suc a)
negsuc a +ℤ negsuc b = negsuc (suc (a + b))

-- `std::max(0, z)`, cast to `std::size_t`.
abbrev pub clamp_zero : ℤ → ℕ
clamp_zero (pos n) = n
clamp_zero (negsuc n) = 0

-- The integers that a `std::ptrdiff_t` holds.
abbrev pub IsPtrdiff : ℤ → Type 0
IsPtrdiff (pos n) = n ≤ max_size
IsPtrdiff (negsuc n) = n ≤ max_size
