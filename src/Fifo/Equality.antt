-- ===== src/Fifo/Equality.antt =====
-- `FIFO::operator==` and `FIFO::operator!=`: lib/public/StormByte/buffer/fifo.hxx.
use storm_byte_buffer.Prelude.{
  ℕ, ◌≡◌, ◌↔◌, refl, ap₂, Bool, true, false, not, ◌&&◌, [], ◌∷◌, ◌==◌, arith,
}
use storm_byte_buffer.Typedefs.{Data}
use storm_byte_buffer.Fifo.{Fifo}

-- `==` of two vectors.
unfoldable pub same_bytes : Data → Data → Bool
same_bytes [] [] = true
same_bytes [] (y ∷ ys) = false
same_bytes (x ∷ xs) [] = false
same_bytes (x ∷ xs) (y ∷ ys) = (x == y) && same_bytes xs ys

unfoldable pub equals : Fifo → Fifo → Bool
equals f g = same_bytes f.buffer g.buffer && (f.position_offset == g.position_offset)

unfoldable pub differs : Fifo → Fifo → Bool
differs f g = not (equals f g)

same_bytes_eq : (xs ys : Data) → same_bytes xs ys ≡ true → xs ≡ ys
unfolding same_bytes
same_bytes_eq [] [] e = refl
same_bytes_eq [] (y ∷ ys) e = absurd (ground arith)
same_bytes_eq (x ∷ xs) [] e = absurd (ground arith)
same_bytes_eq (x ∷ xs) (y ∷ ys) e =
    ap₂ (λ a as_. a ∷ as_) (ground arith) (same_bytes_eq xs ys (ground arith))

same_bytes_refl : (xs : Data) → same_bytes xs xs ≡ true
unfolding same_bytes
same_bytes_refl [] = refl
same_bytes_refl (x ∷ xs) = ground (arith, same_bytes_refl xs)

-- `operator==` is true exactly of two buffers with the same bytes, read ones included, and the same
-- read position; `operator!=` is true exactly of all others.
pub equals_iff : (f g : Fifo) → ((equals f g ≡ true) ↔ (f ≡ g)) × ((differs f g ≡ false) ↔ (f ≡ g))
unfolding equals differs
equals_iff f g =
    let same : equals f g ≡ true → f ≡ g = λ e.
      ap₂ (λ (b : Data) (n : ℕ). record { buffer = b; position_offset = n })
        (same_bytes_eq f.buffer g.buffer (ground arith)) (ground arith) in
    let back : f ≡ g → equals f g ≡ true = λ e. rw e (ground (arith, same_bytes_refl g.buffer)) in
    ((same, back), (λ e. same (ground arith), λ e. ground (arith, back e)))
