-- ===== src/Fifo/Moves.antt =====
-- Writes from a vector that is moved, and a `FIFO` that has been copied or moved from.
use storm_byte_buffer.Prelude.{
  ℕ, not, ◌||◌, ◌<◌, ◌≡◌, ◌↔◌, ap, ◌⊎◌, [], length, drop, drop-all, arith, if◌then◌else◌, ◌==◌,
}
use storm_byte_buffer.Typedefs.{Data, Helpers}
use storm_byte_buffer.Tape
use storm_byte_buffer.Tape.{Tape}
use storm_byte_buffer.Fifo.{Fifo, clean}
use storm_byte_buffer.Fifo.Writing.{write, write_internal, write_internal_move, move_fifo}
use storm_byte_buffer.Fifo.Bounds.{IsValid}
use storm_byte_buffer.Fifo.Refine.{view, clean_refines, length-passed}

module _ ⦃h : Helpers⦄ where
  -- A write from a moved vector has the result and the effect of one from a copied vector. If it
  -- fails it leaves the vector as it was. If it writes all the bytes the vector is what
  -- `append_vector` leaves of it, otherwise it keeps the bytes behind those that were written.
  pub write_internal_move_lem :
      (count : ℕ) (src : Data) (f : Fifo)
      → let (done, left, f') = write_internal_move count src f in
        ((done, f') ≡ write_internal count src f)
        × (left ≡ (
            if not done
            then src
            else if (count == 0) || (count == length src)
            then (h.append_vector_move f.buffer src).1
            else drop count src))
  unfolding write_internal_move write_internal
  write_internal_move_lem count src f = (
    ground (arith, h.append_vector_lem f.buffer src, h.append_vector_move_lem f.buffer src),
    ground arith,
  )

  -- What is written to a `FIFO` that has been moved from can be read only behind the position that
  -- the old bytes were read up to, though no old byte is left.
  pub write-move_fifo :
      (f : Fifo) (src : Data)
      → let (g, old) = move_fifo f in
        (g ≡ f)
        × (old.buffer ≡ [])
        × ((view (write 0 src old).1).ahead ≡ drop f.position_offset src)
  unfolding move_fifo write write_internal
  write-move_fifo f src = ground (arith, h.append_vector_lem [] src)

drop_at_start : (f : Fifo) → f.position_offset ≡ 0 → (view f).ahead ≡ f.buffer
drop_at_start f e = ap (λ k. drop k f.buffer) e

-- `Clean` keeps the unread bytes of a valid `FIFO` exactly when the position is not at the start, or
-- there are none.
pub ahead-clean_iff :
    {f : Fifo}
    → IsValid f
    → ((view (clean f)).ahead ≡ (view f).ahead) ↔ ((0 < f.position_offset) ⊎ (f.buffer ≡ []))
unfolding Tape.clean
ahead-clean_iff {f} v =
    let e : (view (clean f)).ahead ≡ (if f.position_offset == 0 then [] else (view f).ahead) =
      ground (arith, clean_refines v, length-passed v) in
    (
      λ same. ground (arith, drop_at_start f),
      λ kept. ground (arith, drop-all f.position_offset f.buffer),
    )
