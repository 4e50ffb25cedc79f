-- ===== src/Generic/Moved.antt =====
-- A vector that is written to a `FIFO` by a forwarding reference: generic.hxx and fifo.cxx.
use storm_byte_buffer.Prelude.{
  ℕ, ◌<◌, ◌≡◌, true, false, [], ◌++◌, ltb, if◌then◌else◌, length, take, take-all, arith,
  length-take,
}
use storm_byte_buffer.Typedefs.{Byte, Data, Helpers}
use storm_byte_buffer.Generic.Forward.{vector, write_count_forward}
use storm_byte_buffer.Fifo.{Fifo}
use storm_byte_buffer.Fifo.Writing

module _ ⦃h : Helpers⦄ {E : Type 0} (to_byte : E → Byte) where
  -- A counted write of an lvalue vector that is not `const`, for a count other than 0: it always
  -- succeeds, it writes the first bytes, as many as the count says or as there are if these are fewer, and
  -- whatever it has written, the caller's vector is empty afterwards. The write of the same vector
  -- by `const` reference writes the same bytes or, if the count is greater than their number, fails.
  pub write_count_forward_lem :
      (count : ℕ) (r : Data) (f : Fifo)
      → 0 < count
      → let written = record f { buffer = f.buffer ++ take count r } in
        (write_count_forward to_byte Writing.write_move count (vector r) f
          ≡ (true, vector [], written))
        × (Writing.write count r f ≡ (if ltb (length r) count then (false, f) else (true, written)))
  unfolding write_count_forward Writing.write Writing.write_move Writing.write_internal
      Writing.write_internal_move
  write_count_forward_lem count r f p = (
    ground (
      arith,
      h.append_vector_move_lem f.buffer (if ltb count (length r) then take count r else r),
      length-take count r,
      take-all count r,
    ),
    ground (arith, h.append_vector_lem f.buffer r, take-all count r),
  )
