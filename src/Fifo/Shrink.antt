-- ===== src/Fifo/Shrink.antt =====
-- How many bytes of a `FIFO` are available after a read or a clean: fifo.cxx.
use storm_byte_buffer.Prelude.{ℕ, ◌≤◌, ap, Option-cases, inl, inr, length, length-drop, arith}
use storm_byte_buffer.Typedefs.{Data, Operation, Transfer}
use storm_byte_buffer.Tape
use storm_byte_buffer.Tape.{Tape, amount, take_from}
use storm_byte_buffer.Fifo.{Fifo, available_bytes, clean}
use storm_byte_buffer.Fifo.Reading.{read_internal}
use storm_byte_buffer.Fifo.Bounds.{IsValid, read_internal-IsValid, clean-IsValid}
use storm_byte_buffer.Fifo.Refine.{view, length-ahead, read_internal_refines, clean_refines}

length-take_from-le :
    (n : ℕ) (flag : Operation) (t : Tape) → length (take_from n flag t).ahead ≤ length t.ahead
unfolding take_from
length-take_from-le n Operation.read t = omega (arith, length-drop n t.ahead)
length-take_from-le n Operation.extract t = omega (arith, length-drop n t.ahead)
length-take_from-le n Operation.peek t = omega arith

length-transfer-le :
    (count : ℕ) (out : Data) (flag : Operation) (t : Tape)
    → length (Tape.transfer count out flag t).source.ahead ≤ length t.ahead
unfolding Tape.transfer
length-transfer-le count out flag t = elim (Option-cases (amount count t.ahead)) [
  | inl e ↦ ground arith
  | inr (n, e) ↦ ground (arith, length-take_from-le n flag t)
]

pub available-read_internal-le :
    {f : Fifo} (count : ℕ) (out : Data) (flag : Operation)
    → IsValid f
    → available_bytes (read_internal count out flag f).source ≤ available_bytes f
available-read_internal-le {f} count out flag v =
    let seen = read_internal_refines count out flag v in
    ground (
      arith,
      length-ahead v,
      length-ahead (read_internal-IsValid count out flag v),
      ap (λ (x : Transfer Tape). length x.source.ahead) seen,
      length-transfer-le count out flag (view f),
    )

pub available-clean-le : {f : Fifo} → IsValid f → available_bytes (clean f) ≤ available_bytes f
unfolding Tape.clean
available-clean-le {f} v = ground (
  arith,
  length-ahead v,
  length-ahead (clean-IsValid v),
  ap (λ (t : Tape). length t.ahead) (clean_refines v),
)
