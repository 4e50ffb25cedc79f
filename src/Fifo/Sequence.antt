-- ===== src/Fifo/Sequence.antt =====
-- Sequences of calls of a `FIFO` beside those of the tape of its bytes: fifo.cxx.
use storm_byte_buffer.Prelude.{
  ℕ, ◌+◌, ◌≤◌, ◌≡◌, refl, ap, ◌∙◌, List, [], ◌∷◌, length, max_size, pos, to_ptrdiff, length-append,
  length-take, take, drop, ◌&&◌, if◌then◌else◌, arith, ◌==◌,
}
use storm_byte_buffer.Typedefs.{Data, Position, Helpers}
use storm_byte_buffer.Tape
use storm_byte_buffer.Tape.{Tape}
use storm_byte_buffer.Fifo.{Fifo, available_bytes, clear, clean, seek, drop_bytes}
use storm_byte_buffer.Fifo.Writing.{write, write_internal}
use storm_byte_buffer.Fifo.Bounds.{IsValid, available_bytes_lem, seek-IsValid}
use storm_byte_buffer.Fifo.Growth.{step-IsValid, length-step-le}
use storm_byte_buffer.Fifo.Refine.{
  view, length-ahead, clean_refines, seek_refines, read_internal_refines, write_internal_refines,
}
use storm_byte_buffer.Fifo.Calls.{
  Call, writes, reads, drops, seeks, cleans, clears, step, run, step_tape, run_tape, total, IsCall,
  AreCalls,
}

-- Moving over `count` unread bytes and cleaning.
view-clean-seek :
    {f : Fifo} (count : ℕ)
    → IsValid f
    → count ≤ available_bytes f
    → view (clean (seek (to_ptrdiff count) Position.relative f)) ≡ record {
      passed = [];
      ahead =
          if (length (view f).passed == 0) && (count == 0) then [] else drop count (view f).ahead;
    }
unfolding Tape.clean Tape.seek
view-clean-seek {f} count v le =
    let small : count ≤ max_size = omega (arith, available_bytes_lem v, v.small) in
    let e : to_ptrdiff count ≡ pos count = ground arith in
    rw e (
      clean_refines (seek-IsValid (pos count) Position.relative v)
      ∙ ap Tape.clean (seek_refines (pos count) Position.relative small v)
      ∙ ground (
        arith,
        length-append (view f).passed (take count (view f).ahead),
        length-take count (view f).ahead,
        length-ahead v,
      ))

-- `Drop` removes the bytes from the tape, or refuses and keeps it.
pub drop_bytes_refines :
    {f : Fifo} (count : ℕ)
    → IsValid f
    → let (done, f') = drop_bytes count f in (done, view f') ≡ Tape.drop_bytes count (view f)
unfolding drop_bytes Tape.drop_bytes
drop_bytes_refines {f} count v = ground (arith, length-ahead v, view-clean-seek count v)

module _ ⦃h : Helpers⦄ where
  write_refines :
      {f : Fifo} (count : ℕ) (src : Data)
      → IsValid f
      → let (done, f') = write count src f in (done, view f') ≡ Tape.write count src (view f)
  unfolding write Tape.write write_internal
  write_refines {f} count src v = ground (arith, write_internal_refines count src v)

  pub step_refines :
      {f : Fifo} (c : Call)
      → IsCall c
      → IsValid f
      → let (r, f') = step c f in (r, view f') ≡ step_tape c (view f)
  unfolding step step_tape clear
  step_refines (writes count bytes) k v = ground (arith, write_refines count bytes v)
  step_refines (reads count flag) k v = ground (arith, read_internal_refines count [] flag v)
  step_refines (drops count) k v = ground (arith, drop_bytes_refines count v)
  step_refines (seeks offset mode) k v = ground (arith, seek_refines offset mode k v)
  step_refines cleans k v = ground (arith, clean_refines v)
  step_refines clears k v = ground arith

  -- Over any sequence of calls a valid `FIFO` returns what the tape of its bytes returns, and ends
  -- as the tape ends, if all the bytes that are written fit into a vector and all offsets into
  -- `std::ptrdiff_t`. (A seek to before the start goes to the start, as in fifo.cxx, though fifo.hxx
  -- says that it does nothing.)
  pub run_refines :
      {f : Fifo} (cs : List Call)
      → AreCalls cs
      → IsValid f
      → length f.buffer + total cs ≤ max_size
      → let (rs, f') = run cs f in (rs, view f') ≡ run_tape cs (view f)
  unfolding run run_tape
  run_refines [] k v room = refl
  run_refines {f} (c ∷ cs) k v room = ground (
    arith,
    step_refines c k.0 v,
    run_refines {f = (step c f).1} cs k.1 (step-IsValid c v (omega arith))
        (omega (arith, length-step-le c f)),
  )
