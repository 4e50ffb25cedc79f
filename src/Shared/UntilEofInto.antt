-- ===== src/Shared/UntilEofInto.antt =====
-- `ReadUntilEoF` and `ExtractUntilEoF` of a `SharedFIFO` into another buffer: fifo.cxx and
-- shared_fifo.cxx.
use storm_byte_buffer.Prelude.{
  ℕ, suc, ◌≡◌, ◌≢◌, refl, ap, ◌∙◌, Bool, false, not, ◌||◌, [], some, length, take-all,
  nil_of_length, ◌==◌, if◌then◌else◌, arith,
}
use storm_byte_buffer.Typedefs.{Operation}
use storm_byte_buffer.Generic.{WriteOnly}
use storm_byte_buffer.Tape.{take_from}
use storm_byte_buffer.Fifo
use storm_byte_buffer.Fifo.{Fifo}
use storm_byte_buffer.Fifo.Reading
use storm_byte_buffer.Fifo.Bounds.{IsValid}
use storm_byte_buffer.Fifo.Refine.{view, length-ahead}
use storm_byte_buffer.Shared.{Shared, Finished, Outcome, finished, blocked}
use storm_byte_buffer.Shared.Into
use storm_byte_buffer.Shared.Into.{Passed, passed}
use storm_byte_buffer.Shared.Loops.{ended_into, waits_into, read_until_eof_internal_into}
use storm_byte_buffer.Shared.UntilEof.{first_call, second_call, rest, left, rest_lem}

-- What a read of everything gives.
all_out :
    (flag : Operation) (f : Fifo)
    → IsValid f
    → ((Reading.read_internal 0 [] flag f).out ≡ (view f).ahead)
      × ((Reading.read_internal 0 [] flag f).done ≡ not (length (view f).ahead == 0))
unfolding Reading.read_internal Reading.serve
all_out Operation.read f v = ground (
  arith,
  length-ahead v,
  take-all (Fifo.available_bytes f) (view f).ahead,
  nil_of_length (view f).ahead,
)
all_out Operation.peek f v = ground (
  arith,
  length-ahead v,
  take-all (Fifo.available_bytes f) (view f).ahead,
  nil_of_length (view f).ahead,
)
all_out Operation.extract f v = ground (
  arith,
  length-ahead v,
  take-all (Fifo.available_bytes f) (view f).ahead,
  nil_of_length (view f).ahead,
)

module _ {S : Type 0} (sink : WriteOnly S) where
  -- What the other buffer is given.
  abbrev filled : S → Shared → S
  filled t s =
      let bytes = (view s.fifo).ahead in
      if s.error || (length bytes == 0) then t else (sink.write (length bytes) bytes t).1

  first_call_into :
      (t : S) (flag : Operation) (s : Shared)
      → IsValid s.fifo
      → (ok : Bool) × (Into.read_internal_into sink 0 t flag s
          ≡ passed ok (filled t s) (left flag s))
  unfolding Reading.read_internal Reading.serve
  first_call_into t flag s v =
      let r = Reading.read_internal 0 [] flag s.fifo in
      let x : Finished = record {
        shared = left flag s;
        done = if s.error then false else r.done;
        out = if s.error then [] else r.out;
        notify = false;
      } in
      (
        if x.done then (sink.write (length x.out) x.out t).0 else false,
        Into.read_internal_into_shared sink 0 t flag s
            ∙ ap
                (λ (o : Outcome). elim o [
                  | finished y ↦ Into.hand_on sink t y
                  | blocked n p ↦ Into.waits n
                ])
                (first_call flag s)
            ∙ ground (arith, length-ahead v, all_out flag s.fifo v),
      )

  -- Reading or extracting until the end of a valid `SharedFIFO` into another buffer, with any fuel,
  -- makes one round: if there is no error and a byte is unread the other buffer is given all the
  -- unread bytes in one write, and whether it takes them or not they are passed, or gone. Then the
  -- loop ends if the buffer is closed or in error, and otherwise it waits until a byte is there.
  pub read_until_eof_shared_into :
      (fuel : ℕ) (t : S) (flag : Operation) (s : Shared)
      → flag ≢ Operation.peek
      → IsValid s.fifo
      → let bytes = (view s.fifo).ahead in
        let t' =
          if s.error || (length bytes == 0) then t else (sink.write (length bytes) bytes t).1 in
        (f : Fifo) × (read_until_eof_internal_into sink (suc fuel) t flag s
          ≡ some (
              if s.closed || s.error
              then ended_into t' (record s { fifo = f })
              else waits_into 1 t' (record s { fifo = f })))
        × (view f ≡ (
            if s.error
            then view s.fifo
            else take_from (length (view s.fifo).ahead) flag (view s.fifo)))
        × IsValid f
  unfolding read_until_eof_internal_into
  read_until_eof_shared_into fuel t Operation.peek s ne v = absurd (ne refl)
  read_until_eof_shared_into fuel t Operation.read s ne v =
      let (valid, end, seen, got) = rest_lem [] Operation.read s ne v in
      (
        rest Operation.read s,
        ground (
          arith,
          first_call_into t Operation.read s v,
          second_call (left Operation.read s) valid end,
        ),
        seen,
        valid,
      )
  read_until_eof_shared_into fuel t Operation.extract s ne v =
      let (valid, end, seen, got) = rest_lem [] Operation.extract s ne v in
      (
        rest Operation.extract s,
        ground (
          arith,
          first_call_into t Operation.extract s v,
          second_call (left Operation.extract s) valid end,
        ),
        seen,
        valid,
      )
