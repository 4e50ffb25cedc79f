-- ===== src/Shared/UntilEof.antt =====
-- `ReadUntilEoF` and `ExtractUntilEoF` of a `SharedFIFO`: fifo.cxx and shared_fifo.cxx.
use storm_byte_buffer.Prelude.{
  ℕ, suc, ◌≡◌, ◌≢◌, refl, sym, ap, ◌∙◌, false, ◌||◌, [], ◌++◌, append-nil, some, length, drop-all,
  if◌then◌else◌, Bool-cases, inl, inr, arith,
}
use storm_byte_buffer.Typedefs.{Data, Operation}
use storm_byte_buffer.Tape.{Tape, take_from}
use storm_byte_buffer.Fifo
use storm_byte_buffer.Fifo.{Fifo}
use storm_byte_buffer.Fifo.Reading
use storm_byte_buffer.Fifo.Bounds.{IsValid}
use storm_byte_buffer.Fifo.Refine.{view, length-ahead}
use storm_byte_buffer.Fifo.UntilEof
use storm_byte_buffer.Shared
use storm_byte_buffer.Shared.{Shared, Finished, reading, Outcome, finished, blocked, ready}
use storm_byte_buffer.Shared.Refine.{ready_lem}
use storm_byte_buffer.Shared.Loops.{ended, waits, read_until_eof_internal}

pub ahead-take_from :
    (flag : Operation) (t : Tape)
    → flag ≢ Operation.peek
    → (take_from (length t.ahead) flag t).ahead ≡ []
unfolding take_from
ahead-take_from Operation.read t ne = drop-all (length t.ahead) t.ahead (omega arith)
ahead-take_from Operation.extract t ne = drop-all (length t.ahead) t.ahead (omega arith)
ahead-take_from Operation.peek t ne = absurd (ne refl)

-- What a read of everything leaves.
abbrev pub rest : Operation → Shared → Fifo
rest flag s = if s.error then s.fifo else (Reading.read_internal 0 [] flag s.fifo).source

abbrev pub left : Operation → Shared → Shared
left flag s = record s { fifo = rest flag s }

pub first_call :
    (flag : Operation) (s : Shared)
    → Shared.read_internal 0 flag s
      ≡ finished (record {
        shared = left flag s;
        done = if s.error then false else (Reading.read_internal 0 [] flag s.fifo).done;
        out = if s.error then [] else (Reading.read_internal 0 [] flag s.fifo).out;
        notify = false;
      })
unfolding Shared.read_internal Shared.resume Reading.read_internal
first_call flag s = ground arith

-- A peek at a buffer with nothing unread, or in error.
pub second_call :
    (s : Shared)
    → IsValid s.fifo
    → (if s.error then 0 else Fifo.available_bytes s.fifo) ≡ 0
    → Shared.read_internal 1 Operation.peek s ≡ (
        if s.closed || s.error
        then finished (record { shared = s; done = false; out = []; notify = false })
        else blocked 1 (reading 1 Operation.peek))
unfolding Shared.read_internal Shared.wait
second_call s v e =
    ground (arith, ready_lem s 1 v (omega arith), Bool-cases s.error, Bool-cases s.closed)

pub rest_lem :
    (out : Data) (flag : Operation) (s : Shared)
    → flag ≢ Operation.peek
    → IsValid s.fifo
    → IsValid (rest flag s)
      × ((if s.error then 0 else Fifo.available_bytes (rest flag s)) ≡ 0)
      × (view (rest flag s) ≡ (
          if s.error
          then view s.fifo
          else take_from (length (view s.fifo).ahead) flag (view s.fifo)))
      × (out ++ (if s.error then [] else (Reading.read_internal 0 [] flag s.fifo).out)
          ≡ (if s.error then out else out ++ (view s.fifo).ahead))
rest_lem out flag s ne v =
    let (got, seen, _, valid) = UntilEof.round_lem [] flag ne v in
    elim (Bool-cases s.error) [
      | inl e ↦ rw e (v, refl, refl, append-nil out)
      | inr e ↦ rw e (
        valid,
        sym (length-ahead valid)
            ∙ ap (λ (t : Tape). length t.ahead) seen
            ∙ ap (λ (xs : Data). length xs) (ahead-take_from flag (view s.fifo) ne),
        seen,
        ap (λ xs. out ++ xs) got,
      )
    ]

-- Reading or extracting until the end of a valid `SharedFIFO`, with any fuel, makes one round. In the
-- error state it ends and has read nothing. Else it has got all the unread bytes, in order, and they
-- are passed, or gone; then it ends if the buffer is closed, and otherwise it waits until a byte is
-- there, so that it never ends on a buffer that stays open.
pub read_until_eof_shared :
    (fuel : ℕ) (out : Data) (flag : Operation) (s : Shared)
    → flag ≢ Operation.peek
    → IsValid s.fifo
    → let got = if s.error then out else out ++ (view s.fifo).ahead in
      (f : Fifo) × (read_until_eof_internal (suc fuel) out flag s
        ≡ some (
            if s.closed || s.error
            then ended got (record s { fifo = f })
            else waits 1 (reading 1 Operation.peek) got (record s { fifo = f })))
      × (view f ≡ (
          if s.error
          then view s.fifo
          else take_from (length (view s.fifo).ahead) flag (view s.fifo)))
      × IsValid f
unfolding read_until_eof_internal
read_until_eof_shared fuel out Operation.peek s ne v = absurd (ne refl)
read_until_eof_shared fuel out Operation.read s ne v =
    let (valid, end, seen, got) = rest_lem out Operation.read s ne v in
    (
      rest Operation.read s,
      ground
          (arith, first_call Operation.read s, second_call (left Operation.read s) valid end, got),
      seen,
      valid,
    )
read_until_eof_shared fuel out Operation.extract s ne v =
    let (valid, end, seen, got) = rest_lem out Operation.extract s ne v in
    (
      rest Operation.extract s,
      ground (
        arith,
        first_call Operation.extract s,
        second_call (left Operation.extract s) valid end,
        got,
      ),
      seen,
      valid,
    )
