-- ===== src/Fifo/Calls.antt =====
-- A client's calls on a `FIFO`, in order, and what each returns: its result and the bytes read.
use storm_byte_buffer.Prelude.{ℕ, ◌+◌, Bool, true, List, [], ◌∷◌, length, ℤ, IsPtrdiff}
use storm_byte_buffer.Typedefs.{Data, Position, Operation, Helpers, Transfer}
use storm_byte_buffer.Tape
use storm_byte_buffer.Tape.{Tape}
use storm_byte_buffer.Fifo.{Fifo, clear, clean, seek, drop_bytes}
use storm_byte_buffer.Fifo.Reading.{read_internal}
use storm_byte_buffer.Fifo.Writing.{write}

pub data Call : Type 0 where
  writes : ℕ → Data → Call
  reads : ℕ → Operation → Call
  drops : ℕ → Call
  seeks : ℤ → Position → Call
  cleans clears : Call

abbrev pub Reply : Type 0
Reply = Bool × Data

abbrev pub reply : {S : Type 0} → Transfer S → Reply × S
reply r = ((r.done, r.out), r.source)

module _ ⦃h : Helpers⦄ where
  unfoldable pub step : Call → Fifo → Reply × Fifo
  step (writes count bytes) f = let (done, f') = write count bytes f in ((done, []), f')
  step (reads count flag) f = reply (read_internal count [] flag f)
  step (drops count) f = let (done, f') = drop_bytes count f in ((done, []), f')
  step (seeks offset mode) f = ((true, []), seek offset mode f)
  step cleans f = ((true, []), clean f)
  step clears f = ((true, []), clear f)

  unfoldable pub run : List Call → Fifo → List Reply × Fifo
  run [] f = ([], f)
  run (c ∷ cs) f = let (r, f') = step c f in let (rs, f'') = run cs f' in (r ∷ rs, f'')

-- The same calls on the tape.
unfoldable pub step_tape : Call → Tape → Reply × Tape
step_tape (writes count bytes) t = let (done, t') = Tape.write count bytes t in ((done, []), t')
step_tape (reads count flag) t = reply (Tape.transfer count [] flag t)
step_tape (drops count) t = let (done, t') = Tape.drop_bytes count t in ((done, []), t')
step_tape (seeks offset mode) t = ((true, []), Tape.seek offset mode t)
step_tape cleans t = ((true, []), Tape.clean t)
step_tape clears t = ((true, []), record { passed = []; ahead = [] })

unfoldable pub run_tape : List Call → Tape → List Reply × Tape
run_tape [] t = ([], t)
run_tape (c ∷ cs) t = let (r, t') = step_tape c t in let (rs, t'') = run_tape cs t' in (r ∷ rs, t'')

-- The bytes that a call may add.
abbrev pub added : Call → ℕ
added (writes count bytes) = length bytes
added (reads count flag) = 0
added (drops count) = 0
added (seeks offset mode) = 0
added cleans = 0
added clears = 0

abbrev pub total : List Call → ℕ
total [] = 0
total (c ∷ cs) = added c + total cs

abbrev pub IsCall : Call → Type 0
IsCall (seeks offset mode) = IsPtrdiff offset
IsCall _ = Unit {0}

abbrev pub AreCalls : List Call → Type 0
AreCalls [] = Unit {0}
AreCalls (c ∷ cs) = IsCall c × AreCalls cs
