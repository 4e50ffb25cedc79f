-- ===== src/Monitor/Stream.antt =====
-- The bytes that one call of a thread puts into a `SharedFIFO` or takes off it: shared_fifo.cxx.
use mathlib.Core.Path.{subst}
use storm_byte_buffer.Prelude.{
  ℕ, ◌≡◌, refl, sym, inl, inr, Bool, ◌||◌, [], ◌++◌, append-nil, Bool-cases,
}
use storm_byte_buffer.Typedefs.{Data, Operation, Helpers}
use storm_byte_buffer.Fifo.Bounds.{IsValid}
use storm_byte_buffer.Fifo.Refine.{view}
use storm_byte_buffer.Fifo.Calls
use storm_byte_buffer.Fifo.Writing
use storm_byte_buffer.Fifo.Stream
use storm_byte_buffer.Shared
use storm_byte_buffer.Shared.{
  Shared, Finished, Pending, reading, dropping, Outcome, finished, blocked, ready, resume,
}
use storm_byte_buffer.Monitor.{Call, writes, reads, closes, set_errors, start}
use storm_byte_buffer.Monitor.Outcomes.{refused, read_internal_cases}

abbrev pub IsStream : Call → Type 0
IsStream (writes count bytes) = Unit {0}
IsStream (reads count flag) = Unit {0}
IsStream closes = Unit {0}
IsStream set_errors = Unit {0}
IsStream _ = ⊥

-- The bytes that a returned call has put in, and those that it has moved past.
abbrev pub given : Call → Bool → Data → Data
given (writes count bytes) done out = Stream.given (Calls.writes count bytes) (done, out)
given _ done out = []

abbrev pub taken : Call → Bool → Data → Data
taken (reads count flag) done out = Stream.taken (Calls.reads count flag) (done, out)
taken _ done out = []

-- A method that has come through.
abbrev pub Flows : Shared → Call → Finished → Type 0
Flows s c x =
    (view s.fifo).ahead ++ given c x.done x.out ≡ taken c x.done x.out ++ (view x.shared.fifo).ahead

refused-Flows : (s : Shared) (count : ℕ) (flag : Operation) → Flows s (reads count flag) (refused s)
refused-Flows s count Operation.read = append-nil _
refused-Flows s count Operation.peek = append-nil _
refused-Flows s count Operation.extract = append-nil _

module _ ⦃h : Helpers⦄ where
  pub resume-Flows :
      (s : Shared) (count : ℕ) (flag : Operation)
      → IsValid s.fifo
      → Flows s (reads count flag) (resume (reading count flag) s)
  unfolding resume Calls.step
  resume-Flows s count flag v = Stream.step-stream (Calls.reads count flag) tt v

  write_Flows :
      (s : Shared) (count : ℕ) (bytes : Data)
      → IsValid s.fifo
      → Flows s (writes count bytes) (Shared.write_internal count bytes s)
  unfolding Shared.write_internal Calls.step Writing.write
  write_Flows s count bytes v = elim (Bool-cases (s.closed || s.error)) [
    | inl e ↦ rw e (append-nil _)
    | inr e ↦ rw e (Stream.step-stream (Calls.writes count bytes) tt v)
  ]

  abbrev pub AllFlow : Shared → Call → Outcome → Type 0
  AllFlow s c (finished x) = Flows s c x
  AllFlow s c (blocked n p) = (count : ℕ) × (flag : Operation) × (p ≡ reading count flag)

  pub start-AllFlow :
      (s : Shared) (c : Call) → IsStream c → IsValid s.fifo → AllFlow s c (start c s)
  unfolding start Shared.close Shared.set_error
  start-AllFlow s (writes count bytes) k v = write_Flows s count bytes v
  start-AllFlow s (reads count flag) k v = elim (read_internal_cases count flag s) [
    | inl e ↦ subst (AllFlow s (reads count flag)) (sym e) (refused-Flows s count flag)
    | inr (inl e) ↦ subst (AllFlow s (reads count flag)) (sym e) (resume-Flows s count flag v)
    | inr (inr (e, r)) ↦ subst (AllFlow s (reads count flag)) (sym e) (count, flag, refl)
  ]
  start-AllFlow s closes k v = append-nil _
  start-AllFlow s set_errors k v = append-nil _
  start-AllFlow s (Call.drops count) k v = absurd k
  start-AllFlow s (Call.seeks offset mode) k v = absurd k
  start-AllFlow s (Call.assigns other) k v = absurd k
  start-AllFlow s Call.cleans k v = absurd k
  start-AllFlow s Call.clears k v = absurd k
