-- ===== src/Monitor.antt =====
-- Threads on one `SharedFIFO`: lib/public/StormByte/buffer/shared_fifo.cxx under every schedule.
-- What a method does between taking the mutex and giving it back is one move. A thread that waits on
-- the condition variable is a waiter; `notify_all` wakes them all, and any waiter may also wake
-- without it.
pub mod Outcomes
pub mod Watchers
pub mod Wakeups
pub mod Stream
pub mod Order
pub mod Shutdown
pub mod Lasting
pub mod Eof
use storm_byte_buffer.Prelude.{
  ℕ, zero, suc, Bool, true, false, List, [], ◌∷◌, ◌++◌, map, Option, none, some, if◌then◌else◌, ℤ,
}
use storm_byte_buffer.Typedefs.{Data, Position, Operation, Helpers}
use storm_byte_buffer.Fifo.{Fifo}
use storm_byte_buffer.Shared
use storm_byte_buffer.Shared.{
  Shared, Finished, Pending, reading, dropping, Outcome, finished, blocked, ready, resume,
}

pub data Call : Type 0 where
  writes : ℕ → Data → Call
  reads : ℕ → Operation → Call
  drops : ℕ → Call
  seeks : ℤ → Position → Call
  assigns : Fifo → Call
  cleans clears closes set_errors : Call

pub record Waiter : Type 0 where
  pub thread : ℕ
  pub need : ℕ
  pub pending : Pending
  pub awake : Bool

pub record Monitor : Type 0 where
  pub shared : Shared
  pub waiters : List Waiter

-- A method that has returned.
pub record Event : Type 0 where
  pub thread : ℕ
  pub call : Call
  pub done : Bool
  pub out : Data

abbrev pub as_call : Pending → Call
as_call (reading count flag) = reads count flag
as_call (dropping count) = drops count

module _ ⦃h : Helpers⦄ where
  unfoldable pub start : Call → Shared → Outcome
  start (writes count bytes) s = finished (Shared.write_internal count bytes s)
  start (reads count flag) s = Shared.read_internal count flag s
  start (drops count) s = Shared.drop_bytes count s
  start (seeks offset mode) s = finished (Shared.seek offset mode s)
  start (assigns other) s = finished (Shared.assign other s)
  start cleans s = finished (Shared.clean s)
  start clears s = finished (Shared.clear s)
  start closes s = finished (Shared.close s)
  start set_errors s = finished (Shared.set_error s)

abbrev pub rouse : Waiter → Waiter
rouse w = record w { awake = true }

-- `notify_all`, if the method calls it.
abbrev pub notify : Bool → List Waiter → List Waiter
notify b ws = if b then map rouse ws else ws

abbrev pub settle : ℕ → Call → Finished → List Waiter → Option Event × Monitor
settle t c x ws = (
  some (record { thread = t; call = c; done = x.done; out = x.out }),
  record { shared = x.shared; waiters = notify x.notify ws },
)

unfoldable pub pick : ℕ → List Waiter → Option (Waiter × List Waiter)
pick i [] = none
pick zero (w ∷ ws) = some (w, ws)
pick (suc i) (w ∷ ws) = elim (pick i ws) [ none ↦ none | some (v, rest) ↦ some (v, w ∷ rest) ]

-- Back to sleep.
unfoldable pub lull : ℕ → List Waiter → List Waiter
lull i [] = []
lull zero (w ∷ ws) = record w { awake = false } ∷ ws
lull (suc i) (w ∷ ws) = w ∷ lull i ws

-- The loop of `m_cv.wait(lock, predicate)`, once round, for the waiter at place `i`.
unfoldable pub wake : ℕ → Monitor → Option Event × Monitor
wake i m = elim (pick i m.waiters) [
  | none ↦ (none, m)
  | some (w, rest) ↦
      if ready w.need m.shared
      then settle w.thread (as_call w.pending) (resume w.pending m.shared) rest
      else (none, record m { waiters = lull i m.waiters })
]

pub data Move : Type 0 where
  invokes : ℕ → Call → Move
  wakes : ℕ → Move

module _ ⦃h : Helpers⦄ where
  unfoldable pub invoke : ℕ → Call → Monitor → Option Event × Monitor
  invoke t c m = elim (start c m.shared) [
    | finished x ↦ settle t c x m.waiters
    | blocked n p ↦ (
      none,
      record m {
        waiters = m.waiters ++ record { thread = t; need = n; pending = p; awake = false } ∷ [];
      },
    )
  ]

  unfoldable pub step : Move → Monitor → Option Event × Monitor
  step (invokes t c) m = invoke t c m
  step (wakes i) m = wake i m

  unfoldable pub run : List Move → Monitor → List (Option Event) × Monitor
  run [] m = ([], m)
  run (v ∷ vs) m = let (e, m') = step v m in let (es, m'') = run vs m' in (e ∷ es, m'')
