-- ===== src/Session.antt =====
-- A thread in `ReadUntilEoF` or `ExtractUntilEoF` of a `SharedFIFO` while other threads use the buffer:
-- `ReadUntilEoFInternal` of fifo.cxx, whose calls are those of shared_fifo.cxx. One move of the loop is
-- what it does between taking the mutex and giving it back.
pub mod Rounds
pub mod Moves
pub mod Feeds
pub mod All
pub mod Ends
use storm_byte_buffer.Prelude.{ℕ, Bool, true, false, ◌||◌, List, [], ◌∷◌, ◌++◌, if◌then◌else◌}
use storm_byte_buffer.Typedefs.{Data, Operation, Helpers}
use storm_byte_buffer.Shared
use storm_byte_buffer.Shared.{Shared, Finished, Pending, Outcome, finished, blocked, ready, resume}
use storm_byte_buffer.Monitor.{Call, start}
use storm_byte_buffer.Monitor.Stream.{given}

-- The two calls of a round: the read of everything, and the peek at one byte.
pub data Turn : Type 0 where
  takes looks : Turn

-- Where the loop is: before a call, in the wait of one, or behind its end.
pub data Phase : Type 0 where
  before : Turn → Phase
  asleep : Turn → ℕ → Pending → Phase
  over : Phase

-- Whether a notification has come since the loop has gone to sleep.
pub record Session : Type 0 where
  pub shared : Shared
  pub out : Data
  pub phase : Phase
  pub roused : Bool

unfoldable pub begin : Operation → Data → Shared → Session
begin Operation.peek out s = record { shared = s; out = out; phase = over; roused = false }
begin _ out s = record { shared = s; out = out; phase = before takes; roused = false }

unfoldable pub ask : Operation → Turn → Shared → Outcome
ask flag takes s = Shared.read_internal 0 flag s
ask flag looks s = Shared.read_internal 1 Operation.peek s

-- What the loop does with a call that has returned.
unfoldable pub pass : Turn → Finished → Session → Session
pass takes x m = record m { shared = x.shared; out = m.out ++ x.out; phase = before looks }
pass looks x m = record m { shared = x.shared; phase = if x.done then before takes else over }

unfoldable pub advance : Operation → Session → Session
advance flag m = elim m.phase [
  | before turn ↦ elim (ask flag turn m.shared) [
    | finished x ↦ pass turn x m
    | blocked n p ↦ record m { phase = asleep turn n p; roused = false }
  ]
  | asleep turn n p ↦
      if ready n m.shared then pass turn (resume p m.shared) m else record m { roused = false }
  | over ↦ m
]

-- A move without a spurious wakeup: a thread that sleeps goes on only after a notification.
unfoldable pub proceed : Operation → Session → Session
proceed flag m = elim m.phase [
  | before turn ↦ advance flag m
  | asleep turn n p ↦ if m.roused then advance flag m else m
  | over ↦ advance flag m
]

pub data Move : Type 0 where
  own : Move
  other : Call → Move

module _ ⦃h : Helpers⦄ where
  -- A call of another thread, with the bytes that it has put in.
  unfoldable pub intervene : Call → Session → Data × Session
  intervene c m = elim (start c m.shared) [
    | finished x ↦
        (given c x.done x.out, record m { shared = x.shared; roused = x.notify || m.roused })
    | blocked n p ↦ ([], m)
  ]

  unfoldable pub step : Operation → Move → Session → Data × Session
  step flag own m = ([], advance flag m)
  step flag (other c) m = intervene c m

  -- The bytes that the other threads have put in, and where the loop is then.
  unfoldable pub run : Operation → List Move → Session → Data × Session
  run flag [] m = ([], m)
  run flag (v ∷ vs) m =
      let (xs, m') = step flag v m in let (ys, m'') = run flag vs m' in (xs ++ ys, m'')
