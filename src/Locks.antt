-- ===== src/Locks.antt =====
-- The mutexes of several `SharedFIFO`s while threads call them: shared_fifo.cxx. A method takes the
-- mutex of its buffer; the read into another buffer keeps it while the write to that one takes the
-- other mutex. Mutexes are numbered.
pub mod Ordered
pub mod Progress
pub mod Release
pub mod Deadlock
use storm_byte_buffer.Prelude.{
  ℕ, zero, suc, Bool, true, false, ◌||◌, List, [], ◌∷◌, Option, none, some, ◌==◌, if◌then◌else◌,
}

-- A call of a method on one buffer, or of a read, peek or extract of one into another.
pub data Call : Type 0 where
  uses : ℕ → Call
  transfers : ℕ → ℕ → Call

-- Where a thread is: in no call, before it takes the mutex of the call, with it, with that of the
-- target too, and with the first one again.
pub data Place : Type 0 where
  idle : Place
  enters inside : Call → Place
  nested : ℕ → ℕ → Place
  leaves : ℕ → Place

-- The mutex that the thread takes next.
unfoldable pub wants : Place → Option ℕ
wants (enters (uses a)) = some a
wants (enters (transfers a b)) = some a
wants (inside (transfers a b)) = some b
wants _ = none

unfoldable pub holds : ℕ → Place → Bool
holds m (inside (uses a)) = a == m
holds m (inside (transfers a b)) = a == m
holds m (nested a b) = (a == m) || (b == m)
holds m (leaves a) = a == m
holds m _ = false

-- Where it is after the mutex has been taken, or the last one given back.
unfoldable pub next : Place → Place
next idle = idle
next (enters c) = inside c
next (inside (uses a)) = idle
next (inside (transfers a b)) = nested a b
next (nested a b) = leaves a
next (leaves a) = idle

unfoldable pub held : ℕ → List Place → Bool
held m [] = false
held m (p ∷ ps) = holds m p || held m ps

-- A thread waits for a mutex that is held, also if it holds it itself.
unfoldable pub waits : List Place → Place → Bool
waits all p = elim (wants p) [ none ↦ false | some m ↦ held m all ]

-- What one thread does: it calls a method; it goes on, unless it has to wait for a mutex; it sleeps in
-- `m_cv.wait`, which gives the mutex back and takes it again; its read finds nothing and returns before
-- the write. The bytes are not in this model: a schedule says `sleeps` where the predicate of `Wait` is
-- false, `returns` where a read fails, and `goes` where it has what it asks for.
pub data Act : Type 0 where
  begins : Call → Act
  goes sleeps returns : Act

unfoldable pub act : List Place → Act → Place → Place
act all (begins c) idle = enters c
act all (begins c) p = p
act all goes p = if waits all p then p else next p
act all sleeps (inside c) = enters c
act all sleeps p = p
act all returns (inside (transfers a b)) = leaves a
act all returns p = p

unfoldable pub step_at : List Place → ℕ → Act → List Place → List Place
step_at all i a [] = []
step_at all zero a (p ∷ ps) = act all a p ∷ ps
step_at all (suc i) a (p ∷ ps) = p ∷ step_at all i a ps

pub record Move : Type 0 where
  pub thread : ℕ
  pub does : Act

unfoldable pub run : List Move → List Place → List Place
run [] ps = ps
run (v ∷ vs) ps = run vs (step_at ps v.thread v.does ps)
