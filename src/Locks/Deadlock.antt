-- ===== src/Locks/Deadlock.antt =====
-- Threads that read two `SharedFIFO`s into each other, or one into itself: shared_fifo.cxx.
use storm_byte_buffer.Prelude.{ℕ, zero, suc, ◌≡◌, ◌≢◌, refl, ap, ◌∙◌, List, [], ◌∷◌, arith}
use storm_byte_buffer.Locks.{
  transfers, Place, inside, wants, holds, next, held, waits, Act, begins, goes, sleeps, returns,
  act, step_at, Move, run,
}
use storm_byte_buffer.Locks.Ordered.{all_idle}

-- Two threads read in opposite directions, each has taken its first mutex, and others are in no call.
abbrev pub crossed : ℕ → ℕ → List Move
crossed a b =
    record { thread = 0; does = begins (transfers a b) }
    ∷ record { thread = 1; does = begins (transfers b a) }
    ∷ record { thread = 0; does = goes }
    ∷ record { thread = 1; does = goes }
    ∷ []

abbrev pub looped : ℕ → List Move
looped a =
    record { thread = 0; does = begins (transfers a a) } ∷ record { thread = 0; does = goes } ∷ []

-- A thread that neither sleeps nor finds nothing to read.
abbrev pub Finds : Act → Type 0
Finds sleeps = ⊥
Finds returns = ⊥
Finds _ = Unit {0}

abbrev pub AllFind : List Move → Type 0
AllFind [] = Unit {0}
AllFind (v ∷ vs) = Finds v.does × AllFind vs

-- No such move changes these places.
abbrev IsStuck : List Place → Type 0
IsStuck ps = (i : ℕ) (a : Act) → Finds a → step_at ps i a ps ≡ ps

stuck-run : (vs : List Move) (ps : List Place) → AllFind vs → IsStuck ps → run vs ps ≡ ps
unfolding run
stuck-run [] ps f k = refl
stuck-run (v ∷ vs) ps f k = ap (run vs) (k v.thread v.does f.0) ∙ stuck-run vs ps f.1 k

opposed : ℕ → ℕ → List Place
opposed a b = inside (transfers a b) ∷ inside (transfers b a) ∷ []

opposed-IsStuck : (a b : ℕ) → IsStuck (opposed a b)
unfolding opposed step_at act waits wants held holds
opposed-IsStuck a b i sleeps f = absurd f
opposed-IsStuck a b i returns f = absurd f
opposed-IsStuck a b zero goes f = ground arith
opposed-IsStuck a b (suc zero) goes f = ground arith
opposed-IsStuck a b (suc (suc i)) goes f = refl
opposed-IsStuck a b zero (begins c) f = refl
opposed-IsStuck a b (suc zero) (begins c) f = refl
opposed-IsStuck a b (suc (suc i)) (begins c) f = refl

alone-IsStuck : (a : ℕ) → IsStuck (inside (transfers a a) ∷ [])
unfolding step_at act waits wants held holds
alone-IsStuck a i sleeps f = absurd f
alone-IsStuck a i returns f = absurd f
alone-IsStuck a zero goes f = ground arith
alone-IsStuck a (suc i) goes f = refl
alone-IsStuck a zero (begins c) f = refl
alone-IsStuck a (suc i) (begins c) f = refl

crossed-opposed : (a b : ℕ) → a ≢ b → run (crossed a b) (all_idle 2) ≡ opposed a b
unfolding run opposed step_at act waits wants held holds next
crossed-opposed a b ne = ground arith

looped-alone : (a : ℕ) → run (looped a) (all_idle 1) ≡ inside (transfers a a) ∷ []
unfolding run step_at act waits wants held holds next
looped-alone a = refl

-- Two threads that read two `SharedFIFO`s into each other, have each taken the mutex of the one that
-- they read, and find there what they ask for, never get any further, whatever turns they take; nor
-- does a thread that reads a `SharedFIFO` into itself and finds what it asks for. (A read that finds
-- nothing returns, or waits, before it takes the second mutex.)
pub transfers_block :
    (a b : ℕ) (vs : List Move)
    → a ≢ b
    → AllFind vs
    → (run vs (run (crossed a b) (all_idle 2))
        ≡ inside (transfers a b) ∷ inside (transfers b a) ∷ [])
      × (run vs (run (looped a) (all_idle 1)) ≡ inside (transfers a a) ∷ [])
unfolding opposed
transfers_block a b vs ne f = (
  ap (run vs) (crossed-opposed a b ne) ∙ stuck-run vs (opposed a b) f (opposed-IsStuck a b),
  ap (run vs) (looped-alone a) ∙ stuck-run vs _ f (alone-IsStuck a),
)
