-- ===== src/Locks/Ordered.antt =====
-- Threads that read from buffer to buffer in one order only: shared_fifo.cxx.
use mathlib.Core.Path.{subst}
use storm_byte_buffer.Prelude.{
  ℕ, zero, suc, ◌<◌, ◌≡◌, refl, ◌∙◌, inl, inr, Bool-cases, List, [], ◌∷◌, some, length, get_elem?,
  arith,
}
use storm_byte_buffer.Locks.{
  Call, uses, transfers, Place, idle, enters, inside, nested, leaves, next, waits, Act, begins,
  goes, sleeps, returns, act, step_at, Move, run,
}

-- A read goes to a buffer with a greater number.
abbrev pub IsOrderedCall : Call → Type 0
IsOrderedCall (uses a) = Unit {0}
IsOrderedCall (transfers a b) = a < b

abbrev pub IsOrdered : Place → Type 0
IsOrdered (enters c) = IsOrderedCall c
IsOrdered (inside c) = IsOrderedCall c
IsOrdered (nested a b) = a < b
IsOrdered _ = Unit {0}

abbrev pub AreOrdered : List Place → Type 0
AreOrdered [] = Unit {0}
AreOrdered (p ∷ ps) = IsOrdered p × AreOrdered ps

pub IsOrdered-get_elem? :
    (ps : List Place) (i : ℕ) (p : Place) → AreOrdered ps → get_elem? ps i ≡ some p → IsOrdered p
IsOrdered-get_elem? [] i p k e = absurd (cc e)
IsOrdered-get_elem? (q ∷ ps) zero p k e =
    let same : q ≡ p = ground arith in subst IsOrdered same k.0
IsOrdered-get_elem? (q ∷ ps) (suc i) p k e = IsOrdered-get_elem? ps i p k.1 e

pub IsOrdered-next : (p : Place) → IsOrdered p → IsOrdered (next p)
unfolding next
IsOrdered-next idle k = tt
IsOrdered-next (enters c) k = k
IsOrdered-next (inside (uses a)) k = tt
IsOrdered-next (inside (transfers a b)) k = k
IsOrdered-next (nested a b) k = tt
IsOrdered-next (leaves a) k = tt

abbrev pub IsOrderedAct : Act → Type 0
IsOrderedAct (begins c) = IsOrderedCall c
IsOrderedAct _ = Unit {0}

pub act-IsOrdered :
    (all : List Place) (a : Act) (p : Place)
    → IsOrderedAct a
    → IsOrdered p
    → IsOrdered (act all a p)
unfolding act
act-IsOrdered all (begins c) idle i k = i
act-IsOrdered all (begins c) (enters d) i k = k
act-IsOrdered all (begins c) (inside (uses x)) i k = k
act-IsOrdered all (begins c) (inside (transfers x y)) i k = k
act-IsOrdered all (begins c) (nested x y) i k = k
act-IsOrdered all (begins c) (leaves x) i k = k
act-IsOrdered all goes p i k = elim (Bool-cases (waits all p)) [
  | inl stopped ↦ rw stopped k
  | inr free ↦ rw free (IsOrdered-next p k)
]
act-IsOrdered all sleeps idle i k = k
act-IsOrdered all sleeps (enters d) i k = k
act-IsOrdered all sleeps (inside (uses x)) i k = k
act-IsOrdered all sleeps (inside (transfers x y)) i k = k
act-IsOrdered all sleeps (nested x y) i k = k
act-IsOrdered all sleeps (leaves x) i k = k
act-IsOrdered all returns idle i k = k
act-IsOrdered all returns (enters d) i k = k
act-IsOrdered all returns (inside (uses x)) i k = k
act-IsOrdered all returns (inside (transfers x y)) i k = tt
act-IsOrdered all returns (nested x y) i k = k
act-IsOrdered all returns (leaves x) i k = k

pub step_at-AreOrdered :
    (all : List Place) (i : ℕ) (a : Act) (ps : List Place)
    → IsOrderedAct a
    → AreOrdered ps
    → AreOrdered (step_at all i a ps)
unfolding step_at
step_at-AreOrdered all i a [] o k = k
step_at-AreOrdered all zero a (p ∷ ps) o k = (act-IsOrdered all a p o k.0, k.1)
step_at-AreOrdered all (suc i) a (p ∷ ps) o k = (k.0, step_at-AreOrdered all i a ps o k.1)

abbrev pub AreOrderedMoves : List Move → Type 0
AreOrderedMoves [] = Unit {0}
AreOrderedMoves (v ∷ vs) = IsOrderedAct v.does × AreOrderedMoves vs

pub run-AreOrdered :
    (vs : List Move) (ps : List Place) → AreOrderedMoves vs → AreOrdered ps → AreOrdered (run vs ps)
unfolding run
run-AreOrdered [] ps o k = k
run-AreOrdered (v ∷ vs) ps o k =
    run-AreOrdered vs (step_at ps v.thread v.does ps) o.1
      (step_at-AreOrdered ps v.thread v.does ps o.0 k)

-- So many threads, none of them in a call.
abbrev pub all_idle : ℕ → List Place
all_idle zero = []
all_idle (suc n) = idle ∷ all_idle n

pub all_idle-AreOrdered : (n : ℕ) → AreOrdered (all_idle n)
all_idle-AreOrdered zero = tt
all_idle-AreOrdered (suc n) = (tt, all_idle-AreOrdered n)

-- One thread after another goes on.
abbrev pub turns : List ℕ → List Move
turns [] = []
turns (i ∷ is) = record { thread = i; does = goes } ∷ turns is

pub length-step_at :
    (all : List Place) (i : ℕ) (a : Act) (ps : List Place) → length (step_at all i a ps) ≡ length ps
unfolding step_at
length-step_at all i a [] = refl
length-step_at all zero a (p ∷ ps) = refl
length-step_at all (suc i) a (p ∷ ps) = omega (arith, length-step_at all i a ps)

pub length-run : (vs : List Move) (ps : List Place) → length (run vs ps) ≡ length ps
unfolding run
length-run [] ps = refl
length-run (v ∷ vs) ps =
    length-run vs (step_at ps v.thread v.does ps) ∙ length-step_at ps v.thread v.does ps

pub length-all_idle : (n : ℕ) → length (all_idle n) ≡ n
length-all_idle zero = refl
length-all_idle (suc n) = omega (arith, length-all_idle n)
