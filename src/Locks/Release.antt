-- ===== src/Locks/Release.antt =====
-- Mutexes that are taken in one order only are given back, whatever the calls find: shared_fifo.cxx.
use storm_byte_buffer.Prelude.{
  ℕ, zero, suc, ◌+◌, ◌*◌, ◌≤◌, ◌<◌, ◌≡◌, ◌⊎◌, refl, ap, ◌∙◌, inl, inr, Bool, true, false,
  Bool-cases, if◌then◌else◌, List, [], ◌∷◌, some, length, get_elem?, arith,
}
use storm_byte_buffer.Locks.{
  Call, uses, transfers, Place, idle, enters, inside, nested, leaves, holds, next, held, waits, Act,
  goes, sleeps, act, run, Move,
}
use storm_byte_buffer.Locks.Ordered.{
  AreOrdered, IsOrderedAct, act-IsOrdered, AreOrderedMoves, run-AreOrdered, all_idle,
  all_idle-AreOrdered, length-run, length-all_idle,
}
use storm_byte_buffer.Locks.Progress.{grip, goals, search}

-- What a thread does that has its mutex: it waits in `m_cv.wait`, unless its call finds what it asks for.
unfoldable pub fate : (Call → Bool) → Place → Act
fate finds (inside c) = if finds c then goes else sleeps
fate finds _ = goes

unfoldable pub turn_at : (Call → Bool) → List Place → ℕ → List Place → List Place
turn_at finds all i [] = []
turn_at finds all zero (p ∷ ps) = act all (fate finds p) p ∷ ps
turn_at finds all (suc i) (p ∷ ps) = p ∷ turn_at finds all i ps

-- Threads take turns.
unfoldable pub take_turns : (Call → Bool) → List ℕ → List Place → List Place
take_turns finds [] ps = ps
take_turns finds (i ∷ is) ps = take_turns finds is (turn_at finds ps i ps)

abbrev grips : List Place → ℕ
grips [] = 0
grips (p ∷ ps) = grip p + grips ps

grip_le : (p : Place) → grip p ≤ 3
grip_le idle = omega arith
grip_le (enters c) = omega arith
grip_le (inside (uses a)) = omega arith
grip_le (inside (transfers a b)) = omega arith
grip_le (nested a b) = omega arith
grip_le (leaves a) = omega arith

grips_le : (ps : List Place) → grips ps ≤ 3 * length ps
grips_le [] = omega arith
grips_le (p ∷ ps) = omega (arith, grip_le p, grips_le ps)

-- A thread without a grip holds nothing.
no_grip : (m : ℕ) (p : Place) → grip p ≡ 0 → holds m p ≡ false
unfolding holds
no_grip m idle e = refl
no_grip m (enters c) e = refl
no_grip m (inside (uses a)) e = absurd (omega arith)
no_grip m (inside (transfers a b)) e = absurd (omega arith)
no_grip m (nested a b) e = absurd (omega arith)
no_grip m (leaves a) e = absurd (omega arith)

all_free : (m : ℕ) (ps : List Place) → grips ps ≡ 0 → held m ps ≡ false
unfolding held
all_free m [] e = refl
all_free m (p ∷ ps) e = ground (arith, no_grip m p (omega arith), all_free m ps (omega arith))

grip_cases : (p : Place) → (grip p ≡ 0) ⊎ ((m : ℕ) × (holds m p ≡ true))
unfolding holds
grip_cases idle = inl refl
grip_cases (enters c) = inl refl
grip_cases (inside (uses a)) = inr (a, ground arith)
grip_cases (inside (transfers a b)) = inr (a, ground arith)
grip_cases (nested a b) = inr (a, ground arith)
grip_cases (leaves a) = inr (a, ground arith)

-- All mutexes are free, or one is held.
grips_cases : (ps : List Place) → (grips ps ≡ 0) ⊎ ((m : ℕ) × (held m ps ≡ true))
unfolding held
grips_cases [] = inl refl
grips_cases (p ∷ ps) = elim (grip_cases p) [
  | inr (m, h) ↦ inr (m, ground arith)
  | inl e ↦ elim (grips_cases ps) [
    | inl e' ↦ inl (omega arith)
    | inr (m, h) ↦ inr (m, ground arith)
  ]
]

module _ (finds : Call → Bool) where
  act-grip :
      (all : List Place) (p : Place)
      → 0 < grip p
      → waits all p ≡ false
      → grip (act all (fate finds p) p) + 1 ≤ grip p
  unfolding act fate next
  act-grip all idle g free = absurd (omega arith)
  act-grip all (enters c) g free = absurd (omega arith)
  act-grip all (inside (uses a)) g free = elim (Bool-cases (finds (uses a))) [
    | inl e ↦ rw (e, free) (omega arith)
    | inr e ↦ rw e (omega arith)
  ]
  act-grip all (inside (transfers a b)) g free = elim (Bool-cases (finds (transfers a b))) [
    | inl e ↦ rw (e, free) (omega arith)
    | inr e ↦ rw e (omega arith)
  ]
  act-grip all (nested a b) g free = rw free (omega arith)
  act-grip all (leaves a) g free = rw free (omega arith)

  turn-grips :
      (all ps : List Place) (i : ℕ) (p : Place)
      → get_elem? ps i ≡ some p
      → 0 < grip p
      → waits all p ≡ false
      → grips (turn_at finds all i ps) + 1 ≤ grips ps
  unfolding turn_at
  turn-grips all [] i p at g free = absurd (cc at)
  turn-grips all (q ∷ ps) zero p at g free =
      let same : q ≡ p = ground arith in
      omega (arith, act-grip all q (omega (arith, ap grip same)) (ap (waits all) same ∙ free))
  turn-grips all (q ∷ ps) (suc i) p at g free = omega (arith, turn-grips all ps i p at g free)

  fate-IsOrderedAct : (p : Place) → IsOrderedAct (fate finds p)
  unfolding fate
  fate-IsOrderedAct idle = tt
  fate-IsOrderedAct (enters c) = tt
  fate-IsOrderedAct (inside c) = elim (Bool-cases (finds c)) [ inl e ↦ rw e tt | inr e ↦ rw e tt ]
  fate-IsOrderedAct (nested a b) = tt
  fate-IsOrderedAct (leaves a) = tt

  turn_at-AreOrdered :
      (all : List Place) (i : ℕ) (ps : List Place)
      → AreOrdered ps
      → AreOrdered (turn_at finds all i ps)
  unfolding turn_at
  turn_at-AreOrdered all i [] k = k
  turn_at-AreOrdered all zero (p ∷ ps) k =
      (act-IsOrdered all (fate finds p) p (fate-IsOrderedAct p) k.0, k.1)
  turn_at-AreOrdered all (suc i) (p ∷ ps) k = (k.0, turn_at-AreOrdered all i ps k.1)

  Releases : ℕ → List Place → Type 0
  Releases n ps =
      (is : List ℕ) × (length is ≤ n) × ((m : ℕ) → held m (take_turns finds is ps) ≡ false)

  release : (n : ℕ) (ps : List Place) → AreOrdered ps → grips ps ≤ n → Releases n ps
  unfolding take_turns Releases
  release zero ps k bound = ([], omega arith, λ m. all_free m ps (omega arith))
  release (suc n) ps k bound = elim (grips_cases ps) [
    | inl e ↦ ([], omega arith, λ m. all_free m ps e)
    | inr (m, h) ↦
        let (j, q, at, g, free) = search (suc (goals ps)) m ps k (omega arith) h in
        let (is, few, all) =
          release n (turn_at finds ps j ps) (turn_at-AreOrdered ps j ps k)
            (omega (arith, turn-grips ps ps j q at g free)) in
        (j ∷ is, omega arith, all)
  ]

  -- The same of what threads have done so far.
  pub locks_release :
      (n : ℕ) (vs : List Move)
      → AreOrderedMoves vs
      → (is : List ℕ) × (length is ≤ 3 * n)
        × ((m : ℕ) → held m (take_turns finds is (run vs (all_idle n))) ≡ false)
  unfolding Releases
  locks_release n vs o =
      let ps = run vs (all_idle n) in
      let same : length ps ≡ n = length-run vs (all_idle n) ∙ length-all_idle n in
      let (is, few, all) =
        release (grips ps) ps (run-AreOrdered vs (all_idle n) o (all_idle-AreOrdered n))
          (omega arith) in
      (is, omega (arith, grips_le ps), all)
