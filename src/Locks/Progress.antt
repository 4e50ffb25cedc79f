-- ===== src/Locks/Progress.antt =====
-- Threads that read from buffer to buffer in one order only do not block each other for ever:
-- shared_fifo.cxx.
use storm_byte_buffer.Prelude.{
  ℕ, zero, suc, ◌+◌, ◌*◌, ◌≤◌, ◌<◌, ◌≡◌, ◌≢◌, ◌⊎◌, refl, sym, ap, ap₂, ◌∙◌, inl, inr, true, false,
  Bool-cases, List, [], ◌∷◌, some, length, get_elem?, arith,
}
use storm_byte_buffer.Locks.{
  uses, transfers, Place, idle, enters, inside, nested, leaves, wants, holds, next, held, waits,
  goes, act, step_at, Move, run,
}
use storm_byte_buffer.Locks.Ordered.{
  IsOrdered, AreOrdered, IsOrdered-get_elem?, step_at-AreOrdered, AreOrderedMoves, run-AreOrdered,
  all_idle, all_idle-AreOrdered, turns, length-step_at, length-run, length-all_idle,
}

-- At most the mutex that a thread takes next.
abbrev goal : Place → ℕ
goal (enters (uses a)) = a
goal (enters (transfers a b)) = a
goal (inside (transfers a b)) = b
goal _ = 0

abbrev pub goals : List Place → ℕ
goals [] = 0
goals (p ∷ ps) = goal p + goals ps

goal_le : (ps : List Place) (i : ℕ) (p : Place) → get_elem? ps i ≡ some p → goal p ≤ goals ps
goal_le [] i p e = absurd (cc e)
goal_le (q ∷ ps) zero p e = ground arith
goal_le (q ∷ ps) (suc i) p e = omega (arith, goal_le ps i p e)

holder :
    (m : ℕ) (ps : List Place)
    → held m ps ≡ true
    → (i : ℕ) × (p : Place) × (get_elem? ps i ≡ some p) × (holds m p ≡ true)
unfolding held
holder m [] e = absurd (cc e)
holder m (p ∷ ps) e = elim (Bool-cases (holds m p)) [
  | inl yes_held ↦ (0, p, refl, yes_held)
  | inr other ↦ let (i, q, at, h) = holder m ps (ground arith) in (suc i, q, at, h)
]

-- How many turns a thread still holds a mutex.
abbrev pub grip : Place → ℕ
grip (inside (uses a)) = 1
grip (inside (transfers a b)) = 3
grip (nested a b) = 2
grip (leaves a) = 1
grip _ = 0

-- Some thread that holds a mutex waits for none.
abbrev pub Frees : List Place → Type 0
Frees all =
    (i : ℕ) × (p : Place) × (get_elem? all i ≡ some p) × (0 < grip p) × (waits all p ≡ false)

-- Some thread in a call can go on.
abbrev Goes : List Place → Type 0
Goes all = (i : ℕ) × (p : Place) × (get_elem? all i ≡ some p) × (p ≢ idle) × (waits all p ≡ false)

-- What the thread that holds `m` does: it can go on, or it waits for a greater one.
holder-Frees :
    (m : ℕ) (all : List Place) (i : ℕ) (p : Place)
    → get_elem? all i ≡ some p
    → IsOrdered p
    → holds m p ≡ true
    → Frees all ⊎ ((b : ℕ) × (m < b) × (b ≤ goals all) × (held b all ≡ true))
unfolding holds wants waits
holder-Frees m all i idle at k h = absurd (cc h)
holder-Frees m all i (enters c) at k h = absurd (cc h)
holder-Frees m all i (inside (uses a)) at k h = inl (i, inside (uses a), at, omega arith, refl)
holder-Frees m all i (inside (transfers a b)) at k h = elim (Bool-cases (held b all)) [
  | inl taken ↦ inr (b, ground arith, goal_le all i (inside (transfers a b)) at, taken)
  | inr free ↦ inl (i, inside (transfers a b), at, omega arith, free)
]
holder-Frees m all i (nested a b) at k h = inl (i, nested a b, at, omega arith, refl)
holder-Frees m all i (leaves a) at k h = inl (i, leaves a, at, omega arith, refl)

-- From a mutex that is held, to the thread that holds it, to the greater one that it waits for, and on.
pub search :
    (n m : ℕ) (all : List Place)
    → AreOrdered all
    → goals all < n + m
    → held m all ≡ true
    → Frees all
search zero m all k small e =
    let (i, p, at, h) = holder m all e in
    elim (holder-Frees m all i p at (IsOrdered-get_elem? all i p k at) h) [
      | inl found ↦ found
      | inr (b, greater, bound, taken) ↦ absurd (omega arith)
    ]
search (suc n) m all k small e =
    let (i, p, at, h) = holder m all e in
    elim (holder-Frees m all i p at (IsOrdered-get_elem? all i p k at) h) [
      | inl found ↦ found
      | inr (b, greater, bound, taken) ↦ search n b all k (omega arith) taken
    ]

waiting : (all : List Place) (p : Place) → waits all p ≡ true → (m : ℕ) × (held m all ≡ true)
unfolding waits wants
waiting all idle e = absurd (cc e)
waiting all (enters (uses a)) e = (a, e)
waiting all (enters (transfers a b)) e = (a, e)
waiting all (inside (uses a)) e = absurd (cc e)
waiting all (inside (transfers a b)) e = (b, e)
waiting all (nested a b) e = absurd (cc e)
waiting all (leaves a) e = absurd (cc e)

-- If a thread is in a call, one can go on.
some-Goes :
    (all : List Place) (i : ℕ) (p : Place)
    → AreOrdered all
    → get_elem? all i ≡ some p
    → p ≢ idle
    → Goes all
some-Goes all i p k at ne = elim (Bool-cases (waits all p)) [
  | inr free ↦ (i, p, at, ne, free)
  | inl stopped ↦
      let (m, taken) = waiting all p stopped in
      let (j, q, at', grips, free) = search (suc (goals all)) m all k (omega arith) taken in
      (j, q, at', λ e. omega (arith, ap grip e), free)
]

-- The turns that a thread takes until its call returns.
abbrev left : Place → ℕ
left idle = 0
left (enters (uses a)) = 2
left (enters (transfers a b)) = 4
left (inside (uses a)) = 1
left (inside (transfers a b)) = 3
left (nested a b) = 2
left (leaves a) = 1

abbrev total : List Place → ℕ
total [] = 0
total (p ∷ ps) = left p + total ps

left-next : (p : Place) → p ≢ idle → left (next p) + 1 ≡ left p
unfolding next
left-next idle ne = absurd (ne refl)
left-next (enters (uses a)) ne = refl
left-next (enters (transfers a b)) ne = refl
left-next (inside (uses a)) ne = refl
left-next (inside (transfers a b)) ne = refl
left-next (nested a b) ne = refl
left-next (leaves a) ne = refl

go-total :
    (all ps : List Place) (i : ℕ) (p : Place)
    → get_elem? ps i ≡ some p
    → p ≢ idle
    → waits all p ≡ false
    → total (step_at all i goes ps) + 1 ≡ total ps
unfolding step_at act
go-total all [] i p at ne free = absurd (cc at)
go-total all (q ∷ ps) zero p at ne free =
    let same : q ≡ p = ground arith in
    let e : waits all q ≡ false = ap (waits all) same ∙ free in
    rw e (omega (arith, left-next q (λ x. ne (sym same ∙ x))))
go-total all (q ∷ ps) (suc i) p at ne free = omega (arith, go-total all ps i p at ne free)

idle_cases : (p : Place) → (p ≡ idle) ⊎ (p ≢ idle)
idle_cases idle = inl refl
idle_cases (enters c) = inr (λ e. cc e)
idle_cases (inside c) = inr (λ e. cc e)
idle_cases (nested a b) = inr (λ e. cc e)
idle_cases (leaves a) = inr (λ e. cc e)

-- All threads are idle, or one is in a call.
busy :
    (ps : List Place)
    → (ps ≡ all_idle (length ps)) ⊎ ((i : ℕ) × (p : Place) × (get_elem? ps i ≡ some p) × (p ≢ idle))
busy [] = inl refl
busy (p ∷ ps) = elim (idle_cases p) [
  | inl rests ↦ elim (busy ps) [
    | inl same ↦ inl (ap₂ (λ (q : Place) (qs : List Place). q ∷ qs) rests same)
    | inr (i, q, at, ne) ↦ inr (suc i, q, at, ne)
  ]
  | inr ne ↦ inr (0, p, refl, ne)
]

left_le : (p : Place) → left p ≤ 4
left_le idle = omega arith
left_le (enters (uses a)) = omega arith
left_le (enters (transfers a b)) = omega arith
left_le (inside (uses a)) = omega arith
left_le (inside (transfers a b)) = omega arith
left_le (nested a b) = omega arith
left_le (leaves a) = omega arith

total_le : (ps : List Place) → total ps ≤ 4 * length ps
total_le [] = omega arith
total_le (p ∷ ps) = omega (arith, left_le p, total_le ps)

Finishes : ℕ → List Place → Type 0
Finishes n ps = (is : List ℕ) × (length is ≤ n) × (run (turns is) ps ≡ all_idle (length ps))

finish : (n : ℕ) (ps : List Place) → AreOrdered ps → total ps ≤ n → Finishes n ps
unfolding run Finishes
finish zero ps k bound = elim (busy ps) [
  | inl same ↦ ([], omega arith, same)
  | inr (i, p, at, ne) ↦
      let (j, q, at', ne', free) = some-Goes ps i p k at ne in
      absurd (omega (arith, go-total ps ps j q at' ne' free))
]
finish (suc n) ps k bound = elim (busy ps) [
  | inl same ↦ ([], omega arith, same)
  | inr (i, p, at, ne) ↦
      let (j, q, at', ne', free) = some-Goes ps i p k at ne in
      let (is, few, all) =
        finish n (step_at ps j goes ps) (step_at-AreOrdered ps j goes ps tt k)
          (omega (arith, go-total ps ps j q at' ne' free)) in
      (j ∷ is, omega arith, all ∙ ap all_idle (length-step_at ps j goes ps))
]

-- Threads call methods of `SharedFIFO`s and read from one into another, as long as each read goes to a
-- buffer with a greater number, in any interleaving, with sleeps in `m_cv.wait` and reads that return
-- early. At any point there is an order in which the threads can go on that ends all their calls,
-- with at most four turns for each thread.
pub locks_finish :
    (n : ℕ) (vs : List Move)
    → AreOrderedMoves vs
    → (is : List ℕ) × (length is ≤ 4 * n) × (run (turns is) (run vs (all_idle n)) ≡ all_idle n)
unfolding Finishes
locks_finish n vs o =
    let ps = run vs (all_idle n) in
    let same : length ps ≡ n = length-run vs (all_idle n) ∙ length-all_idle n in
    let (is, few, all) =
      finish (total ps) ps (run-AreOrdered vs (all_idle n) o (all_idle-AreOrdered n))
        (omega arith) in
    (is, omega (arith, total_le ps), all ∙ ap all_idle same)
