-- ===== src/Store/Frame.antt =====
-- A store under a schedule, taken apart into its buffers: producer.hxx and consumer.hxx.
use mathlib.Core.Path.{subst}
use storm_byte_buffer.Prelude.{
  ℕ, ◌<◌, ◌≡◌, refl, ap, ap₂, sym, ◌∙◌, Bool, true, false, List, [], ◌∷◌, Option, none, some,
  length, get_elem?, set, get_elem?-lt, get_elem?-set, length-set, ◌==◌, if◌then◌else◌, arith,
}
use storm_byte_buffer.Typedefs.{Helpers}
use storm_byte_buffer.Monitor
use storm_byte_buffer.Monitor.{Event, Monitor}
use storm_byte_buffer.Store.{Store, Pointer, Move, invokes, wakes, deref, invoke, wake, step, run}

-- The pointer is to one of `n` buffers.
abbrev pub IsLive : ℕ → Pointer → Type 0
IsLive n none = 0 < 0
IsLive n (some i) = i < n

abbrev pub AreLive : ℕ → List Move → Type 0
AreLive n [] = Unit {0}
AreLive n (invokes t c p ∷ vs) = IsLive n p × AreLive n vs
AreLive n (wakes i k ∷ vs) = (i < n) × AreLive n vs

-- Whether the move is one of the buffer at `i`, and as which move of its own.
abbrev pub here : ℕ → Move → Bool
here i (invokes t c none) = false
here i (invokes t c (some j)) = j == i
here i (wakes j k) = j == i

abbrev pub own : Move → Monitor.Move
own (invokes t c p) = Monitor.invokes t c
own (wakes j k) = Monitor.wakes k

abbrev pub moves_at : ℕ → List Move → List Monitor.Move
moves_at i [] = []
moves_at i (v ∷ vs) = if here i v then own v ∷ moves_at i vs else moves_at i vs

abbrev pub events_at : ℕ → List Move → List (Option Event) → List (Option Event)
events_at i [] es = []
events_at i (v ∷ vs) [] = []
events_at i (v ∷ vs) (e ∷ es) = if here i v then e ∷ events_at i vs es else events_at i vs es

-- What a call through a pointer to the buffer at `j` does to the one at `i`.
pub deref-get_elem? :
    {A : Type 0} (f : Monitor → A × Monitor) (i j : ℕ) (m : Monitor) (s : Store)
    → j < length s
    → get_elem? s i ≡ some m
    → (a : A) × (s' : Store) × (deref f (some j) s ≡ some (a, s'))
      × (length s' ≡ length s)
      × (get_elem? s' i ≡ some (if j == i then (f m).1 else m))
      × (if j == i then a ≡ (f m).0 else Unit)
unfolding deref
deref-get_elem? f i j m s live e =
    let (n, at) = get_elem?-lt s j live in
    let (a, n') = f n in
    (
      a,
      set j n' s,
      ground arith,
      length-set j n' s,
      ground (arith, get_elem?-set j i n' m s e),
      ground arith,
    )

module _ ⦃h : Helpers⦄ where
  step_at :
      (v : Move) (vs : List Move) (s : Store) (i : ℕ) (m : Monitor)
      → AreLive (length s) (v ∷ vs)
      → get_elem? s i ≡ some m
      → (e : Option Event) × (s' : Store) × (step v s ≡ some (e, s'))
        × (length s' ≡ length s)
        × (get_elem? s' i ≡ some (if here i v then (Monitor.step (own v) m).1 else m))
        × (if here i v then e ≡ (Monitor.step (own v) m).0 else Unit)
  unfolding step invoke wake Monitor.step
  step_at (invokes t c none) vs s i m live e = absurd (omega arith)
  step_at (invokes t c (some j)) vs s i m live e =
      deref-get_elem? (Monitor.invoke t c) i j m s live.0 e
  step_at (wakes j k) vs s i m live e = deref-get_elem? (Monitor.wake k) i j m s live.0 e

  live_tail : (n : ℕ) (v : Move) (vs : List Move) → AreLive n (v ∷ vs) → AreLive n vs
  live_tail n (invokes t c p) vs a = a.1
  live_tail n (wakes i k) vs a = a.1

  -- One more move, if it is of this buffer.
  run-if :
      (b : Bool) (w : Monitor.Move) (ws : List Monitor.Move) (m : Monitor) (e : Option Event)
      (es : List (Option Event))
      → (if b then e ≡ (Monitor.step w m).0 else Unit)
      → es ≡ (Monitor.run ws (if b then (Monitor.step w m).1 else m)).0
      → ((Monitor.run (if b then w ∷ ws else ws) m).1
          ≡ (Monitor.run ws (if b then (Monitor.step w m).1 else m)).1)
        × ((if b then e ∷ es else es) ≡ (Monitor.run (if b then w ∷ ws else ws) m).0)
  unfolding Monitor.run
  run-if true w ws m e es first rest = (refl, ap₂ (λ x xs. x ∷ xs) first rest)
  run-if false w ws m e es first rest = (refl, rest)

  -- Threads that use several buffers through handles, none of them null: the run goes through, and
  -- what happens to one buffer, and what its calls return, is what its own moves do in this order
  -- when there is no other buffer.
  pub run_projects :
      (vs : List Move) (s : Store) (i : ℕ) (m : Monitor)
      → AreLive (length s) vs
      → get_elem? s i ≡ some m
      → (es : List (Option Event)) × (s' : Store) × (run vs s ≡ some (es, s'))
        × (length s' ≡ length s)
        × (get_elem? s' i ≡ some (Monitor.run (moves_at i vs) m).1)
        × (events_at i vs es ≡ (Monitor.run (moves_at i vs) m).0)
  unfolding run Monitor.run
  run_projects [] s i m live e = ([], s, refl, refl, e, refl)
  run_projects (v ∷ vs) s i m live e =
      let (ev, s1, stepped, same, at, told) = step_at v vs s i m live e in
      let m1 : Monitor = if here i v then (Monitor.step (own v) m).1 else m in
      let (es, s2, ran, same2, at2, told2) =
        run_projects vs s1 i m1
          (live_tail (length s1) v vs (subst (λ n. AreLive n (v ∷ vs)) (sym same) live)) at in
      let (end, all) =
        run-if (here i v) (own v) (moves_at i vs) m ev (events_at i vs es) told told2 in
      (ev ∷ es, s2, rw (stepped, ran), same2 ∙ same, at2 ∙ ap (λ n. some n) (sym end), all)
