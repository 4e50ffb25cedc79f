-- ===== src/Monitor/Watchers.antt =====
-- The threads that wait beside one that returns or goes back to sleep.
use mathlib.Core.Path.{subst}
use storm_byte_buffer.Prelude.{
  ℕ, zero, suc, ◌≤◌, ◌≡◌, inl, inr, false, List, [], ◌∷◌, ◌++◌, map, Option, none, some,
  Option-cases, Bool-cases, max_size, arith,
}
use storm_byte_buffer.Shared.{Shared, Finished, ready}
use storm_byte_buffer.Monitor.{Waiter, notify, rouse, pick, lull}
use storm_byte_buffer.Monitor.Outcomes.{IsCalm}

-- A waiter that nobody has woken waits for what is not so.
abbrev pub IsWatched : Shared → Waiter → Type 0
IsWatched s w = (w.need ≤ max_size) × (w.awake ≡ false → ready w.need s ≡ false)

abbrev pub AreWatched : Shared → List Waiter → Type 0
AreWatched s [] = Unit {0}
AreWatched s (w ∷ ws) = IsWatched s w × AreWatched s ws

rouse-AreWatched : (s t : Shared) (ws : List Waiter) → AreWatched s ws → AreWatched t (map rouse ws)
rouse-AreWatched s t [] a = tt
rouse-AreWatched s t (w ∷ ws) a = ((a.0.0, λ e. cc), rouse-AreWatched s t ws a.1)

calm-AreWatched :
    (s t : Shared) (ws : List Waiter)
    → ((n : ℕ) → n ≤ max_size → ready n s ≡ false → ready n t ≡ false)
    → AreWatched s ws
    → AreWatched t ws
calm-AreWatched s t [] k a = tt
calm-AreWatched s t (w ∷ ws) k a =
    ((a.0.0, λ e. k w.need a.0.0 (a.0.1 e)), calm-AreWatched s t ws k a.1)

-- Those who wait beside a method that finishes.
pub notify-AreWatched :
    (s : Shared) (x : Finished) (ws : List Waiter)
    → IsCalm s x
    → AreWatched s ws
    → AreWatched x.shared (notify x.notify ws)
notify-AreWatched s x ws k a = elim (Bool-cases x.notify) [
  | inl e ↦ rw e (rouse-AreWatched s x.shared ws a)
  | inr e ↦ rw e (calm-AreWatched s x.shared ws (k e) a)
]

module _ (s : Shared) where
  pub append-AreWatched :
      (ws : List Waiter) (w : Waiter)
      → AreWatched s ws
      → IsWatched s w
      → AreWatched s (ws ++ w ∷ [])
  append-AreWatched [] w a b = (b, tt)
  append-AreWatched (v ∷ ws) w a b = (a.0, append-AreWatched ws w a.1 b)

  abbrev pub Picked : Option (Waiter × List Waiter) → Type 0
  Picked none = Unit {0}
  Picked (some (w, rest)) = IsWatched s w × AreWatched s rest

  pub pick-AreWatched : (i : ℕ) (ws : List Waiter) → AreWatched s ws → Picked (pick i ws)
  unfolding pick
  pick-AreWatched i [] a = tt
  pick-AreWatched zero (v ∷ ws) a = a
  pick-AreWatched (suc i) (v ∷ ws) a = elim (Option-cases (pick i ws)) [
    | inl e ↦ rw (e, pick) tt
    | inr ((w, rest), e) ↦
        let (b, bs) = subst Picked e (pick-AreWatched i ws a.1) in rw (e, pick) (b, (a.0, bs))
  ]

  pub lull-AreWatched :
      (i : ℕ) (ws : List Waiter) (w : Waiter) (rest : List Waiter)
      → pick i ws ≡ some (w, rest)
      → ready w.need s ≡ false
      → AreWatched s ws
      → AreWatched s (lull i ws)
  unfolding pick lull
  lull-AreWatched i [] w rest e r a = tt
  lull-AreWatched zero (v ∷ ws) w rest e r a = ((a.0.0, λ _. ground arith), a.1)
  lull-AreWatched (suc i) (v ∷ ws) w rest e r a = elim (Option-cases (pick i ws)) [
    | inl k ↦ ground arith
    | inr ((w', rest'), k) ↦ (a.0, lull-AreWatched i ws w' rest' k (ground arith) a.1)
  ]
