-- ===== src/Monitor/Wakeups.antt =====
-- The threads that sleep in `SharedFIFO::Wait`, and their predicates: shared_fifo.cxx.
use mathlib.Core.Path.{subst}
use storm_byte_buffer.Prelude.{
  ℕ, ◌+◌, ◌≤◌, ◌≡◌, ◌⊎◌, refl, inl, inr, true, List, [], ◌∷◌, Option-cases, Bool-cases, length,
  max_size, ℤ, arith,
}
use storm_byte_buffer.Typedefs.{Position, Helpers}
use storm_byte_buffer.Fifo
use storm_byte_buffer.Shared
use storm_byte_buffer.Shared.Refine.{ready_lem}
use storm_byte_buffer.Fifo.{Fifo}
use storm_byte_buffer.Fifo.Bounds.{IsValid, seek-IsValid}
use storm_byte_buffer.Shared.{Shared, Finished, Pending, Outcome, finished, blocked, ready, resume}
use storm_byte_buffer.Monitor.{
  Call, seeks, Waiter, Monitor, Move, invokes, wakes, start, pick, wake, invoke, step, run,
}
use storm_byte_buffer.Monitor.Outcomes.{
  IsBounded, IsNotSeek, added, Keeps, Settles, resume-Keeps, resume-IsCalm, start-Settles,
  start-IsCalm,
}
use storm_byte_buffer.Monitor.Watchers.{
  AreWatched, Picked, notify-AreWatched, append-AreWatched, pick-AreWatched, lull-AreWatched,
}

pub record Inv (room : ℕ) (m : Monitor) : Type 0 where
  pub valid : IsValid m.shared.fifo
  pub fits : length m.shared.fifo.buffer ≤ room
  pub watched : AreWatched m.shared m.waiters

pub wake-Inv : (room i : ℕ) (m : Monitor) → Inv room m → Inv room (wake i m).1
unfolding wake
wake-Inv room i m v = elim (Option-cases (pick i m.waiters)) [
  | inl e ↦ rw (e, wake) v
  | inr ((w, rest), e) ↦
      let (b, bs) = subst (Picked m.shared) e (pick-AreWatched m.shared i m.waiters v.watched) in
      let kept = resume-Keeps room m.shared v.valid v.fits w.pending in
      elim (Bool-cases (ready w.need m.shared)) [
        | inl r ↦
            rw (e, r, wake)
              (record {
                valid = kept.valid;
                fits = kept.growth;
                watched =
                    notify-AreWatched m.shared (resume w.pending m.shared) rest
                      (resume-IsCalm m.shared w.pending v.valid) bs;
              })
        | inr r ↦
            rw (e, r, wake)
              (record {
                valid = v.valid;
                fits = v.fits;
                watched = lull-AreWatched m.shared i m.waiters w rest e r v.watched;
              })
      ]
]

pub Outcome-cases :
    (o : Outcome)
    → ((x : Finished) × (o ≡ finished x)) ⊎ ((n : ℕ) × (p : Pending) × (o ≡ blocked n p))
Outcome-cases (finished x) = inl (x, refl)
Outcome-cases (blocked n p) = inr (n, p, refl)

-- The moves of a schedule with no seek.
abbrev pub IsMove : Move → Type 0
IsMove (invokes t c) = IsBounded c × IsNotSeek c
IsMove (wakes i) = Unit {0}

abbrev pub AreMoves : List Move → Type 0
AreMoves [] = Unit {0}
AreMoves (v ∷ vs) = IsMove v × AreMoves vs

abbrev pub total : List Move → ℕ
total [] = 0
total (invokes t c ∷ vs) = added c + total vs
total (wakes i ∷ vs) = total vs

module _ ⦃h : Helpers⦄ where
  pub invoke-Inv :
      (room t : ℕ) (c : Call) (m : Monitor)
      → IsBounded c
      → IsNotSeek c
      → room + added c ≤ max_size
      → Inv room m
      → Inv (room + added c) (invoke t c m).1
  unfolding invoke
  invoke-Inv room t c m b k small v =
      let kept = start-Settles m.shared v.valid c b (omega (arith, v.fits)) in
      elim (Outcome-cases (start c m.shared)) [
        | inl (x, e) ↦
            let settled : Keeps (length m.shared.fifo.buffer + added c) x =
              subst (Settles (length m.shared.fifo.buffer + added c) m.shared) e kept in
            rw (e, invoke)
              (record {
                valid = settled.valid;
                fits = omega (arith, settled.growth, v.fits);
                watched =
                    notify-AreWatched m.shared x m.waiters (start-IsCalm m.shared v.valid c x k e)
                      v.watched;
              })
        | inr (n, p, e) ↦
            let (le, r) = subst (Settles (length m.shared.fifo.buffer + added c) m.shared) e kept in
            rw (e, invoke)
              (record {
                valid = v.valid;
                fits = omega (arith, v.fits);
                watched = append-AreWatched m.shared m.waiters _ v.watched (le, λ _. r);
              })
      ]

  run-Inv :
      (room : ℕ) (vs : List Move) (m : Monitor)
      → AreMoves vs
      → room + total vs ≤ max_size
      → Inv room m
      → Inv (room + total vs) (run vs m).1
  unfolding run step
  run-Inv room [] m a small v = record {
    valid = v.valid;
    fits = omega (arith, v.fits);
    watched = v.watched;
  }
  run-Inv room (invokes t c ∷ vs) m a small v =
      subst (λ (n : ℕ). Inv n (run vs (invoke t c m).1).1) (omega arith)
        (run-Inv (room + added c) vs (invoke t c m).1 a.1 (omega arith)
          (invoke-Inv room t c m a.0.0 a.0.1 (omega arith) v))
  run-Inv room (wakes i ∷ vs) m a small v =
      run-Inv room vs (wake i m).1 a.1 small (wake-Inv room i m v)

  -- Under any schedule of calls but seeks, and of wakeups, spurious ones included, a `SharedFIFO`
  -- that starts valid and with no thread waiting stays valid, if the `FIFO`s that are assigned to it
  -- are, and a thread that is asleep has a predicate that
  -- is false: each change that could make it true has notified. The counts asked for are those that
  -- a vector can hold, and all the bytes that are written or assigned fit into one.
  pub no_lost_wakeup :
      (s : Shared) (vs : List Move)
      → IsValid s.fifo
      → AreMoves vs
      → length s.fifo.buffer + total vs ≤ max_size
      → let m = (run vs (record { shared = s; waiters = [] })).1 in
        IsValid m.shared.fifo × AreWatched m.shared m.waiters
  no_lost_wakeup s vs v a small =
      let inv : Inv (length s.fifo.buffer) (record { shared = s; waiters = [] }) = record {
        valid = v;
        fits = omega arith;
        watched = tt;
      } in
      let end =
        run-Inv (length s.fifo.buffer) vs (record { shared = s; waiters = [] }) a small inv in
      (end.valid, end.watched)

  -- A seek wakes nobody: a thread that sleeps until `need` bytes are unread goes on sleeping when a
  -- seek has made them unread.
  pub seek_loses_wakeup :
      (m : Monitor) (t : ℕ) (offset : ℤ) (mode : Position) (w : Waiter) (ws : List Waiter)
      → m.waiters ≡ w ∷ ws
      → IsValid m.shared.fifo
      → w.need ≤ max_size
      → w.need ≤ Fifo.available_bytes (Fifo.seek offset mode m.shared.fifo)
      → let m' = (invoke t (seeks offset mode) m).1 in
        (m'.waiters ≡ w ∷ ws) × (ready w.need m'.shared ≡ true)
  unfolding invoke start Shared.seek
  seek_loses_wakeup m t offset mode w ws e v small le = (
    e,
    ground (
      arith,
      ready_lem (record m.shared { fifo = Fifo.seek offset mode m.shared.fifo }) w.need
          (seek-IsValid offset mode v) small,
    ),
  )
