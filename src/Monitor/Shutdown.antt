-- ===== src/Monitor/Shutdown.antt =====
-- `SharedFIFO::Close` and `SharedFIFO::SetError` where threads wait: shared_fifo.cxx.
use mathlib.Core.Path.{subst}
use storm_byte_buffer.Prelude.{
  ℕ, zero, suc, ◌≡◌, ◌≢◌, ◌⊎◌, refl, sym, ap, ◌∙◌, inl, inr, Bool, true, false, ◌||◌, List, [], ◌∷◌,
  length, map, Option, none, some, arith,
}
use storm_byte_buffer.Typedefs.{Helpers}
use storm_byte_buffer.Shared
use storm_byte_buffer.Shared.{
  Shared, Finished, Pending, reading, dropping, Outcome, finished, blocked, ready, resume, wait,
}
use storm_byte_buffer.Monitor.{
  Call, writes, reads, drops, closes, set_errors, Waiter, Monitor, Event, Move, wakes, start,
  notify, rouse, settle, pick, wake, invoke, step, run, as_call,
}
use storm_byte_buffer.Monitor.Outcomes.{read_internal_cases, drop_bytes_cases}

-- Closed, or in error.
abbrev pub is_over : Shared → Bool
is_over s = s.closed || s.error

abbrev pub threads : List Waiter → List ℕ
threads = map (λ w. w.thread)

-- The threads whose calls have come through.
abbrev pub returned : List (Option Event) → List ℕ
returned [] = []
returned (none ∷ es) = returned es
returned (some e ∷ es) = e.thread ∷ returned es

-- The first waiter wakes, `n` times.
abbrev pub wake_times : ℕ → List Move
wake_times zero = []
wake_times (suc n) = wakes 0 ∷ wake_times n

is_over-resume : (p : Pending) (s : Shared) → is_over (resume p s).shared ≡ is_over s
unfolding resume
is_over-resume (reading count flag) s = refl
is_over-resume (dropping count) s = refl

pub ready_over : (n : ℕ) (s : Shared) → is_over s ≡ true → ready n s ≡ true
unfolding ready
ready_over n s o = ground arith

rouse-threads : (ws : List Waiter) → threads (map rouse ws) ≡ threads ws
rouse-threads [] = refl
rouse-threads (w ∷ ws) = ap (λ (ts : List ℕ). w.thread ∷ ts) (rouse-threads ws)

notify-threads : (b : Bool) (ws : List Waiter) → threads (notify b ws) ≡ threads ws
notify-threads true ws = rouse-threads ws
notify-threads false ws = refl

length-rouse : (ws : List Waiter) → length (map rouse ws) ≡ length ws
length-rouse [] = refl
length-rouse (w ∷ ws) = ap suc (length-rouse ws)

length-notify : (b : Bool) (ws : List Waiter) → length (notify b ws) ≡ length ws
length-notify true ws = length-rouse ws
length-notify false ws = refl

wake_over :
    (s : Shared) (w : Waiter) (ws : List Waiter)
    → is_over s ≡ true
    → wake 0 (record { shared = s; waiters = w ∷ ws })
      ≡ settle w.thread (as_call w.pending) (resume w.pending s) ws
unfolding wake pick
wake_over s w ws o = rw (ready_over w.need s o)

module _ ⦃h : Helpers⦄ where
  -- The waiters of a buffer that is over come through one by one.
  abbrev Drained : List Waiter → List (Option Event) × Monitor → Type 0
  Drained ws (es, m) = (m.waiters ≡ []) × (returned es ≡ threads ws)

  drain :
      (n : ℕ) (s : Shared) (ws : List Waiter)
      → is_over s ≡ true
      → length ws ≡ n
      → Drained ws (run (wake_times n) (record { shared = s; waiters = ws }))
  unfolding run step
  drain zero s [] o e = (refl, refl)
  drain zero s (w ∷ ws) o e = absurd (omega arith)
  drain (suc n) s [] o e = absurd (omega arith)
  drain (suc n) s (w ∷ ws) o e =
      let x = resume w.pending s in
      let rest =
        drain n x.shared (notify x.notify ws) (is_over-resume w.pending s ∙ o)
          (length-notify x.notify ws ∙ omega arith) in
      subst
        (λ (y : Option Event × Monitor).
          let (es, m') = run (wake_times n) y.1 in Drained (w ∷ ws) (y.0 ∷ es, m'))
        (sym (wake_over s w ws o))
        (rest.0, ap (λ (ts : List ℕ). w.thread ∷ ts) (rest.1 ∙ notify-threads x.notify ws))

  never_blocked :
      (s : Shared) (d : Call) (n : ℕ) (p : Pending) → is_over s ≡ true → start d s ≢ blocked n p
  unfolding start
  never_blocked s (reads count flag) n p o e = elim (read_internal_cases count flag s) [
    | inl k ↦ cc
    | inr (inl k) ↦ cc
    | inr (inr (k, r)) ↦ cc (ready_over count s o)
  ]
  never_blocked s (drops count) n p o e = elim (drop_bytes_cases count s) [
    | inl k ↦ cc
    | inr (k, r) ↦ cc (ready_over count s o)
  ]
  never_blocked s (writes count bytes) n p o e = cc
  never_blocked s _ n p o e = cc

  end_call :
      (t : ℕ) (c : Call) (m : Monitor)
      → (c ≡ closes) ⊎ (c ≡ set_errors)
      → (is_over (invoke t c m).1.shared ≡ true) × ((invoke t c m).1.waiters ≡ map rouse m.waiters)
  unfolding invoke start Shared.close Shared.set_error
  end_call t closes m k = (refl, refl)
  end_call t set_errors m k = (ground arith, refl)
  end_call t _ m (inl e) = cc
  end_call t _ m (inr e) = cc

  -- `Close` and `SetError` notify every thread that waits. After them no call can begin to wait, and
  -- each of these threads comes through with its wakeup, in whatever state the buffer is, so that none
  -- is left.
  pub shutdown_frees :
      (t : ℕ) (c : Call) (m : Monitor)
      → (c ≡ closes) ⊎ (c ≡ set_errors)
      → let m' = (invoke t c m).1 in
        let (es, end) = run (wake_times (length m.waiters)) m' in
        (m'.waiters ≡ map rouse m.waiters)
        × (end.waiters ≡ [])
        × (returned es ≡ threads m.waiters)
        × ((d : Call) (n : ℕ) (p : Pending) → start d m'.shared ≢ blocked n p)
  shutdown_frees t c m k =
      let (o, e) = end_call t c m k in
      let m' = (invoke t c m).1 in
      let (none_left, all) =
        drain (length m.waiters) m'.shared m'.waiters o (ap length e ∙ length-rouse m.waiters) in
      (
        e,
        none_left,
        all ∙ ap threads e ∙ rouse-threads m.waiters,
        λ d n p. never_blocked m'.shared d n p o,
      )
