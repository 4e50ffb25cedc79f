-- ===== src/Pipeline/Errors.antt =====
-- `Pipeline::SetError`: pipeline.cxx.
use storm_byte_buffer.Prelude.{
  ℕ, ◌≡◌, refl, sym, ap, ◌∙◌, Bool, true, false, ◌||◌, List, [], ◌∷◌, map, Option, none, some,
  length, get_elem?, ◌==◌, if◌then◌else◌, arith,
}
use mathlib.Core.Path.{subst}
use storm_byte_buffer.Typedefs.{Helpers}
use storm_byte_buffer.Shared
use storm_byte_buffer.Monitor
use storm_byte_buffer.Monitor.{Monitor, Event, Waiter, Call, rouse}
use storm_byte_buffer.Store.{Store, Pointer, same, invoke}
use storm_byte_buffer.Store.Frame.{IsLive, deref-get_elem?}
use storm_byte_buffer.Producer
use storm_byte_buffer.Producer.{Producer}
use storm_byte_buffer.Pipeline.{Pipeline, set_error, set_errors}

-- The producers have buffers, each one of `n`.
abbrev pub AreHandles : ℕ → List Producer → Type 0
AreHandles n [] = Unit {0}
AreHandles n (p ∷ ps) = IsLive n p.buffer × AreHandles n ps

abbrev pub points_to : ℕ → Pointer → Bool
points_to i none = false
points_to i (some j) = j == i

-- Whether one of them has the buffer at `i`.
abbrev pub among : ℕ → List Producer → Bool
among i [] = false
among i (p ∷ ps) = points_to i p.buffer || among i ps

map-rouse_twice : (ws : List Waiter) → map rouse (map rouse ws) ≡ map rouse ws
map-rouse_twice [] = refl
map-rouse_twice (w ∷ ws) = ap (λ r. rouse w ∷ r) (map-rouse_twice ws)

module _ ⦃h : Helpers⦄ (t : ℕ) where
  abbrev failed : Monitor → Monitor
  failed m = (Monitor.invoke t Call.set_errors m).1

  failed_twice : (m : Monitor) → failed (failed m) ≡ failed m
  unfolding Monitor.invoke Monitor.start Shared.set_error
  failed_twice m =
      ap (λ ws. record { shared = record m.shared { error = true }; waiters = ws })
        (map-rouse_twice m.waiters)

  failed_if :
      (b c : Bool) (m : Monitor)
      → (if c then failed (if b then failed m else m) else (if b then failed m else m))
        ≡ (if b || c then failed m else m)
  failed_if true true m = failed_twice m
  failed_if true false m = refl
  failed_if false true m = refl
  failed_if false false m = refl

  fail_one :
      (q : Pointer) (s : Store) (i : ℕ) (m : Monitor)
      → IsLive (length s) q
      → get_elem? s i ≡ some m
      → (a : Option Event) × (s' : Store) × (invoke t Call.set_errors q s ≡ some (a, s'))
        × (length s' ≡ length s)
        × (get_elem? s' i ≡ some (if points_to i q then failed m else m))
  unfolding invoke
  fail_one none s i m live e = absurd (omega arith)
  fail_one (some j) s i m live e =
      let (a, s', called, same, at, _) =
        deref-get_elem? (Monitor.invoke t Call.set_errors) i j m s live e in
      (a, s', called, same, at)

  set_errors_lem :
      (ps : List Producer) (s : Store) (i : ℕ) (m : Monitor)
      → AreHandles (length s) ps
      → get_elem? s i ≡ some m
      → (s' : Store) × (set_errors t ps s ≡ some s')
        × (length s' ≡ length s)
        × (get_elem? s' i ≡ some (if among i ps then failed m else m))
  unfolding set_errors Producer.set_error
  set_errors_lem [] s i m live e = (s, refl, refl, e)
  set_errors_lem (p ∷ ps) s i m live e =
      let (a, s1, called, same1, at) = fail_one p.buffer s i m live.0 e in
      let (s2, rest, same2, at2) =
        set_errors_lem ps s1 i (if points_to i p.buffer then failed m else m)
          (subst (λ n. AreHandles n ps) (sym same1) live.1) at in
      (
        s2,
        rw called rest,
        same2 ∙ same1,
        at2 ∙ ap (λ n. some n) (failed_if (points_to i p.buffer) (among i ps) m),
      )

  -- `SetError` on a pipeline whose producers have buffers sets the error of each of these, once or
  -- more, wakes the threads that wait on it, and leaves every other buffer as it is.
  pub set_error_lem :
      {F : Type 0} (p : Pipeline F) (s : Store) (i : ℕ) (m : Monitor)
      → AreHandles (length s) p.producers
      → get_elem? s i ≡ some m
      → (s' : Store) × (set_error t p s ≡ some s')
        × (length s' ≡ length s)
        × (get_elem? s' i
            ≡ some (
                if among i p.producers
                then record {
                  shared = record m.shared { error = true };
                  waiters = map rouse m.waiters;
                }
                else m))
  unfolding set_error Monitor.invoke Monitor.start Shared.set_error
  set_error_lem p s i m live e = set_errors_lem p.producers s i m live e
