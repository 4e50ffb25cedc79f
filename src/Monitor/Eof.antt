-- ===== src/Monitor/Eof.antt =====
-- `EoF` of a `SharedFIFO` under every schedule: shared_fifo.cxx.
use mathlib.Core.Path.{subst}
use storm_byte_buffer.Prelude.{
  ◌≡◌, ◌⊎◌, refl, sym, inl, inr, Bool, true, List, [], ◌∷◌, Option, none, some, arith,
}
use storm_byte_buffer.Typedefs.{Data, Helpers}
use storm_byte_buffer.Fifo
use storm_byte_buffer.Fifo.Reading
use storm_byte_buffer.Shared
use storm_byte_buffer.Shared.{
  Shared, Finished, Pending, reading, dropping, Outcome, finished, blocked, ready, resume,
}
use storm_byte_buffer.Monitor.{
  Call, writes, reads, drops, seeks, assigns, cleans, clears, closes, set_errors, Monitor, Event,
  Move, start, run, as_call,
}
use storm_byte_buffer.Monitor.Outcomes.{read_internal_cases, drop_bytes_cases}
use storm_byte_buffer.Monitor.Lasting.{
  AreForward, IsForward, AreAll, IsRefused, IsBare, Settled, run-AreAll,
}

abbrev IsFailed : Shared → Type 0
IsFailed s = s.error ≡ true

abbrev IsDrained : Shared → Type 0
IsDrained s = (s.closed ≡ true) × (Fifo.available_bytes s.fifo ≡ 0)

-- Refused, if a write, and with no bytes.
abbrev IsIdle : Call → Bool → Data → Type 0
IsIdle c done out = IsRefused c done out × IsBare c done out

resume-IsFailed :
    (w : Pending) (s : Shared)
    → IsFailed s
    → Settled IsFailed IsRefused (as_call w) (finished (resume w s))
unfolding resume
resume-IsFailed (reading count flag) s k = (k, tt)
resume-IsFailed (dropping count) s k = (k, tt)

resume-IsDrained :
    (w : Pending) (s : Shared)
    → IsDrained s
    → Settled IsDrained IsIdle (as_call w) (finished (resume w s))
unfolding resume Reading.read_internal Fifo.drop_bytes
resume-IsDrained (reading count flag) s k = ground arith
resume-IsDrained (dropping count) s k = ground arith

available-clean_none :
    (f : Fifo.Fifo) → Fifo.available_bytes f ≡ 0 → Fifo.available_bytes (Fifo.clean f) ≡ 0
unfolding Fifo.clean Fifo.available_bytes
available-clean_none f e = ground arith

available-clear : (f : Fifo.Fifo) → Fifo.available_bytes (Fifo.clear f) ≡ 0
unfolding Fifo.clear Fifo.available_bytes
available-clear f = refl

module _ ⦃h : Helpers⦄ where
  start-IsFailed :
      (c : Call) (s : Shared) → IsForward c → IsFailed s → Settled IsFailed IsRefused c (start c s)
  unfolding start Shared.write_internal Shared.clean Shared.clear Shared.close Shared.set_error
  start-IsFailed (writes count bytes) s i k = ground arith
  start-IsFailed (reads count flag) s i k = elim (read_internal_cases count flag s) [
    | inl e ↦ subst (Settled IsFailed IsRefused (reads count flag)) (sym e) (k, tt)
    | inr (inl e) ↦
        subst (Settled IsFailed IsRefused (reads count flag)) (sym e)
          (resume-IsFailed (reading count flag) s k)
    | inr (inr (e, r)) ↦ subst (Settled IsFailed IsRefused (reads count flag)) (sym e) tt
  ]
  start-IsFailed (drops count) s i k = elim (drop_bytes_cases count s) [
    | inl e ↦
        subst (Settled IsFailed IsRefused (drops count)) (sym e)
          (resume-IsFailed (dropping count) s k)
    | inr (e, r) ↦ subst (Settled IsFailed IsRefused (drops count)) (sym e) tt
  ]
  start-IsFailed (seeks offset mode) s i k = absurd i
  start-IsFailed (assigns other) s i k = absurd i
  start-IsFailed cleans s i k = (k, tt)
  start-IsFailed clears s i k = (k, tt)
  start-IsFailed closes s i k = (k, tt)
  start-IsFailed set_errors s i k = (refl, tt)

  start-IsDrained :
      (c : Call) (s : Shared) → IsForward c → IsDrained s → Settled IsDrained IsIdle c (start c s)
  unfolding start Shared.write_internal Shared.clean Shared.clear Shared.close Shared.set_error
  start-IsDrained (writes count bytes) s i k = ground arith
  start-IsDrained (reads count flag) s i k = elim (read_internal_cases count flag s) [
    | inl e ↦ subst (Settled IsDrained IsIdle (reads count flag)) (sym e) (k, (tt, refl))
    | inr (inl e) ↦
        subst (Settled IsDrained IsIdle (reads count flag)) (sym e)
          (resume-IsDrained (reading count flag) s k)
    | inr (inr (e, r)) ↦ subst (Settled IsDrained IsIdle (reads count flag)) (sym e) tt
  ]
  start-IsDrained (drops count) s i k = elim (drop_bytes_cases count s) [
    | inl e ↦
        subst (Settled IsDrained IsIdle (drops count)) (sym e)
          (resume-IsDrained (dropping count) s k)
    | inr (e, r) ↦ subst (Settled IsDrained IsIdle (drops count)) (sym e) tt
  ]
  start-IsDrained (seeks offset mode) s i k = absurd i
  start-IsDrained (assigns other) s i k = absurd i
  start-IsDrained cleans s i k = ((k.0, available-clean_none s.fifo k.1), (tt, refl))
  start-IsDrained clears s i k = ((k.0, available-clear s.fifo), (tt, refl))
  start-IsDrained closes s i k = ((refl, k.1), (tt, refl))
  start-IsDrained set_errors s i k = (k, (tt, refl))

eof_cases : (s : Shared) → Shared.eof s ≡ true → IsFailed s ⊎ IsDrained s
unfolding Shared.eof
eof_cases s e = ground arith

eof_failed : (s : Shared) → IsFailed s → Shared.eof s ≡ true
unfolding Shared.eof
eof_failed s k = ground arith

eof_drained : (s : Shared) → IsDrained s → Shared.eof s ≡ true
unfolding Shared.eof
eof_drained s k = ground arith

all_turned_away : (es : List (Option Event)) → AreAll IsIdle es → AreAll IsRefused es
all_turned_away [] k = tt
all_turned_away (none ∷ es) k = all_turned_away es k
all_turned_away (some e ∷ es) k = (k.0.0, all_turned_away es k.1)

no_bytes_given : (es : List (Option Event)) → AreAll IsIdle es → AreAll IsBare es
no_bytes_given [] k = tt
no_bytes_given (none ∷ es) k = no_bytes_given es k
no_bytes_given (some e ∷ es) k = (k.0.1, no_bytes_given es k.1)

module _ ⦃h : Helpers⦄ where
  -- When `EoF` of a `SharedFIFO` is true it stays so, and no write is accepted any more, under any
  -- schedule of calls but seeks and assignments from a `FIFO`, with any threads waiting, and wakeups,
  -- spurious ones included. Unless the buffer was in error, no read gives any bytes either.
  pub eof_stays :
      (vs : List Move) (m : Monitor)
      → AreForward vs
      → Shared.eof m.shared ≡ true
      → let (es, m') = run vs m in
        (Shared.eof m'.shared ≡ true)
        × AreAll IsRefused es
        × (AreAll IsBare es ⊎ (m.shared.error ≡ true))
  eof_stays vs m i e = elim (eof_cases m.shared e) [
    | inl bad ↦
        let (k, all) = run-AreAll IsFailed IsRefused resume-IsFailed start-IsFailed vs m i bad in
        (eof_failed (run vs m).1.shared k, all, inr bad)
    | inr drained ↦
        let (k, all) =
          run-AreAll IsDrained IsIdle resume-IsDrained start-IsDrained vs m i drained in
        (
          eof_drained (run vs m).1.shared k,
          all_turned_away (run vs m).0 all,
          inl (no_bytes_given (run vs m).0 all),
        )
  ]
