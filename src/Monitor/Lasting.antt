-- ===== src/Monitor/Lasting.antt =====
-- What no call on a `SharedFIFO` but a seek or an assignment changes, under every schedule:
-- shared_fifo.cxx.
use mathlib.Core.Path.{subst}
use storm_byte_buffer.Prelude.{
  ℕ, ◌≡◌, inl, inr, Bool, false, Bool-cases, List, [], ◌∷◌, Option, none, some, Option-cases,
}
use storm_byte_buffer.Typedefs.{Data, Helpers}
use storm_byte_buffer.Shared.{Shared, Pending, Outcome, finished, blocked, ready, resume}
use storm_byte_buffer.Monitor.{
  Call, writes, seeks, assigns, Monitor, Event, Move, invokes, wakes, start, pick, wake, invoke,
  step, run, as_call,
}
use storm_byte_buffer.Monitor.Wakeups.{Outcome-cases}

-- Neither a seek back nor an assignment from a `FIFO`.
abbrev pub IsForward : Call → Type 0
IsForward (seeks offset mode) = ⊥
IsForward (assigns other) = ⊥
IsForward _ = Unit {0}

abbrev pub AreForward : List Move → Type 0
AreForward [] = Unit {0}
AreForward (invokes t c ∷ vs) = IsForward c × AreForward vs
AreForward (wakes i ∷ vs) = AreForward vs

-- What holds of every method that has returned: of the call, its result and its bytes.
abbrev pub AreAll : (Call → Bool → Data → Type 0) → List (Option Event) → Type 0
AreAll q [] = Unit {0}
AreAll q (none ∷ es) = AreAll q es
AreAll q (some e ∷ es) = q e.call e.done e.out × AreAll q es

abbrev pub IsRefused : Call → Bool → Data → Type 0
IsRefused (writes count bytes) done out = done ≡ false
IsRefused _ done out = Unit {0}

abbrev pub IsBare : Call → Bool → Data → Type 0
IsBare c done out = out ≡ []

-- What calls that have returned, and waits that have ended, all keep.
module _ (p : Shared → Type 0) (q : Call → Bool → Data → Type 0) where
  abbrev pub Settled : Call → Outcome → Type 0
  Settled c (finished x) = p x.shared × q c x.done x.out
  Settled c (blocked n w) = Unit {0}

  abbrev Replied : Option Event × Monitor → Type 0
  Replied (none, m) = p m.shared
  Replied (some e, m) = p m.shared × q e.call e.done e.out

  module _
      (resumes : (w : Pending) (s : Shared)
        → p s
        → Settled (as_call w) (finished (resume w s))) where
    wake-Replied : (i : ℕ) (m : Monitor) → p m.shared → Replied (wake i m)
    unfolding wake
    wake-Replied i m k = elim (Option-cases (pick i m.waiters)) [
      | inl e ↦ rw (e, wake) k
      | inr ((w, rest), e) ↦ elim (Bool-cases (ready w.need m.shared)) [
        | inl r ↦ rw (e, wake, r) (resumes w.pending m.shared k)
        | inr r ↦ rw (e, wake, r) k
      ]
    ]

    module _ ⦃h : Helpers⦄
        (starts : (c : Call) (s : Shared) → IsForward c → p s → Settled c (start c s)) where
      invoke-Replied :
          (t : ℕ) (c : Call) (m : Monitor) → IsForward c → p m.shared → Replied (invoke t c m)
      unfolding invoke
      invoke-Replied t c m i k =
          let now = starts c m.shared i k in
          elim (Outcome-cases (start c m.shared)) [
            | inl (x, e) ↦
                let settled : Settled c (finished x) = subst (Settled c) e now in
                rw (e, invoke) settled
            | inr (n, w, e) ↦ rw (e, invoke) k
          ]

      gathered :
          (r : Option Event × Monitor) (vs : List Move)
          → Replied r
          → (p (run vs r.1).1.shared × AreAll q (run vs r.1).0)
          → p (run vs r.1).1.shared × AreAll q (r.0 ∷ (run vs r.1).0)
      gathered (none, m) vs k rest = rest
      gathered (some e, m) vs k rest = (rest.0, (k.1, rest.1))

      still : (r : Option Event × Monitor) → Replied r → p r.1.shared
      still (none, m) k = k
      still (some e, m) k = k.0

      pub run-AreAll :
          (vs : List Move) (m : Monitor)
          → AreForward vs
          → p m.shared
          → p (run vs m).1.shared × AreAll q (run vs m).0
      unfolding run step
      run-AreAll [] m i k = (k, tt)
      run-AreAll (invokes t c ∷ vs) m i k =
          let r = invoke-Replied t c m i.0 k in
          gathered (invoke t c m) vs r (run-AreAll vs (invoke t c m).1 i.1 (still (invoke t c m) r))
      run-AreAll (wakes j ∷ vs) m i k =
          let r = wake-Replied j m k in
          gathered (wake j m) vs r (run-AreAll vs (wake j m).1 i (still (wake j m) r))
