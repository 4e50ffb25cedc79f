-- ===== src/Fifo/Stream.antt =====
-- The order of the bytes that a client writes to a `FIFO` and reads off it: fifo.cxx.
use storm_byte_buffer.Prelude.{
  ◌+◌, ◌≤◌, ◌≡◌, sym, ap, List, [], ◌∷◌, ◌++◌, append-nil, append_assoc, length, take,
  take-append-drop, max_size, ◌==◌, if◌then◌else◌, arith, Option-cases, inl, inr,
}
use mathlib.Core.Path.{subst, ◌≡⟨◌⟩◌, ◌∎}
use storm_byte_buffer.Typedefs.{Data, Operation, Helpers}
use storm_byte_buffer.Tape
use storm_byte_buffer.Tape.{Tape, amount, take_from}
use storm_byte_buffer.Fifo.{Fifo}
use storm_byte_buffer.Fifo.Bounds.{IsValid}
use storm_byte_buffer.Fifo.Refine.{view}
use storm_byte_buffer.Fifo.Calls.{
  Call, writes, reads, Reply, step, run, step_tape, run_tape, total, AreCalls, IsCall,
}
use storm_byte_buffer.Fifo.Sequence.{step_refines, run_refines}

-- The calls that neither move the position by hand nor throw bytes away.
abbrev pub IsStream : Call → Type 0
IsStream (writes count bytes) = Unit {0}
IsStream (reads count flag) = Unit {0}
IsStream _ = ⊥

abbrev pub AreStream : List Call → Type 0
AreStream [] = Unit {0}
AreStream (c ∷ cs) = IsStream c × AreStream cs

-- The bytes that a write has put in, by its reply.
abbrev pub given : Call → Reply → Data
given (writes count bytes) (done, _) =
    if done then (if count == 0 then bytes else take count bytes) else []
given _ r = []

-- The bytes that a read has moved past, by its reply. A peek moves past none.
abbrev pub taken : Call → Reply → Data
taken (reads count Operation.peek) r = []
taken (reads count _) (_, out) = out
taken _ r = []

abbrev pub all_given : List Call → List Reply → Data
all_given (c ∷ cs) (r ∷ rs) = given c r ++ all_given cs rs
all_given _ _ = []

abbrev pub all_taken : List Call → List Reply → Data
all_taken (c ∷ cs) (r ∷ rs) = taken c r ++ all_taken cs rs
all_taken _ _ = []

step_stream :
    (c : Call) (t : Tape)
    → IsStream c
    → let (r, t') = step_tape c t in t.ahead ++ given c r ≡ taken c r ++ t'.ahead
unfolding step_tape Tape.write Tape.append Tape.transfer take_from
step_stream (writes count bytes) t s = ground (arith, append-nil t.ahead)
step_stream (reads count Operation.peek) t s = ground (arith, append-nil t.ahead)
step_stream (reads count Operation.read) t s = elim (Option-cases (amount count t.ahead)) [
  | inl e ↦ ground (arith, append-nil t.ahead)
  | inr (n, e) ↦ ground (arith, append-nil t.ahead, take-append-drop n t.ahead)
]
step_stream (reads count Operation.extract) t s = elim (Option-cases (amount count t.ahead)) [
  | inl e ↦ ground (arith, append-nil t.ahead)
  | inr (n, e) ↦ ground (arith, append-nil t.ahead, take-append-drop n t.ahead)
]
step_stream (Call.drops count) t s = absurd s
step_stream (Call.seeks offset mode) t s = absurd s
step_stream Call.cleans t s = absurd s
step_stream Call.clears t s = absurd s

run_tape_stream :
    (cs : List Call) (t : Tape)
    → AreStream cs
    → let (rs, t') = run_tape cs t in t.ahead ++ all_given cs rs ≡ all_taken cs rs ++ t'.ahead
unfolding run_tape
run_tape_stream [] t s = append-nil t.ahead
run_tape_stream (c ∷ cs) t s =
    let (r, t') = step_tape c t in
    let (rs, t'') = run_tape cs t' in
    t.ahead ++ (given c r ++ all_given cs rs)
    ≡⟨ sym (append_assoc t.ahead (given c r) (all_given cs rs)) ⟩
      (t.ahead ++ given c r) ++ all_given cs rs
    ≡⟨ ap (λ (d : Data). d ++ all_given cs rs) (step_stream c t s.0) ⟩
      (taken c r ++ t'.ahead) ++ all_given cs rs
    ≡⟨ append_assoc (taken c r) t'.ahead (all_given cs rs) ⟩
      taken c r ++ (t'.ahead ++ all_given cs rs)
    ≡⟨ ap (λ (d : Data). taken c r ++ d) (run_tape_stream cs t' s.1) ⟩
      taken c r ++ (all_taken cs rs ++ t''.ahead)
    ≡⟨ sym (append_assoc (taken c r) (all_taken cs rs) t''.ahead) ⟩
      (taken c r ++ all_taken cs rs) ++ t''.ahead ∎

stream-IsCall : (c : Call) → IsStream c → IsCall c
stream-IsCall (writes count bytes) s = tt
stream-IsCall (reads count flag) s = tt
stream-IsCall (Call.drops count) s = absurd s
stream-IsCall (Call.seeks offset mode) s = absurd s
stream-IsCall Call.cleans s = tt
stream-IsCall Call.clears s = tt

pub stream-AreCalls : (cs : List Call) → AreStream cs → AreCalls cs
stream-AreCalls [] s = tt
stream-AreCalls (c ∷ cs) s = (stream-IsCall c s.0, stream-AreCalls cs s.1)

module _ ⦃h : Helpers⦄ where
  -- The same of one call.
  pub step-stream :
      {f : Fifo} (c : Call)
      → IsStream c
      → IsValid f
      → let (r, f') = step c f in (view f).ahead ++ given c r ≡ taken c r ++ (view f').ahead
  step-stream {f} c s v =
      subst (λ (p : Reply × Tape). (view f).ahead ++ given c p.0 ≡ taken c p.0 ++ p.1.ahead)
        (sym (step_refines c (stream-IsCall c s) v)) (step_stream c (view f) s)

  -- Over any sequence of writes, reads, peeks and extracts of a valid `FIFO` whose bytes fit into a
  -- vector, the bytes read and extracted, followed by those still unread, are the bytes unread at
  -- the start, followed by those of the writes that succeeded: none is lost, repeated or reordered.
  pub first_in_first_out :
      {f : Fifo} (cs : List Call)
      → AreStream cs
      → IsValid f
      → length f.buffer + total cs ≤ max_size
      → let (rs, f') = run cs f in
        (view f).ahead ++ all_given cs rs ≡ all_taken cs rs ++ (view f').ahead
  first_in_first_out {f} cs s v room =
      subst
        (λ (p : List Reply × Tape).
          (view f).ahead ++ all_given cs p.0 ≡ all_taken cs p.0 ++ p.1.ahead)
        (sym (run_refines cs (stream-AreCalls cs s) v room)) (run_tape_stream cs (view f) s)
