-- ===== src/Fifo/Observe.antt =====
-- What a client that only writes and reads can tell of a `FIFO`: fifo.cxx.
use storm_byte_buffer.Prelude.{
  ◌+◌, ◌≤◌, ◌≡◌, refl, sym, ap, ap₂, ◌∙◌, List, [], ◌∷◌, length, max_size, arith,
}
use storm_byte_buffer.Typedefs.{Operation, Helpers}
use storm_byte_buffer.Tape
use storm_byte_buffer.Tape.{Tape, amount, take_from}
use storm_byte_buffer.Fifo.{Fifo}
use storm_byte_buffer.Fifo.Bounds.{IsValid}
use storm_byte_buffer.Fifo.Refine.{view}
use storm_byte_buffer.Fifo.Calls.{Call, writes, reads, Reply, run, step_tape, run_tape, total}
use storm_byte_buffer.Fifo.Sequence.{run_refines}
use storm_byte_buffer.Fifo.Stream.{IsStream, AreStream, stream-AreCalls}

step_ahead :
    (c : Call) (t u : Tape)
    → IsStream c
    → t.ahead ≡ u.ahead
    → ((step_tape c t).0 ≡ (step_tape c u).0) × ((step_tape c t).1.ahead ≡ (step_tape c u).1.ahead)
unfolding step_tape Tape.write Tape.append Tape.transfer take_from
step_ahead (writes count bytes) t u s e = ground arith
step_ahead (reads count Operation.peek) t u s e = ground arith
step_ahead (reads count Operation.read) t u s e = ground arith
step_ahead (reads count Operation.extract) t u s e = ground arith
step_ahead (Call.drops count) t u s e = absurd s
step_ahead (Call.seeks offset mode) t u s e = absurd s
step_ahead Call.cleans t u s e = absurd s
step_ahead Call.clears t u s e = absurd s

run_ahead :
    (cs : List Call) (t u : Tape)
    → AreStream cs
    → t.ahead ≡ u.ahead
    → ((run_tape cs t).0 ≡ (run_tape cs u).0) × ((run_tape cs t).1.ahead ≡ (run_tape cs u).1.ahead)
unfolding run_tape
run_ahead [] t u s e = (refl, e)
run_ahead (c ∷ cs) t u s e =
    let (same, e') = step_ahead c t u s.0 e in
    let (all, e'') = run_ahead cs (step_tape c t).1 (step_tape c u).1 s.1 e' in
    (ap₂ (λ (r : Reply) (rs : List Reply). r ∷ rs) same all, e'')

module _ ⦃h : Helpers⦄ where
  -- Two valid `FIFO`s with the same unread bytes cannot be told apart by writes, reads, peeks and
  -- extracts, however many bytes each has read and keeps, as long as all fits into a vector: the calls
  -- are answered in the same way, and the same bytes are unread at the end. (`Size`, `Seek` and `==` do
  -- tell them apart.)
  pub same_ahead_lem :
      (f g : Fifo) (cs : List Call)
      → AreStream cs
      → IsValid f
      → IsValid g
      → length f.buffer + total cs ≤ max_size
      → length g.buffer + total cs ≤ max_size
      → (view f).ahead ≡ (view g).ahead
      → ((run cs f).0 ≡ (run cs g).0) × ((view (run cs f).1).ahead ≡ (view (run cs g).1).ahead)
  same_ahead_lem f g cs s v w room room' e =
      let a = run_refines cs (stream-AreCalls cs s) v room in
      let b = run_refines cs (stream-AreCalls cs s) w room' in
      let (rs, end) = run_ahead cs (view f) (view g) s e in
      (
        ap (λ (p : List Reply × Tape). p.0) a ∙ rs ∙ ap (λ (p : List Reply × Tape). p.0) (sym b),
        ap (λ (p : List Reply × Tape). p.1.ahead) a
            ∙ end
            ∙ ap (λ (p : List Reply × Tape). p.1.ahead) (sym b),
      )
