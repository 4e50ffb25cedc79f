-- ===== src/Flow/Steps.antt =====
-- A run of a row of stages: shared_fifo.cxx and fifo.cxx.
use mathlib.Core.Path.{subst}
use storm_byte_buffer.Prelude.{
  ℕ, zero, suc, ◌+◌, ◌≤◌, ◌≡◌, ◌≢◌, refl, sym, ap, ◌∙◌, List, [], ◌∷◌, ◌++◌, append-nil,
  append_assoc, length, length-append, max_size, arith,
}
use storm_byte_buffer.Typedefs.{Data, Operation, Helpers}
use storm_byte_buffer.Monitor.{Call, writes, closes}
use storm_byte_buffer.Session.{takes, looks, Phase, before, asleep, over, Session}
use storm_byte_buffer.Chain.{Move, feeds, works, breaks}
use storm_byte_buffer.Chain.Links.{length-intervene-le}
use storm_byte_buffer.Chain.Steps.{IsFed, AreFed, growth, total}
use storm_byte_buffer.Relay.Steps.{length-put-le}
use storm_byte_buffer.Flow.{
  Filter, Ending, trailer, last_call, shut, Node, call_next, conclude, act, work, prompt, fail_at,
  step, run,
}
use storm_byte_buffer.Flow.Nodes.{first, IsFlow, extra, first-Fed, call-IsFlow}
use storm_byte_buffer.Flow.Loops.{Works, extra-call_next}
use storm_byte_buffer.Flow.Works.{work-Works, fail-Works}

abbrev pub filters : List Node → List Filter
filters [] = []
filters (n ∷ ns) = n.filter ∷ filters ns

module _ ⦃h : Helpers⦄ where
  filters-call_next :
      (c : Call) (ns : List Node) (last : Session) → filters (call_next c ns last).1 ≡ filters ns
  unfolding call_next
  filters-call_next c [] last = refl
  filters-call_next c (n ∷ ns) last = refl

  filters-conclude :
      (e : Ending) (n : Node) (ns : List Node) (last : Session)
      → filters (conclude e n ns last).0 ≡ filters (n ∷ ns)
  unfolding conclude
  filters-conclude trailer n ns last = refl
  filters-conclude last_call n ns last =
      ap (λ (fs : List Filter). n.filter ∷ fs) (filters-call_next closes ns last)
  filters-conclude shut n ns last = refl

  filters-act :
      (held : Data) (p : Phase) (n : Node) (ns : List Node) (last : Session)
      → filters (act held p n ns last).0 ≡ filters (n ∷ ns)
  unfolding act
  filters-act (x ∷ xs) p n ns last =
      ap (λ (fs : List Filter). n.filter ∷ fs)
        (filters-call_next (writes (length (x ∷ xs)) (x ∷ xs)) ns last)
  filters-act [] (before looks) n ns last = refl
  filters-act [] (before takes) n ns last = refl
  filters-act [] over n ns last = filters-conclude n.ending n ns last
  filters-act [] (asleep turn i p) n ns last = refl

  pub filters-work :
      (flag : Operation) (i : ℕ) (ns : List Node) (last : Session)
      → filters (work flag i ns last).0 ≡ filters ns
  unfolding work
  filters-work flag i [] last = refl
  filters-work flag zero (n ∷ ns) last = filters-act n.held n.session.phase n ns last
  filters-work flag (suc i) (n ∷ ns) last =
      ap (λ (fs : List Filter). n.filter ∷ fs) (filters-work flag i ns last)

  pub filters-prompt :
      (flag : Operation) (i : ℕ) (ns : List Node) (last : Session)
      → filters (prompt flag i ns last).0 ≡ filters ns
  unfolding prompt
  filters-prompt flag i [] last = refl
  filters-prompt flag zero (n ∷ ns) last = filters-act n.held n.session.phase n ns last
  filters-prompt flag (suc i) (n ∷ ns) last =
      ap (λ (fs : List Filter). n.filter ∷ fs) (filters-prompt flag i ns last)

  filters-fail_at :
      (i : ℕ) (ns : List Node) (last : Session) → filters (fail_at i ns last).0 ≡ filters ns
  unfolding fail_at
  filters-fail_at i [] last = refl
  filters-fail_at zero (n ∷ ns) last = refl
  filters-fail_at (suc i) (n ∷ ns) last =
      ap (λ (fs : List Filter). n.filter ∷ fs) (filters-fail_at i ns last)

  -- The first buffer and all that has been put into it are in so much room.
  abbrev pub Fits : ℕ → Data → Session → Type 0
  Fits room w m = (length w ≤ room) × (length m.shared.fifo.buffer ≤ room)

  -- What a move keeps, with the bytes that the caller has put in.
  abbrev Reaches : ℕ → Data → List Node → Data × List Node × Session → Type 0
  Reaches room w ns (xs, ns', last') =
      IsFlow (w ++ xs) ns' last'
      × (filters ns' ≡ filters ns)
      × (extra ns' ≡ extra ns)
      × Fits room (w ++ xs) (first ns' last')

  -- A move that puts no byte into the first buffer.
  quiet :
      (room : ℕ) (w : Data) (ns : List Node) (last : Session) (s : List Node × Session)
      → Fits room w (first ns last)
      → filters s.0 ≡ filters ns
      → Works w ns last s
      → Reaches (room + 0) w ns ([], s.0, s.1)
  quiet room w ns last (ns', last') (small, small') same (flow, follows, more) =
      subst
        (λ (ys : Data).
          IsFlow ys ns' last'
          × (filters ns' ≡ filters ns)
          × (extra ns' ≡ extra ns)
          × Fits (room + 0) ys (first ns' last'))
        (sym (append-nil w)) (flow, same, more, (omega arith, omega (arith, follows.length_le)))

  step-Reaches :
      (flag : Operation) (v : Move) (room : ℕ) (w : Data) (ns : List Node) (last : Session)
      → flag ≢ Operation.peek
      → IsFed v
      → Fits room w (first ns last)
      → room + growth v + extra ns ≤ max_size
      → IsFlow w ns last
      → Reaches (room + growth v) w ns (step flag v ns last)
  unfolding step
  step-Reaches flag (feeds c) room w ns last ne i (small, small') fits k =
      let (flow, put, same) = call-IsFlow c w ns last i k (omega arith) in
      (
        flow,
        filters-call_next c ns last,
        extra-call_next c ns last,
        (
          omega (
            arith,
            length-append w (call_next c ns last).0,
            ap (λ (ys : Data). length ys) put,
            length-put-le c (first ns last) i,
          ),
          omega (
            arith,
            ap (λ (m : Session). length m.shared.fifo.buffer) same,
            length-intervene-le c w (first ns last) i (first-Fed w ns last k) (omega arith),
          ),
        ),
      )
  step-Reaches flag (works j) room w ns last ne i small fits k =
      quiet room w ns last (work flag j ns last) small (filters-work flag j ns last)
        (work-Works flag j w ns last ne (omega (arith, small.0)) k)
  step-Reaches flag (breaks j) room w ns last ne i small fits k =
      quiet room w ns last (fail_at j ns last) small (filters-fail_at j ns last)
        (fail-Works j w ns last k)

  pub run-Reaches :
      (flag : Operation) (vs : List Move) (room : ℕ) (w : Data) (ns : List Node) (last : Session)
      → flag ≢ Operation.peek
      → AreFed vs
      → Fits room w (first ns last)
      → room + total vs + extra ns ≤ max_size
      → IsFlow w ns last
      → Reaches (room + total vs) w ns (run flag vs ns last)
  unfolding run
  run-Reaches flag [] room w ns last ne i (small, small') fits k =
      subst
        (λ (ys : Data).
          IsFlow ys ns last
          × (filters ns ≡ filters ns)
          × (extra ns ≡ extra ns)
          × Fits (room + 0) ys (first ns last))
        (sym (append-nil w)) (k, refl, refl, (omega arith, omega arith))
  run-Reaches flag (v ∷ vs) room w ns last ne i small fits k =
      let (xs, ns', last') = step flag v ns last in
      let (flow, same, more, small') =
        step-Reaches flag v room w ns last ne i.0 small (omega arith) k in
      let (ys, ns'', last'') = run flag vs ns' last' in
      let (flow', same', more', (fits_w, fits_first)) =
        run-Reaches flag vs (room + growth v) (w ++ xs) ns' last' ne i.1 small' (omega arith)
          flow in
      subst
        (λ (zs : Data).
          IsFlow zs ns'' last''
          × (filters ns'' ≡ filters ns)
          × (extra ns'' ≡ extra ns)
          × Fits (room + (growth v + total vs)) zs (first ns'' last''))
        (append_assoc w xs ys)
        (flow', same' ∙ same, more' ∙ more, (omega (arith, fits_w), omega (arith, fits_first)))
