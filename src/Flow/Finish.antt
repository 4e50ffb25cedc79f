-- ===== src/Flow/Finish.antt =====
-- How the stages of a row come to their end: shared_fifo.cxx and fifo.cxx.
use mathlib.Core.Path.{subst}
use storm_byte_buffer.Prelude.{
  ℕ, zero, suc, ◌+◌, ◌-◌, ◌≤◌, ◌≡◌, ◌≢◌, refl, sym, ap, ◌∙◌, true, List, [], ◌∷◌, length, max_size,
  arith,
}
use storm_byte_buffer.Typedefs.{Data, Operation, Helpers}
use storm_byte_buffer.Monitor.Shutdown.{is_over}
use storm_byte_buffer.Session.{over, Session}
use storm_byte_buffer.Chain.{Move, fresh}
use storm_byte_buffer.Chain.Result.{thrice_proceeds}
use storm_byte_buffer.Chain.Links.{Fed}
use storm_byte_buffer.Chain.Steps.{AreFed, total}
use storm_byte_buffer.Chain.Turns.{zeros, settle, turns, turns-zeros, kept-turns, turns-settle}
use storm_byte_buffer.Flow.{Filter, Node, lay, prompt, run}
use storm_byte_buffer.Flow.Nodes.{first, IsFlow, extra, length-passed_on, length-behind_loop-le}
use storm_byte_buffer.Flow.Steps.{filters, filters-prompt}
use storm_byte_buffer.Flow.Nears.{Nears, measure_le, shut_next, act-Nears}
use storm_byte_buffer.Flow.Result.{added_by, reached}
use storm_byte_buffer.Relay.Keeps.{length-out-le}

length-filters : (ns : List Node) → length (filters ns) ≡ length ns
length-filters [] = refl
length-filters (n ∷ ns) = ap suc (length-filters ns)

-- What is put into the output of the first stage has room behind it.
room_next :
    (w : Data) (n : Node) (ns : List Node) (last : Session) (k : IsFlow w (n ∷ ns) last)
    → length w + extra (n ∷ ns) ≤ max_size
    → length k.1 + extra ns ≤ max_size
room_next w n ns last (fed, v, k, rest) small = omega (
  arith,
  k.bound,
  length-passed_on n.filter n.ending n.session.out,
  length-behind_loop-le n.ending n.filter.closing,
  length-out-le w n.session fed,
)

module _ ⦃h : Helpers⦄ where
  later :
      (flag : Operation) (k : ℕ) (n : Node) (ns : List Node) (last : Session)
      → prompt flag (suc k) (n ∷ ns) last
        ≡ (n ∷ (prompt flag k ns last).0, (prompt flag k ns last).1)
  unfolding prompt
  later flag k n ns last = refl

module _ ⦃h : Helpers⦄ (flag : Operation) (ne : flag ≢ Operation.peek) where
  prompt-Nears :
      (w : Data) (j : ℕ) (ns : List Node) (last : Session)
      → Nears j w (ns, last)
      → Nears (j - 1) w (prompt flag 0 ns last)
  unfolding prompt
  prompt-Nears w j ns last (n, rest, e, k, small, o, m) =
      subst (λ (xs : List Node). Nears (j - 1) w (prompt flag 0 xs last)) (sym e)
        (act-Nears j w n.held n.session.phase n rest last refl refl k small o m)

  length-turns :
      (ks : List ℕ) (ns : List Node) (last : Session)
      → length (turns (prompt flag) ks ns last).0 ≡ length ns
  length-turns ks ns last =
      sym (length-filters (turns (prompt flag) ks ns last).0)
      ∙ ap length (kept-turns (prompt flag) filters (filters-prompt flag) ks ns last)
      ∙ length-filters ns

  finish_last :
      (w : Data) (m : Session)
      → Fed w m
      → is_over m.shared ≡ true
      → (turns (prompt flag) (zeros 3) [] m).1.phase ≡ over
  unfolding turns prompt
  finish_last w m f o = thrice_proceeds flag w m ne f o

  finish_all :
      (i : ℕ) (w : Data) (ns : List Node) (last : Session)
      → length ns ≡ i
      → IsFlow w ns last
      → length w + extra ns ≤ max_size
      → is_over (first ns last).shared ≡ true
      → (turns (prompt flag) (settle 8 i) ns last).1.phase ≡ over
  finish_all zero w [] last e k small o = finish_last w last k o
  finish_all zero w (n ∷ ns) last e k small o = absurd (omega arith)
  finish_all (suc i) w [] last e k small o = absurd (omega arith)
  finish_all (suc i) w (n ∷ ns) last e k small o =
      let (ns1, last1) = turns (prompt flag) (zeros 8) (n ∷ ns) last in
      let (n', rest, same, flow, small', o', m) =
        turns-zeros (prompt flag) (λ j s. Nears j w s) (prompt-Nears w) 8 8 (n ∷ ns) last
          (n, ns, refl, k, small, o, measure_le n) in
      let (_, v, k', rest') = flow in
      let len : length rest ≡ i =
        omega (arith, ap length same, length-turns (zeros 8) (n ∷ ns) last, e) in
      ap (λ (m : Session). m.phase)
        (turns-settle (prompt flag) (later flag) 8 i n' (n ∷ ns) rest last same)
      ∙ finish_all i v rest last1 len rest' (room_next w n' rest last1 flow small')
          (shut_next n' v (first rest last1) k' m)

module _ ⦃h : Helpers⦄ where
  -- Pipe functions in a row, each of which writes some bytes, then each chunk with its bytes changed,
  -- as it comes, then some bytes at the end, and closes its output, after any moves of the threads
  -- and the caller, with errors or not, if all that is written to a buffer fits into a vector: once
  -- the first buffer is closed or in error, eight moves of each stage, in their order, and three of
  -- the last reader bring the last reader to its end, also if it only wakes up for a notification.
  pub flow_finishes :
      (flag : Operation) (fs : List Filter) (vs : List Move)
      → flag ≢ Operation.peek
      → AreFed vs
      → total vs + added_by fs ≤ max_size
      → is_over
          (first (run flag vs (lay fs) (fresh flag)).1 (run flag vs (lay fs) (fresh flag)).2).shared
        ≡ true
      → let (given, ns, last) = run flag vs (lay fs) (fresh flag) in
        (turns (prompt flag) (settle 8 (length fs)) ns last).1.phase ≡ over
  flow_finishes flag fs vs ne i fits o =
      let (given, ns, last) = run flag vs (lay fs) (fresh flag) in
      let (flow, same, small) = reached flag fs vs ne i fits in
      finish_all flag ne (length fs) given ns last (sym (length-filters ns) ∙ ap length same) flow
        small o
