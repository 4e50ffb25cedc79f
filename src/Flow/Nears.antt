-- ===== src/Flow/Nears.antt =====
-- How far a stage of a row is from its end, its input being over: shared_fifo.cxx and fifo.cxx.
use mathlib.Core.Path.{subst}
use storm_byte_buffer.Prelude.{
  ℕ, ◌+◌, ◌-◌, ◌≤◌, ◌≡◌, refl, ap, ◌∙◌, true, List, [], ◌∷◌, map, length, max_size, arith,
}
use storm_byte_buffer.Typedefs.{Data, Helpers}
use storm_byte_buffer.Shared
use storm_byte_buffer.Monitor.Shutdown.{is_over}
use storm_byte_buffer.Session.{takes, looks, Phase, before, asleep, over, Session}
use storm_byte_buffer.Relay.{extract_chunk, test_eof}
use storm_byte_buffer.Relay.Keeps.{IsAwake}
use storm_byte_buffer.Relay.Finish.{loops, holds, holds_le, loops_le, taken_loops}
use storm_byte_buffer.Flow.{Ending, trailer, last_call, shut, Node, conclude, act}
use storm_byte_buffer.Flow.Nodes.{IsNode, IsFlow, extra}
use storm_byte_buffer.Flow.Works.{act-Works}

abbrev closings : Ending → ℕ
closings trailer = 3
closings last_call = 1
closings shut = 0

closings_le : (e : Ending) → closings e ≤ 3
closings_le trailer = omega arith
closings_le last_call = omega arith
closings_le shut = omega arith

-- How many moves a stage still makes on an input that is over.
abbrev pub measure : Node → ℕ
measure n = holds n.held + loops n.session.phase n.session.shared + closings n.ending

pub measure_le : (n : Node) → measure n ≤ 8
measure_le n =
    omega (arith, holds_le n.held, loops_le n.session.phase n.session.shared, closings_le n.ending)

shut_now : (e : Ending) → closings e ≤ 0 → e ≡ shut
shut_now trailer m = absurd (omega arith)
shut_now last_call m = absurd (omega arith)
shut_now shut m = refl

-- A stage that has no move left has closed its output.
pub shut_next :
    (n : Node) (v : Data) (next : Session)
    → IsNode n v next
    → measure n ≤ 0
    → is_over next.shared ≡ true
shut_next n v next k m =
    let closed = (k.is_shut (shut_now n.ending (omega arith))).1 in ground arith

module _ ⦃h : Helpers⦄ where
  -- A stage whose input is over, with at most so many moves to make.
  abbrev pub Nears : ℕ → Data → List Node × Session → Type 0
  Nears j w (ns, last) =
      (n : Node) × (rest : List Node) × (ns ≡ n ∷ rest)
      × IsFlow w (n ∷ rest) last
      × (length w + extra (n ∷ rest) ≤ max_size)
      × (is_over n.session.shared ≡ true)
      × (measure n ≤ j)

  conclude-Nears :
      (e : Ending) (j : ℕ) (w : Data) (n : Node) (ns : List Node) (last : Session)
      → n.ending ≡ e
      → n.held ≡ []
      → n.session.phase ≡ over
      → IsFlow w (conclude e n ns last).0 (conclude e n ns last).1
      → length w + extra (conclude e n ns last).0 ≤ max_size
      → is_over n.session.shared ≡ true
      → measure n ≤ j
      → Nears (j - 1) w (conclude e n ns last)
  unfolding conclude
  conclude-Nears trailer j w n ns last e none o k small closed m =
      let at_end = ap (λ (p : Phase). loops p n.session.shared) o in
      (
        _,
        _,
        refl,
        k,
        small,
        closed,
        omega (arith, ap closings e, holds_le n.filter.closing, at_end),
      )
  conclude-Nears last_call j w n ns last e none o k small closed m =
      let at_end = ap (λ (p : Phase). loops p n.session.shared) o in
      (_, _, refl, k, small, closed, omega (arith, ap closings e, ap holds none, at_end))
  conclude-Nears shut j w n ns last e none o k small closed m =
      let at_end = ap (λ (p : Phase). loops p n.session.shared) o in
      (_, _, refl, k, small, closed, omega (arith, ap closings e, ap holds none, at_end))

  pub act-Nears :
      (j : ℕ) (w : Data) (held : Data) (p : Phase) (n : Node) (ns : List Node) (last : Session)
      → n.held ≡ held
      → n.session.phase ≡ p
      → IsFlow w (n ∷ ns) last
      → length w + extra (n ∷ ns) ≤ max_size
      → is_over n.session.shared ≡ true
      → measure n ≤ j
      → Nears (j - 1) w (act held p n ns last)
  unfolding act test_eof Shared.eof
  act-Nears j w (x ∷ xs) p n ns last e o k small closed m =
      let (flow, _, more) = act-Works w n ns last (x ∷ xs) p e o small k in
      (_, _, refl, flow, omega (arith, more), closed, omega (arith, ap holds e))
  act-Nears j w [] (before takes) n ns last e o k small closed m =
      let (flow, _, more) = act-Works w n ns last [] (before takes) e o small k in
      let (loops_once, same) = taken_loops w n.session k.0 o in
      (
        _,
        _,
        refl,
        flow,
        omega (arith, more),
        same ∙ closed,
        omega (
          arith,
          ap holds e,
          ap (λ (q : Phase). loops q n.session.shared) o,
          loops_once,
          holds_le (map n.filter.each (extract_chunk n.session).0),
        ),
      )
  act-Nears j w [] (before looks) n ns last e o k small closed m =
      let (flow, _, more) = act-Works w n ns last [] (before looks) e o small k in
      let full = ap (λ (q : Phase). loops q n.session.shared) o in
      (_, _, refl, flow, omega (arith, more), closed, ground (arith, ap holds e, full))
  act-Nears j w [] (asleep turn i q) n ns last e o (fed, v, k, rest) small closed m =
      absurd (subst IsAwake o k.awake)
  act-Nears j w [] over n ns last e o k small closed m =
      let (flow, _, more) = act-Works w n ns last [] over e o small k in
      conclude-Nears n.ending j w n ns last refl e o flow (omega (arith, more)) closed m
