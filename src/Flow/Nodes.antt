-- ===== src/Flow/Nodes.antt =====
-- What holds of a row of stages at every point: shared_fifo.cxx and fifo.cxx.
use mathlib.Core.Path.{subst}
use storm_byte_buffer.Prelude.{
  ℕ, ◌+◌, ◌≤◌, ◌≡◌, ◌≢◌, ◌⊎◌, refl, sym, ap, ◌∙◌, inl, inr, true, false, List, [], ◌∷◌, ◌++◌, map,
  length, length-append, max_size, arith,
}
use storm_byte_buffer.Typedefs.{Data, Helpers}
use storm_byte_buffer.Monitor.{Call}
use storm_byte_buffer.Monitor.Outcomes.{added}
use storm_byte_buffer.Session.{over, Session, intervene}
use storm_byte_buffer.Session.Feeds.{IsFeed}
use storm_byte_buffer.Chain.Links.{Fed, Follows, intervene-Fed}
use storm_byte_buffer.Chain.Links.{intervene_calm}
use storm_byte_buffer.Relay.Keeps.{IsAwake, length-map}
use storm_byte_buffer.Flow.{Filter, Ending, trailer, last_call, shut, Node, call_next}

-- The buffer that these stages begin with.
abbrev pub first : List Node → Session → Session
first [] last = last
first (n ∷ ns) last = n.session

abbrev pub behind_loop : Ending → Data → Data
behind_loop trailer closing = []
behind_loop last_call closing = closing
behind_loop shut closing = closing

-- The bytes that a stage has written or is about to write, when it has extracted these.
abbrev pub passed_on : Filter → Ending → Data → Data
passed_on f e out = f.opening ++ map f.each out ++ behind_loop e f.closing

-- A stage, into whose output `v` has been put.
pub record IsNode (n : Node) (v : Data) (next : Session) : Type 0 where
  pub passed :
      (v ++ n.held ≡ passed_on n.filter n.ending n.session.out) ⊎ (next.shared.error ≡ true)
  pub room :
      length next.shared.fifo.buffer + length n.held
      ≤ length (passed_on n.filter n.ending n.session.out)
  pub bound : length v + length n.held ≤ length (passed_on n.filter n.ending n.session.out)
  pub unshut : n.ending ≢ shut → next.shared.closed ≡ false
  pub is_shut : n.ending ≡ shut → (n.held ≡ []) × (next.shared.closed ≡ true)
  pub ended : n.ending ≢ trailer → n.session.phase ≡ over
  pub awake : IsAwake n.session.phase

-- The row, when `w` has been put into its first buffer.
abbrev pub IsFlow : Data → List Node → Session → Type 0
IsFlow w [] last = Fed w last
IsFlow w (n ∷ ns) last =
    Fed w n.session × (v : Data) × IsNode n v (first ns last) × IsFlow v ns last

-- The bytes that the stages add.
abbrev pub extra : List Node → ℕ
extra [] = 0
extra (n ∷ ns) = length n.filter.opening + length n.filter.closing + extra ns

pub first-Fed :
    (w : Data) (ns : List Node) (last : Session) → IsFlow w ns last → Fed w (first ns last)
first-Fed w [] last k = k
first-Fed w (n ∷ ns) last k = k.0

pub IsNode-Follows :
    (n : Node) (v : Data) (next next' : Session)
    → Follows next next'
    → IsNode n v next
    → IsNode n v next'
IsNode-Follows n v next next' f k = record {
  passed = elim k.passed [ inl e ↦ inl e | inr e ↦ inr (f.error e) ];
  room = omega (arith, k.room, f.length_le);
  bound = k.bound;
  unshut = λ e. f.closed ∙ k.unshut e;
  is_shut = λ e. ((k.is_shut e).0, f.closed ∙ (k.is_shut e).1);
  ended = k.ended;
  awake = k.awake;
}

-- A session that has only been fed.
pub IsNode-calm :
    (n : Node) (m : Session) (v : Data) (next : Session)
    → m.phase ≡ n.session.phase
    → m.out ≡ n.session.out
    → IsNode n v next
    → IsNode (record n { session = m }) v next
IsNode-calm n m v next e e' k =
    let same : passed_on n.filter n.ending n.session.out ≡ passed_on n.filter n.ending m.out =
      ap (passed_on n.filter n.ending) (sym e') in
    record {
      passed = elim k.passed [ inl p ↦ inl (p ∙ same) | inr p ↦ inr p ];
      room = omega (arith, k.room, ap (λ (ys : Data). length ys) same);
      bound = omega (arith, k.bound, ap (λ (ys : Data). length ys) same);
      unshut = k.unshut;
      is_shut = k.is_shut;
      ended = λ x. e ∙ k.ended x;
      awake = subst IsAwake (sym e) k.awake;
    }

length_parts :
    (f : Filter) (out end : Data)
    → length (f.opening ++ map f.each out ++ end) ≡ length f.opening + length out + length end
length_parts f out end = omega (
  arith,
  length-append (f.opening ++ map f.each out) end,
  length-append f.opening (map f.each out),
  length-map f.each out,
)

pub length-passed_on :
    (f : Filter) (e : Ending) (out : Data)
    → length (passed_on f e out) ≡ length f.opening + length out + length (behind_loop e f.closing)
length-passed_on f e out = length_parts f out (behind_loop e f.closing)

pub length-behind_loop-le : (e : Ending) (xs : Data) → length (behind_loop e xs) ≤ length xs
length-behind_loop-le trailer xs = omega arith
length-behind_loop-le last_call xs = omega arith
length-behind_loop-le shut xs = omega arith

module _ ⦃h : Helpers⦄ where
  -- A call on the first buffer of these.
  pub call-IsFlow :
      (c : Call) (w : Data) (ns : List Node) (last : Session)
      → IsFeed c
      → IsFlow w ns last
      → length (first ns last).shared.fifo.buffer + added c ≤ max_size
      → let (xs, ns', last') = call_next c ns last in
        IsFlow (w ++ xs) ns' last'
        × (xs ≡ (intervene c (first ns last)).0)
        × (first ns' last' ≡ (intervene c (first ns last)).1)
  unfolding call_next
  call-IsFlow c w [] last i k fits = (intervene-Fed c w last i k fits, refl, refl)
  call-IsFlow c w (n ∷ ns) last i (fed, v, k, rest) fits =
      let (e, e') = intervene_calm c n.session in
      (
        (
          intervene-Fed c w n.session i fed fits,
          v,
          IsNode-calm n (intervene c n.session).1 v (first ns last) e e' k,
          rest,
        ),
        refl,
        refl,
      )
