-- ===== src/Flow/Result.antt =====
-- What the reader behind a row of stages has got: shared_fifo.cxx and fifo.cxx.
use storm_byte_buffer.Prelude.{
  ℕ, ◌+◌, ◌≤◌, ◌≡◌, ◌≢◌, ◌⊎◌, refl, sym, ap, ◌∙◌, inl, inr, true, false, List, [], ◌∷◌, ◌++◌, map,
  append-nil, length, length-append, max_size, arith,
}
use storm_byte_buffer.Typedefs.{Data, Operation, Helpers}
use storm_byte_buffer.Session.{over, Session, begin}
use storm_byte_buffer.Chain.{Move, fresh}
use storm_byte_buffer.Chain.Links.{Fed}
use storm_byte_buffer.Chain.Result.{got_all, fresh-Fed, fresh_lem}
use storm_byte_buffer.Chain.Steps.{AreFed, total}
use storm_byte_buffer.Relay.Result.{looking-Fed}
use storm_byte_buffer.Flow.{Filter, Ending, trailer, last_call, shut, Node, node, lay, run}
use storm_byte_buffer.Flow.Nodes.{first, passed_on, IsNode, IsFlow, extra}
use storm_byte_buffer.Flow.Steps.{filters, run-Reaches}

-- What one stage makes of its input, and what the stages make of it in their order.
abbrev pub filtered : Filter → Data → Data
filtered f d = f.opening ++ map f.each d ++ f.closing

abbrev pub piped : List Filter → Data → Data
piped [] d = d
piped (f ∷ fs) d = piped fs (filtered f d)

-- The bytes that the stages add.
abbrev pub added_by : List Filter → ℕ
added_by [] = 0
added_by (f ∷ fs) = length f.opening + length f.closing + added_by fs

-- No buffer is in error.
abbrev pub AreCalm : List Node → Session → Type 0
AreCalm [] last = last.shared.error ≡ false
AreCalm (n ∷ ns) last = (n.session.shared.error ≡ false) × AreCalm ns last

first_calm :
    (ns : List Node) (last : Session) → AreCalm ns last → (first ns last).shared.error ≡ false
first_calm [] last c = c
first_calm (n ∷ ns) last c = c.0

shut_cases : (e : Ending) → (e ≡ shut) ⊎ (e ≢ shut)
shut_cases trailer = inr (λ e. cc e)
shut_cases last_call = inr (λ e. cc e)
shut_cases shut = inl refl

-- A stage that has closed its output, which is not in error, has put all into it.
IsNode-shut :
    (n : Node) (v : Data) (next : Session)
    → IsNode n v next
    → next.shared.closed ≡ true
    → next.shared.error ≡ false
    → (n.session.phase ≡ over) × (v ≡ filtered n.filter n.session.out)
IsNode-shut n v next k closed calm = elim (shut_cases n.ending) [
  | inr yet ↦ let open_yet = k.unshut yet in absurd cc
  | inl e ↦ elim k.passed [
    | inr bad ↦ absurd cc
    | inl a ↦ (
      k.ended (λ x. cc (e, x)),
      sym (append-nil v)
          ∙ ap (λ (ys : Data). v ++ ys) (sym (k.is_shut e).0)
          ∙ a
          ∙ ap (λ (x : Ending). passed_on n.filter x n.session.out) e,
    )
  ]
]

flow_end :
    (w : Data) (ns : List Node) (last : Session)
    → IsFlow w ns last
    → AreCalm ns last
    → last.phase ≡ over
    → (last.out ≡ piped (filters ns) w) × ((first ns last).shared.closed ≡ true)
flow_end w [] last k calm o = got_all w last k o calm
flow_end w (n ∷ ns) last (fed, v, k, rest) (calm, calms) o =
    let (got, closed) = flow_end v ns last rest calms o in
    let (ended, arrived) = IsNode-shut n v (first ns last) k closed (first_calm ns last calms) in
    let (read, closed') = got_all w n.session fed ended calm in
    (got ∙ ap (piped (filters ns)) (arrived ∙ ap (filtered n.filter) read), closed')

node-Fed : (f : Filter) → Fed [] (node f).session
unfolding node
node-Fed f = looking-Fed

node-IsNode :
    (f : Filter) (next : Session)
    → next.shared.closed ≡ false
    → length next.shared.fifo.buffer ≡ 0
    → IsNode (node f) [] next
unfolding node fresh begin
node-IsNode f next open_yet none = record {
  passed = inl (sym (append-nil (f.opening ++ []) ∙ append-nil f.opening));
  room = omega (arith, none, length-append (f.opening ++ []) [], length-append f.opening []);
  bound = omega (arith, length-append (f.opening ++ []) [], length-append f.opening []);
  unshut = λ e. open_yet;
  is_shut = λ e. absurd (cc e);
  ended = λ e. absurd (e refl);
  awake = tt;
}

node_lem :
    (f : Filter)
    → ((node f).session.shared.closed ≡ false)
      × (length (node f).session.shared.fifo.buffer ≡ 0)
      × ((node f).filter ≡ f)
unfolding node
node_lem f = let (open_yet, none) = fresh_lem Operation.extract in (open_yet, none, refl)

lay-IsFlow :
    (flag : Operation) (fs : List Filter)
    → flag ≢ Operation.peek
    → IsFlow [] (lay fs) (fresh flag)
      × (filters (lay fs) ≡ fs)
      × (extra (lay fs) ≡ added_by fs)
      × ((first (lay fs) (fresh flag)).shared.closed ≡ false)
      × (length (first (lay fs) (fresh flag)).shared.fifo.buffer ≡ 0)
unfolding lay
lay-IsFlow flag [] ne =
    let (open_yet, none) = fresh_lem flag in (fresh-Fed flag ne, refl, refl, open_yet, none)
lay-IsFlow flag (f ∷ fs) ne =
    let (flow, same, more, open_yet, none) = lay-IsFlow flag fs ne in
    let (open_yet', none', e) = node_lem f in
    (
      (node-Fed f, [], node-IsNode f (first (lay fs) (fresh flag)) open_yet none, flow),
      ap (λ (g : Filter). g ∷ filters (lay fs)) e ∙ ap (λ (gs : List Filter). f ∷ gs) same,
      ap (λ (g : Filter). length g.opening + length g.closing + extra (lay fs)) e
          ∙ ap (λ (i : ℕ). length f.opening + length f.closing + i) more,
      open_yet',
      none',
    )

module _ ⦃h : Helpers⦄ where
  pub reached :
      (flag : Operation) (fs : List Filter) (vs : List Move)
      → flag ≢ Operation.peek
      → AreFed vs
      → total vs + added_by fs ≤ max_size
      → let (given, ns, last) = run flag vs (lay fs) (fresh flag) in
        IsFlow given ns last × (filters ns ≡ fs) × (length given + extra ns ≤ max_size)
  reached flag fs vs ne i fits =
      let (flow, same, more, _, none) = lay-IsFlow flag fs ne in
      let (flow', same', more', (small, _)) =
        run-Reaches flag vs 0 [] (lay fs) (fresh flag) ne i (omega arith, omega (arith, none))
          (omega (arith, more)) flow in
      (flow', same' ∙ same, omega (arith, small, more', more))

  -- Pipe functions in a row, each of which writes some bytes, then each chunk that it extracts, with
  -- its bytes changed, as it comes, then some bytes at the end, and closes its output, in any
  -- interleaving, with errors set at any time, while the caller writes to the first buffer and closes
  -- it, and reads the last one until its end. All that is written to a buffer fits into a vector. If
  -- the caller's reading has ended and no buffer is in error, then what it has got is what the stages
  -- in their order make of all that the caller has written.
  pub flow_computes :
      (flag : Operation) (fs : List Filter) (vs : List Move)
      → flag ≢ Operation.peek
      → AreFed vs
      → total vs + added_by fs ≤ max_size
      → (run flag vs (lay fs) (fresh flag)).2.phase ≡ over
      → AreCalm (run flag vs (lay fs) (fresh flag)).1 (run flag vs (lay fs) (fresh flag)).2
      → let (given, ns, last) = run flag vs (lay fs) (fresh flag) in last.out ≡ piped fs given
  flow_computes flag fs vs ne i fits o calm =
      let (given, ns, last) = run flag vs (lay fs) (fresh flag) in
      let (flow, same, _) = reached flag fs vs ne i fits in
      (flow_end given ns last flow calm o).0 ∙ ap (λ (gs : List Filter). piped gs given) same
