-- ===== src/Flow/Works.antt =====
-- What every move of the stages of a row keeps: shared_fifo.cxx and fifo.cxx.
use storm_byte_buffer.Prelude.{
  ℕ, zero, suc, ◌+◌, ◌≤◌, ◌≡◌, ◌≢◌, refl, sym, ap, ◌∙◌, inl, inr, List, [], ◌∷◌, ◌++◌, map,
  append-nil, length, max_size, arith,
}
use storm_byte_buffer.Typedefs.{Data, Operation, Helpers}
use storm_byte_buffer.Monitor.{closes, set_errors}
use storm_byte_buffer.Session.{takes, looks, Phase, before, asleep, over, Session, intervene}
use storm_byte_buffer.Chain.Links.{advance-Fed, length-intervene-le, close_next}
use storm_byte_buffer.Chain.Links.{Follows-refl}
use storm_byte_buffer.Chain.Links.{error-Fed, intervene_calm}
use storm_byte_buffer.Relay.Keeps.{length-out-le}
use storm_byte_buffer.Flow.{
  Ending, trailer, last_call, shut, Node, call_next, conclude, act, work, fail_at,
}
use storm_byte_buffer.Flow.Nodes.{
  first, passed_on, IsFlow, extra, first-Fed, IsNode-Follows, IsNode-calm, length-passed_on,
  length-behind_loop-le, call-IsFlow,
}
use storm_byte_buffer.Flow.Loops.{Works, extra-call_next, write-Works, test-Works, take-Works}

module _ ⦃h : Helpers⦄ (w : Data) (n : Node) (ns : List Node) (last : Session) where
  turn-Works :
      n.held ≡ []
      → n.session.phase ≡ over
      → n.ending ≡ trailer
      → IsFlow w (n ∷ ns) last
      → Works w (n ∷ ns) last (conclude trailer n ns last)
  unfolding conclude
  turn-Works e o early (fed, v, k, rest) =
      let out = n.session.out in
      let shorter : passed_on n.filter n.ending out ≡ passed_on n.filter trailer out =
        ap (λ (x : Ending). passed_on n.filter x out) early in
      let start : v ≡ n.filter.opening ++ map n.filter.each out
          → v ++ n.filter.closing ≡ passed_on n.filter last_call out =
        λ a. ap (λ (ys : Data). ys ++ n.filter.closing) a in
      let none_held = ap (λ (ys : Data). length ys) e in
      let sums = ap (λ (ys : Data). length ys) shorter in
      let sum = length-passed_on n.filter trailer out in
      let sum' = length-passed_on n.filter last_call out in
      (
        (
          fed,
          v,
          record {
            passed = elim k.passed [
              | inr bad ↦ inr bad
              | inl a ↦ inl (
                  start (
                    sym (append-nil v)
                    ∙ ap (λ (ys : Data). v ++ ys) (sym e)
                    ∙ a
                    ∙ shorter
                    ∙ append-nil (n.filter.opening ++ map n.filter.each out)))
            ];
            room = omega (arith, k.room, none_held, sums, sum, sum');
            bound = omega (arith, k.bound, none_held, sums, sum, sum');
            unshut = λ x. k.unshut (λ is. absurd (cc (early, is)));
            is_shut = λ is. absurd (cc is);
            ended = λ x. o;
            awake = k.awake;
          },
          rest,
        ),
        Follows-refl n.session,
        refl,
      )

  close-Works :
      n.held ≡ []
      → n.session.phase ≡ over
      → n.ending ≡ last_call
      → IsFlow w (n ∷ ns) last
      → Works w (n ∷ ns) last (conclude last_call n ns last)
  unfolding conclude
  close-Works e o late (fed, v, k, rest) =
      let next = first ns last in
      let (ys, ns', last') = call_next closes ns last in
      let room = (first-Fed v ns last rest).keeps.valid.small in
      let (flow, put, same) = call-IsFlow closes v ns last tt rest (omega arith) in
      let (empty, closed, error) = close_next next in
      let longer : passed_on n.filter n.ending n.session.out
          ≡ passed_on n.filter shut n.session.out =
        ap (λ (x : Ending). passed_on n.filter x n.session.out) late in
      let sums = ap (λ (zs : Data). length zs) longer in
      let none_put : v ++ ys ≡ v = ap (λ (zs : Data). v ++ zs) (put ∙ empty) ∙ append-nil v in
      (
        (
          fed,
          v ++ ys,
          record {
            passed = elim k.passed [
              | inr bad ↦ inr (ap (λ (m : Session). m.shared.error) same ∙ error bad)
              | inl a ↦ inl (ap (λ (zs : Data). zs ++ n.held) none_put ∙ a ∙ longer)
            ];
            room = omega (
              arith,
              k.room,
              sums,
              ap (λ (m : Session). length m.shared.fifo.buffer) same,
              length-intervene-le closes v next tt (first-Fed v ns last rest) (omega arith),
            );
            bound = omega (arith, k.bound, sums, ap (λ (zs : Data). length zs) none_put);
            unshut = λ x. absurd (x refl);
            is_shut = λ x. (e, ap (λ (m : Session). m.shared.closed) same ∙ closed);
            ended = λ x. o;
            awake = k.awake;
          },
          flow,
        ),
        Follows-refl n.session,
        ap (λ (i : ℕ). length n.filter.opening + length n.filter.closing + i)
            (extra-call_next closes ns last),
      )

  conclude-Works :
      (x : Ending)
      → n.ending ≡ x
      → n.held ≡ []
      → n.session.phase ≡ over
      → IsFlow w (n ∷ ns) last
      → Works w (n ∷ ns) last (conclude x n ns last)
  unfolding conclude
  conclude-Works trailer q e o k = turn-Works e o q k
  conclude-Works last_call q e o k = close-Works e o q k
  conclude-Works shut q e o k = (k, Follows-refl n.session, refl)

  pub act-Works :
      (held : Data) (p : Phase)
      → n.held ≡ held
      → n.session.phase ≡ p
      → length w + extra (n ∷ ns) ≤ max_size
      → IsFlow w (n ∷ ns) last
      → Works w (n ∷ ns) last (act held p n ns last)
  unfolding act
  act-Works (x ∷ xs) p e o small k = write-Works w n ns last x xs p e small k
  act-Works [] (before looks) e o small k = test-Works w n ns last e o k
  act-Works [] (before takes) e o small k = take-Works w n ns last e o k
  act-Works [] over e o small k = conclude-Works n.ending refl e o k
  act-Works [] (asleep t i q) e o small k = (k, Follows-refl n.session, refl)

module _ ⦃h : Helpers⦄ where
  -- A move of any stage, or of the last reader.
  pub work-Works :
      (flag : Operation) (i : ℕ) (w : Data) (ns : List Node) (last : Session)
      → flag ≢ Operation.peek
      → length w + extra ns ≤ max_size
      → IsFlow w ns last
      → Works w ns last (work flag i ns last)
  unfolding work
  work-Works flag i w [] last ne small k =
      let (fed, follows) = advance-Fed flag w last ne k in (fed, follows, refl)
  work-Works flag zero w (n ∷ ns) last ne small k =
      act-Works w n ns last n.held n.session.phase refl refl small k
  work-Works flag (suc i) w (n ∷ ns) last ne small (fed, v, k, rest) =
      let sum = length-passed_on n.filter n.ending n.session.out in
      let (flow, follows, same) =
        work-Works flag i v ns last ne
          (omega (
            arith,
            k.bound,
            sum,
            length-behind_loop-le n.ending n.filter.closing,
            length-out-le w n.session fed,
          ))
          rest in
      (
        (fed, v, IsNode-Follows n v (first ns last) _ follows k, flow),
        Follows-refl n.session,
        ap (λ (j : ℕ). length n.filter.opening + length n.filter.closing + j) same,
      )

  pub fail-Works :
      (i : ℕ) (w : Data) (ns : List Node) (last : Session)
      → IsFlow w ns last
      → Works w ns last (fail_at i ns last)
  unfolding fail_at
  fail-Works i w [] last k = let (fed, follows) = error-Fed w last k in (fed, follows, refl)
  fail-Works zero w (n ∷ ns) last (fed, v, k, rest) =
      let m = (intervene set_errors n.session).1 in
      let (fed', follows) = error-Fed w n.session fed in
      let (e, e') = intervene_calm set_errors n.session in
      ((fed', v, IsNode-calm n m v (first ns last) e e' k, rest), follows, refl)
  fail-Works (suc i) w (n ∷ ns) last (fed, v, k, rest) =
      let (flow, follows, same) = fail-Works i v ns last rest in
      (
        (fed, v, IsNode-Follows n v (first ns last) _ follows k, flow),
        Follows-refl n.session,
        ap (λ (j : ℕ). length n.filter.opening + length n.filter.closing + j) same,
      )
