-- ===== src/Flow/Loops.antt =====
-- What the calls of one stage of a row keep, in its loop: shared_fifo.cxx and fifo.cxx.
use mathlib.Core.Path.{subst}
use mathlib.Core.List.{map-append}
use storm_byte_buffer.Prelude.{
  ℕ, ◌+◌, ◌≤◌, ◌≡◌, ◌≢◌, ◌⊎◌, refl, sym, ap, ◌∙◌, inl, inr, false, List, [], ◌∷◌, ◌++◌, map,
  append-nil, append_assoc, length, length-append, max_size, arith,
}
use storm_byte_buffer.Typedefs.{Data, Operation, Helpers}
use storm_byte_buffer.Monitor.{Call, writes}
use storm_byte_buffer.Session.{Turn, takes, looks, Phase, before, Session}
use storm_byte_buffer.Chain.Links.{Fed, Follows, advance-Fed, length-intervene-le, write_next}
use storm_byte_buffer.Chain.Links.{Follows-refl}
use storm_byte_buffer.Relay.{extract_chunk, test_eof}
use storm_byte_buffer.Relay.Keeps.{
  IsAwake, extract_chunk_lem, test_eof-Fed, write-error, length-out-le,
}
use storm_byte_buffer.Relay.Steps.{length-put-le}
use storm_byte_buffer.Flow.{Filter, Ending, trailer, last_call, shut, Node, call_next, act}
use storm_byte_buffer.Flow.Nodes.{
  first, passed_on, IsNode, IsFlow, extra, first-Fed, length-passed_on, length-behind_loop-le,
  call-IsFlow,
}

-- A move of the first of these stages, or of one behind it.
abbrev pub Works : Data → List Node → Session → List Node × Session → Type 0
Works w ns last (ns', last') =
    IsFlow w ns' last' × Follows (first ns last) (first ns' last') × (extra ns' ≡ extra ns)

passed_on-append :
    (f : Filter) (xs ys : Data)
    → passed_on f trailer xs ++ map f.each ys ≡ passed_on f trailer (xs ++ ys)
passed_on-append f xs ys =
    ap (λ (zs : Data). zs ++ map f.each ys) (append-nil (f.opening ++ map f.each xs))
    ∙ append_assoc f.opening (map f.each xs) (map f.each ys)
    ∙ ap (λ (zs : Data). f.opening ++ zs) (sym (map-append f.each xs ys))
    ∙ sym (append-nil (f.opening ++ map f.each (xs ++ ys)))

module _ ⦃h : Helpers⦄ where
  pub extra-call_next :
      (c : Call) (ns : List Node) (last : Session) → extra (call_next c ns last).1 ≡ extra ns
  unfolding call_next
  extra-call_next c [] last = refl
  extra-call_next c (n ∷ ns) last = refl

pub ending_cases : (e : Ending) → (e ≡ trailer) ⊎ (e ≢ trailer)
ending_cases trailer = inl refl
ending_cases last_call = inr (λ e. cc e)
ending_cases shut = inr (λ e. cc e)

-- A stage in its loop has not turned to its last bytes.
early_of :
    {n : Node} {v : Data} {next : Session} {t : Turn}
    → IsNode n v next
    → n.session.phase ≡ before t
    → n.ending ≡ trailer
early_of {n} k o = elim (ending_cases n.ending) [
  | inl early ↦ early
  | inr late ↦ let ended = k.ended late in absurd cc
]

module _ ⦃h : Helpers⦄ (w : Data) (n : Node) (ns : List Node) (last : Session) where
  pub write-Works :
      (x : ℕ) (xs : Data) (p : Phase)
      → n.held ≡ x ∷ xs
      → length w + extra (n ∷ ns) ≤ max_size
      → IsFlow w (n ∷ ns) last
      → Works w (n ∷ ns) last (act (x ∷ xs) p n ns last)
  unfolding act
  write-Works x xs p e small (fed, v, k, rest) =
      let c = writes (length (x ∷ xs)) (x ∷ xs) in
      let next = first ns last in
      let open_yet : next.shared.closed ≡ false =
        k.unshut (λ is. absurd (cc (e, (k.is_shut is).0))) in
      let parts = length-passed_on n.filter n.ending n.session.out in
      let held_eq = ap (λ (ys : Data). length ys) e in
      let fits : length next.shared.fifo.buffer + length (x ∷ xs) ≤ max_size = omega (
        arith,
        k.room,
        parts,
        held_eq,
        length-behind_loop-le n.ending n.filter.closing,
        length-out-le w n.session fed,
      ) in
      let (ys, ns', last') = call_next c ns last in
      let (flow, put, same) = call-IsFlow c v ns last tt rest fits in
      let (arrived, open_still) = write_next (x ∷ xs) next open_yet in
      (
        (
          fed,
          v ++ ys,
          record {
            passed = elim k.passed [
              | inr bad ↦
                  inr (ap (λ (m : Session). m.shared.error) same ∙ write-error (x ∷ xs) next bad)
              | inl a ↦ elim arrived [
                | inr bad ↦ inr (ap (λ (m : Session). m.shared.error) same ∙ bad)
                | inl all ↦
                    inl (append-nil (v ++ ys) ∙ ap (λ (zs : Data). v ++ zs) (put ∙ all ∙ sym e) ∙ a)
              ]
            ];
            room = omega (
              arith,
              k.room,
              held_eq,
              ap (λ (m : Session). length m.shared.fifo.buffer) same,
              length-intervene-le c v next tt (first-Fed v ns last rest) fits,
            );
            bound = omega (
              arith,
              k.bound,
              held_eq,
              length-append v ys,
              ap (λ (zs : Data). length zs) put,
              length-put-le c next tt,
            );
            unshut = λ x. ap (λ (m : Session). m.shared.closed) same ∙ open_still;
            is_shut = λ is. absurd (cc (e, (k.is_shut is).0));
            ended = k.ended;
            awake = k.awake;
          },
          flow,
        ),
        Follows-refl n.session,
        ap (λ (i : ℕ). length n.filter.opening + length n.filter.closing + i)
            (extra-call_next c ns last),
      )

  pub test-Works :
      n.held ≡ []
      → n.session.phase ≡ before looks
      → IsFlow w (n ∷ ns) last
      → Works w (n ∷ ns) last (act [] (before looks) n ns last)
  unfolding act test_eof
  test-Works e o (fed, v, k, rest) =
      let early : n.ending ≡ trailer = early_of k o in
      (
        (
          test_eof-Fed w n.session fed,
          v,
          record {
            passed = k.passed;
            room = k.room;
            bound = k.bound;
            unshut = k.unshut;
            is_shut = k.is_shut;
            ended = λ late. absurd (late early);
            awake = ground arith;
          },
          rest,
        ),
        record { closed = refl; error = λ x. x; length_le = omega arith },
        refl,
      )

  pub take-Works :
      n.held ≡ []
      → n.session.phase ≡ before takes
      → IsFlow w (n ∷ ns) last
      → Works w (n ∷ ns) last (act [] (before takes) n ns last)
  unfolding act
  take-Works e o (fed, v, k, rest) =
      let early : n.ending ≡ trailer = early_of k o in
      let chunk = (extract_chunk n.session).0 in
      let m = (extract_chunk n.session).1 in
      let (same, got, looks_next) = extract_chunk_lem n.session o in
      let out : m.out ≡ n.session.out ++ chunk = ap (λ (x : Session). x.out) same ∙ sym got in
      let (fed', follows) = advance-Fed Operation.extract w n.session (λ x. absurd (cc x)) fed in
      let before_it : passed_on n.filter n.ending n.session.out
          ≡ passed_on n.filter trailer n.session.out =
        ap (λ (x : Ending). passed_on n.filter x n.session.out) early in
      let after_it : passed_on n.filter trailer (n.session.out ++ chunk)
          ≡ passed_on n.filter n.ending m.out =
        ap (λ (x : Ending). passed_on n.filter x (n.session.out ++ chunk)) (sym early)
        ∙ ap (passed_on n.filter n.ending) (sym out) in
      let whole : passed_on n.filter n.ending n.session.out ++ map n.filter.each chunk
          ≡ passed_on n.filter n.ending m.out =
        ap (λ (ys : Data). ys ++ map n.filter.each chunk) before_it
        ∙ passed_on-append n.filter n.session.out chunk
        ∙ after_it in
      let sum = ap (λ (ys : Data). length ys) whole in
      let sum' =
        length-append (passed_on n.filter n.ending n.session.out) (map n.filter.each chunk) in
      let none_held = ap (λ (ys : Data). length ys) e in
      (
        (
          subst (Fed w) (sym same) fed',
          v,
          record {
            passed = elim k.passed [
              | inr bad ↦ inr bad
              | inl a ↦ inl (
                  ap (λ (ys : Data). ys ++ map n.filter.each chunk)
                    (sym (append-nil v) ∙ ap (λ (ys : Data). v ++ ys) (sym e) ∙ a)
                  ∙ whole)
            ];
            room = omega (arith, k.room, sum, sum', none_held);
            bound = omega (arith, k.bound, sum, sum', none_held);
            unshut = k.unshut;
            is_shut = λ is. absurd (cc (early, is));
            ended = λ late. absurd (late early);
            awake = subst IsAwake (sym (ap (λ (x : Session). x.phase) same ∙ looks_next)) tt;
          },
          rest,
        ),
        subst (Follows n.session) (sym same) follows,
        refl,
      )
