-- ===== src/Relay/Steps.antt =====
-- A run of a relay beside the threads at its two ends: shared_fifo.cxx and fifo.cxx.
use mathlib.Core.Path.{subst}
use storm_byte_buffer.Prelude.{
  ℕ, ◌+◌, ◌≤◌, ◌≢◌, refl, sym, ap, ◌∙◌, inl, inr, List, [], ◌∷◌, ◌++◌, map, append-nil,
  append_assoc, length, length-append, length-take, max_size, arith,
}
use storm_byte_buffer.Typedefs.{Byte, Data, Operation, Helpers}
use storm_byte_buffer.Shared
use storm_byte_buffer.Monitor.{Call, writes, closes, set_errors, start}
use storm_byte_buffer.Monitor.Outcomes.{added}
use storm_byte_buffer.Session.{Session, advance, intervene}
use storm_byte_buffer.Session.Feeds.{IsFeed}
use storm_byte_buffer.Chain.Links.{Fed, Follows, advance-Fed, intervene-Fed, length-intervene-le}
use storm_byte_buffer.Chain.Links.{intervene_calm, error-Fed}
use storm_byte_buffer.Relay.{Relay, Move, feeds, relays, reads, breaks, relay, step, run}
use storm_byte_buffer.Relay.Keeps.{IsAwake, IsRelay, relay-IsRelay, length-relay-le}

-- The thread before the stage only writes, closes the buffer, or sets its error.
abbrev pub IsFed : Move → Type 0
IsFed (feeds c) = IsFeed c
IsFed _ = Unit {0}

abbrev pub AreFed : List Move → Type 0
AreFed [] = Unit {0}
AreFed (v ∷ vs) = IsFed v × AreFed vs

abbrev pub growth : Move → ℕ
growth (feeds c) = added c
growth _ = 0

abbrev pub total : List Move → ℕ
total [] = 0
total (v ∷ vs) = growth v + total vs

output-IsRelay :
    (g : Byte → Byte) (w : Data) (r : Relay) (m : Session) (k : IsRelay g w r)
    → Fed k.sent m
    → Follows r.output m
    → IsRelay g w (record r { output = m })
output-IsRelay g w r m k told follows = record {
  fed = k.fed;
  sent = k.sent;
  told = told;
  passed = elim k.passed [ inl a ↦ inl a | inr bad ↦ inr (follows.error bad) ];
  room = omega (arith, k.room, follows.length_le);
  unshut = λ e. follows.closed ∙ k.unshut e;
  ended = λ e. let (o, none, closed) = k.ended e in (o, none, follows.closed ∙ closed);
  awake = k.awake;
}

-- The input and all that has been put into it are in so much room.
abbrev pub Fits : ℕ → Data → Relay → Type 0
Fits room w r = (length w ≤ room) × (length r.input.shared.fifo.buffer ≤ room)

module _ ⦃h : Helpers⦄ where
  pub length-put-le : (c : Call) (m : Session) → IsFeed c → length (intervene c m).0 ≤ added c
  unfolding intervene start Shared.write_internal Shared.close Shared.set_error
  length-put-le (writes count bytes) m i = ground (arith, length-take count bytes)
  length-put-le closes m i = omega arith
  length-put-le set_errors m i = omega arith
  length-put-le (Call.reads count flag) m i = absurd i
  length-put-le (Call.drops count) m i = absurd i
  length-put-le (Call.seeks offset mode) m i = absurd i
  length-put-le (Call.assigns other) m i = absurd i
  length-put-le Call.cleans m i = absurd i
  length-put-le Call.clears m i = absurd i

  feed-IsRelay :
      (g : Byte → Byte) (c : Call) (w : Data) (r : Relay)
      → IsFeed c
      → IsRelay g w r
      → length r.input.shared.fifo.buffer + added c ≤ max_size
      → let (xs, m) = intervene c r.input in IsRelay g (w ++ xs) (record r { input = m })
  feed-IsRelay g c w r i k fits =
      let (phase, out) = intervene_calm c r.input in
      record {
        fed = intervene-Fed c w r.input i k.fed fits;
        sent = k.sent;
        told = k.told;
        passed = elim k.passed [ inl a ↦ inl (a ∙ ap (map g) (sym out)) | inr bad ↦ inr bad ];
        room = omega (arith, k.room, ap (λ (ys : Data). length ys) out);
        unshut = k.unshut;
        ended = λ e. (phase ∙ (k.ended e).0, (k.ended e).1, (k.ended e).2);
        awake = subst IsAwake (sym phase) k.awake;
      }

  step-IsRelay :
      (g : Byte → Byte) (flag : Operation) (v : Move) (room : ℕ) (w : Data) (r : Relay)
      → flag ≢ Operation.peek
      → IsFed v
      → Fits room w r
      → room + growth v ≤ max_size
      → IsRelay g w r
      → let (xs, r') = step g flag v r in
        IsRelay g (w ++ xs) r' × Fits (room + growth v) (w ++ xs) r'
  unfolding step
  step-IsRelay g flag (feeds c) room w r ne i (small, small') fits k =
      let xs = (intervene c r.input).0 in
      (
        feed-IsRelay g c w r i k (omega arith),
        (
          omega (arith, length-append w xs, length-put-le c r.input i),
          omega (arith, length-intervene-le c w r.input i k.fed (omega arith)),
        ),
      )
  step-IsRelay g flag relays room w r ne i (small, small') fits k =
      let r' = relay g r.held r.input.phase r in
      subst (λ (ys : Data). IsRelay g ys r' × Fits (room + 0) ys r') (sym (append-nil w))
        (
          relay-IsRelay g w (omega arith) r.held r.input.phase r refl refl k,
          (
            omega arith,
            omega (arith, length-relay-le g w (omega arith) r.held r.input.phase r refl k),
          ),
        )
  step-IsRelay g flag reads room w r ne i (small, small') fits k =
      let r' = record r { output = advance flag r.output } in
      let (told, follows) = advance-Fed flag k.sent r.output ne k.told in
      subst (λ (ys : Data). IsRelay g ys r' × Fits (room + 0) ys r') (sym (append-nil w))
        (output-IsRelay g w r (advance flag r.output) k told follows, (omega arith, omega arith))
  step-IsRelay g flag breaks room w r ne i (small, small') fits k =
      let m = (intervene set_errors r.output).1 in
      let (told, follows) = error-Fed k.sent r.output k.told in
      subst
        (λ (ys : Data).
          IsRelay g ys (record r { output = m }) × Fits (room + 0) ys (record r { output = m }))
        (sym (append-nil w)) (output-IsRelay g w r m k told follows, (omega arith, omega arith))

  pub run-IsRelay :
      (g : Byte → Byte) (flag : Operation) (vs : List Move) (room : ℕ) (w : Data) (r : Relay)
      → flag ≢ Operation.peek
      → AreFed vs
      → Fits room w r
      → room + total vs ≤ max_size
      → IsRelay g w r
      → let (xs, r') = run g flag vs r in
        IsRelay g (w ++ xs) r' × Fits (room + total vs) (w ++ xs) r'
  unfolding run
  run-IsRelay g flag [] room w r ne i small fits k =
      subst (λ (ys : Data). IsRelay g ys r × Fits (room + 0) ys r) (sym (append-nil w))
        (k, (omega (arith, small.0), omega (arith, small.1)))
  run-IsRelay g flag (v ∷ vs) room w r ne i small fits k =
      let (xs, r') = step g flag v r in
      let (k', small') = step-IsRelay g flag v room w r ne i.0 small (omega arith) k in
      let (ys, r'') = run g flag vs r' in
      let (k'', (fits_w, fits_input)) =
        run-IsRelay g flag vs (room + growth v) (w ++ xs) r' ne i.1 small' (omega arith) k' in
      subst (λ (zs : Data). IsRelay g zs r'' × Fits (room + (growth v + total vs)) zs r'')
        (append_assoc w xs ys) (k'', (omega (arith, fits_w), omega (arith, fits_input)))
