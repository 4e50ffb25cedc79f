-- ===== src/Relay/Finish.antt =====
-- How a relay and the reader behind it get to their end: shared_fifo.cxx and fifo.cxx.
use mathlib.Core.Path.{subst}
use storm_byte_buffer.Prelude.{
  ℕ, zero, suc, ◌+◌, ◌-◌, ◌≤◌, ◌≡◌, ◌≢◌, refl, sym, ap, ◌∙◌, Bool, true, false, if◌then◌else◌, ◌==◌,
  List, [], ◌∷◌, length, max_size, arith,
}
use storm_byte_buffer.Typedefs.{Byte, Data, Operation, Helpers}
use storm_byte_buffer.Fifo
use storm_byte_buffer.Shared
use storm_byte_buffer.Shared.{Shared}
use storm_byte_buffer.Shared.UntilEof.{rest_lem}
use storm_byte_buffer.Monitor.Shutdown.{is_over}
use storm_byte_buffer.Session.{takes, looks, Phase, before, asleep, over, Session}
use storm_byte_buffer.Session.Rounds.{advance_takes}
use storm_byte_buffer.Session.Ends.{thrice_over}
use storm_byte_buffer.Chain.Links.{Fed}
use storm_byte_buffer.Chain.Result.{ending}
use storm_byte_buffer.Chain.Result.{fresh_lem}
use storm_byte_buffer.Relay.{
  Relay, Move, relays, reads, laid, extract_chunk, test_eof, relay, end, step, run,
}
use storm_byte_buffer.Relay.Keeps.{IsRelay, IsAwake, extract_chunk_lem, relay-IsRelay}
use storm_byte_buffer.Relay.Steps.{AreFed, total, run-IsRelay}
use storm_byte_buffer.Relay.Result.{laid-IsRelay}

-- How many calls the stage still makes when its input is over.
abbrev pub loops : Phase → Shared → ℕ
loops (before takes) s = 3
loops (before looks) s = if s.error then 1 else if Fifo.available_bytes s.fifo == 0 then 1 else 4
loops (asleep turn n p) s = 0
loops over s = 0

abbrev pub holds : Data → ℕ
holds [] = 0
holds (x ∷ xs) = 1

abbrev opens : Bool → ℕ
opens true = 0
opens false = 1

abbrev measure : Relay → ℕ
measure r = holds r.held + loops r.input.phase r.input.shared + opens r.shut

pub holds_le : (xs : Data) → holds xs ≤ 1
holds_le [] = omega arith
holds_le (x ∷ xs) = omega arith

pub loops_le : (p : Phase) (s : Shared) → loops p s ≤ 4
loops_le (before takes) s = omega arith
loops_le (before looks) s = ground arith
loops_le (asleep turn n p) s = omega arith
loops_le over s = omega arith

opens_le : (b : Bool) → opens b ≤ 1
opens_le true = omega arith
opens_le false = omega arith

shut_now : (b : Bool) → opens b ≤ 0 → b ≡ true
shut_now true e = refl
shut_now false e = absurd (omega arith)

-- So many calls of the stage, and then other moves.
abbrev pub again : ℕ → List Move → List Move
again zero vs = vs
again (suc n) vs = relays ∷ again n vs

abbrev pub three_reads : List Move
three_reads = reads ∷ reads ∷ reads ∷ []

-- After everything has been extracted one test is left.
pub taken_loops :
    (w : Data) (m : Session)
    → Fed w m
    → m.phase ≡ before takes
    → (loops (extract_chunk m).1.phase (extract_chunk m).1.shared ≡ 1)
      × (is_over (extract_chunk m).1.shared ≡ is_over m.shared)
taken_loops w m f o =
    let (valid, none_left, _, _) =
      rest_lem [] Operation.extract m.shared (λ e. absurd (cc e)) f.keeps.valid in
    subst (λ (x : Session). (loops x.phase x.shared ≡ 1) × (is_over x.shared ≡ is_over m.shared))
      (sym ((extract_chunk_lem m o).0 ∙ advance_takes Operation.extract m o)) (ground arith, refl)

module _ ⦃h : Helpers⦄ (g : Byte → Byte) where
  end_lem :
      (b : Bool) (r : Relay)
      → r.shut ≡ b
      → (opens (end g b r).shut ≡ 0) × ((end g b r).held ≡ r.held) × ((end g b r).input ≡ r.input)
  unfolding end
  end_lem true r e = (ap opens e, refl, refl)
  end_lem false r e = (refl, refl, refl)

  abbrev Nears : ℕ → Relay → Type 0
  Nears n r = (measure r ≤ n) × (is_over r.input.shared ≡ true)

  relay-Nears :
      (n : ℕ) (w : Data) (held : Data) (p : Phase) (r : Relay)
      → r.held ≡ held
      → r.input.phase ≡ p
      → IsRelay g w r
      → Nears n r
      → Nears (n - 1) (relay g held p r)
  unfolding relay test_eof Shared.eof
  relay-Nears n w (x ∷ xs) p r e o k (m, closed) = (omega (arith, ap holds e), closed)
  relay-Nears n w [] (before takes) r e o k (m, closed) =
      let (loops_once, same) = taken_loops w r.input k.fed o in
      (
        omega (
          arith,
          ap holds e,
          ap (λ (p : Phase). loops p r.input.shared) o,
          loops_once,
          holds_le (extract_chunk r.input).0,
        ),
        same ∙ closed,
      )
  relay-Nears n w [] (before looks) r e o k (m, closed) =
      let full = ap (λ (p : Phase). loops p r.input.shared) o in
      (ground (arith, ap holds e, full), closed)
  relay-Nears n w [] (asleep turn i q) r e o k (m, closed) = absurd (subst IsAwake o k.awake)
  relay-Nears n w [] over r e o k (m, closed) =
      let (none_open, same, same') = end_lem r.shut r refl in
      (
        omega (
          arith,
          none_open,
          ap holds (same ∙ e),
          ap (λ (x : Session). loops x.phase x.shared) same',
          ap (λ (p : Phase). loops p r.input.shared) o,
        ),
        ap (λ (x : Session). is_over x.shared) same' ∙ closed,
      )

  reads_end :
      (flag : Operation) (w : Data) (r : Relay)
      → flag ≢ Operation.peek
      → IsRelay g w r
      → r.output.shared.closed ≡ true
      → (run g flag three_reads r).1.output.phase ≡ over
  unfolding run step
  reads_end flag w r ne k closed =
      thrice_over flag r.output ne (ending k.sent r.output k.told (ground arith))

  again_step :
      (flag : Operation) (n : ℕ) (r : Relay)
      → (run g flag (again (suc n) three_reads) r).1.output.phase
        ≡ (run g flag (again n three_reads) (relay g r.held r.input.phase r)).1.output.phase
  unfolding run step
  again_step flag n r = refl

  again_ends :
      (flag : Operation) (n : ℕ) (w : Data) (r : Relay)
      → flag ≢ Operation.peek
      → length w ≤ max_size
      → IsRelay g w r
      → Nears n r
      → (run g flag (again n three_reads) r).1.output.phase ≡ over
  again_ends flag zero w r ne fits k (m, closed) =
      reads_end flag w r ne k (k.ended (shut_now r.shut (omega arith))).2
  again_ends flag (suc n) w r ne fits k near =
      again_step flag n r
      ∙ again_ends flag n w (relay g r.held r.input.phase r) ne fits
          (relay-IsRelay g w fits r.held r.input.phase r refl refl k)
          (subst (λ (i : ℕ). Nears i (relay g r.held r.input.phase r)) (omega arith)
            (relay-Nears (suc n) w r.held r.input.phase r refl refl k near))

  -- A stage that changes each byte as it comes, beside a thread that writes to its input, closes it
  -- and sets its error, and one that reads its output until the end, after any moves of them and
  -- errors of the output, with room in a vector for all that is written to the input: once the input
  -- is closed or in error, six calls of the stage and three of the reader bring the reader to its end.
  pub relay_finishes :
      (flag : Operation) (vs : List Move)
      → flag ≢ Operation.peek
      → AreFed vs
      → total vs ≤ max_size
      → is_over (run g flag vs (laid flag)).1.input.shared ≡ true
      → (run g flag (again 6 three_reads) (run g flag vs (laid flag)).1).1.output.phase ≡ over
  unfolding laid
  relay_finishes flag vs ne i fits closed =
      let (given, r) = run g flag vs (laid flag) in
      let (k, (small, _)) =
        run-IsRelay g flag vs 0 [] (laid flag) ne i
          (omega arith, omega (arith, (fresh_lem Operation.extract).1)) (omega arith)
          (laid-IsRelay g flag ne) in
      again_ends flag 6 given r ne (omega (arith, small)) k (
        omega (arith, holds_le r.held, loops_le r.input.phase r.input.shared, opens_le r.shut),
        closed,
      )
