-- ===== src/Flow.antt =====
-- Several pipe functions in a row that pass their bytes on as they come, as the three of the example of
-- a pipeline in README.md: each writes some bytes first, then each chunk with its bytes changed, then
-- some bytes at the end. The calls are those of shared_fifo.cxx and fifo.cxx. The caller writes to the
-- first buffer and reads the last one until the end. A thread moves on by one call at a time.
pub mod Nodes
pub mod Loops
pub mod Works
pub mod Steps
pub mod Result
pub mod Nears
pub mod Finish
pub mod Wired
use storm_byte_buffer.Prelude.{ℕ, zero, suc, List, [], ◌∷◌, ◌++◌, map, length}
use storm_byte_buffer.Typedefs.{Byte, Data, Operation, Helpers}
use storm_byte_buffer.Monitor.{Call, writes, closes, set_errors}
use storm_byte_buffer.Session.{
  takes, looks, Phase, before, asleep, over, Session, advance, proceed, intervene,
}
use storm_byte_buffer.Chain.{Move, feeds, works, breaks, fresh}
use storm_byte_buffer.Relay.{extract_chunk, test_eof}

-- A pipe function: `out.Write("[")`, the change of each byte, `out.Write("]")`.
pub record Filter : Type 0 where
  pub opening : Data
  pub each : Byte → Byte
  pub closing : Data

-- What a stage still has to do behind its loop.
pub data Ending : Type 0 where
  trailer last_call shut : Ending

-- A stage: its input, with where the loop is and all that it has extracted; the bytes that it writes
-- next; and its end.
pub record Node : Type 0 where
  pub session : Session
  pub filter : Filter
  pub held : Data
  pub ending : Ending

-- A stage before its first call, on a buffer that has just been made.
unfoldable pub node : Filter → Node
node f = record {
  session = record (fresh Operation.extract) { phase = before looks };
  filter = f;
  held = f.opening;
  ending = trailer;
}

unfoldable pub lay : List Filter → List Node
lay [] = []
lay (f ∷ fs) = node f ∷ lay fs

module _ ⦃h : Helpers⦄ where
  -- A call on the output of the stage before these: the bytes that it has put in.
  unfoldable pub call_next : Call → List Node → Session → Data × List Node × Session
  call_next c [] last = let (xs, m) = intervene c last in (xs, [], m)
  call_next c (n ∷ ns) last =
      let (xs, m) = intervene c n.session in (xs, record n { session = m } ∷ ns, last)

  -- What a stage does behind its loop: it turns to its last bytes, and it closes its output.
  unfoldable pub conclude : Ending → Node → List Node → Session → List Node × Session
  conclude trailer n ns last = (record n { held = n.filter.closing; ending = last_call } ∷ ns, last)
  conclude last_call n ns last =
      let (_, ns', last') = call_next closes ns last in (record n { ending = shut } ∷ ns', last')
  conclude shut n ns last = (n ∷ ns, last)

  -- The next call of a stage: a write, if it has bytes for one, or that of its loop, or of its end.
  unfoldable pub act : Data → Phase → Node → List Node → Session → List Node × Session
  act (x ∷ xs) p n ns last =
      let (_, ns', last') = call_next (writes (length (x ∷ xs)) (x ∷ xs)) ns last in
      (record n { held = [] } ∷ ns', last')
  act [] (before looks) n ns last = (record n { session = test_eof n.session } ∷ ns, last)
  act [] (before takes) n ns last =
      let (chunk, m) = extract_chunk n.session in
      (record n { session = m; held = map n.filter.each chunk } ∷ ns, last)
  act [] over n ns last = conclude n.ending n ns last
  act [] (asleep turn i p) n ns last = (n ∷ ns, last)

  -- A move of the stage at a place, or, behind the stages, of the reader of the last buffer.
  unfoldable pub work : Operation → ℕ → List Node → Session → List Node × Session
  work flag k [] last = ([], advance flag last)
  work flag zero (n ∷ ns) last = act n.held n.session.phase n ns last
  work flag (suc k) (n ∷ ns) last = let (ns', last') = work flag k ns last in (n ∷ ns', last')

  -- The same, where the reader of the last buffer, when it sleeps, goes on only after a notification. A
  -- stage never sleeps.
  unfoldable pub prompt : Operation → ℕ → List Node → Session → List Node × Session
  prompt flag k [] last = ([], proceed flag last)
  prompt flag zero (n ∷ ns) last = act n.held n.session.phase n ns last
  prompt flag (suc k) (n ∷ ns) last = let (ns', last') = prompt flag k ns last in (n ∷ ns', last')

  -- `SetError` on the buffer at a place.
  unfoldable pub fail_at : ℕ → List Node → Session → List Node × Session
  fail_at k [] last = ([], (intervene set_errors last).1)
  fail_at zero (n ∷ ns) last =
      (record n { session = (intervene set_errors n.session).1 } ∷ ns, last)
  fail_at (suc k) (n ∷ ns) last = let (ns', last') = fail_at k ns last in (n ∷ ns', last')

  unfoldable pub step : Operation → Move → List Node → Session → Data × List Node × Session
  step flag (feeds c) ns last = call_next c ns last
  step flag (works k) ns last = let (ns', last') = work flag k ns last in ([], ns', last')
  step flag (breaks k) ns last = let (ns', last') = fail_at k ns last in ([], ns', last')

  -- The bytes that the caller has put into the first buffer, and what all the threads have done.
  unfoldable pub run : Operation → List Move → List Node → Session → Data × List Node × Session
  run flag [] ns last = ([], ns, last)
  run flag (v ∷ vs) ns last =
      let (xs, ns', last') = step flag v ns last in
      let (ys, ns'', last'') = run flag vs ns' last' in (xs ++ ys, ns'', last'')
