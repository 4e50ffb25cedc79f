-- ===== src/Relay.antt =====
-- A pipe function that passes its bytes on as they come, as the one of README.md that changes each
-- character: its calls on its two buffers are those of shared_fifo.cxx. Another thread writes to its
-- input, and one reads its output until the end. A thread moves on by one call at a time.
pub mod Keeps
pub mod Steps
pub mod Result
pub mod Finish
use storm_byte_buffer.Prelude.{Bool, true, false, if◌then◌else◌, List, [], ◌∷◌, ◌++◌, map, length}
use storm_byte_buffer.Typedefs.{Byte, Data, Operation, Helpers}
use storm_byte_buffer.Shared
use storm_byte_buffer.Shared.{finished, blocked}
use storm_byte_buffer.Monitor.{Call, writes, closes, set_errors}
use storm_byte_buffer.Session.{
  takes, looks, Phase, before, asleep, over, Session, advance, intervene, pass,
}
use storm_byte_buffer.Chain.{fresh}

-- The input is a session for where the loop is, and for all that has been extracted. A chunk is held
-- from its extraction until it is written.
pub record Relay : Type 0 where
  pub input : Session
  pub held : Data
  pub output : Session
  pub shut : Bool

pub data Move : Type 0 where
  feeds : Call → Move
  relays reads breaks : Move

unfoldable pub laid : Operation → Relay
laid flag = record {
  input = record (fresh Operation.extract) { phase = before looks };
  held = [];
  output = fresh flag;
  shut = false;
}

-- `Extract(0, data)`, with the bytes that it has got.
unfoldable pub extract_chunk : Session → Data × Session
extract_chunk m = elim (Shared.read_internal 0 Operation.extract m.shared) [
  | finished x ↦ (x.out, pass takes x m)
  | blocked n p ↦ ([], m)
]

-- `EoF()`: it does not wait.
unfoldable pub test_eof : Session → Session
test_eof m = record m { phase = if Shared.eof m.shared then over else before takes }

module _ ⦃h : Helpers⦄ (g : Byte → Byte) where
  -- `Close()`, after which the stage is at its end.
  unfoldable pub end : Bool → Relay → Relay
  end true r = r
  end false r = record r { output = (intervene closes r.output).1; shut = true }

  -- The next call of the stage: the write of a chunk, if it has one that is not empty, or that of its
  -- loop, or, behind it, the one call of `Close`.
  unfoldable pub relay : Data → Phase → Relay → Relay
  relay (x ∷ xs) p r =
      let bytes = map g (x ∷ xs) in
      record r { held = []; output = (intervene (writes (length bytes) bytes) r.output).1 }
  relay [] (before looks) r = record r { input = test_eof r.input }
  relay [] (before takes) r =
      let (chunk, m) = extract_chunk r.input in record r { held = chunk; input = m }
  relay [] over r = end r.shut r
  relay [] (asleep turn n p) r = r

  -- A move, with the bytes that it has put into the input.
  unfoldable pub step : Operation → Move → Relay → Data × Relay
  step flag (feeds c) r = let (xs, m) = intervene c r.input in (xs, record r { input = m })
  step flag relays r = ([], relay r.held r.input.phase r)
  step flag reads r = ([], record r { output = advance flag r.output })
  step flag breaks r = ([], record r { output = (intervene set_errors r.output).1 })

  unfoldable pub run : Operation → List Move → Relay → Data × Relay
  run flag [] r = ([], r)
  run flag (v ∷ vs) r =
      let (xs, r') = step flag v r in let (ys, r'') = run flag vs r' in (xs ++ ys, r'')
