-- ===== src/Consumer/Onward.antt =====
-- The methods of consumer.hxx that read into another buffer, or until the end. Each is what a thread
-- does up to its first wait, which the result then tells.
use storm_byte_buffer.Prelude.{ℕ, Option, none, some}
use storm_byte_buffer.Typedefs.{Data, Operation}
use storm_byte_buffer.Generic.{WriteOnly}
use storm_byte_buffer.Shared.Into
use storm_byte_buffer.Shared.Into.{Passed, passed}
use storm_byte_buffer.Shared.Loops
use storm_byte_buffer.Shared.Loops.{Loop, LoopInto, ended, ended_into, waits_into}
use storm_byte_buffer.Monitor.{Monitor}
use storm_byte_buffer.Store.{Store, deref}
use storm_byte_buffer.Consumer.{Consumer}

-- `m_buffer->ReadUntilEoF(vector)` and the like, with fuel.
unfoldable pub until_eof : ℕ → Data → Operation → Monitor → Option Loop × Monitor
until_eof fuel out flag m =
    let o = Loops.read_until_eof_internal fuel out flag m.shared in
    (
      o,
      elim o [
        | none ↦ m
        | some (ended _ s) ↦ record m { shared = s }
        | some (Loops.waits _ _ _ s) ↦ record m { shared = s }
      ],
    )

unfoldable pub extract_until_eof : ℕ → Data → Consumer → Store → Option (Option Loop × Store)
extract_until_eof fuel out c s = deref (until_eof fuel out Operation.extract) c.buffer s

unfoldable pub read_until_eof : ℕ → Data → Consumer → Store → Option (Option Loop × Store)
read_until_eof fuel out c s = deref (until_eof fuel out Operation.read) c.buffer s

module _ {S : Type 0} (sink : WriteOnly S) where
  -- `m_buffer->Read(count, buffer)` and the like.
  unfoldable pub into : ℕ → S → Operation → Monitor → Passed S × Monitor
  into count t flag m =
      let o = Into.read_internal_into sink count t flag m.shared in
      (o, elim o [ passed _ _ s ↦ record m { shared = s } | Into.waits _ ↦ m ])

  unfoldable pub extract_into : ℕ → S → Consumer → Store → Option (Passed S × Store)
  extract_into count t c s = deref (into count t Operation.extract) c.buffer s

  unfoldable pub read_into : ℕ → S → Consumer → Store → Option (Passed S × Store)
  read_into count t c s = deref (into count t Operation.read) c.buffer s

  unfoldable pub peek_into : ℕ → S → Consumer → Store → Option (Passed S × Store)
  peek_into count t c s = deref (into count t Operation.peek) c.buffer s

  unfoldable pub until_eof_into : ℕ → S → Operation → Monitor → Option (LoopInto S) × Monitor
  until_eof_into fuel t flag m =
      let o = Loops.read_until_eof_internal_into sink fuel t flag m.shared in
      (
        o,
        elim o [
          | none ↦ m
          | some (ended_into _ s) ↦ record m { shared = s }
          | some (waits_into _ _ s) ↦ record m { shared = s }
        ],
      )

  unfoldable pub extract_until_eof_into :
      ℕ → S → Consumer → Store → Option (Option (LoopInto S) × Store)
  extract_until_eof_into fuel t c s = deref (until_eof_into fuel t Operation.extract) c.buffer s

  unfoldable pub read_until_eof_into :
      ℕ → S → Consumer → Store → Option (Option (LoopInto S) × Store)
  read_until_eof_into fuel t c s = deref (until_eof_into fuel t Operation.read) c.buffer s
