-- ===== src/Shared/Loops.antt =====
-- `ReadUntilEoFInternal` of fifo.cxx on a `SharedFIFO`, whose `ReadInternal` it calls: up to the first
-- call that waits.
use storm_byte_buffer.Generic.{WriteOnly}
use storm_byte_buffer.Shared.Into.{Passed, passed, read_internal_into}
use storm_byte_buffer.Prelude.{ℕ, zero, suc, true, false, ◌++◌, Option, none, some}
use storm_byte_buffer.Typedefs.{Data, Operation}
use storm_byte_buffer.Shared.{Shared, Pending, finished, blocked, read_internal}

-- The loop has ended, or a call in it waits; with the bytes that are in the vector.
pub data Loop : Type 0 where
  ended : Data → Shared → Loop
  waits : ℕ → Pending → Data → Shared → Loop

-- With fuel: `none` when the fuel runs out.
unfoldable pub read_until_eof_internal : ℕ → Data → Operation → Shared → Option Loop
read_until_eof_internal zero out flag s = none
read_until_eof_internal (suc fuel) out Operation.peek s = some (ended out s)
read_until_eof_internal (suc fuel) out flag s = elim (read_internal 0 flag s) [
  | blocked n p ↦ some (waits n p out s)
  | finished x ↦ elim (read_internal 1 Operation.peek x.shared) [
    | blocked n p ↦ some (waits n p (out ++ x.out) x.shared)
    | finished y ↦ elim y.done [
      | true ↦ read_until_eof_internal fuel (out ++ x.out) flag y.shared
      | false ↦ some (ended (out ++ x.out) y.shared)
    ]
  ]
]

-- The same of the loop that reads into another buffer.
pub data LoopInto (S : Type 0) : Type 0 where
  ended_into : S → Shared → LoopInto S
  waits_into : ℕ → S → Shared → LoopInto S

module _ {S : Type 0} (sink : WriteOnly S) where
  unfoldable pub read_until_eof_internal_into : ℕ → S → Operation → Shared → Option (LoopInto S)
  read_until_eof_internal_into zero t flag s = none
  read_until_eof_internal_into (suc fuel) t Operation.peek s = some (ended_into t s)
  read_until_eof_internal_into (suc fuel) t flag s = elim (read_internal_into sink 0 t flag s) [
    | Passed.waits n ↦ some (waits_into n t s)
    | passed _ t' s' ↦ elim (read_internal 1 Operation.peek s') [
      | blocked n p ↦ some (waits_into n t' s')
      | finished y ↦ elim y.done [
        | true ↦ read_until_eof_internal_into fuel t' flag y.shared
        | false ↦ some (ended_into t' y.shared)
      ]
    ]
  ]
