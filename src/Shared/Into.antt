-- ===== src/Shared/Into.antt =====
-- `SharedFIFO::ReadInternal` into another buffer: shared_fifo.cxx.
use storm_byte_buffer.Prelude.{
  ℕ, ◌≡◌, Bool, false, not, ◌&&◌, ◌||◌, ltb, ◌==◌, if◌then◌else◌, length, arith,
}
use storm_byte_buffer.Typedefs.{Operation}
use storm_byte_buffer.Generic.{WriteOnly}
use storm_byte_buffer.Fifo
use storm_byte_buffer.Fifo.Reading
use storm_byte_buffer.Fifo.Into
use storm_byte_buffer.Shared
use storm_byte_buffer.Shared.{Shared, Finished, Outcome, finished, blocked, reading, ready}

-- The method has returned, with its result, the other buffer and this one, or it waits.
pub data Passed (S : Type 0) : Type 0 where
  passed : Bool → S → Shared → Passed S
  waits : ℕ → Passed S

module _ {S : Type 0} (sink : WriteOnly S) where
  -- What it does once it has stopped waiting, the lock held.
  unfoldable pub resume_into : ℕ → S → Operation → Shared → Passed S
  resume_into count t flag s =
      let (done, t', f) = Reading.read_internal_into sink count t flag s.fifo in
      passed done t' (record s { fifo = f })

  unfoldable pub read_internal_into : ℕ → S → Operation → Shared → Passed S
  read_internal_into count t flag s =
      let avail = Fifo.available_bytes s.fifo in
      let real_count = if count == 0 then avail else count in
      if s.error || (s.closed && (avail == 0))
      then passed false t s
      else if ltb avail real_count && not s.closed
      then (if (real_count == 0) || ready real_count s
          then resume_into count t flag s
          else waits real_count)
      else resume_into count t flag s

  -- The bytes of a read that has returned, written to the other buffer.
  abbrev pub hand_on : S → Finished → Passed S
  hand_on t x =
      let (done, t') = sink.write (length x.out) x.out t in
      if x.done then passed done t' x.shared else passed false t x.shared

  resume_into_lem :
      (count : ℕ) (t : S) (flag : Operation) (s : Shared)
      → resume_into count t flag s ≡ hand_on t (Shared.resume (reading count flag) s)
  unfolding resume_into Shared.resume
  resume_into_lem count t flag s =
      ground (arith, Into.read_internal_into_lem sink count t flag s.fifo)

  -- A read of a `SharedFIFO` into another buffer is answered, refused or waits exactly as the same read
  -- into a vector. When it is answered all its bytes are handed on in one write, whose result is the
  -- result; the bytes are gone from the `SharedFIFO` as that read leaves it even if that write fails.
  pub read_internal_into_shared :
      (count : ℕ) (t : S) (flag : Operation) (s : Shared)
      → read_internal_into count t flag s ≡ elim (Shared.read_internal count flag s) [
        | finished x ↦ hand_on t x
        | blocked n p ↦ waits n
      ]
  unfolding read_internal_into Shared.read_internal Shared.wait
  read_internal_into_shared count t flag s = ground (arith, resume_into_lem count t flag s)
