-- ===== src/Session/Rounds.antt =====
-- One move of the loop of `ReadUntilEoF` on a `SharedFIFO`: fifo.cxx and shared_fifo.cxx.
use storm_byte_buffer.Prelude.{
  ◌≡◌, inl, inr, Bool, Bool-cases, true, false, [], ◌++◌, ◌==◌, if◌then◌else◌, arith,
}
use storm_byte_buffer.Typedefs.{Operation}
use storm_byte_buffer.Fifo
use storm_byte_buffer.Fifo.Reading
use storm_byte_buffer.Fifo.Bounds.{IsValid}
use storm_byte_buffer.Shared
use storm_byte_buffer.Shared.{Shared, reading, ready, resume}
use storm_byte_buffer.Shared.Refine.{ready_lem}
use storm_byte_buffer.Shared.UntilEof.{first_call, left}
use storm_byte_buffer.Session.{
  takes, looks, Phase, before, asleep, over, Session, advance, proceed, ask, pass,
}

-- A peek at a byte of a buffer.
abbrev pub peeked : Shared → Phase
peeked s = if Fifo.available_bytes s.fifo == 0 then over else before takes

abbrev pub looked : Shared → Phase
looked s =
    if s.error
    then over
    else if (Fifo.available_bytes s.fifo == 0)
    then (if s.closed then over else asleep looks 1 (reading 1 Operation.peek))
    else before takes

-- Going to sleep, it has not been notified.
abbrev pub noted : Session → Bool
noted m =
    if m.shared.error
    then m.roused
    else if (Fifo.available_bytes m.shared.fifo == 0)
    then (if m.shared.closed then m.roused else false)
    else m.roused

-- The phases that the loop can be in: only the peek waits.
abbrev pub IsPhase : Phase → Type 0
IsPhase (before turn) = Unit {0}
IsPhase (asleep takes n p) = ⊥
IsPhase (asleep looks n p) = (n ≡ 1) × (p ≡ reading 1 Operation.peek)
IsPhase over = Unit {0}

pub advance_takes :
    (flag : Operation) (m : Session)
    → m.phase ≡ before takes
    → advance flag m ≡ record {
      shared = left flag m.shared;
      out =
          m.out
          ++ (if m.shared.error then [] else (Reading.read_internal 0 [] flag m.shared.fifo).out);
      phase = before looks;
      roused = m.roused;
    }
unfolding advance ask pass
advance_takes flag m e = ground (arith, first_call flag m.shared)

pub advance_looks :
    (flag : Operation) (m : Session)
    → IsValid m.shared.fifo
    → m.phase ≡ before looks
    → advance flag m ≡ record m { phase = looked m.shared; roused = noted m }
unfolding advance ask pass Shared.read_internal Shared.wait resume Reading.read_internal
    Reading.serve
advance_looks flag m v e = ground (arith, ready_lem m.shared 1 v (omega arith))

pub advance_asleep :
    (flag : Operation) (m : Session)
    → IsValid m.shared.fifo
    → m.phase ≡ asleep looks 1 (reading 1 Operation.peek)
    → advance flag m ≡ (
        if ready 1 m.shared
        then record m { phase = peeked m.shared }
        else record m { roused = false })
unfolding advance pass resume Reading.read_internal Reading.serve
advance_asleep flag m v e = ground arith

pub advance_over : (flag : Operation) (m : Session) → m.phase ≡ over → advance flag m ≡ m
unfolding advance
advance_over flag m e = ground arith

-- A thread that sleeps is on its way as soon as what it waits for is so.
abbrev pub IsTold : Session → Type 0
IsTold m =
    (m.phase ≡ asleep looks 1 (reading 1 Operation.peek))
    → m.roused ≡ false
    → ready 1 m.shared ≡ false

-- With it, no spurious wakeup is needed.
pub proceed_lem :
    (flag : Operation) (m : Session)
    → IsPhase m.phase
    → IsTold m
    → ready 1 m.shared ≡ true
    → proceed flag m ≡ advance flag m
unfolding proceed
proceed_lem flag m i k r = elim (Bool-cases m.roused) [
  | inl e ↦ ground arith
  | inr e ↦ ground (arith, k)
]
