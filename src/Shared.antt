-- ===== src/Shared.antt =====
-- The class `SharedFIFO`: lib/public/StormByte/buffer/shared_fifo.hxx and shared_fifo.cxx. Each
-- function is what one method does while it holds the mutex; a method that waits is in two parts.
pub mod Build
pub mod Refine
pub mod Foreign
pub mod Into
pub mod Loops
pub mod UntilEof
pub mod UntilEofInto
use storm_byte_buffer.Prelude.{
  ℕ, Bool, true, false, not, ◌&&◌, ◌||◌, [], ltb, leb, ◌==◌, if◌then◌else◌, length, add_size, ℤ,
}
use storm_byte_buffer.Typedefs.{Data, Position, Operation, Helpers}
use storm_byte_buffer.Generic.{ReadOnly}
use storm_byte_buffer.Fifo
use storm_byte_buffer.Fifo.{Fifo}
use storm_byte_buffer.Fifo.Reading
use storm_byte_buffer.Fifo.Equality
use storm_byte_buffer.Fifo.Writing

-- The mutex, the condition variable and the unused `m_error_message` are not part of it.
pub record Shared : Type 0 where
  pub fifo : Fifo
  pub closed : Bool
  pub error : Bool

-- The default constructor.
unfoldable pub empty_shared : Shared
empty_shared = record { fifo = Fifo.empty_fifo; closed = false; error = false }

unfoldable pub available_bytes : Shared → ℕ
available_bytes s = Fifo.available_bytes s.fifo

unfoldable pub size : Shared → ℕ
size s = Fifo.size s.fifo

unfoldable pub is_empty : Shared → Bool
is_empty s = Fifo.is_empty s.fifo

unfoldable pub eof : Shared → Bool
eof s = s.error || (s.closed && (Fifo.available_bytes s.fifo == 0))

unfoldable pub has_error : Shared → Bool
has_error s = s.error

unfoldable pub is_readable : Shared → Bool
is_readable s = not s.error

unfoldable pub is_writable : Shared → Bool
is_writable s = not s.closed && not s.error

-- `operator==`, with both locks held.
unfoldable pub equals : Shared → Shared → Bool
equals s t = Equality.equals s.fifo t.fifo

-- What a finished method leaves: the buffer, its result, the bytes it has read, and whether it
-- calls `notify_all`.
pub record Finished : Type 0 where
  pub shared : Shared
  pub done : Bool
  pub out : Data
  pub notify : Bool

-- A method that waits on the condition variable, by what it does when it goes on.
pub data Pending : Type 0 where
  reading : ℕ → Operation → Pending
  dropping : ℕ → Pending

pub data Outcome : Type 0 where
  finished : Finished → Outcome
  blocked : ℕ → Pending → Outcome

-- A method with no result and no bytes.
abbrev pub quiet : Bool → Shared → Finished
quiet notify s = record { shared = s; done = true; out = []; notify = notify }

unfoldable pub close : Shared → Finished
close s = quiet true (record s { closed = true })

unfoldable pub set_error : Shared → Finished
set_error s = quiet true (record s { error = true })

unfoldable pub clear : Shared → Finished
clear s = quiet true (record s { fifo = Fifo.clear s.fifo })

unfoldable pub clean : Shared → Finished
clean s = quiet false (record s { fifo = Fifo.clean s.fifo })

-- `Seek` does not notify.
unfoldable pub seek : ℤ → Position → Shared → Finished
seek offset mode s = quiet false (record s { fifo = Fifo.seek offset mode s.fifo })

-- Assignment from a `FIFO`, copied or moved, opens the buffer again.
unfoldable pub assign : Fifo → Shared → Finished
assign other s =
    quiet true (record { fifo = Writing.copy_fifo other; closed = false; error = false })

-- The predicate of `Wait`.
unfoldable pub ready : ℕ → Shared → Bool
ready n s = s.closed || s.error || leb (add_size s.fifo.position_offset n) (length s.fifo.buffer)

-- What a method does once it has stopped waiting, the lock held.
unfoldable pub resume : Pending → Shared → Finished
resume (reading count flag) s =
    let r = Reading.read_internal count [] flag s.fifo in
    record { shared = record s { fifo = r.source }; done = r.done; out = r.out; notify = false }
resume (dropping count) s =
    let (done, f) = Fifo.drop_bytes count s.fifo in
    record { shared = record s { fifo = f }; done = done; out = []; notify = true }

-- `Wait(n)` and what follows it.
unfoldable pub wait : ℕ → Pending → Shared → Outcome
wait n p s = if (n == 0) || ready n s then finished (resume p s) else blocked n p

-- `ReadInternal` into a vector that starts empty.
unfoldable pub read_internal : ℕ → Operation → Shared → Outcome
read_internal count flag s =
    let avail = Fifo.available_bytes s.fifo in
    let real_count = if count == 0 then avail else count in
    if s.error || (s.closed && (avail == 0))
    then finished (record { shared = s; done = false; out = []; notify = false })
    else if ltb avail real_count && not s.closed
    then wait real_count (reading count flag) s
    else finished (resume (reading count flag) s)

-- `Drop`.
unfoldable pub drop_bytes : ℕ → Shared → Outcome
drop_bytes count s =
    if not (count == 0) && ltb (Fifo.available_bytes s.fifo) count
    then wait count (dropping count) s
    else finished (resume (dropping count) s)

module _ ⦃h : Helpers⦄ where
  -- From a `const DataType&`; the one from a `DataType&&` has the same effect on the buffer.
  unfoldable pub write_internal : ℕ → Data → Shared → Finished
  write_internal count src s =
      let (done, f) = Writing.write_internal count src s.fifo in
      if s.closed || s.error
      then record { shared = s; done = false; out = []; notify = false }
      else record { shared = record s { fifo = f }; done = done; out = []; notify = true }

-- From another buffer `SharedFIFO` has no method of its own: that of `FIFO` runs, with no lock, no
-- look at the flags and no notification.
module _ {T : Type 0} (src : ReadOnly T) where
  unfoldable pub write_internal_from : ℕ → T → Shared → Bool × T × Finished
  write_internal_from count t s =
      let (done, t', f) = Writing.write_internal_from src count t s.fifo in
      (done, t', record { shared = record s { fifo = f }; done = done; out = []; notify = false })
