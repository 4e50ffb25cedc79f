-- ===== src/Shared/Refine.antt =====
-- What a reader of a `SharedFIFO` is answered, and when it waits: shared_fifo.cxx.
use storm_byte_buffer.Prelude.{
  ℕ, ◌≤◌, ◌≡◌, Bool, true, false, ◌||◌, [], none, some, leb, ◌==◌, if◌then◌else◌, take, max_size,
  arith,
}
use storm_byte_buffer.Typedefs.{Data, Operation}
use storm_byte_buffer.Tape
use storm_byte_buffer.Tape.{Tape, amount, take_from}
use storm_byte_buffer.Fifo
use storm_byte_buffer.Fifo.Bounds.{IsValid, available_bytes_lem}
use storm_byte_buffer.Fifo.Refine
use storm_byte_buffer.Fifo.Refine.{view, length-ahead, amount_of}
use storm_byte_buffer.Shared.{
  Shared, Outcome, finished, blocked, ready, resume, wait, read_internal,
}

pub record View : Type 0 where
  pub tape : Tape
  pub closed : Bool
  pub error : Bool

abbrev pub view_shared : Shared → View
view_shared s = record { tape = view s.fifo; closed = s.closed; error = s.error }

pub data Answer : Type 0 where
  answered : Bool → Data → View → Answer
  waits : ℕ → Answer

abbrev pub answer : Outcome → Answer
answer (finished x) = answered x.done x.out (view_shared x.shared)
answer (blocked n p) = waits n

-- A read in the error state is refused. Else it is served if all it asks for is there; a read of
-- everything and a read of a closed buffer never wait, and any other does.
unfoldable pub read_answer : ℕ → Operation → View → Answer
read_answer count flag v =
    if v.error then answered false [] v else elim (amount count v.tape.ahead) [
      | some n ↦ answered true (take n v.tape.ahead) (record v { tape = take_from n flag v.tape })
      | none ↦ if v.closed || count == 0 then answered false [] v else waits count
    ]

-- With no wrap the predicate of `Wait` asks for `n` unread bytes, or for a flag.
pub ready_lem :
    (s : Shared) (n : ℕ)
    → IsValid s.fifo
    → n ≤ max_size
    → ready n s ≡ (s.closed || s.error || leb n (Fifo.available_bytes s.fifo))
unfolding ready
ready_lem s n v small = ground (arith, available_bytes_lem v)

-- `Read`, `Peek` and `Extract` of a valid `SharedFIFO`, for a count that a vector can hold: in the
-- error state they are refused. Else they are served if bytes are unread and as many as they ask for,
-- a count of 0 asking for all; the tape tells which bytes these are and where they are then. Else they
-- are refused if the buffer is closed or the count is 0, and otherwise they wait for that count.
pub read_internal_answers :
    (s : Shared) (count : ℕ) (flag : Operation)
    → IsValid s.fifo
    → count ≤ max_size
    → answer (read_internal count flag s) ≡ read_answer count flag (view_shared s)
unfolding read_internal wait resume read_answer Tape.transfer
read_internal_answers s count flag v small = ground (
  arith,
  amount_of count (Fifo.available_bytes s.fifo) (view s.fifo).ahead (length-ahead v),
  available_bytes_lem v,
  Refine.read_internal_refines count [] flag v,
  ready_lem s count v small,
)
