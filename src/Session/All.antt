-- ===== src/Session/All.antt =====
-- What a thread in `ReadUntilEoF` of a `SharedFIFO` has got: fifo.cxx and shared_fifo.cxx.
use storm_byte_buffer.Prelude.{
  ◌+◌, ◌≤◌, ◌≡◌, ◌≢◌, ◌⊎◌, refl, sym, ap, ◌∙◌, inl, inr, true, false, List, [], ◌++◌, append-nil,
  length, max_size,
}
use storm_byte_buffer.Typedefs.{Data, Operation, Helpers}
use storm_byte_buffer.Fifo.Bounds.{IsValid}
use storm_byte_buffer.Shared.{Shared}
use storm_byte_buffer.Session.{before, asleep, over, Session, begin, Move, run}
use storm_byte_buffer.Session.Moves.{ahead, IsDone}
use storm_byte_buffer.Session.Feeds.{AreFed, total, begin-Enters}

ended_or : (m : Session) → (m.phase ≡ over → IsDone m.shared) → (m.phase ≢ over) ⊎ IsDone m.shared
ended_or m f =
    elim m.phase as (λ p. (p ≡ over → IsDone m.shared) → (p ≢ over) ⊎ IsDone m.shared) [
      | before turn ↦ λ g. inl (λ e. cc e)
      | asleep turn n p ↦ λ g. inl (λ e. cc e)
      | over ↦ λ g. inr (g refl)
    ]
      f

module _ ⦃h : Helpers⦄ where
  -- A thread in `ReadUntilEoF` or `ExtractUntilEoF` of a valid `SharedFIFO`, in any interleaving with
  -- threads that write, close the buffer and set its error, with room for all that they write: at
  -- every point, before, in and behind the waits, the bytes in its vector, followed by those still
  -- unread, are what the vector began with, the bytes unread at the start, and those of the writes
  -- that succeeded, in this order. The loop can only have ended if the buffer is in error, or
  -- closed with nothing unread.
  pub until_eof_keeps_all :
      (flag : Operation) (out : Data) (s : Shared) (vs : List Move)
      → flag ≢ Operation.peek
      → IsValid s.fifo
      → AreFed vs
      → length s.fifo.buffer + total vs ≤ max_size
      → let (xs, m) = run flag vs (begin flag out s) in
        (m.out ++ ahead m.shared ≡ (out ++ ahead s) ++ xs) × ((m.phase ≢ over) ⊎ IsDone m.shared)
  until_eof_keeps_all flag out s vs ne v i fits =
      let (k, e) = begin-Enters flag out s vs ne v i fits in
      (e, ended_or (run flag vs (begin flag out s)).1 k.ended)

  -- If that loop has ended and there was no error, then the buffer is closed, nothing is unread, and
  -- what it has put into the vector is exactly the bytes unread at the start, followed by those of
  -- all the writes that succeeded.
  pub until_eof_gets_all :
      (flag : Operation) (out : Data) (s : Shared) (vs : List Move)
      → flag ≢ Operation.peek
      → IsValid s.fifo
      → AreFed vs
      → length s.fifo.buffer + total vs ≤ max_size
      → (run flag vs (begin flag out s)).1.phase ≡ over
      → (run flag vs (begin flag out s)).1.shared.error ≡ false
      → let (xs, m) = run flag vs (begin flag out s) in
        (m.out ≡ (out ++ ahead s) ++ xs) × (m.shared.closed ≡ true) × (ahead m.shared ≡ [])
  until_eof_gets_all flag out s vs ne v i fits e calm =
      let (k, all) = begin-Enters flag out s vs ne v i fits in
      let m = (run flag vs (begin flag out s)).1 in
      elim (k.ended e) [
        | inl bad ↦ absurd cc
        | inr (shut, none_left) ↦ (
          sym (append-nil m.out) ∙ ap (λ (ys : Data). m.out ++ ys) (sym none_left) ∙ all,
          shut,
          none_left,
        )
      ]
