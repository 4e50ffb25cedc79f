-- ===== src/Producer/Pipe.antt =====
-- A producer and the consumer that is made from it.
use mathlib.Core.Path.{subst}
use storm_byte_buffer.Prelude.{
  suc, ◌≤◌, ◌≡◌, refl, List, [], ◌∷◌, ◌++◌, Option, some, length, length-append, max_size,
  get_elem?, get_elem?-middle, arith,
}
use storm_byte_buffer.Typedefs.{Helpers}
use storm_byte_buffer.Monitor.{Event, Monitor}
use storm_byte_buffer.Monitor.Wakeups.{total}
use storm_byte_buffer.Monitor.Order.{AreStreamMoves, all_given, all_taken, ahead}
use storm_byte_buffer.Store.{Store, Move, run, make_shared, opened}
use storm_byte_buffer.Store.Order.{opened_in_order}
use storm_byte_buffer.Store.Frame.{AreLive, moves_at, events_at}
use storm_byte_buffer.Producer.{make, consumer}

-- A producer is made on a new buffer, and its consumer is one on the same buffer. Threads may use
-- this buffer and any others through handles that are not null, in any schedule; on this buffer they
-- write, read, extract, wake up, close and set the error, the counts that they ask for are those that
-- a vector can hold, and all that they write fits into one.
-- Then every call goes through, and the bytes that have been taken from the buffer, in the order in
-- which they came through, followed by those still unread, are the bytes of the writes that
-- succeeded, in their order.
pub pipe_first_in_first_out :
    ⦃h : Helpers⦄ (s : Store) (vs : List Move)
    → AreLive (suc (length s)) vs
    → AreStreamMoves (moves_at (length s) vs)
    → total (moves_at (length s) vs) ≤ max_size
    → let (p, s0) = make s in
      let i = length s in
      (es : List (Option Event)) × (s' : Store) × (m : Monitor) × (p.buffer ≡ some i)
      × ((consumer p).buffer ≡ some i)
      × (run vs s0 ≡ some (es, s'))
      × (get_elem? s' i ≡ some m)
      × (all_given (events_at i vs es) ≡ all_taken (events_at i vs es) ++ ahead m)
unfolding make make_shared consumer
pipe_first_in_first_out s vs live moves small =
    let (es, s', m, ran, at, order) =
      opened_in_order (s ++ opened ∷ []) vs (length s) (get_elem?-middle s [] opened)
        (subst (λ n. AreLive n vs) (omega (arith, length-append s (opened ∷ []))) live) moves
        small in
    (es, s', m, refl, refl, ran, at, order)
