-- ===== src/Store/Order.antt =====
-- One new buffer of a store under a schedule of the whole store.
use mathlib.Core.Path.{subst}
use storm_byte_buffer.Prelude.{
  ℕ, ◌≤◌, ◌≡◌, sym, List, ◌++◌, Option, some, length, max_size, get_elem?, arith,
}
use storm_byte_buffer.Typedefs.{Helpers}
use storm_byte_buffer.Fifo
use storm_byte_buffer.Shared
use storm_byte_buffer.Monitor
use storm_byte_buffer.Monitor.{Event, Monitor}
use storm_byte_buffer.Monitor.Wakeups.{total}
use storm_byte_buffer.Monitor.Order.{
  AreStreamMoves, threads_first_in_first_out, all_given, all_taken, ahead,
}
use storm_byte_buffer.Store.{Store, Move, run, opened}
use storm_byte_buffer.Store.Frame.{AreLive, moves_at, events_at, run_projects}

pub opened_in_order :
    ⦃h : Helpers⦄ (s : Store) (vs : List Move) (i : ℕ)
    → get_elem? s i ≡ some opened
    → AreLive (length s) vs
    → AreStreamMoves (moves_at i vs)
    → total (moves_at i vs) ≤ max_size
    → (es : List (Option Event)) × (s' : Store) × (m : Monitor) × (run vs s ≡ some (es, s'))
      × (get_elem? s' i ≡ some m)
      × (all_given (events_at i vs es) ≡ all_taken (events_at i vs es) ++ ahead m)
unfolding Shared.empty_shared Fifo.empty_fifo
opened_in_order s vs i here live moves small =
    let (es, s', ran, same, at, told) = run_projects vs s i opened live here in
    let end = (Monitor.run (moves_at i vs) opened).1 in
    let order =
      threads_first_in_first_out opened.shared (moves_at i vs) (omega arith) moves (omega arith) in
    (
      es,
      s',
      end,
      ran,
      at,
      subst (λ (xs : List (Option Event)). all_given xs ≡ all_taken xs ++ ahead end) (sym told)
          order,
    )
