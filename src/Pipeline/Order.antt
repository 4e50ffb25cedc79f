-- ===== src/Pipeline/Order.antt =====
-- The buffers between the stages of a pipeline under any schedule: pipeline.cxx and shared_fifo.cxx.
use mathlib.Core.Path.{subst}
use storm_byte_buffer.Prelude.{
  ℕ, get_elem?-append_right, zero, suc, ◌+◌, ◌≤◌, ◌<◌, ◌≡◌, refl, sym, ap, ◌∙◌, List, [], ◌∷◌, ◌++◌,
  map, ◌-◌, Option, some, length, length-append, max_size, get_elem?, arith,
}
use storm_byte_buffer.Typedefs.{ExecutionMode, Helpers}
use storm_byte_buffer.Monitor.{Event, Monitor}
use storm_byte_buffer.Monitor.Wakeups.{total}
use storm_byte_buffer.Monitor.Order.{AreStreamMoves, all_given, all_taken, ahead}
use storm_byte_buffer.Store.{Store, Move, run, opened}
use storm_byte_buffer.Store.Frame.{AreLive, moves_at, events_at}
use storm_byte_buffer.Store.Order.{opened_in_order}
use storm_byte_buffer.Consumer.{Consumer}
use storm_byte_buffer.Producer.{Producer}
use storm_byte_buffer.Pipeline.{Pipeline, Stage, Action, joins, process}
use storm_byte_buffer.Pipeline.Stages.{stages}
use storm_byte_buffer.Pipeline.Handed.{
  launched, launched_lem, inputs, outputs, buffers, inputs-stages, outputs-stages,
}
use storm_byte_buffer.Pipeline.Process.{
  handles, opens, length-opens, get_elem?-handles, process_lem,
}

pub get_elem?-opens : (n k : ℕ) → k < n → get_elem? (opens n) k ≡ some opened
get_elem?-opens zero k h = absurd (omega arith)
get_elem?-opens (suc n) zero h = refl
get_elem?-opens (suc n) (suc k) h = get_elem?-opens n k (omega arith)

get_elem?-buffers :
    (ps : List Producer) (k j : ℕ)
    → get_elem? ps k ≡ some (record { buffer = some j })
    → get_elem? (buffers ps) k ≡ some (some j)
get_elem?-buffers [] k j e = ground arith
get_elem?-buffers (p ∷ ps) zero j e = ground arith
get_elem?-buffers (p ∷ ps) (suc k) j e = get_elem?-buffers ps k j e

-- `Process` of a pipeline, in either mode: the stage at place `k` of those that are started or called
-- is handed a new buffer to write to, which the next stage, or after the last one the caller, is
-- handed to read. Whatever the stages do then: if all handles that are used have a buffer, and this
-- one is only written, read, extracted, closed and set to an error, where the counts asked for are
-- those that a vector can hold and all that is written fits into one, then the bytes that have been
-- taken from it, in the order in which they came through, followed by those still unread, are the
-- bytes of the writes that succeeded, in their order.
pub stages_first_in_first_out :
    {F : Type 0} ⦃h : Helpers⦄ (buffer : Consumer) (mode : ExecutionMode) (p : Pipeline F)
    (s : Store) (vs : List Move) (k : ℕ)
    → k < length p.pipes
    → AreLive (length s + (length p.pipes + length p.pipes)) vs
    → AreStreamMoves (moves_at (length s + length p.pipes + k) vs)
    → total (moves_at (length s + length p.pipes + k) vs) ≤ max_size
    → let i = length s + length p.pipes + k in
      (c : Consumer) × (acts : List (Action F)) × (p' : Pipeline F) × (s0 : Store) × (process buffer
          mode p s
        ≡ some (c, acts, p', s0))
      × (get_elem? (outputs (launched acts)) k ≡ some (record { buffer = some i }))
      × (get_elem? (inputs (launched acts) ++ c.buffer ∷ []) (suc k) ≡ some (some i))
      × (es : List (Option Event)) × (s' : Store) × (m : Monitor) × (run vs s0 ≡ some (es, s'))
      × (get_elem? s' i ≡ some m)
      × (all_given (events_at i vs es) ≡ all_taken (events_at i vs es) ++ ahead m)
stages_first_in_first_out {F = F} buffer mode p s vs k inside live moves small =
    let n = length p.pipes in
    let s0 : Store = s ++ opens (n + n) in
    let place : length s + (n + k) ≡ length s + n + k = omega arith in
    let ps = handles (length s + n) n in
    let (acts, left, ran, r) = process_lem buffer mode p s (omega arith) in
    let whole : launched (map joins p.threads ++ acts) ≡ stages buffer p.pipes ps =
      launched_lem mode p.threads (stages buffer p.pipes ps) acts left r in
    let (es, s', m, went, at, order) =
      opened_in_order s0 vs (length s + n + k)
        (ap (λ i. get_elem? s0 i) (sym place)
          ∙ get_elem?-append_right s (opens (n + n)) (n + k)
          ∙ get_elem?-opens (n + n) (n + k) (omega arith))
        (subst (λ l. AreLive l vs)
          (omega (arith, length-append s (opens (n + n)), length-opens (n + n))) live)
        moves small in
    (
      _,
      _,
      _,
      s0,
      ran,
      ap (λ (st : List (Stage F)). get_elem? (outputs st) k) whole
          ∙ ap (λ (os : List Producer). get_elem? os k)
              (outputs-stages p.pipes buffer (length s + n))
          ∙ get_elem?-handles (length s + n) n k inside,
      ap
            (λ (st : List (Stage F)).
              get_elem? (inputs st ++ some (length s + n + (n - 1)) ∷ []) (suc k))
            whole
          ∙ ap (λ (os : List (Option ℕ)). get_elem? os (suc k))
              (inputs-stages p.pipes buffer (length s + n) (omega arith))
          ∙ get_elem?-buffers ps k (length s + n + k) (get_elem?-handles (length s + n) n k inside),
      es,
      s',
      m,
      went,
      at,
      order,
    )
