-- ===== src/Tests/Locking.antt =====
-- Tests and examples of the modules under `Locks`, and of the mutexes of a pipeline.
use storm_byte_buffer.Prelude.{
  ℕ, ◌*◌, ◌≤◌, ◌≡◌, refl, Bool, true, false, List, [], ◌∷◌, some, length, arith,
}
use storm_byte_buffer.Typedefs.{ExecutionMode}
use storm_byte_buffer.Store.{Store, opened}
use storm_byte_buffer.Consumer.{Consumer}
use storm_byte_buffer.Producer
use storm_byte_buffer.Pipeline.{Pipeline, Action, process}
use storm_byte_buffer.Pipeline.Locking.{run_stages, process_unblocked}
use storm_byte_buffer.Pipeline.Handed.{launched}
use storm_byte_buffer.Locks.{
  Call, uses, transfers, inside, enters, wants, holds, next, held, waits, begins, goes, sleeps, act,
  step_at, Move, run,
}
use storm_byte_buffer.Locks.Release.{take_turns}
use storm_byte_buffer.Locks.Ordered.{all_idle, turns}
use storm_byte_buffer.Locks.Deadlock.{crossed, looped, transfers_block}

abbrev two_stages : Pipeline ℕ
two_stages = record { pipes = 7 ∷ 8 ∷ []; producers = []; threads = [] }

-- The first stage reads into the buffer of the second one, which reads that into the last one, while
-- a third thread writes to the first buffer.
abbrev busy : List Move
busy =
    record { thread = 0; does = begins (transfers 0 3) }
    ∷ record { thread = 1; does = begins (transfers 3 4) }
    ∷ record { thread = 0; does = goes }
    ∷ record { thread = 1; does = goes }
    ∷ record { thread = 0; does = goes }
    ∷ record { thread = 2; does = begins (uses 0) }
    ∷ record { thread = 1; does = sleeps }
    ∷ []

-- The second thread sleeps, so that the first can write; the third waits for the first.
busy_places :
    run busy (all_idle 3) ≡ inside (transfers 0 3) ∷ enters (transfers 3 4) ∷ enters (uses 0) ∷ []
unfolding run step_at act waits wants held holds next
busy_places = refl

-- No read finds anything.
abbrev writes_only : Call → Bool
writes_only (uses a) = true
writes_only (transfers a b) = false

process_unblocked_example :
    (c : Consumer) × (acts : List (Action ℕ)) × (p' : Pipeline ℕ) × (s' : Store) × (process
        (record { buffer = some 0 })
        ExecutionMode.async
        two_stages
        (opened ∷ [])
      ≡ some (c, acts, p', s'))
    × (launched acts ≡ run_stages 0 two_stages (opened ∷ []))
    × ((is : List ℕ) × (length is ≤ 3 * 3)
        × ((m : ℕ) → held m (take_turns writes_only is (run busy (all_idle 3))) ≡ false))
    × ((is : List ℕ) × (length is ≤ 4 * 3) × (run (turns is) (run busy (all_idle 3)) ≡ all_idle 3))
unfolding Producer.consumer
process_unblocked_example =
    process_unblocked 0 ExecutionMode.async two_stages (opened ∷ []) 3 busy writes_only
      (omega arith) (omega arith)
      ((0, _, refl, refl, refl), ((1, _, refl, refl, refl), (tt, (tt, (tt, (tt, (tt, tt)))))))

-- Turns of both threads, and a call that neither of them can make.
abbrev held_up : List Move
held_up =
    record { thread = 0; does = goes }
    ∷ record { thread = 1; does = begins (uses 3) }
    ∷ record { thread = 1; does = goes }
    ∷ []

transfers_block_example :
    (run held_up (run (crossed 3 5) (all_idle 2))
      ≡ inside (transfers 3 5) ∷ inside (transfers 5 3) ∷ [])
    × (run held_up (run (looped 3) (all_idle 1)) ≡ inside (transfers 3 3) ∷ [])
transfers_block_example = transfers_block 3 5 held_up (λ e. cc e) (omega arith)
