-- ===== src/Tests/Stages.antt =====
-- Tests and examples of the modules under `Store`, `Producer` and `Pipeline`.
use storm_byte_buffer.Prelude.{
  none, map, ℕ, ◌≡◌, refl, List, [], ◌∷◌, ◌++◌, Option, some, get_elem?, arith,
}
use storm_byte_buffer.Typedefs.{Operation, ExecutionMode}
use storm_byte_buffer.Monitor.{Event, Monitor, writes, reads, closes}
use storm_byte_buffer.Monitor.Order.{all_given, all_taken, ahead}
use storm_byte_buffer.Store.{Store, Move, invokes, wakes, run, opened, make_shared}
use storm_byte_buffer.Store.Frame.{events_at}
use storm_byte_buffer.Consumer.{Consumer}
use storm_byte_buffer.Producer.{make, consumer}
use storm_byte_buffer.Producer.Pipe.{pipe_first_in_first_out}
use storm_byte_buffer.Pipeline.{
  assign, empty_pipeline, Pipeline, Stage, Action, spawns, calls, joins, process,
  wait_for_completion, launch, stage_at, make_producers,
}
use storm_byte_buffer.Pipeline.Stages.{stages}
use storm_byte_buffer.Pipeline.Process.{handles, opens, Ran, process_lem}
use storm_byte_buffer.Pipeline.Handed.{launched, inputs, outputs}
use storm_byte_buffer.Pipeline.Order.{stages_first_in_first_out}
use storm_byte_buffer.Tests.Setup.{plain, two}
use storm_byte_buffer.Pipeline.Threads.{
  Use, adds, assigns, processes, use_all, destroy, Runs, threads_joined,
}
use storm_byte_buffer.Pipeline.Moves.{move_assign, pipeline_move_assign_lem}

-- Thread 1 writes two bytes to the first buffer, thread 2 takes one and closes the second buffer.
abbrev uses : List Move
uses =
    invokes 1 (writes 0 two) (some 0)
    ∷ invokes 2 (reads 1 Operation.extract) (some 0)
    ∷ invokes 2 closes (some 1)
    ∷ []

pipe_first_in_first_out_example :
    let (p, s0) = make (opened ∷ []) in
    (es : List (Option Event)) × (s' : Store) × (m : Monitor) × (p.buffer ≡ some 1)
    × ((consumer p).buffer ≡ some 1)
    × (run (invokes 1 (writes 0 two) (some 1) ∷ wakes 0 3 ∷ []) s0 ≡ some (es, s'))
    × (get_elem? s' 1 ≡ some m)
    × (all_given (events_at 1 (invokes 1 (writes 0 two) (some 1) ∷ wakes 0 3 ∷ []) es)
        ≡ all_taken (events_at 1 (invokes 1 (writes 0 two) (some 1) ∷ wakes 0 3 ∷ []) es)
          ++ ahead m)
pipe_first_in_first_out_example =
    pipe_first_in_first_out (opened ∷ []) (invokes 1 (writes 0 two) (some 1) ∷ wakes 0 3 ∷ [])
      (omega arith) (omega arith) (omega arith)

-- Three stages, named by numbers; one thread of an earlier run is left.
abbrev source : Consumer
source = record { buffer = some 0 }

abbrev early : Stage ℕ
early = record { pipe = 7; input = source; output = record { buffer = some 0 } }

abbrev three : Pipeline ℕ
three = record { pipes = 7 ∷ 8 ∷ 9 ∷ []; producers = []; threads = early ∷ [] }

process_lem_example :
    (acts : List (Action ℕ)) × (left : List (Stage ℕ)) × (process source ExecutionMode.sync three
        (opened ∷ [])
      ≡ some (
        record { buffer = some 6 },
        joins early ∷ acts,
        record three { producers = handles 4 3; threads = left },
        opens 7,
      ))
    × Ran ExecutionMode.sync (stages source (7 ∷ 8 ∷ 9 ∷ []) (handles 4 3)) acts left
process_lem_example = process_lem source ExecutionMode.sync three (opened ∷ []) (omega arith)

-- The last of the stages is run by the caller, who then waits for the two others.
stage : ℕ → ℕ → ℕ → Stage ℕ
stage f i o = record {
  pipe = f;
  input = record { buffer = some i };
  output = record { buffer = some o };
}

process-three :
    process source ExecutionMode.sync three (opened ∷ [])
    ≡ some (
      record { buffer = some 6 },
      joins early
          ∷ spawns (stage 7 0 4)
          ∷ spawns (stage 8 4 5)
          ∷ calls (stage 9 5 6)
          ∷ joins (stage 7 0 4)
          ∷ joins (stage 8 4 5)
          ∷ [],
      record { pipes = 7 ∷ 8 ∷ 9 ∷ []; producers = handles 4 3; threads = [] },
      opens 7,
    )
unfolding stage process wait_for_completion launch stage_at make_producers make consumer make_shared
process-three = refl

-- A byte goes through the buffer between the first stage and the second.
abbrev between : List Move
between = invokes 1 (writes 0 two) (some 4) ∷ invokes 2 (reads 1 Operation.extract) (some 4) ∷ []

stages_first_in_first_out_example :
    (c : Consumer) × (acts : List (Action ℕ)) × (p' : Pipeline ℕ) × (s0 : Store) × (process source
        ExecutionMode.async three
        (opened ∷ [])
      ≡ some (c, acts, p', s0))
    × (get_elem? (outputs (launched acts)) 0 ≡ some (record { buffer = some 4 }))
    × (get_elem? (inputs (launched acts) ++ c.buffer ∷ []) 1 ≡ some (some 4))
    × (es : List (Option Event)) × (s' : Store) × (m : Monitor) × (run between s0 ≡ some (es, s'))
    × (get_elem? s' 4 ≡ some m)
    × (all_given (events_at 4 between es) ≡ all_taken (events_at 4 between es) ++ ahead m)
stages_first_in_first_out_example =
    stages_first_in_first_out source ExecutionMode.async three (opened ∷ []) between 0 (omega arith)
      (omega arith) (omega arith) (omega arith)

-- A stage is added to a pipeline with two of them, which runs asynchronously, and then synchronously
-- after another pipeline has been assigned to it.
abbrev life : List (Use ℕ)
life =
    adds 9
    ∷ processes source ExecutionMode.async
    ∷ assigns three
    ∷ processes source ExecutionMode.sync
    ∷ []

threads_joined_example :
    (acts : List (Action ℕ)) × (p' : Pipeline ℕ) × (s' : Store) × (use_all life three (opened ∷ [])
      ≡ some (acts, p', s'))
    × Runs ℕ acts (early ∷ []) p'.threads
    × Runs ℕ (acts ++ destroy p') (early ∷ []) []
threads_joined_example = threads_joined life three (opened ∷ [])

pipeline_move_assign_lem_example :
    (c : Consumer) × (acts : List (Action ℕ)) × (p' : Pipeline ℕ) × (s' : Store) × (process source
        ExecutionMode.async three
        (opened ∷ [])
      ≡ some (c, acts, p', s'))
    × ((assign empty_pipeline p').0 ≡ map joins p'.threads)
    × (move_assign empty_pipeline p' ≡ none)
pipeline_move_assign_lem_example =
    pipeline_move_assign_lem source ExecutionMode.async three empty_pipeline (opened ∷ [])
      (omega arith)
