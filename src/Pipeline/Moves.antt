-- ===== src/Pipeline/Moves.antt =====
-- The moves of a `Pipeline`: pipeline.hxx. They are defaulted, so they move the three vectors, and a
-- move assignment destroys the threads that the pipeline had.
use storm_byte_buffer.Prelude.{
  ◌+◌, ◌<◌, ◌≡◌, refl, sym, List, [], ◌∷◌, map, Option, none, some, length, arith,
}
use storm_byte_buffer.Typedefs.{ExecutionMode}
use storm_byte_buffer.Store.{Store}
use storm_byte_buffer.Consumer.{Consumer}
use storm_byte_buffer.Producer.{Producer}
use storm_byte_buffer.Pipeline.{
  Pipeline, Stage, Action, joins, empty_pipeline, wait_for_completion, assign, process,
}
use storm_byte_buffer.Pipeline.Stages.{stages}
use storm_byte_buffer.Pipeline.Process.{Ran, handles, length-handles, process_lem}

module _ {F : Type 0} where
  -- The move constructor: the new pipeline, and what is left of the old one.
  unfoldable pub move : Pipeline F → Pipeline F × Pipeline F
  move other = (other, empty_pipeline)

  -- The move assignment. The destructor of a `std::thread` that has not been joined ends the program,
  -- which is `none`.
  unfoldable pub move_assign : Pipeline F → Pipeline F → Option (Pipeline F)
  move_assign other p = elim p.threads [ [] ↦ some other | t ∷ ts ↦ none ]

  some_stage :
      (buffer : Consumer) (fs : List F) (ps : List Producer)
      → 0 < length fs
      → length fs ≡ length ps
      → (st : Stage F) × (sts : List (Stage F)) × (stages buffer fs ps ≡ st ∷ sts)
  some_stage buffer [] ps h e = absurd (omega arith)
  some_stage buffer (f ∷ fs) [] h e = absurd (omega arith)
  some_stage buffer (f ∷ fs) (p ∷ ps) h e = (_, _, refl)

  -- What the move assignment makes of the threads of a run.
  left_behind :
      (mode : ExecutionMode) (buffer : Consumer) (ps : List Producer) (p other : Pipeline F)
      (acts : List (Action F))
      → 0 < length p.pipes
      → length p.pipes ≡ length ps
      → (left : List (Stage F)) → Ran mode (stages buffer p.pipes ps) acts left
      → move_assign other (record p { producers = ps; threads = left })
        ≡ elim mode [ ExecutionMode.sync ↦ some other | ExecutionMode.async ↦ none ]
  unfolding move_assign
  left_behind ExecutionMode.sync buffer ps p other acts h same left (_, _, _, _, e) = rw e refl
  left_behind ExecutionMode.async buffer ps p other acts h same left (_, e) =
      let (_, _, e') = some_stage buffer p.pipes ps h same in rw (e, e') refl

  -- A pipeline with stages runs, and then another one is assigned to it. The copy assignment waits for
  -- all the threads that are left, in order. The move assignment waits for none: it goes through if
  -- the run was synchronous, which leaves no thread, and ends the program if it was asynchronous.
  pub pipeline_move_assign_lem :
      (buffer : Consumer) (mode : ExecutionMode) (p other : Pipeline F) (s : Store)
      → 0 < length p.pipes
      → (c : Consumer) × (acts : List (Action F)) × (p' : Pipeline F) × (s' : Store) × (process
            buffer mode p s
          ≡ some (c, acts, p', s'))
        × ((assign other p').0 ≡ map joins p'.threads)
        × (move_assign other p'
            ≡ elim mode [ ExecutionMode.sync ↦ some other | ExecutionMode.async ↦ none ])
  unfolding assign wait_for_completion
  pipeline_move_assign_lem buffer mode p other s h =
      let n = length p.pipes in
      let ps = handles (length s + n) n in
      let (acts, left, ran, r) = process_lem buffer mode p s h in
      (
        _,
        _,
        _,
        _,
        ran,
        refl,
        left_behind mode buffer ps p other acts h (sym (length-handles (length s + n) n)) left r,
      )
