-- ===== src/Pipeline/Locking.antt =====
-- The mutexes that the stages of a pipeline take: pipeline.cxx and shared_fifo.cxx.
use storm_byte_buffer.Prelude.{
  ℕ, zero, suc, ◌+◌, ◌*◌, ◌<◌, ◌≤◌, ◌≡◌, ap, ◌∙◌, Bool, false, List, [], ◌∷◌, some, length,
  get_elem?, arith,
}
use storm_byte_buffer.Typedefs.{ExecutionMode}
use storm_byte_buffer.Store.{Store}
use storm_byte_buffer.Consumer.{Consumer}
use storm_byte_buffer.Producer
use storm_byte_buffer.Producer.{Producer}
use storm_byte_buffer.Pipeline.{Pipeline, Stage, Action, process}
use storm_byte_buffer.Pipeline.Stages.{stages}
use storm_byte_buffer.Pipeline.Process.{handles, process_lem}
use storm_byte_buffer.Pipeline.Handed.{launched, launched_lem}
use storm_byte_buffer.Locks.{
  Call, uses, transfers, held, Act, begins, goes, sleeps, returns, Move, run,
}
use storm_byte_buffer.Locks.Ordered.{IsOrderedAct, AreOrderedMoves, all_idle, turns}
use storm_byte_buffer.Locks.Release.{take_turns, locks_release}
use storm_byte_buffer.Locks.Progress.{locks_finish}

module _ {F : Type 0} where
  -- A call on one buffer, or a read of the input of a stage into its output.
  abbrev pub IsStageCall : List (Stage F) → Call → Type 0
  IsStageCall sts (uses a) = Unit {0}
  IsStageCall sts (transfers a b) =
      (k : ℕ) × (st : Stage F) × (get_elem? sts k ≡ some st)
      × (st.input.buffer ≡ some a)
      × (st.output.buffer ≡ some b)

  abbrev pub IsStageAct : List (Stage F) → Act → Type 0
  IsStageAct sts (begins c) = IsStageCall sts c
  IsStageAct sts _ = Unit {0}

  abbrev pub AreStageMoves : List (Stage F) → List Move → Type 0
  AreStageMoves sts [] = Unit {0}
  AreStageMoves sts (v ∷ vs) = IsStageAct sts v.does × AreStageMoves sts vs

  stages-lt :
      (fs : List F) (i start k : ℕ) (st : Stage F) (a b : ℕ)
      → i < start
      → get_elem? (stages (record { buffer = some i }) fs (handles start (length fs))) k ≡ some st
      → st.input.buffer ≡ some a
      → st.output.buffer ≡ some b
      → a < b
  unfolding Producer.consumer
  stages-lt [] i start k st a b h at e e' = absurd (cc at)
  stages-lt (f ∷ fs) i start zero st a b h at e e' =
      let first : Stage F = record {
        pipe = f;
        input = record { buffer = some i };
        output = record { buffer = some start };
      } in
      let same : first ≡ st = ground arith in
      let from : some i ≡ some a = ap (λ (x : Stage F). x.input.buffer) same ∙ e in
      let to : some start ≡ some b = ap (λ (x : Stage F). x.output.buffer) same ∙ e' in ground arith
  stages-lt (f ∷ fs) i start (suc k) st a b h at e e' =
      stages-lt fs start (suc start) k st a b (omega arith) at e e'

  IsOrdered-IsStageAct :
      (sts : List (Stage F))
      → ((k : ℕ) (st : Stage F) (a b : ℕ)
          → get_elem? sts k ≡ some st
          → st.input.buffer ≡ some a
          → st.output.buffer ≡ some b
          → a < b)
      → (c : Act) → IsStageAct sts c
      → IsOrderedAct c
  IsOrdered-IsStageAct sts lt (begins (uses a)) i = tt
  IsOrdered-IsStageAct sts lt (begins (transfers a b)) (k, st, at, e, e') = lt k st a b at e e'
  IsOrdered-IsStageAct sts lt goes i = tt
  IsOrdered-IsStageAct sts lt sleeps i = tt
  IsOrdered-IsStageAct sts lt returns i = tt

  stage-AreOrderedMoves :
      (sts : List (Stage F))
      → ((k : ℕ) (st : Stage F) (a b : ℕ)
          → get_elem? sts k ≡ some st
          → st.input.buffer ≡ some a
          → st.output.buffer ≡ some b
          → a < b)
      → (vs : List Move) → AreStageMoves sts vs
      → AreOrderedMoves vs
  stage-AreOrderedMoves sts lt [] i = tt
  stage-AreOrderedMoves sts lt (v ∷ vs) i =
      (IsOrdered-IsStageAct sts lt v.does i.0, stage-AreOrderedMoves sts lt vs i.1)

  -- The stages of a run with a consumer of the buffer `i`.
  abbrev pub run_stages : ℕ → Pipeline F → Store → List (Stage F)
  run_stages i p s =
      stages (record { buffer = some i }) p.pipes
        (handles (length s + length p.pipes) (length p.pipes))

  -- `Process` of a pipeline with stages, with a consumer of a buffer that there is: of the stages that
  -- it starts, and the one that it calls, any number of threads that call methods on any buffers, and
  -- read the input of a stage into its output, in any interleaving. From any point on there is an
  -- order, with at most three turns for each, in which all mutexes are given back, whichever calls find
  -- what they ask for and whichever wait for it in `m_cv.wait`. If all find it, there is one, with at
  -- most four turns for each, that ends all the calls. So no mutex that one of them takes blocks the
  -- others for ever.
  pub process_unblocked :
      (i : ℕ) (mode : ExecutionMode) (p : Pipeline F) (s : Store) (n : ℕ) (vs : List Move)
      (finds : Call → Bool)
      → 0 < length p.pipes
      → i < length s
      → AreStageMoves (run_stages i p s) vs
      → (c : Consumer) × (acts : List (Action F)) × (p' : Pipeline F) × (s' : Store) × (process
            (record { buffer = some i })
            mode
            p
            s
          ≡ some (c, acts, p', s'))
        × (launched acts ≡ run_stages i p s)
        × ((is : List ℕ) × (length is ≤ 3 * n)
            × ((m : ℕ) → held m (take_turns finds is (run vs (all_idle n))) ≡ false))
        × ((is : List ℕ) × (length is ≤ 4 * n)
            × (run (turns is) (run vs (all_idle n)) ≡ all_idle n))
  process_unblocked i mode p s n vs finds h below moves =
      let buffer : Consumer = record { buffer = some i } in
      let start = length s + length p.pipes in
      let sts = run_stages i p s in
      let (acts, left, ran, r) = process_lem buffer mode p s h in
      let ordered : AreOrderedMoves vs =
        stage-AreOrderedMoves sts (λ k st a b. stages-lt p.pipes i start k st a b (omega arith)) vs
          moves in
      (
        _,
        _,
        _,
        _,
        ran,
        launched_lem mode p.threads sts acts left r,
        locks_release finds n vs ordered,
        locks_finish n vs ordered,
      )
