-- ===== src/Pipeline.antt =====
-- The class `Pipeline`: lib/public/StormByte/buffer/pipeline.hxx and pipeline.cxx. What a method does
-- to threads is a list of actions, in order; what the stages do is up to the caller's functions.
pub mod Stages
pub mod Process
pub mod Errors
pub mod Handed
pub mod Order
pub mod Threads
pub mod Moves
pub mod Locking
use storm_byte_buffer.Prelude.{
  ℕ, zero, suc, ◌-◌, Bool, true, false, List, [], ◌∷◌, ◌++◌, map, Option, none, some, length,
  get_elem?, ltb, ◌==◌, if◌then◌else◌, ◌>>=◌,
}
use storm_byte_buffer.Typedefs.{ExecutionMode, Helpers}
use storm_byte_buffer.Store.{Store}
use storm_byte_buffer.Consumer.{Consumer}
use storm_byte_buffer.Producer
use storm_byte_buffer.Producer.{Producer}

-- One run of a pipe function: the arguments of its thread.
pub record Stage (F : Type 0) : Type 0 where
  pub pipe : F
  pub input : Consumer
  pub output : Producer

-- `m_threads` holds threads that have not been joined, each by the stage it runs.
pub record Pipeline (F : Type 0) : Type 0 where
  pub pipes : List F
  pub producers : List Producer
  pub threads : List (Stage F)

-- A thread is started, a stage is run by the caller, or the caller waits for a thread to end.
pub data Action (F : Type 0) : Type 0 where
  spawns calls joins : Stage F → Action F

-- `m_producers[i].SetError()` for each, by one thread.
unfoldable pub set_errors : ⦃h : Helpers⦄ → ℕ → List Producer → Store → Option Store
set_errors t [] s = some s
set_errors t (p ∷ ps) s = Producer.set_error t p s >>= λ r. set_errors t ps r.1

-- `n` producers by the default constructor, as `resize` and the loop behind it make them.
unfoldable pub make_producers : ℕ → Store → List Producer × Store
make_producers zero s = ([], s)
make_producers (suc n) s =
    let (p, s') = Producer.make s in let (ps, s'') = make_producers n s' in (p ∷ ps, s'')

module _ {F : Type 0} where
  unfoldable pub empty_pipeline : Pipeline F
  empty_pipeline = record { pipes = []; producers = []; threads = [] }

  -- The copy constructor.
  unfoldable pub copy : Pipeline F → Pipeline F
  copy other = record { pipes = other.pipes; producers = other.producers; threads = [] }

  unfoldable pub add_pipe : F → Pipeline F → Pipeline F
  add_pipe pipe p = record p { pipes = p.pipes ++ pipe ∷ [] }

  -- Also what the destructor calls.
  unfoldable pub wait_for_completion : Pipeline F → List (Action F) × Pipeline F
  wait_for_completion p = (map joins p.threads, record p { threads = [] })

  -- The copy assignment, from another pipeline.
  unfoldable pub assign : Pipeline F → Pipeline F → List (Action F) × Pipeline F
  assign other p =
      wait_for_completion (record p { pipes = other.pipes; producers = other.producers })

  unfoldable pub set_error : ⦃h : Helpers⦄ → ℕ → Pipeline F → Store → Option Store
  set_error t p s = set_errors t p.producers s

  -- `stage_in` and `stage_out` of one round.
  unfoldable pub stage_at : Consumer → List F → List Producer → ℕ → Option (Stage F)
  stage_at buffer pipes producers i = do
    pipe ← get_elem? pipes i
    output ← get_elem? producers i
    if i == 0
        then some (record { pipe = pipe; input = buffer; output = output })
        else (get_elem? producers (i - 1) >>= λ before.
            some (record { pipe = pipe; input = Producer.consumer before; output = output }))

  -- The loop, from the round `i` on, with the threads so far: what is done, and the threads left.
  unfoldable pub launch :
      ExecutionMode
      → Consumer
      → List F
      → List Producer
      → ℕ
      → ℕ
      → List (Stage F)
      → Option (List (Action F) × List (Stage F))
  launch mode buffer pipes producers zero i threads = some ([], threads)
  launch mode buffer pipes producers (suc rounds) i threads = do
    stage ← stage_at buffer pipes producers i
    let spawned = launch mode buffer pipes producers rounds (suc i) (threads ++ stage ∷ [])
    let called = launch mode buffer pipes producers rounds (suc i) []
    if ltb i (length pipes - 1)
        then (spawned >>= λ r. some (spawns stage ∷ r.0, r.1))
        else elim mode [
          | ExecutionMode.async ↦ spawned >>= λ r. some (spawns stage ∷ r.0, r.1)
          | ExecutionMode.sync ↦ called >>= λ r. some (calls stage ∷ map joins threads ++ r.0, r.1)
        ]

  unfoldable pub process :
      Consumer
      → ExecutionMode
      → Pipeline F
      → Store
      → Option (Consumer × List (Action F) × Pipeline F × Store)
  process buffer mode p s =
      let (waited, p') = wait_for_completion p in
      let n = length p'.pipes in
      -- The producers that `resize` makes are replaced.
      let (producers, s') = make_producers n (make_producers n s).1 in
      let launched = launch mode buffer p'.pipes producers n 0 [] in
      let back = get_elem? producers (n - 1) in
      if n == 0
      then some (buffer, waited, p', s)
      else (launched >>= λ r. back >>= λ q. some (
        Producer.consumer q,
        waited ++ r.0,
        record p' { producers = producers; threads = r.1 },
        s',
      ))
