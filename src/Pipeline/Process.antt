-- ===== src/Pipeline/Process.antt =====
-- `Pipeline::Process` as a whole: pipeline.cxx.
use storm_byte_buffer.Prelude.{
  ℕ, zero, suc, ◌+◌, ◌-◌, ◌<◌, ◌≡◌, refl, sym, ap, ap₂, ◌∙◌, List, [], ◌∷◌, ◌++◌, map, append-nil,
  append_assoc, some, length, length-append, get_elem?, arith,
}
use storm_byte_buffer.Typedefs.{ExecutionMode}
use storm_byte_buffer.Monitor.{Monitor}
use storm_byte_buffer.Store.{Store, make_shared, opened}
use storm_byte_buffer.Consumer.{Consumer}
use storm_byte_buffer.Producer
use storm_byte_buffer.Producer.{Producer}
use storm_byte_buffer.Pipeline.{
  Pipeline, Stage, Action, spawns, calls, joins, launch, make_producers, wait_for_completion,
  process,
}
use storm_byte_buffer.Pipeline.Stages.{stages, launch_async, launch_sync}

-- Handles to the `n` buffers from `start` on, and `n` buffers that are open and empty.
abbrev pub handles : ℕ → ℕ → List Producer
handles start zero = []
handles start (suc n) = record { buffer = some start } ∷ handles (suc start) n

abbrev pub opens : ℕ → List Monitor
opens zero = []
opens (suc n) = opened ∷ opens n

pub length-handles : (start n : ℕ) → length (handles start n) ≡ n
length-handles start zero = refl
length-handles start (suc n) = omega (arith, length-handles (suc start) n)

pub get_elem?-handles :
    (start n i : ℕ)
    → i < n
    → get_elem? (handles start n) i ≡ some (record { buffer = some (start + i) })
get_elem?-handles start zero i h = absurd (omega arith)
get_elem?-handles start (suc n) zero h = ap (λ k. some (record { buffer = some k })) (omega arith)
get_elem?-handles start (suc n) (suc i) h =
    get_elem?-handles (suc start) n i (omega arith)
    ∙ ap (λ k. some (record { buffer = some k })) (omega arith)

pub length-opens : (n : ℕ) → length (opens n) ≡ n
length-opens zero = refl
length-opens (suc n) = omega (arith, length-opens n)

opens-add : (n k : ℕ) → opens n ++ opens k ≡ opens (n + k)
opens-add zero k = let e : k ≡ 0 + k = omega arith in ap opens e
opens-add (suc n) k =
    let e : suc (n + k) ≡ suc n + k = omega arith in
    ap (λ r. opened ∷ r) (opens-add n k) ∙ ap opens e

make_producers_lem : (n : ℕ) (s : Store) → make_producers n s ≡ (handles (length s) n, s ++ opens n)
unfolding make_producers Producer.make make_shared
make_producers_lem zero s = ap (λ r. ([], r)) (sym (append-nil s))
make_producers_lem (suc n) s = ground (
  arith,
  make_producers_lem n (s ++ opened ∷ []),
  length-append s (opened ∷ []),
  append_assoc s (opened ∷ []) (opens n),
)

made_twice :
    (n : ℕ) (s : Store)
    → make_producers n (make_producers n s).1 ≡ (handles (length s + n) n, s ++ opens (n + n))
made_twice n s =
    ap (λ r. make_producers n r.1) (make_producers_lem n s)
    ∙ make_producers_lem n (s ++ opens n)
    ∙ ap₂ (λ k r. (handles k n, r))
        (length-append s (opens n) ∙ ap (λ k. length s + k) (length-opens n))
        (append_assoc s (opens n) (opens n) ∙ ap (λ r. s ++ r) (opens-add n n))

module _ {F : Type 0} where
  -- What is done for the stages, and the threads that are left.
  abbrev pub Ran : ExecutionMode → List (Stage F) → List (Action F) → List (Stage F) → Type 0
  Ran ExecutionMode.async st acts left = (acts ≡ map spawns st) × (left ≡ st)
  Ran ExecutionMode.sync st acts left =
      (front : List (Stage F)) × (last : Stage F) × (st ≡ front ++ last ∷ [])
      × (acts ≡ map spawns front ++ calls last ∷ map joins front)
      × (left ≡ [])

  launch-Ran :
      (mode : ExecutionMode) (buffer : Consumer) (fs : List F) (ps : List Producer)
      → 0 < length fs
      → length fs ≡ length ps
      → (acts : List (Action F)) × (left : List (Stage F)) × (launch mode buffer fs ps
            (length fs)
            0
            []
          ≡ some (acts, left))
        × Ran mode (stages buffer fs ps) acts left
  launch-Ran mode buffer [] ps h same = absurd (omega arith)
  launch-Ran ExecutionMode.async buffer (f ∷ fs) ps h same = (
    _,
    _,
    launch_async buffer (f ∷ fs) ps (suc (length fs)) 0 [] (omega arith) same,
    (refl, refl),
  )
  launch-Ran ExecutionMode.sync buffer (f ∷ fs) ps h same =
      let (front, last, split, ran) =
        launch_sync buffer (f ∷ fs) ps (length fs) 0 [] (omega arith) same in
      (_, _, ran, (front, last, split, refl, refl))

  -- A pipeline with stages first waits for the threads of its last run. Then it makes two new buffers
  -- for each stage, all open and empty, of which the second ones are used: the first stage reads from
  -- the caller's consumer, each other stage from the buffer that the one before writes to, and the
  -- caller gets a consumer of the last one. Asynchronously each stage gets a thread, in order, and all
  -- are left to be waited for. Synchronously all stages but the last get a thread, then the caller
  -- runs the last one itself and waits for all the threads, so that none is left.
  pub process_lem :
      (buffer : Consumer) (mode : ExecutionMode) (p : Pipeline F) (s : Store)
      → 0 < length p.pipes
      → let n = length p.pipes in
        let ps = handles (length s + n) n in
        (acts : List (Action F)) × (left : List (Stage F)) × (process buffer mode p s
          ≡ some (
            record { buffer = some (length s + n + (n - 1)) },
            map joins p.threads ++ acts,
            record p { producers = ps; threads = left },
            s ++ opens (n + n),
          ))
        × Ran mode (stages buffer p.pipes ps) acts left
  unfolding process wait_for_completion Producer.consumer
  process_lem buffer mode p s h =
      let n = length p.pipes in
      let ps = handles (length s + n) n in
      let (acts, left, ran, r) =
        launch-Ran mode buffer p.pipes ps h (sym (length-handles (length s + n) n)) in
      (
        acts,
        left,
        ground
            (arith, made_twice n s, ran, get_elem?-handles (length s + n) n (n - 1) (omega arith)),
        r,
      )
