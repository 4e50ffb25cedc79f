-- ===== src/Pipeline/Threads.antt =====
-- The threads of a `Pipeline` from its construction to its destructor: pipeline.hxx and pipeline.cxx.
use mathlib.Core.Path.{subst}
use storm_byte_buffer.Prelude.{
  ◌≡◌, refl, sym, ap, ◌∙◌, List, [], ◌∷◌, ◌++◌, map, append-nil, append_assoc, Option, some, ◌>>=◌,
  true, length, ◌==◌, Bool-cases, inl, inr, arith,
}
use storm_byte_buffer.Typedefs.{ExecutionMode}
use storm_byte_buffer.Store.{Store}
use storm_byte_buffer.Consumer.{Consumer}
use storm_byte_buffer.Pipeline.{
  Pipeline, Stage, Action, spawns, calls, joins, wait_for_completion, add_pipe, assign, process,
}
use storm_byte_buffer.Pipeline.Process.{Ran, process_lem}

-- The calls of a client, by one thread, that touch the stages or the threads.
pub data Use (F : Type 0) : Type 0 where
  adds : F → Use F
  assigns : Pipeline F → Use F
  processes : Consumer → ExecutionMode → Use F

module _ {F : Type 0} where
  unfoldable pub use_once :
      Use F → Pipeline F → Store → Option (List (Action F) × Pipeline F × Store)
  use_once (adds pipe) p s = some ([], add_pipe pipe p, s)
  use_once (assigns other) p s = let (acts, p') = assign other p in some (acts, p', s)
  use_once (processes buffer mode) p s = process buffer mode p s >>= λ r. some (r.1, r.2, r.3)

  unfoldable pub use_all :
      List (Use F) → Pipeline F → Store → Option (List (Action F) × Pipeline F × Store)
  use_all [] p s = some ([], p, s)
  use_all (u ∷ us) p s =
      use_once u p s >>= λ x. use_all us x.1 x.2 >>= λ y. some (x.0 ++ y.0, y.1, y.2)

  -- The destructor.
  unfoldable pub destroy : Pipeline F → List (Action F)
  destroy p = (wait_for_completion p).0

-- What the actions make of the threads that run: a thread is started behind the others, and only the
-- oldest one is waited for, and is gone then.
pub data Runs (F : Type 0) : List (Action F) → List (Stage F) → List (Stage F) → Type 0 where
  stopped : {ts : List (Stage F)} → Runs F [] ts ts
  started :
      {acts : List (Action F)} {ts us : List (Stage F)} (st : Stage F)
      → Runs F acts (ts ++ st ∷ []) us
      → Runs F (spawns st ∷ acts) ts us
  called :
      {acts : List (Action F)} {ts us : List (Stage F)} (st : Stage F)
      → Runs F acts ts us
      → Runs F (calls st ∷ acts) ts us
  awaited :
      {acts : List (Action F)} {ts us : List (Stage F)} (st : Stage F)
      → Runs F acts ts us
      → Runs F (joins st ∷ acts) (st ∷ ts) us

module _ {F : Type 0} where
  Runs-append :
      {acts more : List (Action F)} {ts us vs : List (Stage F)}
      → Runs F acts ts us
      → Runs F more us vs
      → Runs F (acts ++ more) ts vs
  Runs-append stopped r = r
  Runs-append (started st q) r = started st (Runs-append q r)
  Runs-append (called st q) r = called st (Runs-append q r)
  Runs-append (awaited st q) r = awaited st (Runs-append q r)

  joins-Runs : (ts : List (Stage F)) → Runs F (map joins ts) ts []
  joins-Runs [] = stopped
  joins-Runs (t ∷ ts) = awaited t (joins-Runs ts)

  spawns-Runs : (st ts : List (Stage F)) → Runs F (map spawns st) ts (ts ++ st)
  spawns-Runs [] ts = subst (λ (us : List (Stage F)). Runs F [] ts us) (sym (append-nil ts)) stopped
  spawns-Runs (x ∷ st) ts = started x (
      subst (λ (us : List (Stage F)). Runs F (map spawns st) (ts ++ x ∷ []) us)
        (append_assoc ts (x ∷ []) st) (spawns-Runs st (ts ++ x ∷ [])))

  Ran-Runs :
      (mode : ExecutionMode) (st : List (Stage F)) (acts : List (Action F)) (left : List (Stage F))
      → Ran mode st acts left
      → Runs F acts [] left
  Ran-Runs ExecutionMode.async st acts left (e, e') = rw (e, e') (spawns-Runs st [])
  Ran-Runs ExecutionMode.sync st acts left (front, last, _, e, e') =
      rw (e, e') (Runs-append (spawns-Runs front []) (called last (joins-Runs front)))

  -- A call that goes through, with what it makes of the threads.
  abbrev Goes : Pipeline F → Option (List (Action F) × Pipeline F × Store) → Type 0
  Goes p o =
      (acts : List (Action F)) × (p' : Pipeline F) × (s' : Store) × (o ≡ some (acts, p', s'))
      × Runs F acts p.threads p'.threads

  process_none :
      (buffer : Consumer) (mode : ExecutionMode) (p : Pipeline F) (s : Store)
      → (length p.pipes == 0) ≡ true
      → process buffer mode p s ≡ some (buffer, map joins p.threads, record p { threads = [] }, s)
  unfolding process wait_for_completion
  process_none buffer mode p s e = ground arith

  process-Goes :
      (buffer : Consumer) (mode : ExecutionMode) (p : Pipeline F) (s : Store)
      → Goes p (use_once (processes buffer mode) p s)
  unfolding use_once
  process-Goes buffer mode p s = elim (Bool-cases (length p.pipes == 0)) [
    | inl e ↦ (
      map joins p.threads,
      record p { threads = [] },
      s,
      ap (λ o. o >>= λ r. some (r.1, r.2, r.3)) (process_none buffer mode p s e),
      joins-Runs p.threads,
    )
    | inr e ↦
        let (acts, left, ran, r) = process_lem buffer mode p s (ground arith) in
        (
          map joins p.threads ++ acts,
          _,
          _,
          ap (λ o. o >>= λ r. some (r.1, r.2, r.3)) ran,
          Runs-append (joins-Runs p.threads) (Ran-Runs mode _ acts left r),
        )
  ]

  use-Goes : (u : Use F) (p : Pipeline F) (s : Store) → Goes p (use_once u p s)
  unfolding use_once add_pipe assign wait_for_completion
  use-Goes (adds pipe) p s = ([], _, s, refl, stopped)
  use-Goes (assigns other) p s = (map joins p.threads, _, s, refl, joins-Runs p.threads)
  use-Goes (processes buffer mode) p s = process-Goes buffer mode p s

  -- Over any sequence of added stages, copy assignments and runs in either mode, of any pipeline, and
  -- then its destructor: every call goes through, and of the threads, those that the pipeline has at first
  -- and those that it starts, each is waited for exactly once, in the order in which they were
  -- started and only after that, and none is left.
  pub threads_joined :
      (us : List (Use F)) (p : Pipeline F) (s : Store)
      → (acts : List (Action F)) × (p' : Pipeline F) × (s' : Store) × (use_all us p s
          ≡ some (acts, p', s'))
        × Runs F acts p.threads p'.threads
        × Runs F (acts ++ destroy p') p.threads []
  unfolding use_all destroy wait_for_completion
  threads_joined [] p s = ([], p, s, refl, stopped, joins-Runs p.threads)
  threads_joined (u ∷ us) p s =
      let (acts, p', s', e, r) = use-Goes u p s in
      let (acts', p'', s'', e', r', d) = threads_joined us p' s' in
      (
        acts ++ acts',
        p'',
        s'',
        ap (λ o. o >>= λ x. use_all us x.1 x.2 >>= λ y. some (x.0 ++ y.0, y.1, y.2)) e
            ∙ ap (λ o. o >>= λ y. some (acts ++ y.0, y.1, y.2)) e',
        Runs-append r r',
        subst (λ (xs : List (Action F)). Runs F xs p.threads [])
            (sym (append_assoc acts acts' (map joins p''.threads))) (Runs-append r d),
      )
