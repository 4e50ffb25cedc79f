-- ===== src/Pipeline/Stages.antt =====
-- The loop of `Pipeline::Process` over the stages of a chain: pipeline.cxx.
use storm_byte_buffer.Prelude.{
  ℕ, zero, suc, ◌+◌, ◌<◌, ◌≤◌, ◌≡◌, refl, sym, ap, ap₂, ◌∙◌, List, [], ◌∷◌, ◌++◌, map, append-nil,
  append_assoc, none, some, length, drop, drop-all, get_elem?, get_elem?-lt, arith,
}
use storm_byte_buffer.Typedefs.{ExecutionMode}
use storm_byte_buffer.Consumer.{Consumer}
use storm_byte_buffer.Producer
use storm_byte_buffer.Producer.{Producer}
use storm_byte_buffer.Pipeline.{Stage, spawns, calls, joins, stage_at, launch}

-- The first stage reads from `input`, and each of the others from what the one before writes to.
abbrev pub stages : {F : Type 0} → Consumer → List F → List Producer → List (Stage F)
stages input [] ps = []
stages input (f ∷ fs) [] = []
stages input (f ∷ fs) (p ∷ ps) =
    record { pipe = f; input = input; output = p } ∷ stages (Producer.consumer p) fs ps

drop-get_elem? :
    {A : Type 0} (xs : List A) (i : ℕ) (x : A)
    → get_elem? xs i ≡ some x
    → drop i xs ≡ x ∷ drop (suc i) xs
drop-get_elem? [] i x e = ground arith
drop-get_elem? (y ∷ ys) zero x e = ground arith
drop-get_elem? (y ∷ ys) (suc i) x e = drop-get_elem? ys i x e

abbrev input_at : Consumer → List Producer → ℕ → Consumer
input_at buffer ps zero = buffer
input_at buffer ps (suc i) = elim (get_elem? ps i) [ none ↦ buffer | some p ↦ Producer.consumer p ]

module _ {F : Type 0} (buffer : Consumer) (fs : List F) (ps : List Producer) where
  abbrev pub rest : ℕ → List (Stage F)
  rest i = stages (input_at buffer ps i) (drop i fs) (drop i ps)

  input_at-get_elem? :
      (i : ℕ) (p : Producer)
      → get_elem? ps i ≡ some p
      → input_at buffer ps (suc i) ≡ Producer.consumer p
  input_at-get_elem? i p e = ground arith

  stage_at_lem :
      (i : ℕ) (f : F) (p : Producer)
      → i < length fs
      → length fs ≡ length ps
      → get_elem? fs i ≡ some f
      → get_elem? ps i ≡ some p
      → stage_at buffer fs ps i
        ≡ some (record { pipe = f; input = input_at buffer ps i; output = p })
  unfolding stage_at
  stage_at_lem zero f p h same ef ep = ground arith
  stage_at_lem (suc i) f p h same ef ep =
      let (q, eq) = get_elem?-lt ps i (omega arith) in ground (arith, eq)

  stage_at-rest :
      (i : ℕ)
      → i < length fs
      → length fs ≡ length ps
      → (x : Stage F) × (stage_at buffer fs ps i ≡ some x) × (rest i ≡ x ∷ rest (suc i))
  stage_at-rest i h same =
      let (f, ef) = get_elem?-lt fs i h in
      let (p, ep) = get_elem?-lt ps i (omega arith) in
      let x : Stage F = record { pipe = f; input = input_at buffer ps i; output = p } in
      (
        x,
        stage_at_lem i f p h same ef ep,
        ap₂ (λ gs qs. stages (input_at buffer ps i) gs qs) (drop-get_elem? fs i f ef)
              (drop-get_elem? ps i p ep)
            ∙ ap (λ c. x ∷ stages c (drop (suc i) fs) (drop (suc i) ps))
                (sym (input_at-get_elem? i p ep)),
      )

  rest_end : (i : ℕ) → length fs ≤ i → rest i ≡ []
  rest_end i h = rw (drop-all i fs h) refl

  pub launch_async :
      (k i : ℕ) (threads : List (Stage F))
      → k + i ≡ length fs
      → length fs ≡ length ps
      → launch ExecutionMode.async buffer fs ps k i threads
        ≡ some (map spawns (rest i), threads ++ rest i)
  unfolding launch
  launch_async zero i threads e same =
      rw (drop-all i fs (omega arith)) (ap (λ ts. some ([], ts)) (sym (append-nil threads)))
  launch_async (suc k) i threads e same =
      let (x, at, r) = stage_at-rest i (omega arith) same in
      let ih = launch_async k (suc i) (threads ++ x ∷ []) (omega arith) same in
      rw (at, ih, r) (ground (arith, append_assoc threads (x ∷ []) (rest (suc i))))

  pub launch_sync :
      (k i : ℕ) (threads : List (Stage F))
      → suc k + i ≡ length fs
      → length fs ≡ length ps
      → (front : List (Stage F)) × (last : Stage F) × (rest i ≡ front ++ last ∷ [])
        × (launch ExecutionMode.sync buffer fs ps (suc k) i threads
            ≡ some (map spawns front ++ calls last ∷ map joins (threads ++ front), []))
  unfolding launch
  launch_sync zero i threads e same =
      let (x, at, r) = stage_at-rest i (omega arith) same in
      (
        [],
        x,
        r ∙ ap (λ ys. x ∷ ys) (rest_end (suc i) (omega arith)),
        ground (arith, at, append-nil threads, append-nil (map joins threads)),
      )
  launch_sync (suc k) i threads e same =
      let (x, at, r) = stage_at-rest i (omega arith) same in
      let (front, last, split, ran) =
        launch_sync k (suc i) (threads ++ x ∷ []) (omega arith) same in
      (
        x ∷ front,
        last,
        r ∙ ap (λ ys. x ∷ ys) split,
        ground (
          arith,
          at,
          ran,
          append_assoc threads (x ∷ []) front,
          append-nil (map joins (threads ++ x ∷ front)),
        ),
      )
