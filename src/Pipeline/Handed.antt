-- ===== src/Pipeline/Handed.antt =====
-- The stages that `Pipeline::Process` starts or calls, and what each is handed: pipeline.cxx.
use storm_byte_buffer.Prelude.{
  ap₂, ℕ, suc, ◌+◌, ◌-◌, ◌<◌, ◌≡◌, refl, sym, ap, ◌∙◌, List, [], ◌∷◌, ◌++◌, map, Option, some,
  length, arith,
}
use storm_byte_buffer.Typedefs.{ExecutionMode}
use storm_byte_buffer.Consumer.{Consumer}
use storm_byte_buffer.Producer
use storm_byte_buffer.Producer.{Producer}
use storm_byte_buffer.Pipeline.{Stage, Action, spawns, calls, joins}
use storm_byte_buffer.Pipeline.Stages.{stages}
use storm_byte_buffer.Pipeline.Process.{handles, Ran}

-- The stages that are started or called, in order.
abbrev pub launched : {F : Type 0} → List (Action F) → List (Stage F)
launched [] = []
launched (spawns st ∷ acts) = st ∷ launched acts
launched (calls st ∷ acts) = st ∷ launched acts
launched (joins st ∷ acts) = launched acts

-- The buffers that some stages read and write.
abbrev pub inputs : {F : Type 0} → List (Stage F) → List (Option ℕ)
inputs = map (λ st. st.input.buffer)

abbrev pub outputs : {F : Type 0} → List (Stage F) → List Producer
outputs = map (λ st. st.output)

abbrev pub buffers : List Producer → List (Option ℕ)
buffers = map (λ p. p.buffer)

module _ {F : Type 0} where
  pub outputs-stages :
      (fs : List F) (input : Consumer) (start : ℕ)
      → outputs (stages input fs (handles start (length fs))) ≡ handles start (length fs)
  unfolding Producer.consumer
  outputs-stages [] input start = refl
  outputs-stages (f ∷ fs) input start =
      ap (λ (ps : List Producer). record { buffer = some start } ∷ ps)
        (outputs-stages fs (record { buffer = some start }) (suc start))

  -- Each buffer that is read is the first one or one that is written, in order.
  pub inputs-stages :
      (fs : List F) (input : Consumer) (start : ℕ)
      → 0 < length fs
      → inputs (stages input fs (handles start (length fs))) ++ some (start + (length fs - 1)) ∷ []
        ≡ input.buffer ∷ buffers (handles start (length fs))
  unfolding Producer.consumer
  inputs-stages [] input start h = absurd (omega arith)
  inputs-stages (f ∷ []) input start h = ap (λ (k : ℕ). input.buffer ∷ some k ∷ []) (omega arith)
  inputs-stages (f ∷ g ∷ fs) input start h =
      let rest =
        inputs-stages (g ∷ fs) (record { buffer = some start }) (suc start) (omega arith) in
      ap
        (λ (k : ℕ).
          input.buffer
            ∷ inputs (
                stages (record { buffer = some start }) (g ∷ fs)
                  (handles (suc start) (length (g ∷ fs))))
          ++ some k ∷ [])
        (omega arith)
      ∙ ap (λ (os : List (Option ℕ)). input.buffer ∷ os) rest

  launched-append : (xs ys : List (Action F)) → launched (xs ++ ys) ≡ launched xs ++ launched ys
  launched-append [] ys = refl
  launched-append (spawns st ∷ xs) ys =
      ap (λ (zs : List (Stage F)). st ∷ zs) (launched-append xs ys)
  launched-append (calls st ∷ xs) ys = ap (λ (zs : List (Stage F)). st ∷ zs) (launched-append xs ys)
  launched-append (joins st ∷ xs) ys = launched-append xs ys

  launched-joins : (ts : List (Stage F)) → launched (map joins ts) ≡ []
  launched-joins [] = refl
  launched-joins (t ∷ ts) = launched-joins ts

  launched-spawns : (ts : List (Stage F)) → launched (map spawns ts) ≡ ts
  launched-spawns [] = refl
  launched-spawns (t ∷ ts) = ap (λ (zs : List (Stage F)). t ∷ zs) (launched-spawns ts)

  launched-Ran :
      (mode : ExecutionMode) (st : List (Stage F)) (acts : List (Action F)) (left : List (Stage F))
      → Ran mode st acts left
      → launched acts ≡ st
  launched-Ran ExecutionMode.async st acts left (e, _) = ap launched e ∙ launched-spawns st
  launched-Ran ExecutionMode.sync st acts left (front, last, split, e, _) =
      ap launched e
      ∙ launched-append (map spawns front) (calls last ∷ map joins front)
      ∙ ap₂ (λ (xs : List (Stage F)) (ys : List (Stage F)). xs ++ last ∷ ys) (launched-spawns front)
          (launched-joins front)
      ∙ sym split

  -- The stages of a run, behind the threads of the last one.
  pub launched_lem :
      (mode : ExecutionMode) (ts sts : List (Stage F)) (acts : List (Action F))
      (left : List (Stage F))
      → Ran mode sts acts left
      → launched (map joins ts ++ acts) ≡ sts
  launched_lem mode ts sts acts left r =
      launched-append (map joins ts) acts
      ∙ ap (λ (xs : List (Stage F)). xs ++ launched acts) (launched-joins ts)
      ∙ launched-Ran mode sts acts left r
