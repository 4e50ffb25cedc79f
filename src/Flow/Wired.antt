-- ===== src/Flow/Wired.antt =====
-- The buffers and threads that `Pipeline::Process` of pipeline.cxx sets up for pipe functions that pass
-- their bytes on, as a row of stages.
use storm_byte_buffer.Prelude.{
  ℕ, suc, ◌+◌, ◌-◌, ◌<◌, ◌≤◌, ◌≡◌, refl, sym, ap, ◌∙◌, List, [], ◌∷◌, ◌++◌, map, Option, some,
  ◌>>=◌, length, get_elem?, get_elem?-append_left, get_elem?-append_right, arith,
}
use storm_byte_buffer.Typedefs.{Operation, ExecutionMode}
use storm_byte_buffer.Shared.{Shared}
use storm_byte_buffer.Monitor.{Monitor}
use storm_byte_buffer.Session.{before, looks, begin}
use storm_byte_buffer.Store.{Store, opened, query}
use storm_byte_buffer.Consumer.{Consumer}
use storm_byte_buffer.Producer
use storm_byte_buffer.Producer.{Producer}
use storm_byte_buffer.Pipeline.{Pipeline, Stage, Action, joins, process}
use storm_byte_buffer.Pipeline.Stages.{stages}
use storm_byte_buffer.Pipeline.Process.{handles, opens, process_lem}
use storm_byte_buffer.Pipeline.Order.{get_elem?-opens}
use storm_byte_buffer.Pipeline.Handed.{
  launched, launched_lem, inputs, outputs, buffers, inputs-stages, outputs-stages,
}
use storm_byte_buffer.Chain.{fresh}
use storm_byte_buffer.Flow.{Filter, Node, node, lay}

-- The buffers that are used.
made_at :
    (n : ℕ) (s : Store) (j : ℕ)
    → length s + n ≤ j
    → j < length s + n + n
    → get_elem? (s ++ opens (n + n)) j ≡ some opened
made_at n s j from below =
    let place : length s + (j - length s) ≡ j = omega arith in
    ap (λ k. get_elem? (s ++ opens (n + n)) k) (sym place)
    ∙ get_elem?-append_right s (opens (n + n)) (j - length s)
    ∙ get_elem?-opens (n + n) (j - length s) (omega arith)

query_at :
    (j : ℕ) (m : Monitor) (s : Store)
    → get_elem? s j ≡ some m
    → query (λ x. x) (some j) s ≡ some m.shared
unfolding query
query_at j m s e = ground arith

module _ {F : Type 0} (body : F → Filter) where
  -- These stages before their first calls, each on the buffer of its input handle.
  unfoldable pub nodes_at : List (Stage F) → Store → Option (List Node)
  nodes_at [] s = some []
  nodes_at (st ∷ sts) s = query (λ x. x) st.input.buffer s >>= λ x. nodes_at sts s >>= λ ns. some (
      record (node (body st.pipe)) {
        session = record (begin Operation.extract [] x) { phase = before looks };
      }
      ∷ ns)

  -- The stages behind handles to buffers that are open and empty.
  nodes_at-stages :
      (fs : List F) (input : Consumer) (start : ℕ) (s : Store)
      → query (λ x. x) input.buffer s ≡ some opened.shared
      → ((j : ℕ) → start ≤ j → j < start + length fs → get_elem? s j ≡ some opened)
      → nodes_at (stages input fs (handles start (length fs))) s ≡ some (lay (map body fs))
  unfolding nodes_at lay node fresh Producer.consumer
  nodes_at-stages [] input start s e all = refl
  nodes_at-stages (f ∷ fs) input start s e all =
      let rest : Option (List Node) =
        nodes_at (stages (record { buffer = some start }) fs (handles (suc start) (length fs))) s in
      ap
        (λ (o : Option Shared). o >>= λ x. rest >>= λ ns. some (
          record (node (body f)) {
            session = record (begin Operation.extract [] x) { phase = before looks };
          }
          ∷ ns))
        e
      ∙ ap (λ (o : Option (List Node)). o >>= λ ns. some (node (body f) ∷ ns))
          (nodes_at-stages fs (record { buffer = some start }) (suc start) s
            (query_at start opened s (all start (omega arith) (omega arith)))
            (λ j from below. all j (omega arith) (omega arith)))

  -- `Process`, of any pipeline with stages, with a consumer of a buffer that is open and empty, and in
  -- either mode: of the stages that are started or called, in order, the first reads the caller's
  -- buffer, each other one the buffer that the one before writes to, and the returned consumer is one
  -- of the buffer that the last one writes to; the buffers written to are new, each is another one,
  -- and all are open and empty. So pipe functions that pass their bytes on are a row of stages before
  -- their first calls.
  pub process_wires :
      (i : ℕ) (mode : ExecutionMode) (p : Pipeline F) (s : Store)
      → 0 < length p.pipes
      → get_elem? s i ≡ some opened
      → (c : Consumer) × (acts : List (Action F)) × (p' : Pipeline F) × (s' : Store) × (process
            (record { buffer = some i })
            mode
            p
            s
          ≡ some (c, acts, p', s'))
        × (inputs (launched acts) ++ c.buffer ∷ [] ≡ some i ∷ buffers (outputs (launched acts)))
        × (outputs (launched acts) ≡ handles (length s + length p.pipes) (length p.pipes))
        × (nodes_at (launched acts) s' ≡ some (lay (map body p.pipes)))
        × (query (λ x. x) c.buffer s' ≡ some opened.shared)
  process_wires i mode p s h e =
      let n = length p.pipes in
      let start = length s + n in
      let s' = s ++ opens (n + n) in
      let buffer : Consumer = record { buffer = some i } in
      let (acts, left, ran, r) = process_lem buffer mode p s h in
      let whole : launched (map joins p.threads ++ acts) ≡ stages buffer p.pipes (handles start n) =
        launched_lem mode p.threads (stages buffer p.pipes (handles start n)) acts left r in
      let written = ap outputs whole ∙ outputs-stages p.pipes buffer start in
      (
        _,
        _,
        _,
        s',
        ran,
        ap (λ (st : List (Stage F)). inputs st ++ some (start + (n - 1)) ∷ []) whole
            ∙ inputs-stages p.pipes buffer start h
            ∙ ap (λ (ps : List Producer). some i ∷ buffers ps) (sym written),
        written,
        ap (λ (st : List (Stage F)). nodes_at st s') whole
            ∙ nodes_at-stages p.pipes buffer start s'
                (query_at i opened s' (get_elem?-append_left s (opens (n + n)) i opened e))
                (λ j from below. made_at n s j from below),
        query_at (start + (n - 1)) opened s'
            (made_at n s (start + (n - 1)) (omega arith) (omega arith)),
      )
