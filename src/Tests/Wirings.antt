-- ===== src/Tests/Wirings.antt =====
-- An example of the module Flow/Wired.
use storm_byte_buffer.Prelude.{ℕ, some, ◌≡◌, refl, List, [], ◌∷◌, ◌++◌, arith}
use storm_byte_buffer.Typedefs.{ExecutionMode}
use storm_byte_buffer.Flow.{Filter, lay}
use storm_byte_buffer.Flow.Wired.{nodes_at, process_wires}
use storm_byte_buffer.Pipeline.{Pipeline, Action, process}
use storm_byte_buffer.Pipeline.Handed.{launched, inputs, outputs, buffers}
use storm_byte_buffer.Consumer.{Consumer}
use storm_byte_buffer.Store.{Store, opened, query}

-- A pipeline that has not run yet, whose pipe functions are numbers.
abbrev pipeline : Pipeline ℕ
pipeline = record { pipes = 1 ∷ 2 ∷ 3 ∷ []; producers = []; threads = [] }

abbrev body : ℕ → Filter
body n = record { opening = n ∷ []; each = λ b. b; closing = [] }

process_wires_example :
    (c : Consumer) × (acts : List (Action ℕ)) × (p' : Pipeline ℕ) × (s' : Store) × (process
        (record { buffer = some 1 })
        ExecutionMode.sync
        pipeline
        (opened ∷ opened ∷ [])
      ≡ some (c, acts, p', s'))
    × (inputs (launched acts) ++ c.buffer ∷ [] ≡ some 1 ∷ buffers (outputs (launched acts)))
    × (outputs (launched acts)
        ≡ record { buffer = some 5 } ∷ record { buffer = some 6 } ∷ record { buffer = some 7 } ∷ [])
    × (nodes_at body (launched acts) s' ≡ some (lay (body 1 ∷ body 2 ∷ body 3 ∷ [])))
    × (query (λ x. x) c.buffer s' ≡ some opened.shared)
process_wires_example =
    process_wires body 1 ExecutionMode.sync pipeline (opened ∷ opened ∷ []) (omega arith) refl
