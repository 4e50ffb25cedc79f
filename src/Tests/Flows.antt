-- ===== src/Tests/Flows.antt =====
-- Tests and examples of the modules under `Flow`.
use storm_byte_buffer.Prelude.{
  ◌-◌, ◌≡◌, refl, List, [], ◌∷◌, ◌++◌, map, leb, ◌==◌, ◌&&◌, if◌then◌else◌, arith,
}
use storm_byte_buffer.Typedefs.{Byte, Operation}
use storm_byte_buffer.Fifo
use storm_byte_buffer.Fifo.{available_bytes}
use storm_byte_buffer.Fifo.Reading
use storm_byte_buffer.Fifo.Writing.{write_internal}
use storm_byte_buffer.Shared
use storm_byte_buffer.Monitor.{writes, closes, start}
use storm_byte_buffer.Session.{over, begin, ask, advance, pass, intervene}
use storm_byte_buffer.Chain.{Move, feeds, works, fresh}
use storm_byte_buffer.Chain.Turns.{settle, turns}
use storm_byte_buffer.Relay.{extract_chunk, test_eof}
use storm_byte_buffer.Flow.{Filter, node, lay, call_next, conclude, act, work, prompt, step, run}
use storm_byte_buffer.Flow.Result.{piped, flow_computes}
use storm_byte_buffer.Flow.Finish.{flow_finishes}
use storm_byte_buffer.Tests.Setup.{plain}

-- The pipeline of the example in README.md.
abbrev to_upper : Byte → Byte
to_upper b = if leb 97 b && leb b 122 then b - 32 else b

abbrev underscored : Byte → Byte
underscored b = if b == 32 then 95 else b

abbrev stages : List Filter
stages =
    record { opening = []; each = to_upper; closing = [] }
    ∷ record { opening = []; each = underscored; closing = [] }
    ∷ record { opening = 91 ∷ []; each = λ b. b; closing = 93 ∷ [] }
    ∷ []

-- "hi " and, after some calls of the stages, "yo".
abbrev early : List Move
early =
    feeds (writes 3 (104 ∷ 105 ∷ 32 ∷ []))
    ∷ works 2
    ∷ works 0
    ∷ works 0
    ∷ works 1
    ∷ works 0
    ∷ works 3
    ∷ feeds (writes 2 (121 ∷ 111 ∷ []))
    ∷ feeds closes
    ∷ []

abbrev all_moves : List Move
all_moves = early ++ map works (settle 8 3)

flow_finishes_example :
    let (given, ns, last) = run Operation.extract early (lay stages) (fresh Operation.extract) in
    (turns (prompt Operation.extract) (settle 8 3) ns last).1.phase ≡ over
unfolding run step work act conclude call_next lay node extract_chunk test_eof fresh begin ask
    advance pass intervene start Shared.read_internal Shared.write_internal Shared.resume
    Shared.wait Shared.ready Shared.close Shared.eof Shared.empty_shared write_internal
    Reading.read_internal Reading.serve available_bytes Fifo.empty_fifo
flow_finishes_example =
    flow_finishes Operation.extract stages early (λ e. cc) (omega arith) (omega arith) refl

flow_computes_example :
    let (given, ns, last) =
      run Operation.extract all_moves (lay stages) (fresh Operation.extract) in
    last.out ≡ piped stages given
unfolding run step work act conclude call_next lay node extract_chunk test_eof fresh begin ask
    advance pass intervene start Shared.read_internal Shared.write_internal Shared.resume
    Shared.wait Shared.ready Shared.close Shared.eof Shared.empty_shared write_internal
    Reading.read_internal Reading.serve available_bytes Fifo.empty_fifo
flow_computes_example =
    flow_computes Operation.extract stages all_moves (λ e. cc) (omega arith) (omega arith) refl
      (refl, (refl, (refl, refl)))

-- "[HI_YO]"
bracketed :
    (run Operation.extract all_moves (lay stages) (fresh Operation.extract)).2.out
    ≡ 91 ∷ 72 ∷ 73 ∷ 95 ∷ 89 ∷ 79 ∷ 93 ∷ []
unfolding run step work act conclude call_next lay node extract_chunk test_eof fresh begin ask
    advance pass intervene start Shared.read_internal Shared.write_internal Shared.resume
    Shared.wait Shared.ready Shared.close Shared.eof Shared.empty_shared write_internal
    Reading.read_internal Reading.serve available_bytes Fifo.empty_fifo
bracketed = refl
