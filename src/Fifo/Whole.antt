-- ===== src/Fifo/Whole.antt =====
-- `Read` and `Extract` without a count, of a `FIFO`: generic.hxx and fifo.cxx.
use storm_byte_buffer.Prelude.{
  ◌≡◌, ap, ◌∙◌, [], ◌∷◌, ◌++◌, append-nil, length, take-all, not, ◌==◌, arith,
}
use storm_byte_buffer.Typedefs.{Data, Operation, Transfer, Helpers}
use storm_byte_buffer.Tape
use storm_byte_buffer.Tape.{Tape, amount, take_from}
use storm_byte_buffer.Generic.Whole.{read_whole, extract_whole, read_whole_into, extract_whole_into}
use storm_byte_buffer.External.{fifo_reader, fifo_writer}
use storm_byte_buffer.Fifo.{Fifo}
use storm_byte_buffer.Fifo.Reading
use storm_byte_buffer.Fifo.Bounds.{IsValid}
use storm_byte_buffer.Fifo.Refine.{view, see, read_internal_refines}
use storm_byte_buffer.Fifo.Methods.{read_into, extract_into}
use storm_byte_buffer.Fifo.Drain.{all_into, left_extract, left_read}

-- All that is ahead, if there is something.
whole_transfer :
    (out passed xs : Data) (flag : Operation)
    → let t : Tape = record { passed = passed; ahead = xs } in
      Tape.transfer 0 out flag t ≡ record {
        done = not (length xs == 0);
        out = out ++ xs;
        source = take_from (length xs) flag t;
      }
unfolding Tape.transfer amount take_from
whole_transfer out passed [] Operation.read = ground (arith, append-nil out, append-nil passed)
whole_transfer out passed [] Operation.extract = ground (arith, append-nil out)
whole_transfer out passed [] Operation.peek = ground (arith, append-nil out)
whole_transfer out passed (x ∷ xs) flag = ground (arith, take-all (length xs) xs)

-- `Read` and `Extract` of a valid `FIFO`, without a count, into a vector: both fail exactly if no byte
-- is unread, and add all the unread bytes to the vector, in order; after the one they are passed, after
-- the other they are gone, and the bytes read before are still there. Into another `FIFO` they give
-- the same bytes.
pub whole_lem :
    ⦃h : Helpers⦄
    → (out : Data) (g f : Fifo) → IsValid f
    → (see (read_whole fifo_reader out f) ≡ record {
      done = not (length (view f).ahead == 0);
      out = out ++ (view f).ahead;
      source = record { passed = (view f).passed ++ (view f).ahead; ahead = [] };
    })
      × (see (extract_whole fifo_reader out f) ≡ record {
        done = not (length (view f).ahead == 0);
        out = out ++ (view f).ahead;
        source = record { passed = (view f).passed; ahead = [] };
      })
      × ((read_whole_into (read_into fifo_writer) g f).1
          ≡ record g { buffer = g.buffer ++ (view f).ahead })
      × ((extract_whole_into (extract_into fifo_writer) g f).1
          ≡ record g { buffer = g.buffer ++ (view f).ahead })
unfolding read_whole extract_whole read_whole_into extract_whole_into read_into extract_into
    Reading.read Reading.extract
whole_lem out g f v =
    let t = view f in
    let gets : Tape → Transfer Tape =
      λ t'. record { done = not (length t.ahead == 0); out = out ++ t.ahead; source = t' } in
    (
      read_internal_refines 0 out Operation.read v
          ∙ whole_transfer out t.passed t.ahead Operation.read
          ∙ ap gets (left_read t),
      read_internal_refines 0 out Operation.extract v
          ∙ whole_transfer out t.passed t.ahead Operation.extract
          ∙ ap gets (left_extract t),
      all_into Operation.read g f v,
      all_into Operation.extract g f v,
    )
