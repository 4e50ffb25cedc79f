-- ===== src/Shared/Foreign.antt =====
-- `SharedFIFO` and a write of another buffer, for which it has no method of its own: fifo.cxx.
use storm_byte_buffer.Prelude.{ℕ, [], ◌||◌, ◌≡◌, ap, true, false, arith}
use storm_byte_buffer.Typedefs.{Data, Operation, Helpers, Transfer}
use storm_byte_buffer.Tape
use storm_byte_buffer.Fifo.{Fifo}
use storm_byte_buffer.Fifo.Reading
use storm_byte_buffer.Fifo.Writing
use storm_byte_buffer.Fifo.Bounds.{IsValid}
use storm_byte_buffer.Fifo.Refine.{view, read_internal_refines}
use storm_byte_buffer.External.{fifo_reader}
use storm_byte_buffer.Shared
use storm_byte_buffer.Shared.{Shared}

-- A closed or failed `SharedFIFO` refuses to write bytes, changes nothing and notifies nobody. But
-- it takes bytes from a valid `FIFO`, as many as a read of that one gives, as if it were open, and
-- again notifies nobody.
pub write_internal_from_closed :
    ⦃h : Helpers⦄ (count : ℕ) (bytes : Data) {t : Fifo} (s : Shared)
    → IsValid t
    → (s.closed || s.error) ≡ true
    → let refused = Shared.write_internal count bytes s in
      let (done, t', written) = Shared.write_internal_from fifo_reader count t s in
      let given = Tape.transfer count s.fifo.buffer Operation.read (view t) in
      (refused ≡ record { shared = s; done = false; out = []; notify = false })
      × (done ≡ given.done)
      × (view t' ≡ given.source)
      × (written ≡ record {
        shared = record s { fifo = record s.fifo { buffer = given.out } };
        done = given.done;
        out = [];
        notify = false;
      })
unfolding Shared.write_internal Shared.write_internal_from Writing.write_internal_from Reading.read
write_internal_from_closed count bytes {t} s v c =
    let e = read_internal_refines count s.fifo.buffer Operation.read v in
    (
      ground arith,
      ap (λ (x : Transfer Tape.Tape). x.done) e,
      ap (λ (x : Transfer Tape.Tape). x.source) e,
      ground (arith, e),
    )
