-- ===== src/Bridge/Fifos.antt =====
-- A `Bridge` from one `FIFO` to another: bridge.cxx, external.cxx and fifo.cxx.
use storm_byte_buffer.Prelude.{
  ℕ, ◌+◌, ◌≤◌, ◌≡◌, refl, sym, ap, ◌∙◌, inl, inr, Bool, true, Option-cases, List, [], ◌∷◌, ◌++◌,
  append_assoc, some, if◌then◌else◌, length, length-append, take-append-drop, max_size, arith,
}
use mathlib.Core.Path.{subst}
use storm_byte_buffer.Typedefs.{Data, Operation, Transfer, Helpers}
use storm_byte_buffer.Tape
use storm_byte_buffer.Tape.{Tape, amount, take_from}
use storm_byte_buffer.Fifo
use storm_byte_buffer.Fifo.{Fifo, holding}
use storm_byte_buffer.Fifo.Reading
use storm_byte_buffer.Fifo.Bounds
use storm_byte_buffer.Fifo.Bounds.{read_internal-IsValid}
use storm_byte_buffer.Fifo.Refine.{view, read_internal_refines}
use storm_byte_buffer.Generic.Counted.{fifo_write_all}
use storm_byte_buffer.External.{
  buffer_reader, buffer_writer, external_read, external_write, fifo_reader, fifo_writer,
}
use storm_byte_buffer.Bridge.{Bridge, flush}
use storm_byte_buffer.Bridge.Conserve.{Recorder, IsValid}
use storm_byte_buffer.Bridge.Loss.{extract_all}
use storm_byte_buffer.Bridge.Life.{run, destroy, given, behind, run-Holds, flush_takes}

abbrev pub ahead : Fifo → Data
ahead f = (view f).ahead

abbrev Gives : Data → Transfer Tape → Type 0
Gives xs r = (if r.done then (if r.done then r.out else []) else []) ++ r.source.ahead ≡ xs

transfer-Gives : (count : ℕ) (t : Tape) → Gives t.ahead (Tape.transfer count [] Operation.read t)
unfolding Tape.transfer take_from
transfer-Gives count t = elim (Option-cases (amount count t.ahead)) [
  | inl e ↦ ground arith
  | inr (n, e) ↦ ground (arith, take-append-drop n t.ahead)
]

-- A read passes on exactly what is no longer unread.
read_given :
    (count : ℕ) (f : Fifo)
    → Bounds.IsValid f
    → let (done, out, f') = (buffer_reader fifo_reader).read count [] f in
      ((if done then out else []) ++ ahead f' ≡ ahead f) × Bounds.IsValid f'
unfolding external_read Reading.read
read_given count f v = (
  subst (Gives (ahead f)) (sym (read_internal_refines count [] Operation.read v))
      (transfer-Gives count (view f)),
  read_internal-IsValid count [] Operation.read v,
)

-- What a bridge reads off a `FIFO` over some passthroughs, and what is still unread.
given_ahead :
    (counts : List ℕ) (f : Fifo)
    → Bounds.IsValid f
    → given (buffer_reader fifo_reader) counts f
        ++ ahead (behind (buffer_reader fifo_reader) counts f)
      ≡ ahead f
given_ahead [] f v = refl
given_ahead (count ∷ counts) f v =
    let (done, out, f') = (buffer_reader fifo_reader).read count [] f in
    let (now, valid) = read_given count f v in
    let bytes : Data = if done then out else [] in
    append_assoc bytes (given (buffer_reader fifo_reader) counts f')
      (ahead (behind (buffer_reader fifo_reader) counts f'))
    ∙ ap (λ (xs : Data). bytes ++ xs) (given_ahead counts f' valid)
    ∙ now

module _ ⦃h : Helpers⦄ where
  pub fifo_logs :
      (c : Data) (f : Fifo)
      → let (done, f') = (buffer_writer fifo_writer).write c f in
        f'.buffer ≡ (if done then f.buffer ++ c else f.buffer)
  unfolding external_write
  fifo_logs c f = ground (arith, fifo_write_all c f)

  -- A `FIFO` behind a writer takes whatever it is given.
  abbrev pub fifo_recorder : Recorder Fifo
  fifo_recorder = record {
    writer = buffer_writer fifo_writer;
    log = λ f. f.buffer;
    log-write = fifo_logs;
  }

  flush_held :
      (b : Bridge Fifo Fifo) (xs : Data)
      → b.buffer ≡ holding xs
      → (flush (buffer_writer fifo_writer) b).0 ≡ true
  unfolding flush Fifo.is_empty Fifo.size holding external_write
  flush_held b [] e = ground arith
  flush_held b (x ∷ xs) e = ground (
    arith,
    extract_all x xs,
    ap (λ (f : Fifo). Reading.extract 0 [] f) e,
    fifo_write_all (x ∷ xs) b.write_handler,
  )

  flush_succeeds :
      (b : Bridge Fifo Fifo)
      → b.buffer.position_offset ≡ 0
      → (flush (buffer_writer fifo_writer) b).0 ≡ true
  unfolding holding
  flush_succeeds b e = flush_held b b.buffer.buffer (ground arith)

  -- A bridge with chunks from one valid `FIFO` to another, over any passthroughs and then its
  -- destructor, when the target, the bridge and the unread bytes of the source fit into one vector:
  -- the passthroughs end, and then the target has its bytes as before, followed by those that were
  -- pending and those read off the source, with none lost or changed, so that the bytes of the target
  -- and those that are still unread in the source are those of the target, of the bridge, and unread
  -- in the source before, in this order.
  pub fifos_bridged :
      (counts : List ℕ) (b : Bridge Fifo Fifo)
      → IsValid Fifo Fifo b
      → Bounds.IsValid b.read_handler
      → length b.write_handler.buffer + length b.buffer.buffer + length (ahead b.read_handler)
        ≤ max_size
      → (oks : List Bool) × (b' : Bridge Fifo Fifo) × (run
            (buffer_writer fifo_writer)
            (buffer_reader fifo_reader)
            counts
            b
          ≡ some (oks, b'))
        × ((destroy (buffer_writer fifo_writer) b').buffer ++ ahead b'.read_handler
            ≡ (b.write_handler.buffer ++ b.buffer.buffer) ++ ahead b.read_handler)
  unfolding destroy
  fifos_bridged counts b v w small =
      let reader = buffer_reader fifo_reader in
      let all = given_ahead counts b.read_handler w in
      let rest = ahead (behind reader counts b.read_handler) in
      let xs = given reader counts b.read_handler in
      let (oks, b', e, keeps, same, valid) =
        run-Holds fifo_recorder reader counts b v
          (omega (arith, ap (λ (ys : Data). length ys) all, length-append xs rest)) in
      let took = flush_takes fifo_recorder b' valid in
      let start = b.write_handler.buffer ++ b.buffer.buffer in
      (
        oks,
        b',
        e,
        ap (λ (ys : Data). ys ++ ahead b'.read_handler)
              (took
                ∙ ap
                    (λ (g : Bool).
                      if g
                      then b'.write_handler.buffer ++ b'.buffer.buffer
                      else b'.write_handler.buffer)
                    (flush_succeeds b' valid.unread)
                ∙ keeps)
            ∙ ap (λ (f : Fifo). (start ++ xs) ++ ahead f) same
            ∙ append_assoc start xs rest
            ∙ ap (λ (ys : Data). start ++ ys) all,
      )
