-- ===== src/Fifo/Drain.antt =====
-- A `FIFO` read into another `FIFO` until its end: fifo.hxx and fifo.cxx.
use storm_byte_buffer.Prelude.{
  ℕ, suc, ◌≡◌, [], ◌∷◌, ◌++◌, some, length, take-all, drop-all, take-append-drop, ap, ◌∙◌, Bool,
  arith, append-nil,
}
use storm_byte_buffer.Typedefs.{Data, Operation, Helpers}
use storm_byte_buffer.External.{fifo_writer}
use storm_byte_buffer.Tape.{Tape, amount, take_from}
use storm_byte_buffer.Fifo.{Fifo}
use storm_byte_buffer.Fifo.Reading.{read_internal_into}
use storm_byte_buffer.Generic.Counted.{fifo_write_all}
use storm_byte_buffer.Fifo.Bounds.{IsValid}
use storm_byte_buffer.Fifo.Refine.{view}
use storm_byte_buffer.Fifo.Into.{
  into_tape, read_internal_into_refines, read_until_eof_internal_into_lem,
}
use storm_byte_buffer.Fifo.Methods.{extract_until_eof_into, read_until_eof_into}

pub left_extract :
    (t : Tape)
    → take_from (length t.ahead) Operation.extract t ≡ record { passed = t.passed; ahead = [] }
unfolding take_from
left_extract t = ground (arith, drop-all (length t.ahead) t.ahead)

pub left_read :
    (t : Tape)
    → take_from (length t.ahead) Operation.read t
      ≡ record { passed = t.passed ++ t.ahead; ahead = [] }
unfolding take_from
left_read t = ground (arith, drop-all (length t.ahead) t.ahead, take-all (length t.ahead) t.ahead)

module _ ⦃h : Helpers⦄ where
  into_tape_all :
      (flag : Operation) (g : Fifo) (passed xs : Data)
      → (into_tape fifo_writer 0 g flag (record { passed = passed; ahead = xs })).1
        ≡ record g { buffer = g.buffer ++ xs }
  unfolding into_tape amount
  into_tape_all flag g passed [] = ground (arith, append-nil g.buffer)
  into_tape_all flag g passed (x ∷ xs) =
      ground (arith, take-all (length xs) xs, fifo_write_all (x ∷ xs) g)

  pub all_into :
      (flag : Operation) (g f : Fifo)
      → IsValid f
      → (read_internal_into fifo_writer 0 g flag f).1
        ≡ record g { buffer = g.buffer ++ (view f).ahead }
  all_into flag g f v =
      ap (λ (x : Bool × Fifo × Tape). x.1) (read_internal_into_refines fifo_writer 0 g flag v)
      ∙ into_tape_all flag g (view f).passed (view f).ahead

  -- `ExtractUntilEoF` and `ReadUntilEoF` of a valid `FIFO` into another one, with any fuel: the other
  -- one has its bytes, read ones included, as before, followed by all the unread ones of the first, in
  -- order, and in the first these are gone, or passed.
  pub drained :
      (fuel : ℕ) (f g : Fifo)
      → IsValid f
      → let g' = record g { buffer = g.buffer ++ (view f).ahead } in
        ((f' : Fifo) × (extract_until_eof_into fifo_writer (suc fuel) g f ≡ some (g', f'))
          × (view f' ≡ record { passed = (view f).passed; ahead = [] }))
        × ((f' : Fifo) × (read_until_eof_into fifo_writer (suc fuel) g f ≡ some (g', f'))
            × (view f' ≡ record { passed = f.buffer; ahead = [] }))
  unfolding extract_until_eof_into read_until_eof_into
  drained fuel f g v =
      let (ran, seen) =
        read_until_eof_internal_into_lem fifo_writer fuel g Operation.extract (λ e. cc e) v in
      let (ran', seen') =
        read_until_eof_internal_into_lem fifo_writer fuel g Operation.read (λ e. cc e) v in
      let e = all_into Operation.extract g f v in
      let e' = all_into Operation.read g f v in
      (
        (
          (read_internal_into fifo_writer 0 g Operation.extract f).2,
          ran
              ∙ ap
                  (λ (x : Fifo).
                    some (x, (read_internal_into fifo_writer 0 g Operation.extract f).2))
                  e,
          seen ∙ left_extract (view f),
        ),
        (
          (read_internal_into fifo_writer 0 g Operation.read f).2,
          ran'
              ∙ ap (λ (x : Fifo). some (x, (read_internal_into fifo_writer 0 g Operation.read f).2))
                  e',
          seen'
              ∙ left_read (view f)
              ∙ ap (λ (xs : Data). record { passed = xs; ahead = [] })
                  (take-append-drop f.position_offset f.buffer),
        ),
      )
