-- ===== src/Fifo/UntilEof.antt =====
-- The loop of `ReadUntilEoF` and `ExtractUntilEoF` of a `FIFO`: fifo.cxx.
use storm_byte_buffer.Prelude.{
  ℕ, suc, ◌≡◌, ◌≢◌, refl, sym, ap, ◌∙◌, false, [], ◌∷◌, ◌++◌, append-nil, some, length, take-all,
  drop-all, arith,
}
use storm_byte_buffer.Typedefs.{Data, Operation, Transfer}
use storm_byte_buffer.Tape
use storm_byte_buffer.Tape.{Tape, amount, take_from}
use storm_byte_buffer.Fifo.{Fifo}
use storm_byte_buffer.Fifo.Reading.{read_internal, read, extract, peek, read_until_eof_internal}
use storm_byte_buffer.Fifo.Bounds.{IsValid, read_internal-IsValid}
use storm_byte_buffer.Fifo.Refine.{view, read_internal_refines}

-- A read of everything, on the tape.
transfer_all :
    (out : Data) (flag : Operation) (passed xs : Data)
    → let t : Tape = record { passed = passed; ahead = xs } in
      let r = Tape.transfer 0 out flag t in
      (r.out ≡ out ++ xs) × (r.source ≡ take_from (length xs) flag t)
unfolding Tape.transfer amount take_from
transfer_all out Operation.read passed [] =
    (sym (append-nil out), ground (arith, append-nil passed))
transfer_all out Operation.extract passed [] = (sym (append-nil out), refl)
transfer_all out Operation.peek passed [] = (sym (append-nil out), refl)
transfer_all out flag passed (x ∷ xs) = ground (arith, take-all (length xs) xs)

-- Nothing is left to peek at behind it.
peek_behind :
    (flag : Operation) (t : Tape)
    → flag ≢ Operation.peek
    → (Tape.transfer 1 [] Operation.peek (take_from (length t.ahead) flag t)).done ≡ false
unfolding Tape.transfer amount take_from
peek_behind Operation.read t ne = ground (arith, drop-all (length t.ahead) t.ahead)
peek_behind Operation.extract t ne = ground (arith, drop-all (length t.ahead) t.ahead)
peek_behind Operation.peek t ne = absurd (ne refl)

-- One round takes everything, and the peek behind it fails.
pub round_lem :
    (out : Data) (flag : Operation) {f : Fifo}
    → flag ≢ Operation.peek
    → IsValid f
    → let r = read_internal 0 out flag f in
      (r.out ≡ out ++ (view f).ahead)
      × (view r.source ≡ take_from (length (view f).ahead) flag (view f))
      × ((read_internal 1 [] Operation.peek r.source).done ≡ false)
      × IsValid r.source
round_lem out flag {f} ne v =
    let r = read_internal 0 out flag f in
    let valid = read_internal-IsValid 0 out flag v in
    let all = transfer_all out flag (view f).passed (view f).ahead in
    let seen = read_internal_refines 0 out flag v in
    let rest : view r.source ≡ take_from (length (view f).ahead) flag (view f) =
      ap (λ (x : Transfer Tape). x.source) seen ∙ all.1 in
    (
      ap (λ (x : Transfer Tape). x.out) seen ∙ all.0,
      rest,
      ap (λ (x : Transfer Tape). x.done) (read_internal_refines 1 [] Operation.peek valid)
          ∙ ap (λ (t : Tape). (Tape.transfer 1 [] Operation.peek t).done) rest
          ∙ peek_behind flag (view f) ne,
      valid,
    )

-- With any fuel the loop ends, for reads and for extracts: the vector has got all the unread bytes,
-- in order, and they are passed, or gone.
pub read_until_eof_internal_lem :
    (fuel : ℕ) (out : Data) (flag : Operation) {f : Fifo}
    → flag ≢ Operation.peek
    → IsValid f
    → (f' : Fifo) × (read_until_eof_internal (suc fuel) out flag f
        ≡ some (out ++ (view f).ahead, f'))
      × (view f' ≡ take_from (length (view f).ahead) flag (view f))
      × IsValid f'
unfolding read_until_eof_internal read extract peek
read_until_eof_internal_lem fuel out Operation.peek ne v = absurd (ne refl)
read_until_eof_internal_lem fuel out Operation.read {f} ne v =
    let (o, t, stop, valid) = round_lem out Operation.read ne v in
    (
      (read_internal 0 out Operation.read f).source,
      rw (stop, read_until_eof_internal)
          (ap (λ (d : Data). some (d, (read_internal 0 out Operation.read f).source)) o),
      t,
      valid,
    )
read_until_eof_internal_lem fuel out Operation.extract {f} ne v =
    let (o, t, stop, valid) = round_lem out Operation.extract ne v in
    (
      (read_internal 0 out Operation.extract f).source,
      rw (stop, read_until_eof_internal)
          (ap (λ (d : Data). some (d, (read_internal 0 out Operation.extract f).source)) o),
      t,
      valid,
    )
