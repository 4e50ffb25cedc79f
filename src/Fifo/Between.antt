-- ===== src/Fifo/Between.antt =====
-- One `FIFO` written to another: fifo.cxx and generic.hxx.
use storm_byte_buffer.Prelude.{
  ◌≡◌, ap, sym, ◌∙◌, not, [], ◌∷◌, ◌++◌, append-nil, ◌==◌, if◌then◌else◌, length, take-all, arith,
}
use storm_byte_buffer.Typedefs.{Data, Operation, Transfer}
use storm_byte_buffer.Tape
use storm_byte_buffer.Tape.{Tape, take_from, amount}
use storm_byte_buffer.Fifo.{Fifo, available_bytes}
use storm_byte_buffer.Fifo.Reading.{read, extract, read_internal}
use storm_byte_buffer.Fifo.Writing.{
  write_internal_from, write_internal_from_move, write_available, write_available_move,
}
use storm_byte_buffer.Fifo.Bounds.{IsValid}
use storm_byte_buffer.Fifo.Refine.{view, see, read_internal_refines, length-ahead}
use storm_byte_buffer.External.{fifo_reader}

-- A transfer of as many bytes as are unread.
transfer_all :
    (out : Data) (flag : Operation) (passed xs : Data)
    → let t : Tape = record { passed = passed; ahead = xs } in
      Tape.transfer (length xs) out flag t ≡ record {
        done = not (length xs == 0);
        out = out ++ xs;
        source = if length xs == 0 then t else take_from (length xs) flag t;
      }
unfolding Tape.transfer amount
transfer_all out flag passed [] = ground (arith, append-nil out)
transfer_all out flag passed (x ∷ xs) = ground (arith, take-all (length xs) xs)

module _ {t : Fifo} (v : IsValid t) (f : Fifo) where
  transfer_available :
      (flag : Operation)
      → see (read_internal (available_bytes t) f.buffer flag t) ≡ record {
        done = not (length (view t).ahead == 0);
        out = f.buffer ++ (view t).ahead;
        source =
            if length (view t).ahead == 0
            then view t
            else take_from (length (view t).ahead) flag (view t);
      }
  transfer_available flag =
      read_internal_refines (available_bytes t) f.buffer flag v
      ∙ ap (λ n. Tape.transfer n f.buffer flag (view t)) (sym (length-ahead v))
      ∙ transfer_all f.buffer flag (view t).passed (view t).ahead

  -- A valid `FIFO` written to another, copied or moved: all its unread bytes are appended, in order, and
  -- the write succeeds exactly if there are any. In the one they are passed, or gone if it is moved.
  pub write_available_lem :
      let n = length (view t).ahead in
      let (copied, t', f') = write_available fifo_reader t f in
      let (moved, t'', f'') = write_available_move fifo_reader t f in
      (copied ≡ not (n == 0))
      × (moved ≡ not (n == 0))
      × (f' ≡ record f { buffer = f.buffer ++ (view t).ahead })
      × (f'' ≡ f')
      × (view t' ≡ (if n == 0 then view t else take_from n Operation.read (view t)))
      × (view t'' ≡ (if n == 0 then view t else take_from n Operation.extract (view t)))
  unfolding write_available write_available_move write_internal_from write_internal_from_move read
      extract
  write_available_lem =
      let r = transfer_available Operation.read in
      let e = transfer_available Operation.extract in
      (
        ap (λ (x : Transfer Tape). x.done) r,
        ap (λ (x : Transfer Tape). x.done) e,
        ap (λ (x : Transfer Tape). record f { buffer = x.out }) r,
        ap (λ (x : Transfer Tape). record f { buffer = x.out }) e
            ∙ sym (ap (λ (x : Transfer Tape). record f { buffer = x.out }) r),
        ap (λ (x : Transfer Tape). x.source) r,
        ap (λ (x : Transfer Tape). x.source) e,
      )
