-- ===== src/Fifo/Into.antt =====
-- Reads of a `FIFO` into a `WriteOnly` buffer, whatever that buffer is.
use storm_byte_buffer.Prelude.{
  ℕ, suc, ◌≡◌, ◌≢◌, refl, Bool, false, [], none, some, length, take, arith, if◌then◌else◌,
}
use storm_byte_buffer.Typedefs.{Operation}
use storm_byte_buffer.Generic.{WriteOnly}
use storm_byte_buffer.Tape
use storm_byte_buffer.Tape.{Tape, amount, take_from}
use storm_byte_buffer.Fifo.{Fifo}
use storm_byte_buffer.Fifo.Reading.{
  read_internal, read_internal_into, read_until_eof_internal_into, peek, serve,
}
use storm_byte_buffer.Fifo.Bounds.{IsValid}
use storm_byte_buffer.Fifo.Refine.{view, read_internal_refines}
use storm_byte_buffer.Fifo.UntilEof.{round_lem}

module _ {S : Type 0} (sink : WriteOnly S) where
  -- What the tape says of such a read: nothing happens where too few bytes are unread, and else the
  -- sink is given exactly the bytes of one read in one write, whose result is the result. The bytes
  -- are taken from the tape even if the sink refuses them.
  unfoldable pub into_tape : ℕ → S → Operation → Tape → Bool × S × Tape
  into_tape count s flag t = elim (amount count t.ahead) [
    | none ↦ (false, s, t)
    | some n ↦
        let (written, s') = sink.write (length (take n t.ahead)) (take n t.ahead) s in
        (written, s', take_from n flag t)
  ]

  -- As a read into a vector that starts empty, and then one write of that vector.
  pub read_internal_into_lem :
      (count : ℕ) (s : S) (flag : Operation) (f : Fifo)
      → let r = read_internal count [] flag f in
        let (written, s') = sink.write (length r.out) r.out s in
        read_internal_into sink count s flag f
        ≡ (if r.done then (written, s', r.source) else (false, s, r.source))
  unfolding read_internal_into read_internal serve
  read_internal_into_lem count s Operation.read f = ground arith
  read_internal_into_lem count s Operation.peek f = ground arith
  read_internal_into_lem count s Operation.extract f = ground arith

  -- A read of a valid `FIFO` into another buffer does what the tape does.
  pub read_internal_into_refines :
      {f : Fifo} (count : ℕ) (s : S) (flag : Operation)
      → IsValid f
      → let (done, s', f') = read_internal_into sink count s flag f in
        (done, s', view f') ≡ into_tape count s flag (view f)
  unfolding into_tape Tape.transfer
  read_internal_into_refines {f} count s flag v =
      ground (arith, read_internal_into_lem count s flag f, read_internal_refines count [] flag v)

  -- With any fuel `ReadUntilEoF` and `ExtractUntilEoF` into another buffer end, after one read of
  -- all the unread bytes, whatever that buffer answers.
  pub read_until_eof_internal_into_lem :
      (fuel : ℕ) (s : S) (flag : Operation) {f : Fifo}
      → flag ≢ Operation.peek
      → IsValid f
      → let (done, s', f') = read_internal_into sink 0 s flag f in
        (read_until_eof_internal_into sink (suc fuel) s flag f ≡ some (s', f'))
        × (view f' ≡ take_from (length (view f).ahead) flag (view f))
  unfolding read_until_eof_internal_into peek
  read_until_eof_internal_into_lem fuel s Operation.peek ne v = absurd (ne refl)
  read_until_eof_internal_into_lem fuel s Operation.read {f} ne v =
      ground (arith, round_lem [] Operation.read ne v, read_internal_into_lem 0 s Operation.read f)
  read_until_eof_internal_into_lem fuel s Operation.extract {f} ne v =
      ground
        (arith, round_lem [] Operation.extract ne v, read_internal_into_lem 0 s Operation.extract f)
