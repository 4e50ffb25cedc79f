-- ===== src/Fifo/Refine.antt =====
-- The operations of a `FIFO` beside those of the tape of its bytes: fifo.cxx.
use storm_byte_buffer.Prelude.{
  ℕ, suc, ◌+◌, ◌-◌, ◌≤◌, ◌≡◌, refl, ltb, ◌==◌, ◌&&◌, ◌||◌, none, some, if◌then◌else◌, true, [], ◌∷◌,
  ◌++◌, length, take, drop, length-append, length-take, length-drop, take-append-drop, take-all,
  drop-all, take-min, drop-min, take-take, drop-take-append, IsPtrdiff, take-append_left,
  drop-append_left, take-add, drop-add, ℤ, pos, negsuc, arith,
}
use storm_byte_buffer.Typedefs.{Data, Position, Operation, Helpers, Transfer}
use storm_byte_buffer.Tape
use storm_byte_buffer.Tape.{Tape, amount, take_from}
use storm_byte_buffer.Fifo.{Fifo, available_bytes, clean, seek, move_to_front}
use storm_byte_buffer.Fifo.Reading.{read_internal, serve}
use storm_byte_buffer.Fifo.Writing.{write_internal}
use storm_byte_buffer.Fifo.Bounds.{IsValid, available_bytes_lem}

abbrev pub view : Fifo → Tape
view f = record {
  passed = take f.position_offset f.buffer;
  ahead = drop f.position_offset f.buffer;
}

abbrev pub see : Transfer Fifo → Transfer Tape
see r = record { done = r.done; out = r.out; source = view r.source }

pub length-ahead : {f : Fifo} → IsValid f → length (view f).ahead ≡ available_bytes f
length-ahead {f} v = omega (arith, length-drop f.position_offset f.buffer, available_bytes_lem v)

pub length-passed : {f : Fifo} → IsValid f → length (view f).passed ≡ f.position_offset
length-passed {f} v = omega (arith, length-take f.position_offset f.buffer, v.inside)

-- Taking `n` bytes that are there is what the tape does.
serve_refines :
    {f : Fifo} (n : ℕ) (out : Data) (flag : Operation)
    → IsValid f
    → n + f.position_offset ≤ length f.buffer
    → see (serve n out flag f) ≡ record {
      done = true;
      out = out ++ take n (view f).ahead;
      source = take_from n flag (view f);
    }
unfolding serve take_from
serve_refines {f} n out Operation.read v h = ground (
  arith,
  take-add f.position_offset n (f.position_offset + n) f.buffer,
  drop-add f.position_offset n (f.position_offset + n) f.buffer,
)
serve_refines n out Operation.peek v h = refl
serve_refines {f} n out Operation.extract v h = ground (
  arith,
  length-append (take f.position_offset f.buffer) (drop (f.position_offset + n) f.buffer),
  length-passed v,
  take-append_left f.position_offset (take f.position_offset f.buffer)
      (drop (f.position_offset + n) f.buffer),
  drop-append_left f.position_offset (take f.position_offset f.buffer)
      (drop (f.position_offset + n) f.buffer),
  take-all f.position_offset (take f.position_offset f.buffer),
  drop-all f.position_offset (take f.position_offset f.buffer),
  drop-add f.position_offset n (f.position_offset + n) f.buffer,
)

-- The test of `ReadInternal` decides as `amount` does.
pub amount_of :
    (count a : ℕ) (xs : Data)
    → length xs ≡ a
    → let real_count = if count == 0 then a else count in
      amount count xs
      ≡ (if ((a == 0) && (count == 0)) || ltb a real_count then none else some real_count)
unfolding amount
amount_of count a [] e = ground arith
amount_of count a (x ∷ xs) e = ground arith

-- `Read`, `Peek` and `Extract` succeed as on the tape, give the same bytes and leave the same tape.
pub read_internal_refines :
    {f : Fifo} (count : ℕ) (out : Data) (flag : Operation)
    → IsValid f
    → see (read_internal count out flag f) ≡ Tape.transfer count out flag (view f)
unfolding read_internal Tape.transfer
read_internal_refines {f} count out flag v = ground (
  arith,
  amount_of count (available_bytes f) (view f).ahead (length-ahead v),
  available_bytes_lem v,
  serve_refines count out flag v,
  serve_refines (available_bytes f) out flag v,
)

-- `Clean` empties the tape where nothing has been passed, and else forgets what has been.
pub clean_refines : {f : Fifo} → IsValid f → view (clean f) ≡ Tape.clean (view f)
unfolding clean move_to_front Tape.clean
clean_refines {f} v =
    let rest = drop f.position_offset f.buffer in
    let remaining = length f.buffer - f.position_offset in
    ground (
      arith,
      length-ahead v,
      length-passed v,
      length-drop f.position_offset f.buffer,
      take-all remaining rest,
      take-append_left remaining rest (drop remaining f.buffer),
      drop-all f.position_offset f.buffer,
    )

-- `Seek` moves the position of the tape, inside it, and keeps its bytes.
pub seek_refines :
    {f : Fifo} (offset : ℤ) (mode : Position)
    → IsPtrdiff offset
    → IsValid f
    → view (seek offset mode f) ≡ Tape.seek offset mode (view f)
unfolding seek Tape.seek
seek_refines {f} (negsuc n) Position.absolute r v =
    ground (arith, take-append-drop f.position_offset f.buffer)
seek_refines {f} (pos n) Position.absolute r v =
    ground
      (arith, take-append-drop f.position_offset f.buffer, take-min n f.buffer, drop-min n f.buffer)
seek_refines {f} (negsuc n) Position.relative r v = ground (
  arith,
  length-passed v,
  take-take (f.position_offset - suc n) f.position_offset f.buffer,
  drop-take-append (f.position_offset - suc n) f.position_offset f.buffer,
)
seek_refines {f} (pos n) Position.relative r v = ground (
  arith,
  take-min (f.position_offset + n) f.buffer,
  drop-min (f.position_offset + n) f.buffer,
  take-add f.position_offset n (f.position_offset + n) f.buffer,
  drop-add f.position_offset n (f.position_offset + n) f.buffer,
)

module _ ⦃h : Helpers⦄ where
  pub write_internal_refines :
      {f : Fifo} (count : ℕ) (src : Data)
      → IsValid f
      → count ≤ length src
      → view (write_internal count src f).1
        ≡ Tape.append (if count == 0 then src else take count src) (view f)
  unfolding write_internal Tape.append
  write_internal_refines {f} count src v le = ground (
    arith,
    h.append_vector_lem f.buffer src,
    take-append_left f.position_offset f.buffer src,
    drop-append_left f.position_offset f.buffer src,
    take-append_left f.position_offset f.buffer (take count src),
    drop-append_left f.position_offset f.buffer (take count src),
    take-all count src,
  )
