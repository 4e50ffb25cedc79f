-- ===== src/Fifo/Reading.antt =====
-- `FIFO::ReadInternal` and `FIFO::ReadUntilEoFInternal`, with the methods of fifo.hxx that call
-- them.
use storm_byte_buffer.Prelude.{
  ℕ, zero, suc, ◌+◌, Bool, true, false, ◌&&◌, ◌||◌, [], ◌++◌, Option, none, some, ltb, ◌==◌,
  if◌then◌else◌, length, take, drop, add_size,
}
use storm_byte_buffer.Typedefs.{Data, Operation, Transfer}
use storm_byte_buffer.Generic.{WriteOnly}
use storm_byte_buffer.Fifo.{Fifo, available_bytes}

-- The bytes `[position, position + n)`.
abbrev pub slice : ℕ → Fifo → Data
slice n f = take n (drop f.position_offset f.buffer)

-- `m_buffer.erase` of those bytes, and the check of the position behind it.
pub erase_slice : ℕ → Fifo → Fifo
erase_slice n f =
    let rest = take f.position_offset f.buffer ++ drop (f.position_offset + n) f.buffer in
    record {
      buffer = rest;
      position_offset =
          if ltb (length rest) f.position_offset then length rest else f.position_offset;
    }

-- The `switch` on the operation.
unfoldable pub serve : ℕ → Data → Operation → Fifo → Transfer Fifo
unfolding erase_slice
serve n out Operation.read f = record {
  done = true;
  out = out ++ slice n f;
  source = record f { position_offset = add_size f.position_offset n };
}
serve n out Operation.peek f = record { done = true; out = out ++ slice n f; source = f }
serve n out Operation.extract f = record {
  done = true;
  out = out ++ slice n f;
  source = erase_slice n f;
}

unfoldable pub read_internal : ℕ → Data → Operation → Fifo → Transfer Fifo
unfolding serve
read_internal count out flag f =
    let available = available_bytes f in
    let real_count = if count == 0 then available else count in
    if ((available == 0) && (count == 0)) || ltb available real_count
    then record { done = false; out = out; source = f }
    else serve real_count out flag f

unfoldable pub read : ℕ → Data → Fifo → Transfer Fifo
read count out f = read_internal count out Operation.read f

unfoldable pub peek : ℕ → Data → Fifo → Transfer Fifo
peek count out f = read_internal count out Operation.peek f

unfoldable pub extract : ℕ → Data → Fifo → Transfer Fifo
extract count out f = read_internal count out Operation.extract f

-- One round of `ReadUntilEoFInternal`: `none` for the operation that the loop does not know.
pub read_all : Data → Operation → Fifo → Option (Transfer Fifo)
read_all out Operation.read f = some (read 0 out f)
read_all out Operation.extract f = some (extract 0 out f)
read_all out Operation.peek f = none

-- The loop, with fuel: `none` when the fuel runs out.
unfoldable pub read_until_eof_internal : ℕ → Data → Operation → Fifo → Option (Data × Fifo)
unfolding read_all
read_until_eof_internal zero out flag f = none
read_until_eof_internal (suc fuel) out flag f = elim (read_all out flag f) [
  | none ↦ some (out, f)
  | some r ↦ elim (peek 1 [] r.source).done [
    | true ↦ read_until_eof_internal fuel r.out flag r.source
    | false ↦ some (r.out, r.source)
  ]
]

-- The overloads that read into a `WriteOnly`.
module _ {S : Type 0} (sink : WriteOnly S) where
  open sink use {write}

  unfoldable pub read_internal_into : ℕ → S → Operation → Fifo → Bool × S × Fifo
  read_internal_into count s flag f =
      let available = available_bytes f in
      let real_count = if count == 0 then available else count in
      let temp = read_internal count [] flag f in
      let (written, s') = write (length temp.out) temp.out s in
      if ((count == 0) && (available == 0)) || ltb available real_count
      then (false, s, f)
      else if temp.done
      then (written, s', temp.source)
      else (false, s, temp.source)

  pub read_all_into : S → Operation → Fifo → Option (Bool × S × Fifo)
  read_all_into s Operation.read f = some (read_internal_into 0 s Operation.read f)
  read_all_into s Operation.extract f = some (read_internal_into 0 s Operation.extract f)
  read_all_into s Operation.peek f = none

  unfoldable pub read_until_eof_internal_into : ℕ → S → Operation → Fifo → Option (S × Fifo)
  unfolding read_all_into
  read_until_eof_internal_into zero s flag f = none
  read_until_eof_internal_into (suc fuel) s flag f = elim (read_all_into s flag f) [
    | none ↦ some (s, f)
    | some (_, s', f') ↦ elim (peek 1 [] f').done [
      | true ↦ read_until_eof_internal_into fuel s' flag f'
      | false ↦ some (s', f')
    ]
  ]
