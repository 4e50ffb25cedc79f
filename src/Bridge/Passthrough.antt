-- ===== src/Bridge/Passthrough.antt =====
-- `Bridge::PassthroughWrite` in closed form: bridge.cxx.
use storm_byte_buffer.Prelude.{
  suc, ◌+◌, ◌*◌, ◌≤◌, ◌<◌, ◌≡◌, refl, [], ◌∷◌, ◌++◌, some, length, drop, size_mod, max_size,
  length-append, arith,
}
use storm_byte_buffer.Typedefs.{Data, Helpers}
use storm_byte_buffer.External.{ExternalWriter}
use storm_byte_buffer.Fifo
use storm_byte_buffer.Fifo.{Fifo, holding}
use storm_byte_buffer.Fifo.Writing
use storm_byte_buffer.Bridge.{Bridge, store_remainder, passthrough_write}
use storm_byte_buffer.Bridge.Chunks.{full_chunks, feed, write_chunks_lem}

module _ ⦃h : Helpers⦄ where
  store_remainder_lem : (rest : Data) (f : Fifo) → store_remainder rest f ≡ holding rest
  unfolding store_remainder holding Writing.write_move Writing.write_internal_move Fifo.clear
  store_remainder_lem [] f = refl
  store_remainder_lem (x ∷ xs) f = ground (arith, h.append_vector_move_lem [] (x ∷ xs))

  -- A bridge with chunks hands the pending bytes and the new ones to the writer in full chunks, in
  -- order, until the writer refuses one, keeps all the rest, and tells whether none was refused. The
  -- loop always ends.
  pub passthrough_write_lem :
      {R W : Type 0} (writer : ExternalWriter W) (bytes : Data) (b : Bridge R W)
      → 0 < b.chunk_size
      → b.chunk_size < size_mod
      → length b.buffer.buffer + length bytes ≤ max_size
      → let combined = b.buffer.buffer ++ bytes in
        let (done, k, w) = feed writer (full_chunks b.chunk_size combined) b.write_handler in
        passthrough_write writer bytes b
        ≡ some (
          done,
          record b { buffer = holding (drop (k * b.chunk_size) combined); write_handler = w },
        )
  unfolding passthrough_write
  passthrough_write_lem writer bytes b p wide small =
      let combined : Data = b.buffer.buffer ++ bytes in
      let bound : length combined ≤ max_size =
        omega (arith, length-append b.buffer.buffer bytes, small) in
      let out = feed writer (full_chunks b.chunk_size combined) b.write_handler in
      let zero_add : 0 + out.1 * b.chunk_size ≡ out.1 * b.chunk_size = omega arith in
      ground (
        arith,
        write_chunks_lem writer (suc (length combined)) b.chunk_size combined 0 b.write_handler p
            (omega arith) bound (omega arith) (omega arith),
        store_remainder_lem (drop (out.1 * b.chunk_size) combined) b.buffer,
      )
