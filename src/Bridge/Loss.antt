-- ===== src/Bridge/Loss.antt =====
-- `Bridge::Flush`, and `Bridge::PassthroughWrite` with a chunk size of 0: bridge.cxx.
use storm_byte_buffer.Prelude.{
  nil_of_length, ℕ, ◌≡◌, ap, Bool, true, [], ◌∷◌, ◌++◌, append-nil, some, if◌then◌else◌, length,
  take-all, drop-all, arith,
}
use storm_byte_buffer.Typedefs.{Data, Helpers}
use storm_byte_buffer.Fifo
use storm_byte_buffer.Fifo.{Fifo, holding, available_bytes}
use storm_byte_buffer.Fifo.Reading
use storm_byte_buffer.Bridge.{Bridge, passthrough_write, flush, write_all}
use storm_byte_buffer.Bridge.Conserve.{Recorder}

pub extract_all :
    (x : ℕ) (xs : Data)
    → Reading.extract 0 [] (holding (x ∷ xs))
      ≡ record { done = true; out = x ∷ xs; source = holding [] }
unfolding Reading.extract Reading.read_internal holding available_bytes
extract_all x xs = ground (arith, take-all (length xs) xs, drop-all (length xs) xs)

module _ {R W : Type 0} (r : Recorder W) where
  open r use {writer, log, log-write}

  abbrev Flushed : Bridge R W → Bool × Bridge R W → Type 0
  Flushed b (done, b') =
      if Fifo.is_empty b.buffer
      then (done ≡ true) × (b' ≡ b)
      else (b'.buffer ≡ holding [])
        × (log b'.write_handler
            ≡ (if done then log b.write_handler ++ b.buffer.buffer else log b.write_handler))

  flush-holding : (b : Bridge R W) (xs : Data) → b.buffer ≡ holding xs → Flushed b (flush writer b)
  unfolding flush Fifo.is_empty Fifo.size holding
  flush-holding b [] e = ground arith
  flush-holding b (x ∷ xs) e = ground (
    arith,
    extract_all x xs,
    ap (λ (f : Fifo). Reading.extract 0 [] f) e,
    log-write (x ∷ xs) b.write_handler,
  )

  -- A flush with no byte pending succeeds and changes nothing. Otherwise it hands all the pending
  -- bytes to the writer in one write and tells whether it took them. Afterwards none is pending,
  -- also if the writer has refused them: then they are lost.
  pub flush_lem :
      (b : Bridge R W)
      → b.buffer.position_offset ≡ 0
      → let (done, b') = flush writer b in
        if Fifo.is_empty b.buffer
        then (done ≡ true) × (b' ≡ b)
        else (b'.buffer ≡ holding [])
          × (log b'.write_handler
              ≡ (if done then log b.write_handler ++ b.buffer.buffer else log b.write_handler))
  unfolding holding
  flush_lem b e = flush-holding b b.buffer.buffer (ground arith)

  -- With a chunk size of 0 a passthrough hands the pending bytes and the new ones to the writer in
  -- one write. Afterwards none is pending, also if the writer has refused them: then they are lost.
  pub unchunked_lem :
      ⦃h : Helpers⦄ (bytes : Data) (b : Bridge R W)
      → b.chunk_size ≡ 0
      → (done : Bool) × (b' : Bridge R W) × (passthrough_write writer bytes b ≡ some (done, b'))
        × (b'.buffer ≡ holding [])
        × (log b'.write_handler ≡ (
            if done
            then log b.write_handler ++ (b.buffer.buffer ++ bytes)
            else log b.write_handler))
  unfolding passthrough_write write_all Fifo.clear holding
  unchunked_lem bytes b e =
      let combined : Data = b.buffer.buffer ++ bytes in
      let out = write_all writer combined b in
      (
        out.0,
        out.1,
        ground arith,
        ground arith,
        ground (
          arith,
          log-write combined b.write_handler,
          append-nil (log b.write_handler),
          nil_of_length combined,
        ),
      )
