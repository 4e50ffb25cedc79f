-- ===== src/Chain.antt =====
-- Threads in a row, each of which reads the `SharedFIFO` that the one before writes to: what they
-- share, whatever they do with the bytes. The caller writes to the first buffer.
pub mod Links
pub mod Steps
pub mod Result
pub mod Turns
use storm_byte_buffer.Prelude.{ℕ, []}
use storm_byte_buffer.Typedefs.{Operation}
use storm_byte_buffer.Shared
use storm_byte_buffer.Monitor.{Call}
use storm_byte_buffer.Session.{Session, begin}

-- The caller uses the first buffer, a stage or the last reader moves on, or a buffer fails.
pub data Move : Type 0 where
  feeds : Call → Move
  works : ℕ → Move
  breaks : ℕ → Move

-- A buffer that has just been made, and a thread that is about to read it until the end.
unfoldable pub fresh : Operation → Session
fresh flag = begin flag [] (Shared.empty_shared)
