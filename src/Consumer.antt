-- ===== src/Consumer.antt =====
-- The class `Consumer`: lib/public/StormByte/buffer/consumer.hxx. A method that changes the buffer is
-- called by a thread, and gives what has returned, or nothing while the thread waits.
pub mod Onward
use storm_byte_buffer.Prelude.{not, ℕ, Bool, Option, none, ℤ}
use storm_byte_buffer.Generic.Build.{generic}
use storm_byte_buffer.Typedefs.{Data, Position, Operation, Helpers}
use storm_byte_buffer.Shared
use storm_byte_buffer.Monitor.{Event, reads, drops, seeks, cleans, clears, closes}
use storm_byte_buffer.Store.{Store, Pointer, invoke, query, same}

pub record Consumer : Type 0 where
  pub buffer : Pointer

-- The copy constructor and the copy assignment share the buffer.
unfoldable pub copy : Consumer → Consumer
copy other = record { buffer = other.buffer }

-- The move constructor and the move assignment: the new handle, and what is left of the old one.
unfoldable pub move : Consumer → Consumer × Consumer
move other = (record { buffer = other.buffer }, record { buffer = none })

-- `Data()`, which is that of `ReadOnly`: the vector of its own base `Generic`, which no constructor
-- fills, and not that of the shared buffer.
unfoldable pub stored : Consumer → Data
stored c = generic none

-- `operator==`.
unfoldable pub equals : Consumer → Consumer → Bool
equals c d = same c.buffer d.buffer

unfoldable pub differs : Consumer → Consumer → Bool
differs c d = not (equals c d)

unfoldable pub available_bytes : Consumer → Store → Option ℕ
available_bytes c s = query Shared.available_bytes c.buffer s

unfoldable pub size : Consumer → Store → Option ℕ
size c s = query Shared.size c.buffer s

unfoldable pub is_empty : Consumer → Store → Option Bool
is_empty c s = query Shared.is_empty c.buffer s

unfoldable pub eof : Consumer → Store → Option Bool
eof c s = query Shared.eof c.buffer s

unfoldable pub is_readable : Consumer → Store → Option Bool
is_readable c s = query Shared.is_readable c.buffer s

unfoldable pub is_writable : Consumer → Store → Option Bool
is_writable c s = query Shared.is_writable c.buffer s

unfoldable pub has_error : Consumer → Store → Option Bool
has_error c s = query Shared.has_error c.buffer s

module _ ⦃h : Helpers⦄ (t : ℕ) (c : Consumer) (s : Store) where
  unfoldable pub clean : Option (Option Event × Store)
  clean = invoke t cleans c.buffer s

  unfoldable pub clear : Option (Option Event × Store)
  clear = invoke t clears c.buffer s

  unfoldable pub close : Option (Option Event × Store)
  close = invoke t closes c.buffer s

  unfoldable pub drop_bytes : ℕ → Option (Option Event × Store)
  drop_bytes count = invoke t (drops count) c.buffer s

  unfoldable pub extract : ℕ → Option (Option Event × Store)
  extract count = invoke t (reads count Operation.extract) c.buffer s

  unfoldable pub read : ℕ → Option (Option Event × Store)
  read count = invoke t (reads count Operation.read) c.buffer s

  unfoldable pub peek : ℕ → Option (Option Event × Store)
  peek count = invoke t (reads count Operation.peek) c.buffer s

  unfoldable pub seek : ℤ → Position → Option (Option Event × Store)
  seek offset mode = invoke t (seeks offset mode) c.buffer s
