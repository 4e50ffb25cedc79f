-- ===== src/Producer.antt =====
-- The class `Producer`: lib/public/StormByte/buffer/producer.hxx.
pub mod Pipe
use storm_byte_buffer.Prelude.{not, ℕ, Bool, Option, none, length}
use storm_byte_buffer.Typedefs.{Data, Helpers}
use storm_byte_buffer.Generic.{ReadOnly}
use storm_byte_buffer.Shared
use storm_byte_buffer.Monitor.{Event, writes, closes, set_errors}
use storm_byte_buffer.Store.{Store, Pointer, make_shared, deref, invoke, query, same}
use storm_byte_buffer.Consumer.{Consumer}

pub record Producer : Type 0 where
  pub buffer : Pointer

-- `Producer()`.
unfoldable pub make : Store → Producer × Store
make s = let (p, s') = make_shared s in (record { buffer = p }, s')

-- `Producer(const Consumer&)`.
unfoldable pub of_consumer : Consumer → Producer
of_consumer c = record { buffer = c.buffer }

-- `Producer::Consumer()`.
unfoldable pub consumer : Producer → Consumer
consumer p = record { buffer = p.buffer }

-- The copy constructor and the copy assignment share the buffer.
unfoldable pub copy : Producer → Producer
copy other = record { buffer = other.buffer }

-- The move constructor and the move assignment: the new handle, and what is left of the old one.
unfoldable pub move : Producer → Producer × Producer
move other = (record { buffer = other.buffer }, record { buffer = none })

-- `operator==`.
unfoldable pub equals : Producer → Producer → Bool
equals p q = same p.buffer q.buffer

unfoldable pub differs : Producer → Producer → Bool
differs p q = not (equals p q)

unfoldable pub is_writable : Producer → Store → Option Bool
is_writable p s = query Shared.is_writable p.buffer s

module _ ⦃h : Helpers⦄ (t : ℕ) (p : Producer) where
  unfoldable pub close : Store → Option (Option Event × Store)
  close s = invoke t closes p.buffer s

  unfoldable pub set_error : Store → Option (Option Event × Store)
  set_error s = invoke t set_errors p.buffer s

  -- `Write(count, data)`, copied or moved.
  unfoldable pub write : ℕ → Data → Store → Option (Option Event × Store)
  write count bytes s = invoke t (writes count bytes) p.buffer s

  -- `Write(data)`.
  unfoldable pub write_all : Data → Store → Option (Option Event × Store)
  write_all bytes s = write (length bytes) bytes s

-- `Write(count, const ReadOnly&)`: the result and the other buffer.
module _ {T : Type 0} (src : ReadOnly T) where
  unfoldable pub write_from : ℕ → T → Producer → Store → Option ((Bool × T) × Store)
  write_from count other p s =
      deref
        (λ m.
          let (done, other', x) = Shared.write_internal_from src count other m.shared in
          ((done, other'), record m { shared = x.shared }))
        p.buffer s
