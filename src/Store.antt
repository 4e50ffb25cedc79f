-- ===== src/Store.antt =====
-- The `SharedFIFO`s that the handles of producer.hxx and consumer.hxx share. A `std::shared_ptr` is
-- the place of its buffer in the store, or null.
pub mod Frame
pub mod Order
use storm_byte_buffer.Prelude.{
  ℕ, zero, suc, Bool, true, false, List, [], ◌∷◌, ◌++◌, Option, none, some, length, get_elem?, set,
  ◌==◌, ◌>>=◌,
}
use storm_byte_buffer.Typedefs.{Helpers}
use storm_byte_buffer.Fifo
use storm_byte_buffer.Shared
use storm_byte_buffer.Shared.{Shared}
use storm_byte_buffer.Monitor
use storm_byte_buffer.Monitor.{Call, Event, Monitor}

abbrev pub Store : Type 0
Store = List Monitor

abbrev pub Pointer : Type 0
Pointer = Option ℕ

-- A `SharedFIFO` by its default constructor.
abbrev pub opened : Monitor
opened = record { shared = Shared.empty_shared; waiters = [] }

-- `std::make_shared<SharedFIFO>()`.
unfoldable pub make_shared : Store → Pointer × Store
make_shared s = (some (length s), s ++ opened ∷ [])

-- `get() == other.get()`.
unfoldable pub same : Pointer → Pointer → Bool
same none none = true
same (some i) none = false
same none (some j) = false
same (some i) (some j) = i == j

-- `m_buffer->`: `none` if the pointer is null.
unfoldable pub deref : {A : Type 0} → (Monitor → A × Monitor) → Pointer → Store → Option (A × Store)
deref f none s = none
deref f (some i) s = elim (get_elem? s i) [
  | none ↦ none
  | some m ↦ let (a, m') = f m in some (a, set i m' s)
]

-- A method of the buffer, called by one thread.
module _ ⦃h : Helpers⦄ where
  unfoldable pub invoke : ℕ → Call → Pointer → Store → Option (Option Event × Store)
  invoke t c p s = deref (Monitor.invoke t c) p s

-- `m_buffer->query()`.
unfoldable pub query : {A : Type 0} → (Shared → A) → Pointer → Store → Option A
query f none s = none
query f (some i) s = elim (get_elem? s i) [ none ↦ none | some m ↦ some (f m.shared) ]

-- What threads do: a method of a handle, or a wakeup of the waiter at a place of one buffer.
pub data Move : Type 0 where
  invokes : ℕ → Call → Pointer → Move
  wakes : ℕ → ℕ → Move

-- A wakeup of one thread that waits on the buffer at `i`.
unfoldable pub wake : ℕ → ℕ → Store → Option (Option Event × Store)
wake i k s = deref (Monitor.wake k) (some i) s

module _ ⦃h : Helpers⦄ where
  unfoldable pub step : Move → Store → Option (Option Event × Store)
  step (invokes t c p) s = invoke t c p s
  step (wakes i k) s = wake i k s

  unfoldable pub run : List Move → Store → Option (List (Option Event) × Store)
  run [] s = some ([], s)
  run (v ∷ vs) s = do (e, s') ← step v s; (es, s'') ← run vs s'; some (e ∷ es, s'')
