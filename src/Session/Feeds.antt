-- ===== src/Session/Feeds.antt =====
-- The calls of other threads beside the loop of `ReadUntilEoF` of a `SharedFIFO`: fifo.cxx and
-- shared_fifo.cxx.
use mathlib.Core.Path.{subst}
use storm_byte_buffer.Prelude.{
  ℕ, ◌+◌, ◌≤◌, ◌≡◌, ◌≢◌, refl, sym, ap, ◌∙◌, inl, inr, true, false, ◌||◌, List, [], ◌∷◌, ◌++◌,
  append-nil, append_assoc, length, max_size, arith,
}
use storm_byte_buffer.Typedefs.{Data, Operation, Helpers}
use storm_byte_buffer.Fifo.Bounds.{IsValid}
use storm_byte_buffer.Shared
use storm_byte_buffer.Shared.{Shared, Finished, reading, finished, blocked, ready}
use storm_byte_buffer.Monitor.{Call, writes, closes, set_errors, start}
use storm_byte_buffer.Monitor.Outcomes
use storm_byte_buffer.Monitor.Outcomes.{added, refused, start-Settles}
use storm_byte_buffer.Monitor.Shutdown.{is_over}
use storm_byte_buffer.Monitor.Stream.{given, start-AllFlow}
use storm_byte_buffer.Session.{
  takes, before, over, Session, begin, Move, own, other, intervene, step, run,
}
use storm_byte_buffer.Session.Moves.{ahead, IsDone, Keeps, advance-Moves}
use storm_byte_buffer.Session.Rounds.{IsPhase, IsTold}

abbrev pub IsFeed : Call → Type 0
IsFeed (writes count bytes) = Unit {0}
IsFeed closes = Unit {0}
IsFeed set_errors = Unit {0}
IsFeed _ = ⊥

-- The other threads only write, close the buffer, and set its error.
abbrev pub IsFed : Move → Type 0
IsFed own = Unit {0}
IsFed (other c) = IsFeed c

abbrev pub AreFed : List Move → Type 0
AreFed [] = Unit {0}
AreFed (v ∷ vs) = IsFed v × AreFed vs

-- The bytes that the moves may add.
abbrev pub growth : Move → ℕ
growth own = 0
growth (other c) = added c

abbrev pub total : List Move → ℕ
total [] = 0
total (v ∷ vs) = growth v + total vs

IsDone-is_over : (s : Shared) → IsDone s → is_over s ≡ true
IsDone-is_over s (inl e) = ground arith
IsDone-is_over s (inr (c, e)) = ground arith

is_done_close : (s : Shared) → IsDone s → IsDone (record s { closed = true })
is_done_close s (inl e) = inl e
is_done_close s (inr (c, e)) = inr (refl, e)

-- A call of another thread: what it has put in is unread.
abbrev pub Enters : ℕ → Session → Data × Session → Type 0
Enters room m (xs, m') =
    Keeps room m' × (m'.out ++ ahead m'.shared ≡ (m.out ++ ahead m.shared) ++ xs)

entered :
    (room : ℕ) (m : Session) (x : Finished) (xs : Data)
    → Outcomes.Keeps room x
    → ahead m.shared ++ xs ≡ ahead x.shared
    → IsPhase m.phase
    → (m.phase ≡ over → IsDone x.shared)
    → IsTold (record m { shared = x.shared; roused = x.notify || m.roused })
    → Enters room m (xs, record m { shared = x.shared; roused = x.notify || m.roused })
entered room m x xs k flow i d t = (
  record { valid = k.valid; growth = k.growth; phased = i; ended = d; told = t },
  ap (λ (ys : Data). m.out ++ ys) (sym flow) ∙ sym (append_assoc m.out (ahead m.shared) xs),
)

module _ ⦃h : Helpers⦄ where
  pub write_refused :
      (count : ℕ) (bytes : Data) (s : Shared)
      → is_over s ≡ true
      → Shared.write_internal count bytes s ≡ refused s
  unfolding Shared.write_internal
  write_refused count bytes s o = ground arith

  -- A write that does not notify has left the buffer as it was.
  write-IsTold :
      (count : ℕ) (bytes : Data) (m : Session)
      → IsTold m
      → let x = Shared.write_internal count bytes m.shared in
        IsTold (record m { shared = x.shared; roused = x.notify || m.roused })
  unfolding Shared.write_internal
  write-IsTold count bytes m t e r = ground (arith, t)

  pub enter :
      (c : Call) (m : Session)
      → IsFeed c
      → Keeps (length m.shared.fifo.buffer) m
      → length m.shared.fifo.buffer + added c ≤ max_size
      → Enters (length m.shared.fifo.buffer + added c) m (intervene c m)
  unfolding intervene start Shared.close Shared.set_error
  enter (writes count bytes) m i k fits =
      entered (length m.shared.fifo.buffer + length bytes) m
        (Shared.write_internal count bytes m.shared)
        (given (writes count bytes) (Shared.write_internal count bytes m.shared).done [])
        (start-Settles m.shared k.valid (writes count bytes) tt fits)
        (start-AllFlow m.shared (writes count bytes) tt k.valid) k.phased
        (λ e.
          subst (λ (x : Finished). IsDone x.shared)
            (sym (write_refused count bytes m.shared (IsDone-is_over m.shared (k.ended e))))
            (k.ended e))
        (write-IsTold count bytes m k.told)
  enter closes m i k fits =
      entered (length m.shared.fifo.buffer + 0) m (Shared.close m.shared) []
        (start-Settles m.shared k.valid closes tt fits) (start-AllFlow m.shared closes tt k.valid)
        k.phased (λ e. is_done_close m.shared (k.ended e)) (λ e r. cc r)
  enter set_errors m i k fits =
      entered (length m.shared.fifo.buffer + 0) m (Shared.set_error m.shared) []
        (start-Settles m.shared k.valid set_errors tt fits)
        (start-AllFlow m.shared set_errors tt k.valid) k.phased (λ e. inl refl) (λ e r. cc r)
  enter (Call.reads count flag) m i k fits = absurd i
  enter (Call.drops count) m i k fits = absurd i
  enter (Call.seeks offset mode) m i k fits = absurd i
  enter (Call.assigns f) m i k fits = absurd i
  enter Call.cleans m i k fits = absurd i
  enter Call.clears m i k fits = absurd i

  stepped :
      (flag : Operation) (v : Move) (m : Session)
      → flag ≢ Operation.peek
      → IsFed v
      → Keeps (length m.shared.fifo.buffer) m
      → length m.shared.fifo.buffer + growth v ≤ max_size
      → Enters (length m.shared.fifo.buffer + growth v) m (step flag v m)
  unfolding step
  stepped flag own m ne i k fits =
      let k' = advance-Moves flag m (length m.shared.fifo.buffer) ne k in
      (
        record {
          valid = k'.keeps.valid;
          growth = omega (arith, k'.keeps.growth);
          phased = k'.keeps.phased;
          ended = k'.keeps.ended;
          told = k'.keeps.told;
        },
        k'.conserved ∙ sym (append-nil (m.out ++ ahead m.shared)),
      )
  stepped flag (other c) m ne i k fits = enter c m i k fits

  run-Enters :
      (flag : Operation) (vs : List Move) (m : Session)
      → flag ≢ Operation.peek
      → AreFed vs
      → Keeps (length m.shared.fifo.buffer) m
      → length m.shared.fifo.buffer + total vs ≤ max_size
      → Enters (length m.shared.fifo.buffer + total vs) m (run flag vs m)
  unfolding run
  run-Enters flag [] m ne i k fits = (
    record {
      valid = k.valid;
      growth = omega arith;
      phased = k.phased;
      ended = k.ended;
      told = k.told;
    },
    sym (append-nil (m.out ++ ahead m.shared)),
  )
  run-Enters flag (v ∷ vs) m ne i k fits =
      let (xs, m') = step flag v m in
      let (k', e) = stepped flag v m ne i.0 k (omega arith) in
      let valid' : Keeps (length m'.shared.fifo.buffer) m' = record {
        valid = k'.valid;
        growth = omega arith;
        phased = k'.phased;
        ended = k'.ended;
        told = k'.told;
      } in
      let (k'', e') = run-Enters flag vs m' ne i.1 valid' (omega (arith, k'.growth)) in
      let (ys, m'') = run flag vs m' in
      (
        record {
          valid = k''.valid;
          growth = omega (arith, k''.growth, k'.growth);
          phased = k''.phased;
          ended = k''.ended;
          told = k''.told;
        },
        e' ∙ ap (λ (zs : Data). zs ++ ys) e ∙ append_assoc (m.out ++ ahead m.shared) xs ys,
      )

  -- The same from the start of the loop.
  pub begin-Enters :
      (flag : Operation) (out : Data) (s : Shared) (vs : List Move)
      → flag ≢ Operation.peek
      → IsValid s.fifo
      → AreFed vs
      → length s.fifo.buffer + total vs ≤ max_size
      → let (xs, m) = run flag vs (begin flag out s) in
        Keeps (length s.fifo.buffer + total vs) m
        × (m.out ++ ahead m.shared ≡ (out ++ ahead s) ++ xs)
  unfolding begin
  begin-Enters Operation.read out s vs ne v i fits =
      run-Enters Operation.read vs
        (record { shared = s; out = out; phase = before takes; roused = false }) ne i
        (record {
          valid = v;
          growth = omega arith;
          phased = tt;
          ended = λ e. absurd (cc e);
          told = λ e. absurd (cc e);
        })
        fits
  begin-Enters Operation.extract out s vs ne v i fits =
      run-Enters Operation.extract vs
        (record { shared = s; out = out; phase = before takes; roused = false }) ne i
        (record {
          valid = v;
          growth = omega arith;
          phased = tt;
          ended = λ e. absurd (cc e);
          told = λ e. absurd (cc e);
        })
        fits
  begin-Enters Operation.peek out s vs ne v i fits = absurd (ne refl)
