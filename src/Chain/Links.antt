-- ===== src/Chain/Links.antt =====
-- One buffer of a chain under the calls of its two threads: shared_fifo.cxx and fifo.cxx.
use mathlib.Core.Path.{subst}
use storm_byte_buffer.Prelude.{
  ℕ, ◌+◌, ◌≤◌, ◌≡◌, ◌≢◌, ◌⊎◌, refl, sym, ap, ◌∙◌, inl, inr, true, false, [], ◌++◌, append-nil,
  length, take-all, max_size, Bool-cases, arith,
}
use storm_byte_buffer.Typedefs.{Data, Operation, Helpers}
use storm_byte_buffer.Fifo.Writing
use storm_byte_buffer.Shared
use storm_byte_buffer.Shared.{Shared, reading, ready}
use storm_byte_buffer.Monitor.{Call, writes, closes, set_errors, start}
use storm_byte_buffer.Monitor.Outcomes.{added}
use storm_byte_buffer.Session.{Session, advance, intervene}
use storm_byte_buffer.Session.Rounds.{advance_takes, advance_looks, advance_asleep, advance_over}
use storm_byte_buffer.Session.Moves.{ahead, Keeps, advance-Moves, phase_cases}
use storm_byte_buffer.Session.Feeds.{IsFeed, enter}

-- All that has been put in, `w`, is read or unread.
pub record Fed (w : Data) (m : Session) : Type 0 where
  pub keeps : Keeps (length m.shared.fifo.buffer) m
  pub all : m.out ++ ahead m.shared ≡ w

-- What the stage before relies on while others move.
pub record Follows (m m' : Session) : Type 0 where
  pub closed : m'.shared.closed ≡ m.shared.closed
  pub error : m.shared.error ≡ true → m'.shared.error ≡ true
  pub length_le : length m'.shared.fifo.buffer ≤ length m.shared.fifo.buffer

Keeps-self : {room : ℕ} (m : Session) → Keeps room m → Keeps (length m.shared.fifo.buffer) m
Keeps-self m k = record {
  valid = k.valid;
  growth = omega arith;
  phased = k.phased;
  ended = k.ended;
  told = k.told;
}

pub Follows-refl : (m : Session) → Follows m m
Follows-refl m = record { closed = refl; error = λ e. e; length_le = omega arith }

-- A move of the loop keeps both flags.
abbrev SameFlags : Session → Session → Type 0
SameFlags m m' = (m'.shared.closed ≡ m.shared.closed) × (m'.shared.error ≡ m.shared.error)

advance-flags :
    (flag : Operation) (m : Session)
    → Keeps (length m.shared.fifo.buffer) m
    → SameFlags m (advance flag m)
advance-flags flag m k = elim (phase_cases m.phase k.phased) [
  | inl e ↦ subst (SameFlags m) (sym (advance_takes flag m e)) (refl, refl)
  | inr (inl e) ↦ subst (SameFlags m) (sym (advance_looks flag m k.valid e)) (refl, refl)
  | inr (inr (inl e)) ↦
      subst (SameFlags m) (sym (advance_asleep flag m k.valid e)) (ground arith, ground arith)
  | inr (inr (inr e)) ↦ subst (SameFlags m) (sym (advance_over flag m e)) (refl, refl)
]

pub advance-Fed :
    (flag : Operation) (w : Data) (m : Session)
    → flag ≢ Operation.peek
    → Fed w m
    → Fed w (advance flag m) × Follows m (advance flag m)
advance-Fed flag w m ne f =
    let moved = advance-Moves flag m (length m.shared.fifo.buffer) ne f.keeps in
    let (closed, error) = advance-flags flag m f.keeps in
    (
      record { keeps = Keeps-self (advance flag m) moved.keeps; all = moved.conserved ∙ f.all },
      record { closed = closed; error = λ e. error ∙ e; length_le = moved.keeps.growth },
    )

module _ ⦃h : Helpers⦄ where
  pub intervene-Fed :
      (c : Call) (w : Data) (m : Session)
      → IsFeed c
      → Fed w m
      → length m.shared.fifo.buffer + added c ≤ max_size
      → let (xs, m') = intervene c m in Fed (w ++ xs) m'
  intervene-Fed c w m i f fits =
      let (xs, m') = intervene c m in
      let (k, e) = enter c m i f.keeps fits in
      record { keeps = Keeps-self m' k; all = e ∙ ap (λ (ys : Data). ys ++ xs) f.all }

  pub length-intervene-le :
      (c : Call) (w : Data) (m : Session)
      → IsFeed c
      → Fed w m
      → length m.shared.fifo.buffer + added c ≤ max_size
      → length (intervene c m).1.shared.fifo.buffer ≤ length m.shared.fifo.buffer + added c
  length-intervene-le c w m i f fits = (enter c m i f.keeps fits).0.growth

  -- A write of a whole vector to a buffer that is not closed.
  pub write_next :
      (bytes : Data) (m : Session)
      → m.shared.closed ≡ false
      → let (xs, m') = intervene (writes (length bytes) bytes) m in
        ((xs ≡ bytes) ⊎ (m'.shared.error ≡ true)) × (m'.shared.closed ≡ false)
  unfolding intervene start Shared.write_internal Writing.write_internal
  write_next bytes m e = elim (Bool-cases m.shared.error) [
    | inl bad ↦ (inr (ground arith), ground arith)
    | inr calm ↦ (inl (ground (arith, take-all (length bytes) bytes)), ground arith)
  ]

  -- A close, and an error.
  pub close_next :
      (m : Session)
      → let (xs, m') = intervene closes m in
        (xs ≡ []) × (m'.shared.closed ≡ true) × (m.shared.error ≡ true → m'.shared.error ≡ true)
  unfolding intervene start Shared.close
  close_next m = (refl, refl, λ e. e)

  pub error_next :
      (m : Session)
      → let (xs, m') = intervene set_errors m in (xs ≡ []) × (m'.shared.error ≡ true) × Follows m m'
  unfolding intervene start Shared.set_error
  error_next m = (refl, refl, record { closed = refl; error = λ e. refl; length_le = omega arith })

  pub intervene_calm :
      (c : Call) (m : Session)
      → ((intervene c m).1.phase ≡ m.phase) × ((intervene c m).1.out ≡ m.out)
  unfolding intervene
  intervene_calm c m = ground arith

  pub error-Fed :
      (w : Data) (m : Session)
      → Fed w m
      → Fed w (intervene set_errors m).1 × Follows m (intervene set_errors m).1
  error-Fed w m f =
      let (none_put, _, follows) = error_next m in
      (
        subst (λ (xs : Data). Fed xs (intervene set_errors m).1)
            (ap (λ (xs : Data). w ++ xs) none_put ∙ append-nil w)
            (intervene-Fed set_errors w m tt f (omega (arith, f.keeps.valid.small))),
        follows,
      )
