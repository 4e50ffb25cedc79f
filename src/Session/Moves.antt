-- ===== src/Session/Moves.antt =====
-- What one move of the loop of `ReadUntilEoF` keeps: fifo.cxx and shared_fifo.cxx.
use mathlib.Core.Path.{subst}
use storm_byte_buffer.Prelude.{
  nil_of_length, ℕ, ◌≤◌, ◌≡◌, ◌≢◌, ◌⊎◌, refl, sym, ap, ap₂, ◌∙◌, inl, inr, true, ◌||◌, [], ◌++◌,
  append-nil, Bool-cases, length, arith,
}
use storm_byte_buffer.Typedefs.{Data, Operation}
use storm_byte_buffer.Fifo
use storm_byte_buffer.Fifo.Bounds.{IsValid}
use storm_byte_buffer.Fifo.Growth.{length-read_internal-le}
use storm_byte_buffer.Fifo.Refine.{view, length-ahead}
use storm_byte_buffer.Tape.{Tape}
use storm_byte_buffer.Shared.{Shared, reading, ready}
use storm_byte_buffer.Shared.Refine.{ready_lem}
use storm_byte_buffer.Shared.UntilEof.{rest, rest_lem, ahead-take_from}
use storm_byte_buffer.Session.{takes, looks, Phase, before, asleep, over, Session, advance}
use storm_byte_buffer.Session.Rounds.{
  IsPhase, IsTold, advance_takes, advance_looks, advance_asleep, advance_over,
}

abbrev pub ahead : Shared → Data
ahead s = (view s.fifo).ahead

-- Nothing is unread and the buffer is closed, or it is in error.
abbrev pub IsDone : Shared → Type 0
IsDone s = (s.error ≡ true) ⊎ ((s.closed ≡ true) × (ahead s ≡ []))

-- What every move keeps.
pub record Keeps (room : ℕ) (m : Session) : Type 0 where
  pub valid : IsValid m.shared.fifo
  pub growth : length m.shared.fifo.buffer ≤ room
  pub phased : IsPhase m.phase
  pub ended : m.phase ≡ over → IsDone m.shared
  pub told : IsTold m

-- A move of the loop: what it has got and what is unread are the same bytes.
pub record Moves (m m' : Session) : Type 0 where
  pub keeps : Keeps (length m.shared.fifo.buffer) m'
  pub conserved : m'.out ++ ahead m'.shared ≡ m.out ++ ahead m.shared

pub is_done_of :
    (s : Shared)
    → IsValid s.fifo
    → Fifo.available_bytes s.fifo ≡ 0
    → s.closed || s.error ≡ true
    → IsDone s
is_done_of s v e o = elim (Bool-cases s.error) [
  | inl k ↦ inl k
  | inr k ↦ inr (ground arith, nil_of_length (ahead s) (length-ahead v ∙ e))
]

pub phase_cases :
    (p : Phase)
    → IsPhase p
    → (p ≡ before takes)
      ⊎ ((p ≡ before looks) ⊎ ((p ≡ asleep looks 1 (reading 1 Operation.peek)) ⊎ (p ≡ over)))
phase_cases (before takes) k = inl refl
phase_cases (before looks) k = inr (inl refl)
phase_cases (asleep takes n p) k = absurd k
phase_cases (asleep looks n p) k = inr (inr (inl (ap₂ (asleep looks) k.0 k.1)))
phase_cases over k = inr (inr (inr refl))

module _ (flag : Operation) (m : Session) (v : IsValid m.shared.fifo) where
  length-rest-le : length (rest flag m.shared).buffer ≤ length m.shared.fifo.buffer
  length-rest-le = ground (arith, length-read_internal-le 0 [] flag m.shared.fifo)

  takes-Moves : flag ≢ Operation.peek → m.phase ≡ before takes → Moves m (advance flag m)
  takes-Moves ne e =
      let (valid, none_left, seen, got) = rest_lem m.out flag m.shared ne v in
      subst (Moves m) (sym (advance_takes flag m e)) (record {
        keeps = record {
          valid = valid;
          growth = length-rest-le;
          phased = tt;
          ended = λ k. absurd (cc k);
          told = λ k. absurd (cc k);
        };
        conserved = elim (Bool-cases m.shared.error) [
          | inl k ↦ ground (arith, got, ap (λ (t : Tape). t.ahead) seen)
          | inr k ↦ ground (
            arith,
            got,
            ap (λ (t : Tape). t.ahead) seen,
            ahead-take_from flag (view m.shared.fifo) ne,
            append-nil (m.out ++ ahead m.shared),
          )
        ];
      })

  looks-Moves : m.phase ≡ before looks → Moves m (advance flag m)
  looks-Moves e = subst (Moves m) (sym (advance_looks flag m v e)) (record {
    keeps = record {
      valid = v;
      growth = omega arith;
      phased = ground arith;
      ended = λ k. ground (arith, is_done_of m.shared v);
      told = λ k r. ground (arith, ready_lem m.shared 1 v (omega arith));
    };
    conserved = refl;
  })

  asleep-Moves : m.phase ≡ asleep looks 1 (reading 1 Operation.peek) → Moves m (advance flag m)
  asleep-Moves e =
      subst (Moves m) (sym (advance_asleep flag m v e)) (elim (Bool-cases (ready 1 m.shared)) [
        | inl r ↦ rw r (record {
          keeps = record {
            valid = v;
            growth = omega arith;
            phased = ground arith;
            ended =
                λ k. ground (arith, is_done_of m.shared v, ready_lem m.shared 1 v (omega arith));
            told = λ k q. ground arith;
          };
          conserved = refl;
        })
        | inr r ↦ rw r (record {
          keeps = record {
            valid = v;
            growth = omega arith;
            phased = subst IsPhase (sym e) (refl, refl);
            ended = λ k. absurd (cc k);
            told = λ k q. r;
          };
          conserved = refl;
        })
      ])

pub advance-Moves :
    (flag : Operation) (m : Session) (room : ℕ)
    → flag ≢ Operation.peek
    → Keeps room m
    → Moves m (advance flag m)
advance-Moves flag m room ne k = elim (phase_cases m.phase k.phased) [
  | inl e ↦ takes-Moves flag m k.valid ne e
  | inr (inl e) ↦ looks-Moves flag m k.valid e
  | inr (inr (inl e)) ↦ asleep-Moves flag m k.valid e
  | inr (inr (inr e)) ↦ subst (Moves m) (sym (advance_over flag m e)) (record {
    keeps = record {
      valid = k.valid;
      growth = omega arith;
      phased = k.phased;
      ended = k.ended;
      told = k.told;
    };
    conserved = refl;
  })
]
