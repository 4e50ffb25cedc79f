-- ===== src/Session/Ends.antt =====
-- When the loop of `ReadUntilEoF` of a `SharedFIFO` ends: fifo.cxx and shared_fifo.cxx.
use mathlib.Core.Path.{subst}
use storm_byte_buffer.Prelude.{
  ℕ, suc, ◌+◌, ◌-◌, ◌≤◌, ◌≡◌, ◌≢◌, refl, sym, ◌∙◌, inl, inr, true, false, ◌||◌, List, [], ◌∷◌, ◌==◌,
  if◌then◌else◌, length, max_size, arith,
}
use storm_byte_buffer.Typedefs.{Data, Operation, Helpers}
use storm_byte_buffer.Fifo
use storm_byte_buffer.Fifo.Bounds.{IsValid}
use storm_byte_buffer.Shared
use storm_byte_buffer.Shared.{Shared, Finished, reading, ready}
use storm_byte_buffer.Shared.UntilEof.{rest_lem}
use storm_byte_buffer.Monitor.{Call, writes, closes, set_errors, start}
use storm_byte_buffer.Monitor.Shutdown.{is_over, ready_over}
use storm_byte_buffer.Session.{
  takes, looks, Phase, before, asleep, over, Session, begin, advance, Move, own, other, intervene,
  step, run,
}
use storm_byte_buffer.Session.Rounds.{
  IsPhase, peeked, advance_takes, advance_looks, advance_asleep, advance_over,
}
use storm_byte_buffer.Session.Moves.{phase_cases}
use storm_byte_buffer.Session.Feeds.{IsFeed, AreFed, total, write_refused, begin-Enters}

-- The moves of the loop itself.
abbrev pub owns : List Move → ℕ
owns [] = 0
owns (own ∷ vs) = suc (owns vs)
owns (other c ∷ vs) = owns vs

-- How many moves the loop still makes on a buffer that is over.
abbrev pub left_looks : Shared → ℕ
left_looks s = if s.error then 1 else if Fifo.available_bytes s.fifo == 0 then 1 else 3

abbrev pub rank : Phase → Shared → ℕ
rank (before takes) s = 2
rank (before looks) s = left_looks s
rank (asleep turn n p) s = 3
rank over s = 0

pub record IsEnding (m : Session) (n : ℕ) : Type 0 where
  pub valid : IsValid m.shared.fifo
  pub phased : IsPhase m.phase
  pub shut : is_over m.shared ≡ true
  pub bound : rank m.phase m.shared ≤ n

ready_now :
    {n : ℕ} (m : Session)
    → IsEnding m n
    → (if ready 1 m.shared
        then record m { phase = peeked m.shared }
        else record m { roused = false })
      ≡ record m { phase = peeked m.shared }
ready_now m k = rw (ready_over 1 m.shared k.shut) refl

pub advance-IsEnding :
    (flag : Operation) (m : Session) (n : ℕ)
    → flag ≢ Operation.peek
    → IsEnding m n
    → IsEnding (advance flag m) (n - 1)
advance-IsEnding flag m n ne k = elim (phase_cases m.phase k.phased) [
  | inl e ↦
      let (valid, none_left, seen, got) = rest_lem m.out flag m.shared ne k.valid in
      subst (λ (x : Session). IsEnding x (n - 1)) (sym (advance_takes flag m e))
        (record { valid = valid; phased = tt; shut = k.shut; bound = ground arith })
  | inr (inl e) ↦
      subst (λ (x : Session). IsEnding x (n - 1)) (sym (advance_looks flag m k.valid e))
        (record {
          valid = k.valid;
          phased = ground arith;
          shut = k.shut;
          bound = ground (arith, k.bound);
        })
  | inr (inr (inl e)) ↦
      subst (λ (x : Session). IsEnding x (n - 1))
        (sym (advance_asleep flag m k.valid e ∙ ready_now m k))
        (record {
          valid = k.valid;
          phased = ground arith;
          shut = k.shut;
          bound = ground (arith, k.bound);
        })
  | inr (inr (inr e)) ↦
      subst (λ (x : Session). IsEnding x (n - 1)) (sym (advance_over flag m e))
        (record {
          valid = k.valid;
          phased = k.phased;
          shut = k.shut;
          bound = ground (arith, k.bound);
        })
]

rank_error : (p : Phase) (s : Shared) → rank p (record s { error = true }) ≤ rank p s
rank_error (before takes) s = omega arith
rank_error (before looks) s = ground arith
rank_error (asleep turn n p) s = omega arith
rank_error over s = omega arith

pub rank_le : (p : Phase) (s : Shared) → rank p s ≤ 3
rank_le (before takes) s = omega arith
rank_le (before looks) s = ground arith
rank_le (asleep turn n p) s = omega arith
rank_le over s = omega arith

pub rank_over : (p : Phase) (s : Shared) → rank p s ≤ 0 → p ≡ over
rank_over (before takes) s e = absurd (omega arith)
rank_over (before looks) s e = absurd (ground arith)
rank_over (asleep turn n p) s e = absurd (omega arith)
rank_over over s e = refl

-- Three moves of the loop bring it to its end.
pub thrice_over :
    (flag : Operation) (m : Session)
    → flag ≢ Operation.peek
    → IsEnding m (rank m.phase m.shared)
    → (advance flag (advance flag (advance flag m))).phase ≡ over
thrice_over flag m ne e =
    let n = rank m.phase m.shared in
    let m1 = advance flag m in
    let m2 = advance flag m1 in
    let m3 = advance flag m2 in
    let e1 = advance-IsEnding flag m n ne e in
    let e2 = advance-IsEnding flag m1 (n - 1) ne e1 in
    let e3 = advance-IsEnding flag m2 (n - 1 - 1) ne e2 in
    rank_over m3.phase m3.shared (omega (arith, e3.bound, rank_le m.phase m.shared))

module _ ⦃h : Helpers⦄ where
  -- The calls of the other threads do not lengthen what is left to do.
  intervene-IsEnding :
      (c : Call) (m : Session) (n : ℕ) → IsFeed c → IsEnding m n → IsEnding (intervene c m).1 n
  unfolding intervene start Shared.close Shared.set_error
  intervene-IsEnding (writes count bytes) m n i k =
      subst
        (λ (x : Finished).
          IsEnding (record m { shared = x.shared; roused = x.notify || m.roused }) n)
        (sym (write_refused count bytes m.shared k.shut)) k
  intervene-IsEnding closes m n i k = record {
    valid = k.valid;
    phased = k.phased;
    shut = refl;
    bound = ground (arith, k.bound);
  }
  intervene-IsEnding set_errors m n i k = record {
    valid = k.valid;
    phased = k.phased;
    shut = ground arith;
    bound = omega (arith, rank_error m.phase m.shared, k.bound);
  }
  intervene-IsEnding (Call.reads count flag) m n i k = absurd i
  intervene-IsEnding (Call.drops count) m n i k = absurd i
  intervene-IsEnding (Call.seeks offset mode) m n i k = absurd i
  intervene-IsEnding (Call.assigns f) m n i k = absurd i
  intervene-IsEnding Call.cleans m n i k = absurd i
  intervene-IsEnding Call.clears m n i k = absurd i

  run-IsEnding :
      (flag : Operation) (vs : List Move) (m : Session) (n : ℕ)
      → flag ≢ Operation.peek
      → AreFed vs
      → IsEnding m n
      → IsEnding (run flag vs m).1 (n - owns vs)
  unfolding run step
  run-IsEnding flag [] m n ne i k = subst (IsEnding m) (omega arith) k
  run-IsEnding flag (own ∷ vs) m n ne i k =
      subst (IsEnding (run flag vs (advance flag m)).1) (omega arith)
        (run-IsEnding flag vs (advance flag m) (n - 1) ne i.1 (advance-IsEnding flag m n ne k))
  run-IsEnding flag (other c ∷ vs) m n ne i k =
      run-IsEnding flag vs (intervene c m).1 n ne i.1 (intervene-IsEnding c m n i.0 k)

  -- A thread in `ReadUntilEoF` or `ExtractUntilEoF` of a valid `SharedFIFO` beside threads that write,
  -- close the buffer and set its error, with room for all that they write: once the buffer is closed
  -- or in error, wherever the loop is then and whatever the others still call, it ends with its third
  -- move from there at the latest, if not before.
  pub until_eof_ends :
      (flag : Operation) (out : Data) (s : Shared) (vs ws : List Move)
      → flag ≢ Operation.peek
      → IsValid s.fifo
      → AreFed vs
      → AreFed ws
      → length s.fifo.buffer + total vs ≤ max_size
      → is_over (run flag vs (begin flag out s)).1.shared ≡ true
      → 3 ≤ owns ws
      → (run flag ws (run flag vs (begin flag out s)).1).1.phase ≡ over
  until_eof_ends flag out s vs ws ne v i j fits shut three =
      let m = (run flag vs (begin flag out s)).1 in
      let k = (begin-Enters flag out s vs ne v i fits).0 in
      let start_lem : IsEnding m 3 = record {
        valid = k.valid;
        phased = k.phased;
        shut = shut;
        bound = rank_le m.phase m.shared;
      } in
      let m' = (run flag ws m).1 in
      let e = run-IsEnding flag ws m 3 ne j start_lem in
      rank_over m'.phase m'.shared (omega (arith, e.bound))
