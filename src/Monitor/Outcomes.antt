-- ===== src/Monitor/Outcomes.antt =====
-- How a method of `SharedFIFO` can come out, and what each outcome keeps.
use storm_byte_buffer.Prelude.{
  ℕ, ◌+◌, ◌≤◌, ◌≡◌, ◌⊎◌, sym, inl, inr, false, [], length, max_size, IsPtrdiff, arith,
}
use mathlib.Core.Path.{subst}
use storm_byte_buffer.Typedefs.{Operation, Helpers}
use storm_byte_buffer.Fifo
use storm_byte_buffer.Fifo.{Fifo}
use storm_byte_buffer.Fifo.Bounds.{
  IsValid, clean-IsValid, seek-IsValid, drop_bytes-IsValid, read_internal-IsValid,
  write_internal-IsValid,
}
use storm_byte_buffer.Fifo.Writing
use storm_byte_buffer.Fifo.Growth.{
  length-clean-le, buffer-seek, length-drop_bytes-le, length-read_internal-le, length-write-le,
}
use storm_byte_buffer.Fifo.Shrink.{available-read_internal-le, available-clean-le}
use storm_byte_buffer.Shared
use storm_byte_buffer.Shared.{
  Shared, Finished, Pending, reading, dropping, Outcome, finished, blocked, ready, resume, wait,
}
use storm_byte_buffer.Shared.Refine.{ready_lem}
use storm_byte_buffer.Monitor.{
  Call, writes, reads, drops, seeks, assigns, cleans, clears, closes, set_errors, start,
}

-- A method that has been refused.
abbrev pub refused : Shared → Finished
refused s = record { shared = s; done = false; out = []; notify = false }

-- A read is refused, or goes through, or waits for what is not there.
pub read_internal_cases :
    (count : ℕ) (flag : Operation) (s : Shared)
    → (Shared.read_internal count flag s ≡ finished (refused s))
      ⊎ ((Shared.read_internal count flag s ≡ finished (resume (reading count flag) s))
          ⊎ ((Shared.read_internal count flag s ≡ blocked count (reading count flag))
              × (ready count s ≡ false)))
unfolding Shared.read_internal wait
read_internal_cases count flag s = ground arith

pub drop_bytes_cases :
    (count : ℕ) (s : Shared)
    → (Shared.drop_bytes count s ≡ finished (resume (dropping count) s))
      ⊎ ((Shared.drop_bytes count s ≡ blocked count (dropping count)) × (ready count s ≡ false))
unfolding Shared.drop_bytes wait
drop_bytes_cases count s = ground arith

-- Arguments that the model's bounds allow.
abbrev pub IsBounded : Call → Type 0
IsBounded (reads count flag) = count ≤ max_size
IsBounded (drops count) = count ≤ max_size
IsBounded (seeks offset mode) = IsPtrdiff offset
IsBounded (assigns other) = IsValid other
IsBounded _ = Unit {0}

abbrev pub IsNotSeek : Call → Type 0
IsNotSeek (seeks offset mode) = ⊥
IsNotSeek _ = Unit {0}

-- The bytes that a call may add.
abbrev pub added : Call → ℕ
added (writes count bytes) = length bytes
added (assigns other) = length other.buffer
added _ = 0

pub record Keeps (room : ℕ) (x : Finished) : Type 0 where
  pub valid : IsValid x.shared.fifo
  pub growth : length x.shared.fifo.buffer ≤ room

-- Without a notification no predicate has come true.
abbrev pub IsCalm : Shared → Finished → Type 0
IsCalm s x =
    x.notify ≡ false → (n : ℕ) → n ≤ max_size → ready n s ≡ false → ready n x.shared ≡ false

abbrev pub Settles : ℕ → Shared → Outcome → Type 0
Settles room s (finished x) = Keeps room x
Settles room s (blocked n p) = (n ≤ max_size) × (ready n s ≡ false)

module _ (room : ℕ) (s : Shared) (v : IsValid s.fifo) (fits : length s.fifo.buffer ≤ room) where
  pub resume-Keeps : (p : Pending) → Keeps room (resume p s)
  unfolding resume
  resume-Keeps (reading count flag) = record {
    valid = read_internal-IsValid count [] flag v;
    growth = omega (arith, length-read_internal-le count [] flag s.fifo);
  }
  resume-Keeps (dropping count) = record {
    valid = drop_bytes-IsValid count v;
    growth = omega (arith, length-drop_bytes-le count s.fifo);
  }

pub resume-IsCalm : (s : Shared) (p : Pending) → IsValid s.fifo → IsCalm s (resume p s)
unfolding resume
resume-IsCalm s (dropping count) v q n small r = cc
resume-IsCalm s (reading count flag) v q n small r = ground (
  arith,
  ready_lem s n v small,
  ready_lem (resume (reading count flag) s).shared n (read_internal-IsValid count [] flag v) small,
  available-read_internal-le count [] flag v,
)

module _ ⦃h : Helpers⦄ (s : Shared) (v : IsValid s.fifo) where
  start-Settles_read :
      (count : ℕ) (flag : Operation)
      → count ≤ max_size
      → Settles (length s.fifo.buffer) s (Shared.read_internal count flag s)
  start-Settles_read count flag small = elim (read_internal_cases count flag s) [
    | inl e ↦
        subst (Settles (length s.fifo.buffer) s) (sym e)
          (record { valid = v; growth = omega arith })
    | inr (inl e) ↦
        subst (Settles (length s.fifo.buffer) s) (sym e)
          (resume-Keeps (length s.fifo.buffer) s v (omega arith) (reading count flag))
    | inr (inr (e, r)) ↦ subst (Settles (length s.fifo.buffer) s) (sym e) (small, r)
  ]

  start-Settles_drop :
      (count : ℕ) → count ≤ max_size → Settles (length s.fifo.buffer) s (Shared.drop_bytes count s)
  start-Settles_drop count small = elim (drop_bytes_cases count s) [
    | inl e ↦
        subst (Settles (length s.fifo.buffer) s) (sym e)
          (resume-Keeps (length s.fifo.buffer) s v (omega arith) (dropping count))
    | inr (e, r) ↦ subst (Settles (length s.fifo.buffer) s) (sym e) (small, r)
  ]

  -- A call that finishes keeps the buffer valid, and one that waits has found its predicate false.
  pub start-Settles :
      (c : Call)
      → IsBounded c
      → length s.fifo.buffer + added c ≤ max_size
      → Settles (length s.fifo.buffer + added c) s (start c s)
  unfolding start Shared.write_internal Shared.seek Shared.assign Shared.clean Shared.clear
      Shared.close Shared.set_error Writing.copy_fifo Fifo.clear Writing.write
  start-Settles (writes count bytes) b fits =
      ground (arith, write_internal-IsValid count bytes v fits, length-write-le count bytes s.fifo)
  start-Settles (reads count flag) b fits =
      subst (λ (n : ℕ). Settles n s (Shared.read_internal count flag s)) (omega arith)
        (start-Settles_read count flag b)
  start-Settles (drops count) b fits =
      subst (λ (n : ℕ). Settles n s (Shared.drop_bytes count s)) (omega arith)
        (start-Settles_drop count b)
  start-Settles (seeks offset mode) b fits =
      ground (arith, seek-IsValid offset mode v, buffer-seek offset mode s.fifo)
  start-Settles (assigns other) b fits = ground arith
  start-Settles cleans b fits = ground (arith, clean-IsValid v, length-clean-le s.fifo)
  start-Settles clears b fits = ground arith
  start-Settles closes b fits = ground arith
  start-Settles set_errors b fits = ground arith

  -- Only a seek can make a predicate true and notify nobody.
  pub start-IsCalm : (c : Call) (x : Finished) → IsNotSeek c → start c s ≡ finished x → IsCalm s x
  unfolding start Shared.write_internal Shared.assign Shared.clean Shared.clear Shared.close
      Shared.set_error
  start-IsCalm (writes count bytes) x b e q n small r = ground arith
  start-IsCalm (reads count flag) x b e q n small r = elim (read_internal_cases count flag s) [
    | inl k ↦ ground arith
    | inr (inl k) ↦
        let same : resume (reading count flag) s ≡ x = cc in
        subst (IsCalm s) same (resume-IsCalm s (reading count flag) v) q n small r
    | inr (inr (k, _)) ↦ cc
  ]
  start-IsCalm (drops count) x b e q n small r = elim (drop_bytes_cases count s) [
    | inl k ↦
        let same : resume (dropping count) s ≡ x = cc in
        subst (IsCalm s) same (resume-IsCalm s (dropping count) v) q n small r
    | inr (k, _) ↦ cc
  ]
  start-IsCalm (seeks offset mode) x b e q n small r = absurd b
  start-IsCalm (assigns other) x b e q n small r = ground arith
  start-IsCalm cleans x b e q n small r =
      ground
        (arith, ready_lem s n v small, ready_lem x.shared n, clean-IsValid v, available-clean-le v)
  start-IsCalm clears x b e q n small r = ground arith
  start-IsCalm closes x b e q n small r = ground arith
  start-IsCalm set_errors x b e q n small r = ground arith
