-- ===== src/Bridge/Conserve.antt =====
-- The bytes of a reader, of a `Bridge` and of its writer over one passthrough: bridge.cxx.
use mathlib.Core.Path.{subst}
use storm_byte_buffer.Prelude.{
  length-append, ℕ, zero, suc, ◌+◌, ◌*◌, ◌/◌, ◌≤◌, ◌<◌, ◌≡◌, refl, sym, ap, ◌∙◌, inl, inr, Bool,
  true, false, [], ◌++◌, append-nil, append_assoc, some, if◌then◌else◌, length, take, drop,
  size_mod, max_size, take-add, take-append-drop, length-drop, Bool-cases, arith,
}
use storm_byte_buffer.Typedefs.{Data, Helpers}
use storm_byte_buffer.External.{ExternalReader, ExternalWriter}
use storm_byte_buffer.Fifo.{holding}
use storm_byte_buffer.Bridge.{Bridge, passthrough_write, passthrough}
use storm_byte_buffer.Bridge.Passthrough.{passthrough_write_lem}
use storm_byte_buffer.Bridge.Chunks.{blocks, full_chunks, feed}

-- A writer that tells what it has taken: all of a chunk, or nothing.
pub record Recorder (W : Type 0) : Type 0 where
  pub writer : ExternalWriter W
  pub log : W → Data
  pub log-write :
      (c : Data) (w : W)
      → let (done, w') = writer.write c w in log w' ≡ (if done then log w ++ c else log w)

module _ {W : Type 0} (r : Recorder W) where
  open r use {writer, log, log-write}

  -- Fed with `m` blocks, a recorder logs those that it took, and takes all if it refuses none.
  record Fed (m n : ℕ) (xs : Data) (w : W) (out : Bool × ℕ × W) : Type 0 where
    logged : log out.2 ≡ log w ++ take (out.1 * n) xs
    all : out.0 ≡ true → out.1 ≡ m
    some_left : out.0 ≡ false → out.1 < m

  Fed-cons :
      (m n k : ℕ) (xs : Data) (w w' w'' : W) (b : Bool)
      → log w' ≡ log w ++ take n xs
      → Fed m n (drop n xs) w' (b, k, w'')
      → Fed (suc m) n xs w (b, k + 1, w'')
  Fed-cons m n k xs w w' w'' b e f = record {
    logged =
        f.logged
        ∙ ap (λ (d : Data). d ++ take (k * n) (drop n xs)) e
        ∙ append_assoc (log w) (take n xs) (take (k * n) (drop n xs))
        ∙ ap (λ (d : Data). log w ++ d) (sym (take-add n (k * n) ((k + 1) * n) xs (omega arith)));
    all = λ t. omega (arith, f.all t);
    some_left = λ t. omega (arith, f.some_left t);
  }

  Fed-feed : (m n : ℕ) (xs : Data) (w : W) → Fed m n xs w (feed writer (blocks m n xs) w)
  unfolding feed
  Fed-feed zero n xs w = record {
    logged = ground (arith, append-nil (log w));
    all = λ t. refl;
    some_left = λ t. cc;
  }
  Fed-feed (suc m) n xs w =
      let (done, w') = writer.write (take n xs) w in
      let rest = feed writer (blocks m n (drop n xs)) w' in
      let logged = log-write (take n xs) w in
      elim (Bool-cases done) [
        | inl e ↦
            subst (Fed (suc m) n xs w)
              (sym
                (ap (λ (b : Bool). if b then (rest.0, rest.1 + 1, rest.2) else (false, 0, w')) e))
              (Fed-cons m n rest.1 xs w w' rest.2 rest.0
                (logged ∙ ap (λ (b : Bool). if b then log w ++ take n xs else log w) e)
                (Fed-feed m n (drop n xs) w'))
        | inr e ↦
            subst (Fed (suc m) n xs w)
              (sym
                (ap (λ (b : Bool). if b then (rest.0, rest.1 + 1, rest.2) else (false, 0, w')) e))
              (record {
                logged =
                    logged
                    ∙ ap (λ (b : Bool). if b then log w ++ take n xs else log w) e
                    ∙ ground (arith, append-nil (log w));
                all = λ t. cc;
                some_left = λ t. omega arith;
              })
      ]

-- The state that every call of a bridge leaves: nothing of the buffer has been read.
pub record IsValid (R W : Type 0) (b : Bridge R W) : Type 0 where
  pub unread : b.buffer.position_offset ≡ 0
  pub chunks : 0 < b.chunk_size
  pub wide : b.chunk_size < size_mod

-- What is told apart by whether the writer took all the full chunks.
pub record Passed (R W : Type 0) (r : Recorder W) (b : Bridge R W) (bytes : Data) (done : Bool)
    (b' : Bridge R W) : Type 0 where
  pub conserved :
      r.log b'.write_handler ++ b'.buffer.buffer
      ≡ (r.log b.write_handler ++ b.buffer.buffer) ++ bytes
  pub tail : done ≡ true → length b'.buffer.buffer < b.chunk_size
  pub kept : done ≡ false → b.chunk_size ≤ length b'.buffer.buffer
  pub bounded : length b'.buffer.buffer ≤ length b.buffer.buffer + length bytes
  pub valid : IsValid R W b'

div_bounds : (m n : ℕ) → 0 < n → (m / n * n ≤ m) × (m < m / n * n + n)
div_bounds m n p = grind arith

mul_below : (k m n : ℕ) → k < m → k * n + n ≤ m * n
mul_below k m n h = grind arith

module _ {R W : Type 0} ⦃h : Helpers⦄ (r : Recorder W) where
  open r use {writer, log}

  passthrough_write-Passed :
      (bytes : Data) (b : Bridge R W)
      → IsValid R W b
      → length b.buffer.buffer + length bytes ≤ max_size
      → (done : Bool) × (b' : Bridge R W) × (passthrough_write writer bytes b ≡ some (done, b'))
        × (b'.read_handler ≡ b.read_handler)
        × Passed R W r b bytes done b'
  unfolding holding
  passthrough_write-Passed bytes b v small =
      let combined : Data = b.buffer.buffer ++ bytes in
      let n = b.chunk_size in
      let out = feed writer (full_chunks n combined) b.write_handler in
      let fed = Fed-feed r (length combined / n) n combined b.write_handler in
      let kept = out.1 * n in
      let b' : Bridge R W = record b {
        buffer = holding (drop kept combined);
        write_handler = out.2;
      } in
      (
        out.0,
        b',
        passthrough_write_lem writer bytes b v.chunks v.wide small,
        refl,
        record {
          conserved =
              ap (λ (d : Data). d ++ drop kept combined) fed.logged
              ∙ append_assoc (log b.write_handler) (take kept combined) (drop kept combined)
              ∙ ap (λ (d : Data). log b.write_handler ++ d) (take-append-drop kept combined)
              ∙ sym (append_assoc (log b.write_handler) b.buffer.buffer bytes);
          tail = λ t. omega (
            arith,
            length-drop kept combined,
            ap (λ (k : ℕ). k * n) (fed.all t),
            div_bounds (length combined) n v.chunks,
          );
          kept = λ t. omega (
            arith,
            length-drop kept combined,
            mul_below out.1 (length combined / n) n (fed.some_left t),
            div_bounds (length combined) n v.chunks,
          );
          bounded = omega (arith, length-drop kept combined, length-append b.buffer.buffer bytes);
          valid = record { unread = refl; chunks = v.chunks; wide = v.wide };
        },
      )

  -- A passthrough of a bridge with chunks always ends. It keeps every byte: what the writer had
  -- taken, what was pending and what the reader has given are what the writer has taken and what is
  -- pending now, in this order. If it succeeds less than a chunk is pending; if the reader refuses,
  -- only the reader has changed; if the writer refuses, the refused chunk is still pending.
  pub passthrough_conserves :
      (reader : ExternalReader R) (count : ℕ) (b : Bridge R W)
      → IsValid R W b
      → length b.buffer.buffer + length (reader.read count [] b.read_handler).1 ≤ max_size
      → let (given, out, source) = reader.read count [] b.read_handler in
        (done : Bool) × (b' : Bridge R W) × (passthrough writer reader count b ≡ some (done, b'))
        × (b'.read_handler ≡ source)
        × (if given
            then Passed R W r b out done b'
            else (done ≡ false) × (b' ≡ record b { read_handler = source }))
  unfolding passthrough
  passthrough_conserves reader count b v small =
      let (given, out, source) = reader.read count [] b.read_handler in
      let started : Bridge R W = record b { read_handler = source } in
      let (done, b', e, same, p) =
        passthrough_write-Passed out started
          (record { unread = v.unread; chunks = v.chunks; wide = v.wide }) small in
      elim (Bool-cases given) [
        | inl t ↦ (
          done,
          b',
          ap
                (λ (g : Bool).
                  if g then passthrough_write writer out started else some (false, started))
                t
              ∙ e,
          same,
          rw t (record {
            conserved = p.conserved;
            tail = p.tail;
            kept = p.kept;
            bounded = p.bounded;
            valid = p.valid;
          }),
        )
        | inr t ↦ (
          false,
          started,
          ap
              (λ (g : Bool).
                if g then passthrough_write writer out started else some (false, started))
              t,
          refl,
          rw t (refl, refl),
        )
      ]
