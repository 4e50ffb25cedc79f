-- ===== src/Bridge/Life.antt =====
-- A `Bridge` from its first passthrough to its destructor: bridge.hxx and bridge.cxx.
use mathlib.Core.Path.{subst}
use storm_byte_buffer.Prelude.{
  ◌==◌, ℕ, ◌+◌, ◌≤◌, ◌≡◌, refl, sym, ap, ap₂, ◌∙◌, inl, inr, Bool, false, List, [], ◌∷◌, ◌++◌,
  append-nil, append_assoc, Option, some, ◌>>=◌, if◌then◌else◌, length, length-append,
  nil_of_length, max_size, Bool-cases, arith,
}
use storm_byte_buffer.Typedefs.{Data, Helpers}
use storm_byte_buffer.External.{ExternalReader, ExternalWriter}
use storm_byte_buffer.Fifo
use storm_byte_buffer.Bridge.{Bridge, passthrough_write, passthrough, flush}
use storm_byte_buffer.Bridge.Conserve.{Recorder, IsValid, Passed, passthrough_conserves}
use storm_byte_buffer.Bridge.Loss.{flush_lem}

module _ {R W : Type 0} ⦃h : Helpers⦄ (writer : ExternalWriter W) (reader : ExternalReader R) where
  -- A client's passthroughs, each of a number of bytes, and their results.
  unfoldable pub run : List ℕ → Bridge R W → Option (List Bool × Bridge R W)
  run [] b = some ([], b)
  run (count ∷ counts) b =
      passthrough writer reader count b >>= λ x. run counts x.1 >>= λ y. some (x.0 ∷ y.0, y.1)

-- The destructor, by what it leaves of the writer.
unfoldable pub destroy : {R W : Type 0} → ExternalWriter W → Bridge R W → W
destroy writer b = (flush writer b).1.write_handler

-- What the reader gives over those passthroughs. A read that fails gives nothing.
abbrev pub given : {R : Type 0} → ExternalReader R → List ℕ → R → Data
given reader [] r = []
given reader (count ∷ counts) r =
    let (done, out, r') = reader.read count [] r in
    (if done then out else []) ++ given reader counts r'

-- The reader behind those passthroughs.
abbrev pub behind : {R : Type 0} → ExternalReader R → List ℕ → R → R
behind reader [] r = r
behind reader (count ∷ counts) r =
    let (done, out, r') = reader.read count [] r in behind reader counts r'

module _ {R W : Type 0} (r : Recorder W) where
  open r use {writer, log}

  -- All that is pending is taken, or nothing.
  pub flush_takes :
      (b : Bridge R W)
      → IsValid R W b
      → let (done, b') = flush writer b in
        log b'.write_handler
        ≡ (if done then log b.write_handler ++ b.buffer.buffer else log b.write_handler)
  unfolding Fifo.is_empty Fifo.size
  flush_takes b v =
      let lem = flush_lem r b v.unread in
      elim (Bool-cases (length b.buffer.buffer == 0)) [
        | inl e ↦
            let none_left = nil_of_length b.buffer.buffer (ground arith) in
            ground (arith, lem, append-nil (log b.write_handler))
        | inr e ↦ ground (arith, lem)
      ]

module _ {R W : Type 0} ⦃h : Helpers⦄ (r : Recorder W) (reader : ExternalReader R) where
  open r use {writer, log}

  abbrev held : Bridge R W → Data
  held b = log b.write_handler ++ b.buffer.buffer

  -- What a passthrough keeps, whatever it answers.
  abbrev Holds : Bridge R W → Data → R → Option (Bool × Bridge R W) → Type 0
  Holds b bytes source o =
      (ok : Bool) × (b' : Bridge R W) × (o ≡ some (ok, b'))
      × (b'.read_handler ≡ source)
      × (held b' ≡ held b ++ bytes)
      × (length b'.buffer.buffer ≤ length b.buffer.buffer + length bytes)
      × IsValid R W b'

  passthrough-Holds :
      (count : ℕ) (b : Bridge R W)
      → IsValid R W b
      → let (done, out, source) = reader.read count [] b.read_handler in
        length b.buffer.buffer + length (if done then out else []) ≤ max_size
        → let (done, out, source) = reader.read count [] b.read_handler in
          Holds b (if done then out else []) source (passthrough writer reader count b)
  unfolding passthrough
  passthrough-Holds count b v small =
      let (done, out, source) = reader.read count [] b.read_handler in
      elim (Bool-cases done) [
        | inl t ↦
            let started : Bridge R W = record b { read_handler = source } in
            let (ok, b', e, same, p) = passthrough_conserves r reader count b v (
              subst
                (λ (g : Bool). length b.buffer.buffer + length (if g then out else []) ≤ max_size) t
                small) in
            let q : Passed R W r b out ok b' =
              subst
                (λ (g : Bool).
                  if g then Passed R W r b out ok b' else (ok ≡ false) × (b' ≡ started))
                t p in
            rw t (
              ok,
              b',
              subst
                  (λ (g : Bool).
                    (if g then passthrough_write writer out started else some (false, started))
                    ≡ some (ok, b'))
                  t e,
              same,
              q.conserved,
              q.bounded,
              q.valid,
            )
        | inr t ↦ rw t (
          false,
          record b { read_handler = source },
          refl,
          refl,
          sym (append-nil (held b)),
          omega arith,
          record { unread = v.unread; chunks = v.chunks; wide = v.wide },
        )
      ]

  -- The same over all the passthroughs.
  pub run-Holds :
      (counts : List ℕ) (b : Bridge R W)
      → IsValid R W b
      → length b.buffer.buffer + length (given reader counts b.read_handler) ≤ max_size
      → (oks : List Bool) × (b' : Bridge R W) × (run writer reader counts b ≡ some (oks, b'))
        × (held b' ≡ held b ++ given reader counts b.read_handler)
        × (b'.read_handler ≡ behind reader counts b.read_handler)
        × IsValid R W b'
  unfolding run
  run-Holds [] b v small = ([], b, refl, sym (append-nil (held b)), refl, v)
  run-Holds (count ∷ counts) b v small =
      let (done, out, source) = reader.read count [] b.read_handler in
      let bytes : Data = if done then out else [] in
      let rest = given reader counts source in
      let sum = length-append bytes rest in
      let (ok, b', e, same, keeps, bound, valid) = passthrough-Holds count b v (omega arith) in
      let (oks, b'', e', keeps', reader', valid') = run-Holds counts b' valid (
        subst (λ (x : R). length b'.buffer.buffer + length (given reader counts x) ≤ max_size)
          (sym same) (omega arith)) in
      (
        ok ∷ oks,
        b'',
        ap
              (λ (o : Option (Bool × Bridge R W)).
                o >>= λ x. run writer reader counts x.1 >>= λ y. some (x.0 ∷ y.0, y.1))
              e
            ∙ ap (λ (o : Option (List Bool × Bridge R W)). o >>= λ y. some (ok ∷ y.0, y.1)) e',
        keeps'
            ∙ ap₂ (λ (xs : Data) (ys : Data). xs ++ ys) keeps
                (ap (λ (x : R). given reader counts x) same)
            ∙ append_assoc (held b) bytes rest,
        reader' ∙ ap (behind reader counts) same,
        valid',
      )

  -- A bridge with chunks, over any passthroughs and then its destructor, if all that is pending and
  -- all that the reader gives fit into a vector: the passthroughs end, and the
  -- destructor finds what the writer had taken, what was pending, and all that the reader has given,
  -- in this order, partly taken by the writer and the rest pending. If the writer takes its last
  -- write, it has taken exactly these bytes, whether or not it has refused chunks before; if not, it
  -- keeps what it had.
  pub bridge_delivers :
      (counts : List ℕ) (b : Bridge R W)
      → IsValid R W b
      → length b.buffer.buffer + length (given reader counts b.read_handler) ≤ max_size
      → let all = (log b.write_handler ++ b.buffer.buffer) ++ given reader counts b.read_handler in
        (oks : List Bool) × (b' : Bridge R W) × (run writer reader counts b ≡ some (oks, b'))
        × (log b'.write_handler ++ b'.buffer.buffer ≡ all)
        × (log (destroy writer b') ≡ (if (flush writer b').0 then all else log b'.write_handler))
  unfolding destroy
  bridge_delivers counts b v small =
      let (oks, b', e, keeps, _, valid) = run-Holds counts b v small in
      let all = held b ++ given reader counts b.read_handler in
      (
        oks,
        b',
        e,
        keeps,
        subst
            (λ (xs : Data).
              log (flush writer b').1.write_handler
              ≡ (if (flush writer b').0 then xs else log b'.write_handler))
            keeps (flush_takes r b' valid),
      )
