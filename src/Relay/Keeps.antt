-- ===== src/Relay/Keeps.antt =====
-- What every move of a relay keeps: shared_fifo.cxx and fifo.cxx.
use mathlib.Core.Path.{subst}
use mathlib.Core.List.{map-append}
use storm_byte_buffer.Prelude.{
  ◌+◌, ◌≤◌, ◌≡◌, ◌⊎◌, refl, sym, ap, ◌∙◌, inl, inr, Bool, Bool-cases, true, false, [], ◌∷◌, ◌++◌,
  map, append-nil, length, drop, length-append, max_size, arith,
}
use storm_byte_buffer.Typedefs.{Byte, Data, Operation, Helpers}
use storm_byte_buffer.Shared
use storm_byte_buffer.Shared.{Shared}
use storm_byte_buffer.Shared.UntilEof.{first_call}
use storm_byte_buffer.Monitor.{writes, closes, start}
use storm_byte_buffer.Session.{
  takes, looks, Phase, before, asleep, over, Session, advance, ask, pass, intervene,
}
use storm_byte_buffer.Session.Moves.{is_done_of}
use storm_byte_buffer.Chain.Links.{
  Fed, advance-Fed, intervene-Fed, length-intervene-le, write_next, close_next,
}
use storm_byte_buffer.Relay.{Relay, extract_chunk, test_eof, end, relay}

pub length-map : (g : Byte → Byte) (xs : Data) → length (map g xs) ≡ length xs
length-map g [] = refl
length-map g (x ∷ xs) = omega (arith, length-map g xs)

-- An extraction is a move of the loop of `ExtractUntilEoF`.
pub extract_chunk_lem :
    (m : Session)
    → m.phase ≡ before takes
    → ((extract_chunk m).1 ≡ advance Operation.extract m)
      × (m.out ++ (extract_chunk m).0 ≡ (advance Operation.extract m).out)
      × ((advance Operation.extract m).phase ≡ before looks)
unfolding extract_chunk advance ask pass
extract_chunk_lem m e = ground (arith, first_call Operation.extract m.shared)

pub test_eof-Fed : (w : Data) (m : Session) → Fed w m → Fed w (test_eof m)
unfolding test_eof Shared.eof
test_eof-Fed w m f = record {
  keeps = record {
    valid = f.keeps.valid;
    growth = f.keeps.growth;
    phased = ground arith;
    ended = λ e. ground (arith, is_done_of m.shared f.keeps.valid);
    told = λ e. ground arith;
  };
  all = f.all;
}

-- What the stage has passed on, `v`, and holds are the bytes that it has got, unless its output failed.
abbrev pub Passed : (Byte → Byte) → Data → Relay → Type 0
Passed g v r = (v ++ map g r.held ≡ map g r.input.out) ⊎ (r.output.shared.error ≡ true)

-- The loop does not sleep.
abbrev pub IsAwake : Phase → Type 0
IsAwake (asleep turn n p) = ⊥
IsAwake _ = Unit {0}

-- A relay, when `w` has been put into its input.
pub record IsRelay (g : Byte → Byte) (w : Data) (r : Relay) : Type 0 where
  pub fed : Fed w r.input
  pub sent : Data
  pub told : Fed sent r.output
  pub passed : Passed g sent r
  pub room : length r.output.shared.fifo.buffer + length r.held ≤ length r.input.out
  pub unshut : r.shut ≡ false → r.output.shared.closed ≡ false
  pub ended :
      r.shut ≡ true → (r.input.phase ≡ over) × (r.held ≡ []) × (r.output.shared.closed ≡ true)
  pub awake : IsAwake r.input.phase

pub length-out-le : (w : Data) (m : Session) → Fed w m → length m.out ≤ length w
length-out-le w m f = omega (
  arith,
  length-append m.out (drop m.shared.fifo.position_offset m.shared.fifo.buffer),
  ap (λ (ys : Data). length ys) f.all,
)

-- With nothing held all has been passed on.
pub passed_all :
    (g : Byte → Byte) (v held out : Data) → held ≡ [] → v ++ map g held ≡ map g out → v ≡ map g out
passed_all g v held out e a = sym (append-nil v) ∙ ap (λ (ys : Data). v ++ map g ys) (sym e) ∙ a

module _ ⦃h : Helpers⦄ where
  pub write-error :
      (bytes : Data) (m : Session)
      → m.shared.error ≡ true
      → (intervene (writes (length bytes) bytes) m).1.shared.error ≡ true
  unfolding intervene start Shared.write_internal
  write-error bytes m e = ground arith

module _ ⦃h : Helpers⦄ (g : Byte → Byte) (w : Data) (fits : length w ≤ max_size) where
  write-IsRelay :
      (x : Byte) (xs : Data) (p : Phase) (r : Relay)
      → r.held ≡ x ∷ xs
      → IsRelay g w r
      → IsRelay g w (relay g (x ∷ xs) p r)
  unfolding relay
  write-IsRelay x xs p r e k =
      let bytes = map g (x ∷ xs) in
      let got = length-out-le w r.input k.fed in
      let small : length r.output.shared.fifo.buffer + length bytes ≤ length r.input.out =
        omega (arith, k.room, length-map g (x ∷ xs), ap (λ (ys : Data). length ys) e) in
      let put = (intervene (writes (length bytes) bytes) r.output).0 in
      let open_yet : r.output.shared.closed ≡ false = elim (Bool-cases r.shut) [
        | inl is ↦ absurd (cc (e, (k.ended is).1))
        | inr not_yet ↦ k.unshut not_yet
      ] in
      let (arrived, open_still) = write_next bytes r.output open_yet in
      record {
        fed = k.fed;
        sent = k.sent ++ put;
        told = intervene-Fed (writes (length bytes) bytes) k.sent r.output tt k.told (omega arith);
        passed = elim k.passed [
          | inr bad ↦ inr (write-error bytes r.output bad)
          | inl a ↦ elim arrived [
            | inr bad ↦ inr bad
            | inl all ↦ inl (
                append-nil (k.sent ++ put)
                ∙ ap (λ (ys : Data). k.sent ++ ys) all
                ∙ ap (λ (ys : Data). k.sent ++ map g ys) (sym e)
                ∙ a)
          ]
        ];
        room = omega (
          arith,
          small,
          length-intervene-le (writes (length bytes) bytes) k.sent r.output tt k.told (omega arith),
        );
        unshut = λ _. open_still;
        ended = λ is. absurd (cc (e, (k.ended is).1));
        awake = k.awake;
      }

  take-IsRelay :
      (r : Relay)
      → r.held ≡ []
      → r.input.phase ≡ before takes
      → IsRelay g w r
      → IsRelay g w (relay g [] (before takes) r)
  unfolding relay
  take-IsRelay r e p k =
      let chunk = (extract_chunk r.input).0 in
      let (same, got, next) = extract_chunk_lem r.input p in
      let out : (extract_chunk r.input).1.out ≡ r.input.out ++ chunk =
        ap (λ (m : Session). m.out) same ∙ sym got in
      record {
        fed =
            subst (Fed w) (sym same)
              (advance-Fed Operation.extract w r.input (λ x. absurd (cc x)) k.fed).0;
        sent = k.sent;
        told = k.told;
        passed = elim k.passed [
          | inr bad ↦ inr bad
          | inl a ↦ inl (
              ap (λ (ys : Data). ys ++ map g chunk) (passed_all g k.sent r.held r.input.out e a)
              ∙ sym (map-append g r.input.out chunk)
              ∙ ap (map g) (sym out))
        ];
        room = omega (
          arith,
          k.room,
          length-append r.input.out chunk,
          ap (λ (ys : Data). length ys) out,
          ap (λ (ys : Data). length ys) e,
        );
        unshut = k.unshut;
        ended = λ is. absurd (cc (p, (k.ended is).0));
        awake = subst IsAwake (sym (ap (λ (m : Session). m.phase) same ∙ next)) tt;
      }

  shut-IsRelay :
      (shut : Bool) (r : Relay)
      → r.shut ≡ shut
      → r.held ≡ []
      → r.input.phase ≡ over
      → IsRelay g w r
      → IsRelay g w (end g shut r)
  unfolding end
  shut-IsRelay true r is e o k = k
  shut-IsRelay false r is e o k =
      let (none_put, closed, error) = close_next r.output in
      let told =
        subst (λ (ys : Data). Fed ys (intervene closes r.output).1)
          (ap (λ (ys : Data). k.sent ++ ys) none_put ∙ append-nil k.sent)
          (intervene-Fed closes k.sent r.output tt k.told
            (omega (arith, k.told.keeps.valid.small))) in
      record {
        fed = k.fed;
        sent = k.sent;
        told = told;
        passed = elim k.passed [ inl a ↦ inl a | inr bad ↦ inr (error bad) ];
        room = omega (
          arith,
          k.room,
          length-intervene-le closes k.sent r.output tt k.told
              (omega (arith, k.told.keeps.valid.small)),
        );
        unshut = λ x. absurd (cc x);
        ended = λ _. (o, e, closed);
        awake = k.awake;
      }

  pub relay-IsRelay :
      (held : Data) (p : Phase) (r : Relay)
      → r.held ≡ held
      → r.input.phase ≡ p
      → IsRelay g w r
      → IsRelay g w (relay g held p r)
  unfolding relay test_eof
  relay-IsRelay (x ∷ xs) p r e o k = write-IsRelay x xs p r e k
  relay-IsRelay [] (before takes) r e o k = take-IsRelay r e o k
  relay-IsRelay [] (before looks) r e o k = record {
    fed = test_eof-Fed w r.input k.fed;
    sent = k.sent;
    told = k.told;
    passed = k.passed;
    room = k.room;
    unshut = k.unshut;
    ended = λ is. absurd (cc (o, (k.ended is).0));
    awake = ground arith;
  }
  relay-IsRelay [] (asleep turn n q) r e o k = k
  relay-IsRelay [] over r e o k = shut-IsRelay r.shut r refl e o k

  pub length-relay-le :
      (held : Data) (p : Phase) (r : Relay)
      → r.input.phase ≡ p
      → IsRelay g w r
      → length (relay g held p r).input.shared.fifo.buffer ≤ length r.input.shared.fifo.buffer
  unfolding relay test_eof end
  length-relay-le (x ∷ xs) p r o k = omega arith
  length-relay-le [] (before takes) r o k = omega (
    arith,
    ap (λ (m : Session). length m.shared.fifo.buffer) (extract_chunk_lem r.input o).0,
    (advance-Fed Operation.extract w r.input (λ x. absurd (cc x)) k.fed).1.length_le,
  )
  length-relay-le [] (before looks) r o k = omega arith
  length-relay-le [] (asleep turn n q) r o k = omega arith
  length-relay-le [] over r o k = ground arith
