-- ===== src/Bridge/Chunks.antt =====
-- The full chunks that the loop of `Bridge::PassthroughWrite` hands to the writer: bridge.cxx.
use storm_byte_buffer.Prelude.{
  ℕ, zero, suc, ◌+◌, ◌-◌, ◌*◌, ◌/◌, ◌≤◌, ◌<◌, ◌≡◌, refl, sym, ap, ◌∙◌, Bool, true, false, List, [],
  ◌∷◌, some, if◌then◌else◌, length, take, drop, add_size, size_mod, max_size, drop-add, length-drop,
  arith,
}
use native.Mathlib.Decide.{dec_le}
use storm_byte_buffer.Typedefs.{Data}
use storm_byte_buffer.External.{ExternalWriter}
use storm_byte_buffer.Bridge.{write_chunks}

-- The first `k` blocks of `n` bytes.
abbrev pub blocks : ℕ → ℕ → Data → List Data
blocks zero n xs = []
blocks (suc k) n xs = take n xs ∷ blocks k n (drop n xs)

abbrev pub full_chunks : ℕ → Data → List Data
full_chunks n xs = blocks (length xs / n) n xs

-- Handing a list of chunks to a writer until it refuses one: whether it took them all, how many it
-- took, and the writer.
unfoldable pub feed : {W : Type 0} → ExternalWriter W → List Data → W → Bool × ℕ × W
feed writer [] w = (true, 0, w)
feed writer (c ∷ cs) w =
    let (done, w') = writer.write c w in
    let (all, n, w'') = feed writer cs w' in if done then (all, n + 1, w'') else (false, 0, w')

div_small : (m n : ℕ) → m < n → m / n ≡ 0
div_small m n h = grind arith

div_step : (m n : ℕ) → 0 < n → n ≤ m → m / n ≡ suc ((m - n) / n)
div_step m n p h = grind arith

full_chunks_short : (n : ℕ) (xs : Data) → length xs < n → full_chunks n xs ≡ []
full_chunks_short n xs h = ap (λ k. blocks k n xs) (div_small (length xs) n h)

full_chunks_long :
    (n : ℕ) (xs : Data)
    → 0 < n
    → n ≤ length xs
    → full_chunks n xs ≡ take n xs ∷ full_chunks n (drop n xs)
full_chunks_long n xs p h =
    ap (λ k. blocks k n xs) (div_step (length xs) n p h)
    ∙ ap (λ (m : ℕ). take n xs ∷ blocks (m / n) n (drop n xs)) (sym (length-drop n xs))

module _ {W : Type 0} (writer : ExternalWriter W) where
  -- What the loop leaves when it starts at `position`.
  abbrev pub chunked : ℕ → Data → ℕ → W → Bool × ℕ × W
  chunked n rest position w =
      let (all, k, w') = feed writer (full_chunks n rest) w in (all, position + k * n, w')

  chunked_short :
      (n : ℕ) (rest : Data) (position : ℕ) (w : W)
      → length rest < n
      → chunked n rest position w ≡ (true, position, w)
  unfolding feed
  chunked_short n rest position w h =
      ap (λ (cs : List Data). let (all, k, w') = feed writer cs w in (all, position + k * n, w'))
        (full_chunks_short n rest h)
      ∙ ground arith

  pub feed-cons :
      (c : Data) (cs : List Data) (w : W)
      → let (done, w') = writer.write c w in
        let (all, n, w'') = feed writer cs w' in
        feed writer (c ∷ cs) w ≡ (if done then (all, n + 1, w'') else (false, 0, w'))
  unfolding feed
  feed-cons c cs w = refl

  chunked_long :
      (n : ℕ) (rest : Data) (position : ℕ) (w : W)
      → 0 < n
      → n ≤ length rest
      → let (done, w') = writer.write (take n rest) w in
        chunked n rest position w
        ≡ (if done then chunked n (drop n rest) (position + n) w' else (false, position, w'))
  chunked_long n rest position w p h =
      ap (λ (cs : List Data). let (all, k, w') = feed writer cs w in (all, position + k * n, w'))
        (full_chunks_long n rest p h)
      ∙ ground (
        arith,
        feed-cons (take n rest) (full_chunks n (drop n rest)) w,
        step (feed writer (full_chunks n (drop n rest)) (writer.write (take n rest) w).1).1,
      )
    where
      step : (k : ℕ) → position + (k + 1) * n ≡ (position + n) + k * n
      step k = omega arith

  -- From any position the loop ends within the fuel, having fed the full chunks behind it.
  pub write_chunks_lem :
      (fuel n : ℕ) (combined : Data) (position : ℕ) (w : W)
      → 0 < n
      → position ≤ length combined
      → length combined ≤ max_size
      → position + n < size_mod
      → length combined < fuel + position
      → write_chunks writer fuel n combined position w
        ≡ some (chunked n (drop position combined) position w)
  unfolding write_chunks
  write_chunks_lem zero n combined position w p inside small wide enough = absurd (omega arith)
  write_chunks_lem (suc fuel) n combined position w p inside small wide enough =
      let rest = drop position combined in
      let left : length rest ≡ length combined - position = length-drop position combined in
      let e : add_size position n ≡ position + n = omega arith in
      elim (dec_le (position + n) (length combined)) [
        | yes fits ↦ ground (
          arith,
          chunked_long n rest position w,
          drop-add position n (position + n) combined,
          write_chunks_lem fuel n combined (position + n) (writer.write (take n rest) w).1,
        )
        | no over ↦ ground (arith, chunked_short n rest position w)
      ]
