-- ===== src/Chain/Turns.antt =====
-- Moves of stages in a row, in an order that brings them to their end one after the other: the row
-- may be any that is modelled of pipeline.cxx.
use mathlib.Core.Path.{subst}
use storm_byte_buffer.Prelude.{
  ℕ, zero, suc, ◌-◌, ◌≡◌, refl, ap, ◌∙◌, List, [], ◌∷◌, ◌++◌, map, arith,
}
use storm_byte_buffer.Session.{Session}

abbrev pub zeros : ℕ → List ℕ
zeros zero = []
zeros (suc n) = zero ∷ zeros n

-- So many moves for each of `n` stages, in order, and three for the last reader.
abbrev pub settle : ℕ → ℕ → List ℕ
settle each zero = zeros 3
settle each (suc n) = zeros each ++ map suc (settle each n)

-- `work` moves the stage at a place.
module _ {A : Type 0} (work : ℕ → List A → Session → List A × Session) where
  unfoldable pub turns : List ℕ → List A → Session → List A × Session
  turns [] xs last = (xs, last)
  turns (k ∷ ks) xs last = let (xs', last') = work k xs last in turns ks xs' last'

  turns-append :
      (ks js : List ℕ) (xs : List A) (last : Session)
      → turns (ks ++ js) xs last ≡ turns js (turns ks xs last).0 (turns ks xs last).1
  unfolding turns
  turns-append [] js xs last = refl
  turns-append (k ∷ ks) js xs last = turns-append ks js (work k xs last).0 (work k xs last).1

  -- What the moves of the first stage bring down.
  pub turns-zeros :
      (nears : ℕ → List A × Session → Type 0)
      → ((n : ℕ) (xs : List A) (last : Session)
          → nears n (xs, last)
          → nears (n - 1) (work 0 xs last))
      → (j n : ℕ) (xs : List A) (last : Session) → nears n (xs, last)
      → nears (n - j) (turns (zeros j) xs last)
  unfolding turns
  turns-zeros nears down zero n xs last k = subst (λ (i : ℕ). nears i (xs, last)) (omega arith) k
  turns-zeros nears down (suc j) n xs last k =
      let (xs', last') = work 0 xs last in
      subst (λ (i : ℕ). nears i (turns (zeros j) xs' last')) (omega arith)
        (turns-zeros nears down j (n - 1) xs' last' (down n xs last k))

  -- A function of the stages that no move changes.
  pub kept-turns :
      {B : Type 0} (f : List A → B)
      → ((k : ℕ) (xs : List A) (last : Session) → f (work k xs last).0 ≡ f xs)
      → (ks : List ℕ) (xs : List A) (last : Session) → f (turns ks xs last).0 ≡ f xs
  unfolding turns
  kept-turns f same [] xs last = refl
  kept-turns f same (k ∷ ks) xs last =
      kept-turns f same ks (work k xs last).0 (work k xs last).1 ∙ same k xs last

  -- A move behind the first stage is one of the others.
  module _
      (behind : (k : ℕ) (a : A) (xs : List A) (last : Session)
        → work (suc k) (a ∷ xs) last ≡ (a ∷ (work k xs last).0, (work k xs last).1)) where
    turns_later :
        (ks : List ℕ) (a : A) (xs : List A) (last : Session)
        → turns (map suc ks) (a ∷ xs) last ≡ (a ∷ (turns ks xs last).0, (turns ks xs last).1)
    unfolding turns
    turns_later [] a xs last = refl
    turns_later (k ∷ ks) a xs last =
        ap (λ (s : List A × Session). turns (map suc ks) s.0 s.1) (behind k a xs last)
        ∙ turns_later ks a (work k xs last).0 (work k xs last).1

    -- When the first stage has made its moves, the others make theirs.
    pub turns-settle :
        (each n : ℕ) (a : A) (xs rest : List A) (last : Session)
        → (turns (zeros each) xs last).0 ≡ a ∷ rest
        → (turns (settle each (suc n)) xs last).1
          ≡ (turns (settle each n) rest (turns (zeros each) xs last).1).1
    turns-settle each n a xs rest last e =
        let (xs', last') = turns (zeros each) xs last in
        ap (λ (s : List A × Session). s.1)
          (turns-append (zeros each) (map suc (settle each n)) xs last
            ∙ ap (λ (ys : List A). turns (map suc (settle each n)) ys last') e
            ∙ turns_later (settle each n) a rest last')
