-- ===== src/Prelude/Cells.antt =====
-- Lists read and changed at an index.
use Prim.Native.Nat.{◌+◌, ℕ, zero, suc, ◌<◌}
use mathlib.Core.Path.{◌∙◌, ap, ◌≡◌, refl}
use mathlib.Core.Option.{Option, none, some}
use mathlib.Core.List.{List, [], ◌∷◌, ◌++◌}
use native.Mathlib.Omega.{arith}
use storm_byte_buffer.Prelude.Lists.{length}
use storm_byte_buffer.Prelude.Tests.{◌==◌, if◌then◌else◌}

module _ {ℓ} {A : Type ℓ} where
  abbrev pub get_elem? : List A → ℕ → Option A
  get_elem? [] i = none
  get_elem? (x ∷ xs) zero = some x
  get_elem? (x ∷ xs) (suc i) = get_elem? xs i

  abbrev pub set : ℕ → A → List A → List A
  set i a [] = []
  set zero a (x ∷ xs) = a ∷ xs
  set (suc i) a (x ∷ xs) = x ∷ set i a xs

  pub get_elem?-lt : (xs : List A) (i : ℕ) → i < length xs → (a : A) × (get_elem? xs i ≡ some a)
  get_elem?-lt [] i h = absurd (omega arith)
  get_elem?-lt (x ∷ xs) zero h = (x, refl)
  get_elem?-lt (x ∷ xs) (suc i) h = get_elem?-lt xs i (omega arith)

  pub length-set : (i : ℕ) (a : A) (xs : List A) → length (set i a xs) ≡ length xs
  length-set i a [] = refl
  length-set zero a (x ∷ xs) = refl
  length-set (suc i) a (x ∷ xs) = omega (arith, length-set i a xs)

  -- A list that has an element there.
  pub get_elem?-set :
      (i j : ℕ) (a b : A) (xs : List A)
      → get_elem? xs j ≡ some b
      → get_elem? (set i a xs) j ≡ some (if i == j then a else b)
  get_elem?-set i j a b [] e = ground arith
  get_elem?-set zero zero a b (x ∷ xs) e = ground arith
  get_elem?-set zero (suc j) a b (x ∷ xs) e = ground arith
  get_elem?-set (suc i) zero a b (x ∷ xs) e = ground arith
  get_elem?-set (suc i) (suc j) a b (x ∷ xs) e = ground (arith, get_elem?-set i j a b xs e)

  pub get_elem?-append_right :
      (xs ys : List A) (k : ℕ) → get_elem? (xs ++ ys) (length xs + k) ≡ get_elem? ys k
  get_elem?-append_right [] ys k = let e : 0 + k ≡ k = omega arith in ap (λ i. get_elem? ys i) e
  get_elem?-append_right (x ∷ xs) ys k =
      let e : suc (length xs) + k ≡ suc (length xs + k) = omega arith in
      ap (λ i. get_elem? (x ∷ xs ++ ys) i) e ∙ get_elem?-append_right xs ys k

  pub get_elem?-middle : (xs ys : List A) (y : A) → get_elem? (xs ++ y ∷ ys) (length xs) ≡ some y
  get_elem?-middle [] ys y = refl
  get_elem?-middle (x ∷ xs) ys y = get_elem?-middle xs ys y

  pub get_elem?-append_left :
      (xs ys : List A) (i : ℕ) (a : A) → get_elem? xs i ≡ some a → get_elem? (xs ++ ys) i ≡ some a
  get_elem?-append_left [] ys i a e = ground arith
  get_elem?-append_left (x ∷ xs) ys zero a e = e
  get_elem?-append_left (x ∷ xs) ys (suc i) a e = get_elem?-append_left xs ys i a e
