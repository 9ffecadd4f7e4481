-- ===== src/Base/Lists.antt =====
-- Lists measured and indexed by native numbers, under the library's names.
use Prim.Native.Nat.{ℕ, zero, suc, ◌+◌, ◌-◌, ◌≤◌, ◌<◌}
use mathlib.Core.List.{List, [], ◌∷◌, ◌++◌}
use mathlib.Core.Option.{Option, none, some}
use mathlib.Core.Path.{◌≡◌, refl, ap, ◌∙◌}
use native.Mathlib.Omega.{arith}

module _ {ℓ} {A : Type ℓ} where
  abbrev pub length : List A → ℕ
  length [] = 0
  length (x ∷ xs) = suc (length xs)

  abbrev pub get_elem? : List A → ℕ → Option A
  get_elem? [] i = none
  get_elem? (x ∷ xs) zero = some x
  get_elem? (x ∷ xs) (suc i) = get_elem? xs i

  abbrev pub take : ℕ → List A → List A
  take zero xs = []
  take (suc n) [] = []
  take (suc n) (x ∷ xs) = x ∷ take n xs

  abbrev pub drop : ℕ → List A → List A
  drop zero xs = xs
  drop (suc n) [] = []
  drop (suc n) (x ∷ xs) = drop n xs

  abbrev pub replicate : ℕ → A → List A
  replicate zero item = []
  replicate (suc count) item = item ∷ replicate count item

  -- `slice[lo..hi]`, in range
  abbrev pub slice : List A → ℕ → ℕ → List A
  slice xs lo hi = take (hi - lo) (drop lo xs)

  pub length-append : (xs ys : List A) → length (xs ++ ys) ≡ length xs + length ys
  length-append [] ys = omega arith
  length-append (x ∷ xs) ys = omega (arith, length-append xs ys)

  pub get_elem?-lt : (xs : List A) (i : ℕ) {x : A} → get_elem? xs i ≡ some x → i < length xs
  get_elem?-lt [] i e = cc
  get_elem?-lt (x ∷ xs) zero e = omega arith
  get_elem?-lt (x ∷ xs) (suc i) e = omega (arith, get_elem?-lt xs i e)

  pub get_elem?-le : (xs : List A) (i : ℕ) → get_elem? xs i ≡ none → length xs ≤ i
  get_elem?-le [] i e = omega arith
  get_elem?-le (x ∷ xs) zero e = cc
  get_elem?-le (x ∷ xs) (suc i) e = omega (arith, get_elem?-le xs i e)

  pub get_elem?-none : (xs : List A) (i : ℕ) → length xs ≤ i → get_elem? xs i ≡ none
  get_elem?-none [] i h = refl
  get_elem?-none (x ∷ xs) zero h = absurd (omega arith)
  get_elem?-none (x ∷ xs) (suc i) h = get_elem?-none xs i (omega arith)

  pub get_elem?-of_lt : (xs : List A) (i : ℕ) → i < length xs → (x : A) × (get_elem? xs i ≡ some x)
  get_elem?-of_lt [] i h = absurd (omega arith)
  get_elem?-of_lt (x ∷ xs) zero h = (x, refl)
  get_elem?-of_lt (x ∷ xs) (suc i) h = get_elem?-of_lt xs i (omega arith)

  pub drop-eq-cons :
      (xs : List A) (i : ℕ) {x : A} {r : List A}
      → drop i xs ≡ x ∷ r
      → (get_elem? xs i ≡ some x) × (drop (i + 1) xs ≡ r)
  drop-eq-cons [] zero e = cc
  drop-eq-cons [] (suc i) e = cc
  drop-eq-cons (y ∷ ys) zero e = ground arith
  drop-eq-cons (y ∷ ys) (suc i) e = ground (arith, drop-eq-cons ys i e)

  pub drop-eq-nil : (xs : List A) (i : ℕ) → drop i xs ≡ [] → length xs ≤ i
  drop-eq-nil [] i e = omega arith
  drop-eq-nil (y ∷ ys) zero e = cc
  drop-eq-nil (y ∷ ys) (suc i) e = omega (arith, drop-eq-nil ys i e)

  pub length-take : (xs : List A) (n : ℕ) → n ≤ length xs → length (take n xs) ≡ n
  length-take xs zero h = refl
  length-take [] (suc n) h = absurd (omega arith)
  length-take (x ∷ xs) (suc n) h = ap suc (length-take xs n (omega arith))

  pub length-drop : (xs : List A) (n : ℕ) → length (drop n xs) ≡ length xs - n
  length-drop xs zero = omega arith
  length-drop [] (suc n) = omega arith
  length-drop (x ∷ xs) (suc n) = length-drop xs n ∙ omega arith

  pub length-replicate : (count : ℕ) (item : A) → length (replicate count item) ≡ count
  length-replicate zero item = refl
  length-replicate (suc count) item = ap suc (length-replicate count item)

  pub get_elem?-replicate :
      (count i : ℕ) (item : A) → i < count → get_elem? (replicate count item) i ≡ some item
  get_elem?-replicate zero i item h = absurd (omega arith)
  get_elem?-replicate (suc count) zero item h = refl
  get_elem?-replicate (suc count) (suc i) item h = get_elem?-replicate count i item (omega arith)

-- Each item has the property, as a tuple.
abbrev pub All {ℓ κ} : {Item : Type ℓ} (Holds : Item → Type κ) (items : List Item) → Type κ
All Holds [] = Unit
All Holds (item ∷ items) = Holds item × All Holds items
