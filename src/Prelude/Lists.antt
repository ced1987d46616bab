-- ===== src/Prelude/Lists.antt =====
-- Lists measured and indexed by native numbers.
use Prim.Native.Nat.{ℕ, zero, suc, ◌+◌, ◌≤◌}
use mathlib.Core.Path.{◌≡◌, refl, ap, sym, ◌∙◌}
use mathlib.Core.Bool.{Bool, true, false, ◌&&◌, ◌||◌}
use mathlib.Core.List.{List, [], ◌∷◌, ◌++◌, append_assoc}
use mathlib.Core.Option.{Option, none, some}
use native.Mathlib.Omega.{arith}

module _ {ℓ} {A : Type ℓ} where
  abbrev pub length : List A → ℕ
  length [] = 0
  length (x ∷ xs) = suc (length xs)

  abbrev pub get_elem? : List A → ℕ → Option A
  get_elem? [] i = none
  get_elem? (x ∷ xs) zero = some x
  get_elem? (x ∷ xs) (suc i) = get_elem? xs i

  -- A write out of bounds changes nothing.
  abbrev pub set : List A → ℕ → A → List A
  set [] i v = []
  set (x ∷ xs) zero v = v ∷ xs
  set (x ∷ xs) (suc i) v = x ∷ set xs i v

  abbrev pub take : ℕ → List A → List A
  take zero xs = []
  take (suc n) [] = []
  take (suc n) (x ∷ xs) = x ∷ take n xs

  abbrev pub all : (A → Bool) → List A → Bool
  all p [] = true
  all p (x ∷ xs) = p x && all p xs

  abbrev pub any : (A → Bool) → List A → Bool
  any p [] = false
  any p (x ∷ xs) = p x || any p xs

  abbrev pub last? : List A → Option A
  last? [] = none
  last? (x ∷ []) = some x
  last? (x ∷ y ∷ xs) = last? (y ∷ xs)

  pub length-append : (xs ys : List A) → length (xs ++ ys) ≡ length xs + length ys
  length-append [] ys = omega arith
  length-append (x ∷ xs) ys = omega (arith, length-append xs ys)

module _ {ℓ κ} {A : Type ℓ} where
  -- A predicate that holds of every element; it computes to a tuple.
  abbrev pub All : (A → Type κ) → List A → Type κ
  All P [] = Unit
  All P (x ∷ xs) = P x × All P xs

module _ {ℓ} {A : Type ℓ} where
  pub get_elem?-length : (xs : List A) → get_elem? xs (length xs) ≡ none
  get_elem?-length [] = refl
  get_elem?-length (x ∷ xs) = get_elem?-length xs

  abbrev pub drop : ℕ → List A → List A
  drop zero xs = xs
  drop (suc n) [] = []
  drop (suc n) (x ∷ xs) = drop n xs

  pub drop-eq-cons :
      (n : ℕ) (xs : List A) (y : A) (ys : List A)
      → drop n xs ≡ y ∷ ys
      → (get_elem? xs n ≡ some y) × (length xs ≡ n + suc (length ys)) × (drop (suc n) xs ≡ ys)
  drop-eq-cons zero [] y ys e = cc
  drop-eq-cons (suc n) [] y ys e = cc
  drop-eq-cons zero (x ∷ xs) y ys e = (ground arith, ground arith, ground arith)
  drop-eq-cons (suc n) (x ∷ xs) y ys e =
      let (at, len, rest) = drop-eq-cons n xs y ys e in (at, omega arith, rest)

  pub get_elem?-Returns :
      (xs : List A) (i : ℕ) → suc i ≤ length xs → (a : A) × (get_elem? xs i ≡ some a)
  get_elem?-Returns [] i h = absurd (omega arith)
  get_elem?-Returns (x ∷ xs) zero h = (x, refl)
  get_elem?-Returns (x ∷ xs) (suc i) h = get_elem?-Returns xs i (omega arith)

  -- The value stands in the list.
  abbrev pub Has : A → List A → Type ℓ
  Has p xs = (n : ℕ) × (get_elem? xs n ≡ some p)

  pub Has-append : (p : A) (xs ys : List A) → Has p xs → Has p (xs ++ ys)
  Has-append p [] ys (n, e) = cc
  Has-append p (x ∷ xs) ys (zero, e) = (zero, e)
  Has-append p (x ∷ xs) ys (suc n, e) = let (m, f) = Has-append p xs ys (n, e) in (suc m, f)

  pub Has-append_last : (p : A) (xs : List A) → Has p (xs ++ p ∷ [])
  Has-append_last p [] = (zero, refl)
  Has-append_last p (x ∷ xs) = let (m, f) = Has-append_last p xs in (suc m, f)

  pub get_elem?-set :
      (xs : List A) (i : ℕ) (x v : A) → get_elem? xs i ≡ some x → get_elem? (set xs i v) i ≡ some v
  get_elem?-set [] i x v e = cc
  get_elem?-set (y ∷ xs) zero x v e = refl
  get_elem?-set (y ∷ xs) (suc i) x v e = get_elem?-set xs i x v e

  pub set-set : (xs : List A) (i : ℕ) (v w : A) → set (set xs i v) i w ≡ set xs i w
  set-set [] i v w = refl
  set-set (x ∷ xs) zero v w = refl
  set-set (x ∷ xs) (suc i) v w = ap (λ r. x ∷ r) (set-set xs i v w)

module _ {ℓ} {A : Type ℓ} where
  -- vs.concat()
  abbrev pub concat : List (List A) → List A
  concat [] = []
  concat (xs ∷ xss) = xs ++ concat xss

  pub concat-append : (xss yss : List (List A)) → concat (xss ++ yss) ≡ concat xss ++ concat yss
  concat-append [] yss = refl
  concat-append (xs ∷ xss) yss =
      ap (λ r. xs ++ r) (concat-append xss yss) ∙ sym (append_assoc xs (concat xss) (concat yss))
