-- ===== src/Prelude/Dict.antt =====
-- `HashMap<K, V>` of the Rust standard library: an association list. The order in which a map is
-- iterated over is not promised by Rust; `entries` gives one such order. Clients have the laws.
use Prim.Native.Nat.{ℕ}
use mathlib.Core.Path.{◌≡◌, refl}
use mathlib.Core.Logic.{inl, inr}
use mathlib.Core.Option
use mathlib.Core.Bool.{false}
use mathlib.Core.Option.{Option, none, some}
use mathlib.Core.List.{List, [], ◌∷◌, map}
use native.Mathlib.Omega.{arith}
use inf_splitter.Prelude.Tests.{HashKey, Option-cases, if◌then◌else◌, ◌==◌}
use inf_splitter.Prelude.Lists.{All, length}

module _ {ℓ κ} {K : Type ℓ} {V : Type κ} ⦃e : HashKey K⦄ where
  unfoldable pub lookup : K → List (K × V) → Option V
  lookup k [] = none
  lookup k ((j, v) ∷ m) = if j == k then some v else lookup k m

  unfoldable pub without : K → List (K × V) → List (K × V)
  without k [] = []
  without k ((j, v) ∷ m) = let rest = without k m in if j == k then rest else (j, v) ∷ rest

  -- an insertion keeps the place of a key that is there
  unfoldable pub put : K → V → List (K × V) → List (K × V)
  put k v [] = (k, v) ∷ []
  put k v ((j, w) ∷ m) = if j == k then (k, v) ∷ m else (j, w) ∷ put k v m

  pub lookup-without :
      (k j : K) (m : List (K × V)) → lookup j (without k m) ≡ (if k == j then none else lookup j m)
  unfolding lookup without
  lookup-without k j [] = ground arith
  lookup-without k j ((i, v) ∷ m) =
      ground (arith, lookup-without k j m, e.agrees i k, e.agrees i j, e.agrees k j)

  pub lookup-put :
      (k j : K) (v : V) (m : List (K × V))
      → lookup j (put k v m) ≡ (if k == j then some v else lookup j m)
  unfolding lookup put
  lookup-put k j v [] = refl
  lookup-put k j v ((i, w) ∷ m) =
      ground (arith, lookup-put k j v m, e.agrees i k, e.agrees i j, e.agrees k j)

module _ {ℓ κ} {K : Type ℓ} {V : Type κ} ⦃e : HashKey K⦄ where
  -- The keys of the entries are distinct.
  abbrev pub Apart : List (K × V) → Type 0
  Apart [] = Unit {0}
  Apart ((k, _) ∷ rest) = All (λ p. (k == p.0) ≡ false) rest × Apart rest

  pub lookup-apart :
      (k : K) (rest : List (K × V)) → All (λ p. (k == p.0) ≡ false) rest → lookup k rest ≡ none
  unfolding lookup
  lookup-apart k [] apart = refl
  lookup-apart k ((j, v) ∷ rest) (differ, apart) =
      ground (arith, lookup-apart k rest apart, e.agrees k j, e.agrees j k)

pub record HashMap {ℓ κ} (K : Type ℓ) (V : Type κ) : Type (ℓ ⊔ κ) where
  pub entries : List (K × V)

module _ {ℓ κ} {K : Type ℓ} {V : Type κ} where
  abbrev pub empty : HashMap K V
  empty = record { entries = [] }

  -- m.keys(), m.values(), m.len()
  abbrev pub keys : HashMap K V → List K
  keys m = map (λ p. p.0) m.entries

  abbrev pub values : HashMap K V → List V
  values m = map (λ p. p.1) m.entries

  abbrev pub len : HashMap K V → ℕ
  len m = length m.entries

module _ {ℓ κ} {K : Type ℓ} {V : Type κ} ⦃e : HashKey K⦄ where
  unfoldable pub get : HashMap K V → K → Option V
  unfolding lookup
  get m k = lookup k m.entries

  -- m.insert(k, v)
  unfoldable pub insert : HashMap K V → K → V → HashMap K V
  unfolding put
  insert m k v = record { entries = put k v m.entries }

  unfoldable pub remove : HashMap K V → K → HashMap K V
  unfolding without
  remove m k = record { entries = without k m.entries }

  -- *m.get_mut(k) = f(…), where the key is there
  unfoldable pub modify : HashMap K V → K → (V → V) → HashMap K V
  modify m k f = elim (get m k) [ none ↦ m | some v ↦ insert m k (f v) ]

  pub get-insert :
      (m : HashMap K V) (k j : K) (v : V)
      → get (insert m k v) j ≡ (if k == j then some v else get m j)
  unfolding get insert
  get-insert m k j v = lookup-put k j v m.entries

  pub get-remove :
      (m : HashMap K V) (k j : K) → get (remove m k) j ≡ (if k == j then none else get m j)
  unfolding get remove
  get-remove m k j = lookup-without k j m.entries

  pub get-modify :
      (m : HashMap K V) (k j : K) (f : V → V)
      → get (modify m k f) j ≡ (if k == j then Option.map f (get m j) else get m j)
  unfolding modify
  get-modify m k j f = elim (Option-cases (get m k)) [
    | inl absent ↦ rw (absent, modify) (ground (arith, absent, e.agrees k j))
    | inr (v, there) ↦
        rw (there, modify) (ground (arith, there, get-insert m k j (f v), e.agrees k j))
  ]
