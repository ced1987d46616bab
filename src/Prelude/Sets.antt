-- ===== src/Prelude/Sets.antt =====
-- `HashSet<K>` of the Rust standard library: a map to the unit. Clients have the laws.
use Prim.{tt}
use mathlib.Core.Path.{◌≡◌, refl}
use mathlib.Core.Bool.{Bool, true, false, ◌||◌}
use mathlib.Core.Option.{Option, none, some}
use mathlib.Core.List.{List, [], ◌∷◌}
use native.Mathlib.Omega.{arith}
use inf_splitter.Prelude.Tests.{HashKey, ◌==◌}
use inf_splitter.Prelude.Lists.{any}
use inf_splitter.Prelude.Dict
use inf_splitter.Prelude.Dict.{HashMap}

abbrev pub HashSet {ℓ} : Type ℓ → Type ℓ
HashSet K = HashMap K (Unit {0})

abbrev pub is_some {ℓ} : {A : Type ℓ} → Option A → Bool
is_some none = false
is_some (some _) = true

module _ {ℓ} {K : Type ℓ} ⦃e : HashKey K⦄ where
  -- s.contains(k)
  unfoldable pub holds : HashSet K → K → Bool
  holds s k = is_some (Dict.get s k)

  -- s.extend(ks)
  unfoldable pub extend : HashSet K → List K → HashSet K
  extend s [] = s
  extend s (k ∷ ks) = extend (Dict.insert s k tt) ks

  -- ks.into_iter().collect()
  unfoldable pub collect : List K → HashSet K
  collect ks = extend Dict.empty ks

  pub holds-insert :
      (s : HashSet K) (k j : K) → holds (Dict.insert s k tt) j ≡ (k == j || holds s j)
  unfolding holds
  holds-insert s k j = rw (Dict.get-insert s k j tt) (ground arith)

  pub holds-extend :
      (s : HashSet K) (ks : List K) (j : K)
      → holds (extend s ks) j ≡ (any (λ k. k == j) ks || holds s j)
  unfolding extend
  holds-extend s [] j = refl
  holds-extend s (k ∷ ks) j =
      rw (holds-extend (Dict.insert s k tt) ks j, holds-insert s k j) (ground arith)

  -- Membership by the keys.
  pub any-keys : (s : HashSet K) (j : K) → any (λ k. k == j) (Dict.keys s) ≡ holds s j
  unfolding holds Dict.get Dict.lookup
  any-keys s j = at s.entries
    where
      at :
          (es : List (K × Unit {0}))
          → any (λ k. k == j) (Dict.keys (record { entries = es }))
            ≡ holds (record { entries = es }) j
      at [] = refl
      at ((k, v) ∷ es) = ground (arith, at es)

  pub holds-empty : (j : K) → holds Dict.empty j ≡ false
  unfolding holds Dict.get Dict.lookup
  holds-empty j = refl

  pub holds-collect : (ks : List K) (j : K) → holds (collect ks) j ≡ any (λ k. k == j) ks
  unfolding collect
  holds-collect ks j = ground (arith, holds-extend Dict.empty ks j, holds-empty j)
