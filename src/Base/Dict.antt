-- ===== src/Base/Dict.antt =====
-- Go maps: association lists in the order in which `range` visits them. The theorems hold for
-- every order of the list, so for every order of iteration.
use caddy_dev_local.Base.Tests.{if◌then◌else◌}
use caddy_dev_local.Base.Equality.{Eq, ◌==◌}
use mathlib.Core.Path.{◌≡◌, refl}
use mathlib.Core.Bool.{Bool}
use mathlib.Core.Option.{Option, none, some}
use mathlib.Core.List.{List, [], ◌∷◌}
use native.Mathlib.Omega.{arith}

abbrev pub Dict {ℓ κ} : Type ℓ → Type κ → Type (ℓ ⊔ κ)
Dict K V = List (K × V)

abbrev pub keys {ℓ κ} : {K : Type ℓ} {V : Type κ} → Dict K V → List K
keys [] = []
keys ((k, v) ∷ d) = k ∷ keys d

abbrev pub values {ℓ κ} : {K : Type ℓ} {V : Type κ} → Dict K V → List V
values [] = []
values ((k, v) ∷ d) = v ∷ values d

module _ {ℓ κ} {K : Type ℓ} {V : Type κ} ⦃e : Eq K⦄ where
  -- `v, ok := d[k]`
  unfoldable pub lookup : K → Dict K V → Option V
  lookup k [] = none
  lookup k ((j, v) ∷ d) = if k == j then some v else lookup k d

  -- `d[k] = v`
  unfoldable pub insert : K → V → Dict K V → Dict K V
  insert k v [] = (k, v) ∷ []
  insert k v ((j, w) ∷ d) = if k == j then (k, v) ∷ d else (j, w) ∷ insert k v d

  -- A loop that deletes the entries which fail a test.
  unfoldable pub keep_if : (K → V → Bool) → Dict K V → Dict K V
  keep_if p [] = []
  keep_if p ((j, w) ∷ d) = let rest = keep_if p d in if p j w then (j, w) ∷ rest else rest

  abbrev pub NodupKeys : Dict K V → Type κ
  NodupKeys [] = Unit
  NodupKeys ((k, _) ∷ d) = (lookup k d ≡ none) × NodupKeys d

  pub lookup-cons :
      (j k : K) (v : V) (d : Dict K V)
      → lookup j ((k, v) ∷ d) ≡ (if j == k then some v else lookup j d)
  unfolding lookup
  lookup-cons j k v d = refl

  pub lookup-insert :
      (j k : K) (v : V) (d : Dict K V)
      → lookup j (insert k v d) ≡ (if j == k then some v else lookup j d)
  unfolding insert lookup
  lookup-insert j k v [] = refl
  lookup-insert j k v (_ ∷ d) = ground (arith, lookup-insert j k v d)

  pub insert-NodupKeys : (k : K) (v : V) (d : Dict K V) → NodupKeys d → NodupKeys (insert k v d)
  unfolding insert lookup
  insert-NodupKeys k v [] _ = (refl, tt)
  insert-NodupKeys k v ((j, _) ∷ d) (fresh, u) =
      ground (arith, insert-NodupKeys k v d u, lookup-insert j k v d)

  pub lookup-keep_if-none :
      (p : K → V → Bool) (j : K) (d : Dict K V) → lookup j d ≡ none → lookup j (keep_if p d) ≡ none
  unfolding lookup keep_if
  lookup-keep_if-none p j [] h = refl
  lookup-keep_if-none p j ((k, v) ∷ d) h = ground (arith, lookup-keep_if-none p j d)

  pub keep_if-NodupKeys : (p : K → V → Bool) (d : Dict K V) → NodupKeys d → NodupKeys (keep_if p d)
  unfolding keep_if
  keep_if-NodupKeys p [] h = tt
  keep_if-NodupKeys p ((k, v) ∷ d) (fresh, u) =
      ground (arith, keep_if-NodupKeys p d u, lookup-keep_if-none p k d fresh)

  abbrev pub kept : (K → V → Bool) → K → Option V → Option V
  kept p k none = none
  kept p k (some v) = if p k v then some v else none

  pub lookup-keep_if :
      (p : K → V → Bool) (j : K) (d : Dict K V)
      → NodupKeys d
      → lookup j (keep_if p d) ≡ kept p j (lookup j d)
  unfolding lookup keep_if
  lookup-keep_if p j [] h = refl
  lookup-keep_if p j ((k, v) ∷ d) (fresh, u) =
      ground (arith, lookup-keep_if p j d u, lookup-keep_if-none p k d fresh)
