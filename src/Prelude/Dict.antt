-- ===== src/Prelude/Dict.antt =====
-- A Python `dict` as an association list in insertion order.
use mathlib.Core.Path.{◌≡◌, refl}
use mathlib.Core.Option.{Option, none, some}
use mathlib.Core.Bool.{Bool}
use mathlib.Core.Logic.{◌⊎◌}
use news_project.Prelude.Lists.{In, keep}
use mathlib.Core.List.{List, [], ◌∷◌}
use native.Mathlib.Omega.{arith}
use news_project.Prelude.Tests.{if◌then◌else◌}
use news_project.Prelude.Equality.{Comparable, ◌==◌}

abbrev pub Dict {ℓ κ} : Type ℓ → Type κ → Type (ℓ ⊔ κ)
Dict K V = List (K × V)

module _ {ℓ κ} {K : Type ℓ} {V : Type κ} ⦃e : Comparable K⦄ where
  -- `d.get(k)`
  unfoldable pub lookup : K → Dict K V → Option V
  lookup k [] = none
  lookup k ((j, v) ∷ d) = if j == k then some v else lookup k d

  -- `d[k] = v`
  unfoldable pub insert : K → V → Dict K V → Dict K V
  insert k v [] = (k, v) ∷ []
  insert k v ((j, w) ∷ d) = if j == k then (j, v) ∷ d else (j, w) ∷ insert k v d

  pub lookup-insert :
      (k j : K) (v : V) (d : Dict K V)
      → lookup j (insert k v d) ≡ (if k == j then some v else lookup j d)
  unfolding lookup insert
  lookup-insert k j v [] = refl
  lookup-insert k j v ((i, w) ∷ d) =
      ground (arith, e.same_iff k j, e.same_iff i k, e.same_iff i j, lookup-insert k j v d)

  -- No key is listed twice.
  abbrev pub WellKeyed : Dict K V → Type (ℓ ⊔ κ)
  WellKeyed [] = Unit
  WellKeyed ((k, v) ∷ d) = (lookup k d ≡ none) × WellKeyed d

  pub lookup-In : (k : K) (v : V) (d : Dict K V) → lookup k d ≡ some v → In (k, v) d
  unfolding lookup
  lookup-In k v [] h = cc
  lookup-In k v ((j, w) ∷ d) h = ground (arith, e.same_iff j k, lookup-In k v d)

  pub In-lookup : (k : K) (v : V) (d : Dict K V) → WellKeyed d → In (k, v) d → lookup k d ≡ some v
  unfolding lookup
  In-lookup k v [] wk h = absurd h.1
  In-lookup k v ((j, w) ∷ d) wk h = ground (arith, e.same_iff j k, In-lookup k v d)

  pub In-insert :
      (k j : K) (v w : V) (d : Dict K V)
      → In (j, w) (insert k v d)
      → ((j ≡ k) × (w ≡ v)) ⊎ In (j, w) d
  unfolding insert
  In-insert k j v w [] h = ground arith
  In-insert k j v w ((i, u) ∷ d) h = ground (arith, e.same_iff i k, In-insert k j v w d)

  pub insert-WellKeyed : (k : K) (v : V) (d : Dict K V) → WellKeyed d → WellKeyed (insert k v d)
  unfolding lookup insert
  insert-WellKeyed k v [] wk = (refl, tt)
  insert-WellKeyed k v ((i, u) ∷ d) wk =
      ground (arith, e.same_iff i k, e.same_iff k i, insert-WellKeyed k v d, lookup-insert k i v d)

  lookup-keep :
      (p : K × V → Bool) (k : K) (d : Dict K V) → lookup k d ≡ none → lookup k (keep p d) ≡ none
  unfolding lookup keep
  lookup-keep p k [] h = refl
  lookup-keep p k ((j, w) ∷ d) h = ground (arith, lookup-keep p k d)

  pub keep-WellKeyed : (p : K × V → Bool) (d : Dict K V) → WellKeyed d → WellKeyed (keep p d)
  unfolding keep
  keep-WellKeyed p [] wk = tt
  keep-WellKeyed p ((j, w) ∷ d) wk = ground (arith, lookup-keep p j d, keep-WellKeyed p d)
