-- ===== src/Prelude/Equality.antt =====
-- Decidable equality as an instance: numbers, texts, pairs.
use Prim.Native.Nat.{ℕ}
use mathlib.Core.Path.{◌≡◌, refl}
use mathlib.Core.Logic.{◌↔◌}
use mathlib.Core.Bool.{Bool, true, false, ◌&&◌}
use mathlib.Core.List.{List, [], ◌∷◌}
use native.Mathlib.Omega.{arith}
use news_project.Prelude.Tests.{nat_beq, nat_beq_iff}
use news_project.Prelude.Lists.{In, any}

-- A type whose values `==` tells apart.
pub record Comparable {κ} (K : Type κ) : Type κ where
  pub same : K → K → Bool
  pub same_iff : (x y : K) → (same x y ≡ true) ↔ (x ≡ y)

instance abbrev pub nat_eq : Comparable ℕ
nat_eq = record { same = nat_beq; same_iff = nat_beq_iff }

infix 50 ◌==◌
abbrev pub ◌==◌ {κ} : {K : Type κ} ⦃c : Comparable K⦄ → K → K → Bool
◌==◌ ⦃c⦄ x y = c.same x y

module _ {ℓ} {A : Type ℓ} (e : Comparable A) where
  unfoldable pub list_beq : List A → List A → Bool
  list_beq [] [] = true
  list_beq [] (y ∷ ys) = false
  list_beq (x ∷ xs) [] = false
  list_beq (x ∷ xs) (y ∷ ys) = e.same x y && list_beq xs ys

  list_beq_sound : (xs ys : List A) → list_beq xs ys ≡ true → xs ≡ ys
  unfolding list_beq
  list_beq_sound [] [] h = refl
  list_beq_sound [] (y ∷ ys) h = cc
  list_beq_sound (x ∷ xs) [] h = cc
  list_beq_sound (x ∷ xs) (y ∷ ys) h = ground (arith, e.same_iff x y, list_beq_sound xs ys)

  list_beq_refl : (xs : List A) → list_beq xs xs ≡ true
  unfolding list_beq
  list_beq_refl [] = refl
  list_beq_refl (x ∷ xs) = ground (arith, e.same_iff x x, list_beq_refl xs)

  pub list_beq_iff : (xs ys : List A) → (list_beq xs ys ≡ true) ↔ (xs ≡ ys)
  list_beq_iff xs ys = (list_beq_sound xs ys, λ p. rw p (list_beq_refl ys))

module _ {ℓ} {A : Type ℓ} ⦃e : Comparable A⦄ where
  -- `a in xs`, as a test
  unfoldable pub elem : A → List A → Bool
  elem a xs = any (λ x. a == x) xs

  pub elem→In : (a : A) (xs : List A) → elem a xs ≡ true → In a xs
  unfolding elem any
  elem→In a [] h = cc
  elem→In a (x ∷ xs) h = ground (arith, e.same_iff a x, elem→In a xs)

  pub In→elem : (a : A) (xs : List A) → In a xs → elem a xs ≡ true
  unfolding elem any
  In→elem a [] h = absurd h.1
  In→elem a (x ∷ xs) h = ground (arith, e.same_iff a x, In→elem a xs)
