-- ===== src/Prelude/Lists.antt =====
-- Lists measured by native numbers, membership by recursion, and filters by a Boolean test.
use Prim.Native.Nat.{ℕ, zero, suc, ◌+◌, ◌≤◌, min}
use mathlib.Core.Path.{◌≡◌, refl, ap}
use mathlib.Core.Logic.{◌⊎◌, inl, inr}
use mathlib.Core.Bool.{Bool, true, false, ◌||◌, ◌&&◌}
use mathlib.Core.List.{List, [], ◌∷◌, ◌++◌, map}
use mathlib.Core.Option.{Option, none, some}
use native.Mathlib.Omega.{arith}
use news_project.Prelude.Tests.{if◌then◌else◌}

module _ {ℓ} {A : Type ℓ} where
  abbrev pub length : List A → ℕ
  length [] = 0
  length (x ∷ xs) = suc (length xs)

  abbrev pub get_elem? : List A → ℕ → Option A
  get_elem? [] i = none
  get_elem? (x ∷ xs) zero = some x
  get_elem? (x ∷ xs) (suc i) = get_elem? xs i

  abbrev pub take : ℕ → List A → List A
  take zero xs = []
  take (suc n) [] = []
  take (suc n) (x ∷ xs) = x ∷ take n xs

  abbrev pub drop : ℕ → List A → List A
  drop zero xs = xs
  drop (suc n) [] = []
  drop (suc n) (x ∷ xs) = drop n xs

  -- `a in xs`, as a type that the tactics take apart.
  abbrev pub In : A → List A → Type ℓ
  In a [] = Unit {ℓ} × ⊥
  In a (x ∷ xs) = (a ≡ x) ⊎ In a xs

  -- `[x for x in xs if p(x)]`
  unfoldable pub keep : (A → Bool) → List A → List A
  keep p [] = []
  keep p (x ∷ xs) = if p x then x ∷ keep p xs else keep p xs

  -- `any(p(x) for x in xs)`
  unfoldable pub any : (A → Bool) → List A → Bool
  any p [] = false
  any p (x ∷ xs) = p x || any p xs

  -- `all(p(x) for x in xs)`
  unfoldable pub all : (A → Bool) → List A → Bool
  all p [] = true
  all p (x ∷ xs) = p x && all p xs

  abbrev pub is_empty : List A → Bool
  is_empty [] = true
  is_empty (x ∷ xs) = false

  pub length-append : (xs ys : List A) → length (xs ++ ys) ≡ length xs + length ys
  length-append [] ys = omega arith
  length-append (x ∷ xs) ys = omega (arith, length-append xs ys)

  pub length-take-le : (n : ℕ) (xs : List A) → length (take n xs) ≤ n
  length-take-le zero xs = omega arith
  length-take-le (suc n) [] = omega arith
  length-take-le (suc n) (x ∷ xs) = omega (arith, length-take-le n xs)

  pub length-take-min : (n : ℕ) (xs : List A) → length (take n xs) ≡ min n (length xs)
  length-take-min zero xs = omega arith
  length-take-min (suc n) [] = omega arith
  length-take-min (suc n) (x ∷ xs) = omega (arith, length-take-min n xs)

  pub take-In : (n : ℕ) (a : A) (xs : List A) → In a (take n xs) → In a xs
  take-In zero a xs i = absurd i.1
  take-In (suc n) a [] i = i
  take-In (suc n) a (x ∷ xs) (inl e) = inl e
  take-In (suc n) a (x ∷ xs) (inr i) = inr (take-In n a xs i)

  pub In-append_left : (a : A) (xs ys : List A) → In a xs → In a (xs ++ ys)
  In-append_left a [] ys h = absurd h.1
  In-append_left a (x ∷ xs) ys (inl e) = inl e
  In-append_left a (x ∷ xs) ys (inr h) = inr (In-append_left a xs ys h)

  pub In-append_right : (a : A) (xs ys : List A) → In a ys → In a (xs ++ ys)
  In-append_right a [] ys h = h
  In-append_right a (x ∷ xs) ys h = inr (In-append_right a xs ys h)

  pub In-append : (a : A) (xs ys : List A) → In a (xs ++ ys) → In a xs ⊎ In a ys
  In-append a [] ys h = inr h
  In-append a (x ∷ xs) ys (inl e) = inl (inl e)
  In-append a (x ∷ xs) ys (inr h) = elim (In-append a xs ys h) [
    | inl l ↦ inl (inr l)
    | inr r ↦ inr r
  ]

  pub In-keep : (p : A → Bool) (a : A) (xs : List A) → In a (keep p xs) → In a xs × (p a ≡ true)
  unfolding keep
  In-keep p a [] h = absurd h.1
  In-keep p a (x ∷ xs) h = ground (arith, In-keep p a xs)

  pub keep-In : (p : A → Bool) (a : A) (xs : List A) → In a xs → p a ≡ true → In a (keep p xs)
  unfolding keep
  keep-In p a [] h e = h
  keep-In p a (x ∷ xs) h e = ground (arith, keep-In p a xs)

module _ {ℓ κ} {A : Type ℓ} {B : Type κ} where
  -- `[y for x in xs for y in f(x)]`
  unfoldable pub gather : (A → List B) → List A → List B
  gather f [] = []
  gather f (x ∷ xs) = f x ++ gather f xs

  pub In-gather :
      (f : A → List B) (b : B) (xs : List A) → In b (gather f xs) → (a : A) × In a xs × In b (f a)
  unfolding gather
  In-gather f b [] h = absurd h.1
  In-gather f b (x ∷ xs) h = elim (In-append b (f x) (gather f xs) h) [
    | inl l ↦ (x, inl refl, l)
    | inr r ↦ let (a, m, i) = In-gather f b xs r in (a, inr m, i)
  ]

  pub gather-In :
      (f : A → List B) (a : A) (b : B) (xs : List A) → In a xs → In b (f a) → In b (gather f xs)
  unfolding gather
  gather-In f a b [] h i = absurd h.1
  gather-In f a b (x ∷ xs) (inl e) i = rw (← e) (In-append_left b (f a) (gather f xs) i)
  gather-In f a b (x ∷ xs) (inr h) i =
      In-append_right b (f x) (gather f xs) (gather-In f a b xs h i)

module _ {ℓ κ} {A : Type ℓ} {B : Type κ} where
  pub In-map : (f : A → B) (b : B) (xs : List A) → In b (map f xs) → (a : A) × In a xs × (b ≡ f a)
  In-map f b [] h = absurd h.1
  In-map f b (x ∷ xs) (inl e) = (x, inl refl, e)
  In-map f b (x ∷ xs) (inr h) = let (a, m, e) = In-map f b xs h in (a, inr m, e)

  pub map-In : (f : A → B) (a : A) (xs : List A) → In a xs → In (f a) (map f xs)
  map-In f a [] h = absurd h.1
  map-In f a (x ∷ xs) (inl e) = inl (ap f e)
  map-In f a (x ∷ xs) (inr h) = inr (map-In f a xs h)
