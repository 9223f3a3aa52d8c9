-- ===== src/Prelude/Sorting.antt =====
-- Python's `sorted` on a key, as the stable insertion sort by a test on two elements.
use Prim.Native.Nat.{ℕ, zero, suc, min}
use mathlib.Core.Path.{◌≡◌, refl, sym, ap, subst, ◌∙◌}
use mathlib.Core.Logic.{◌⊎◌, ◌↔◌, inl, inr}
use mathlib.Core.Bool.{Bool, true, false}
use mathlib.Core.List.{List, [], ◌∷◌}
use native.Mathlib.Omega.{arith}
use news_project.Prelude.Tests.{if◌then◌else◌, by_branch}
use news_project.Prelude.Lists.{In, length, take, length-take-min, take-In}

module _ {A : Type 0} (before : A → A → Bool) where
  -- `x` goes before the first element that it may stand before
  unfoldable pub put : A → List A → List A
  put x [] = x ∷ []
  put x (y ∷ ys) = let rest = put x ys in if before x y then x ∷ y ∷ ys else y ∷ rest

  unfoldable pub sort_by : List A → List A
  unfolding put
  sort_by [] = []
  sort_by (x ∷ xs) = put x (sort_by xs)

  pub In-put : (a x : A) (ys : List A) → In a (put x ys) ↔ ((a ≡ x) ⊎ In a ys)
  unfolding put
  In-put a x [] = ground arith
  In-put a x (y ∷ ys) = ground (arith, In-put a x ys)

  pub In-sort_by : (a : A) (xs : List A) → In a (sort_by xs) ↔ In a xs
  unfolding sort_by
  In-sort_by a [] = ground arith
  In-sort_by a (x ∷ xs) = ground (arith, In-sort_by a xs, In-put a x (sort_by xs))

  length-put : (x : A) (ys : List A) → length (put x ys) ≡ suc (length ys)
  unfolding put
  length-put x [] = refl
  length-put x (y ∷ ys) = ground (arith, length-put x ys)

  pub length-sort_by : (xs : List A) → length (sort_by xs) ≡ length xs
  unfolding sort_by
  length-sort_by [] = refl
  length-sort_by (x ∷ xs) = ground (arith, length-sort_by xs, length-put x (sort_by xs))

-- `[x for x in xs if ...]` in order, cut to its first elements.
module _ {A : Type 0} (before : A → A → Bool) where
  -- `x` may stand before each of these.
  abbrev pub BeforeAll : A → List A → Type 0
  BeforeAll x [] = Unit
  BeforeAll x (y ∷ ys) = (before x y ≡ true) × BeforeAll x ys

  abbrev pub IsSorted : List A → Type 0
  IsSorted [] = Unit
  IsSorted (x ∷ xs) = BeforeAll x xs × IsSorted xs

  -- The test is total and transitive.
  pub record IsOrder : Type 0 where
    pub total : (x y : A) → before x y ≡ false → before y x ≡ true
    pub trans : (x y z : A) → before x y ≡ true → before y z ≡ true → before x z ≡ true

  -- The first `n` of the candidates: as many as there are up to `n`, each one a candidate, and any
  -- candidate that is left out comes after each of them.
  pub record IsTop (n : ℕ) (candidates top : List A) : Type 0 where
    pub enough : length top ≡ min n (length candidates)
    pub sound : (x : A) → In x top → In x candidates
    pub sorted : IsSorted top
    pub best : (x y : A) → In x top → In y candidates → In y top ⊎ (before x y ≡ true)

  module _ (order : IsOrder) where
    BeforeAll-trans : (x y : A) (zs : List A) → before x y ≡ true → BeforeAll y zs → BeforeAll x zs
    BeforeAll-trans x y [] h b = tt
    BeforeAll-trans x y (z ∷ zs) h (e, b) = (order.trans x y z h e, BeforeAll-trans x y zs h b)

    put-BeforeAll :
        (a x : A) (ys : List A) → before a x ≡ true → BeforeAll a ys → BeforeAll a (put before x ys)
    unfolding put
    put-BeforeAll a x [] h b = (h, tt)
    put-BeforeAll a x (y ∷ ys) h (e, b) =
        by_branch (BeforeAll a) (before x y) (x ∷ y ∷ ys) (y ∷ put before x ys) (λ l. (h, (e, b)))
          (λ l. (e, put-BeforeAll a x ys h b))

    put-IsSorted : (x : A) (ys : List A) → IsSorted ys → IsSorted (put before x ys)
    unfolding put
    put-IsSorted x [] s = (tt, tt)
    put-IsSorted x (y ∷ ys) (b, s) =
        by_branch IsSorted (before x y) (x ∷ y ∷ ys) (y ∷ put before x ys)
          (λ l. ((l, BeforeAll-trans x y ys l b), (b, s)))
          (λ l. (put-BeforeAll y x ys (order.total x y l) b, put-IsSorted x ys s))

    sort_by-IsSorted : (xs : List A) → IsSorted (sort_by before xs)
    unfolding sort_by
    sort_by-IsSorted [] = tt
    sort_by-IsSorted (x ∷ xs) = put-IsSorted x (sort_by before xs) (sort_by-IsSorted xs)

    BeforeAll-In : (x y : A) (ys : List A) → BeforeAll x ys → In y ys → before x y ≡ true
    BeforeAll-In x y [] b i = absurd i.1
    BeforeAll-In x y (z ∷ ys) (e, b) (inl h) = subst (λ w. before x w ≡ true) (sym h) e
    BeforeAll-In x y (z ∷ ys) (e, b) (inr i) = BeforeAll-In x y ys b i

    take-BeforeAll : (n : ℕ) (x : A) (ys : List A) → BeforeAll x ys → BeforeAll x (take n ys)
    take-BeforeAll zero x ys b = tt
    take-BeforeAll (suc n) x [] b = tt
    take-BeforeAll (suc n) x (y ∷ ys) (e, b) = (e, take-BeforeAll n x ys b)

    take-IsSorted : (n : ℕ) (xs : List A) → IsSorted xs → IsSorted (take n xs)
    take-IsSorted zero xs s = tt
    take-IsSorted (suc n) [] s = tt
    take-IsSorted (suc n) (x ∷ xs) (b, s) = (take-BeforeAll n x xs b, take-IsSorted n xs s)

    -- what is left out comes after what is taken
    take-best :
        (n : ℕ) (x y : A) (xs : List A)
        → IsSorted xs
        → In x (take n xs)
        → In y xs
        → In y (take n xs) ⊎ (before x y ≡ true)
    take-best zero x y xs s i j = absurd i.1
    take-best (suc n) x y [] s i j = absurd j.1
    take-best (suc n) x y (z ∷ xs) (b, s) i (inl e) = inl (inl e)
    take-best (suc n) x y (z ∷ xs) (b, s) (inl h) (inr j) =
        inr (subst (λ w. before w y ≡ true) (sym h) (BeforeAll-In z y xs b j))
    take-best (suc n) x y (z ∷ xs) (b, s) (inr i) (inr j) = elim (take-best n x y xs s i j) [
      | inl l ↦ inl (inr l)
      | inr r ↦ inr r
    ]

    pub take-IsTop : (n : ℕ) (xs : List A) → IsTop n xs (take n (sort_by before xs))
    take-IsTop n xs = record {
      enough = length-take-min n (sort_by before xs) ∙ ap (min n) (length-sort_by before xs);
      sound = λ x i. (In-sort_by before x xs).0 (take-In n x (sort_by before xs) i);
      sorted = take-IsSorted n (sort_by before xs) (sort_by-IsSorted xs);
      best = λ x y i j.
          take-best n x y (sort_by before xs) (sort_by-IsSorted xs) i
            ((In-sort_by before y xs).1 j);
    }
