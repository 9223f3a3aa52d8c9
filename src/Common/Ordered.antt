-- ===== src/Common/Ordered.antt =====
-- Python's `set` of strings, read through `sorted`: a list without repetitions, and the
-- insertion sort by code points that gives its sorted list.
use news_project.Prelude.{
  ◌≡◌, ◌≢◌, ◌↔◌, ◌⊎◌, inl, inr, refl, Bool, true, false, ◌&&◌, ◌||◌, List, [], ◌∷◌, arith, ltb,
  nat_beq, if◌then◌else◌, Bool-cases, Text, text_eq, In, elem, elem→In, In→elem, any, text_beq_iff,
  suc, ◌+◌, ◌≤◌, length,
}

-- `s.add(x)`
unfoldable pub add : Text → List Text → List Text
add x s = if elem x s then s else x ∷ s

-- `s.update(xs)`
unfoldable pub update : List Text → List Text → List Text
update s [] = s
update s (x ∷ xs) = update (add x s) xs

-- `a < b` on strings: lexicographic by code points
unfoldable pub text_ltb : Text → Text → Bool
text_ltb [] [] = false
text_ltb [] (y ∷ ys) = true
text_ltb (x ∷ xs) [] = false
text_ltb (x ∷ xs) (y ∷ ys) = ltb x y || (nat_beq x y && text_ltb xs ys)

unfoldable pub insert_sorted : Text → List Text → List Text
insert_sorted x [] = x ∷ []
insert_sorted x (y ∷ ys) = if text_ltb y x then y ∷ insert_sorted x ys else x ∷ y ∷ ys

-- `sorted(s)`
unfoldable pub sorted : List Text → List Text
unfolding insert_sorted
sorted [] = []
sorted (x ∷ xs) = insert_sorted x (sorted xs)

pub In-add : (a x : Text) (s : List Text) → In a (add x s) ↔ ((a ≡ x) ⊎ In a s)
unfolding add
In-add a x s = elim (Bool-cases (elem x s)) [
  | inl old ↦ rw old (inr, λ h. elim h [ inl e ↦ rw e (elem→In x s old) | inr m ↦ m ])
  | inr new ↦ rw new ((λ h. h), (λ h. h))
]

pub In-update : (a : Text) (s xs : List Text) → In a (update s xs) ↔ (In a s ⊎ In a xs)
unfolding update
In-update a s [] = ground arith
In-update a s (x ∷ xs) = ground (arith, In-update a (add x s) xs, In-add a x s)

In-insert_sorted : (a x : Text) (ys : List Text) → In a (insert_sorted x ys) ↔ ((a ≡ x) ⊎ In a ys)
unfolding insert_sorted
In-insert_sorted a x [] = ground arith
In-insert_sorted a x (y ∷ ys) = ground (arith, In-insert_sorted a x ys)

pub In-sorted : (a : Text) (xs : List Text) → In a (sorted xs) ↔ In a xs
unfolding sorted
In-sorted a [] = ((λ h. h), (λ h. h))
In-sorted a (x ∷ xs) = ground (arith, In-sorted a xs, In-insert_sorted a x (sorted xs))

-- No element is repeated.
abbrev pub Distinct : List Text → Type 0
Distinct [] = Unit
Distinct (x ∷ xs) = (elem x xs ≡ false) × Distinct xs

-- Each element is before the next.
abbrev pub Increasing : List Text → Type 0
Increasing [] = Unit
Increasing (x ∷ []) = Unit
Increasing (x ∷ y ∷ ys) = (text_ltb x y ≡ true) × Increasing (y ∷ ys)

pub add-Distinct : (x : Text) (s : List Text) → Distinct s → Distinct (add x s)
unfolding add
add-Distinct x s d = ground arith

pub update-Distinct : (s xs : List Text) → Distinct s → Distinct (update s xs)
unfolding update
update-Distinct s [] d = d
update-Distinct s (x ∷ xs) d = update-Distinct (add x s) xs (add-Distinct x s d)

pub ltb_connected : (x y : Text) → text_ltb x y ≡ false → x ≢ y → text_ltb y x ≡ true
unfolding text_ltb
ltb_connected [] [] h n = absurd (n refl)
ltb_connected [] (y ∷ ys) h n = cc
ltb_connected (x ∷ xs) [] h n = refl
ltb_connected (x ∷ xs) (y ∷ ys) h n =
    ground (arith, ltb_connected xs ys, λ (e : xs ≡ ys) (f : x ≡ y). n (cc))

insert_sorted-Increasing :
    (x : Text) (ys : List Text) → ¬ In x ys → Increasing ys → Increasing (insert_sorted x ys)
unfolding insert_sorted
insert_sorted-Increasing x [] n h = tt
insert_sorted-Increasing x (y ∷ []) n h =
    ground (arith, ltb_connected y x, λ (e : x ≡ y). n (inl e))
insert_sorted-Increasing x (y ∷ z ∷ zs) n h = ground (
  arith,
  ltb_connected y x,
  insert_sorted-Increasing x (z ∷ zs) (λ m. n (inr m)),
  λ (e : x ≡ y). n (inl e),
)

-- The sorted list of a set is strictly increasing.
pub sorted-Increasing : (xs : List Text) → Distinct xs → Increasing (sorted xs)
unfolding sorted
sorted-Increasing [] d = tt
sorted-Increasing (x ∷ xs) d =
    insert_sorted-Increasing x (sorted xs) (λ m. cc (In→elem x xs ((In-sorted x xs).0 m)))
      (sorted-Increasing xs d.1)

-- None of the texts has been seen.
abbrev pub Fresh : List Text → List Text → Type 0
Fresh seen [] = Unit
Fresh seen (x ∷ xs) = (elem x seen ≡ false) × Fresh seen xs

pub Fresh-cons :
    (y : Text) (seen xs : List Text) → Fresh (y ∷ seen) xs ↔ ((elem y xs ≡ false) × Fresh seen xs)
unfolding elem any
Fresh-cons y seen [] = ground arith
Fresh-cons y seen (x ∷ xs) =
    ground (arith, Fresh-cons y seen xs, text_beq_iff x y, text_beq_iff y x)

pub Fresh-none : (xs : List Text) → Fresh [] xs
unfolding elem any
Fresh-none [] = tt
Fresh-none (x ∷ xs) = (refl, Fresh-none xs)

length-add :
    (x : Text) (s : List Text) → length (add x s) ≡ (if elem x s then length s else suc (length s))
unfolding add
length-add x s = ground arith

length-update-le : (s xs : List Text) → length (update s xs) ≤ length s + length xs
unfolding update
length-update-le s [] = omega arith
length-update-le s (x ∷ xs) = ground (arith, length-update-le (add x s) xs, length-add x s)

add-new : (x : Text) (s : List Text) → elem x s ≡ false → add x s ≡ x ∷ s
unfolding add
add-new x s h = rw h refl

length-update :
    (s xs : List Text) → (length (update s xs) ≡ length s + length xs) ↔ (Distinct xs × Fresh s xs)
unfolding update
length-update s [] = ground arith
length-update s (x ∷ xs) = elim (Bool-cases (elem x s)) [
  | inl old ↦ rw old (ground (arith, length-update-le (add x s) xs, length-add x s))
  | inr new ↦ ground (arith, length-update (x ∷ s) xs, Fresh-cons x s xs, add-new x s)
]

-- A list has as many elements as its set exactly when none is repeated.
pub length-update_iff : (xs : List Text) → (length (update [] xs) ≡ length xs) ↔ Distinct xs
length-update_iff xs = ground (arith, length-update [] xs, Fresh-none xs)
