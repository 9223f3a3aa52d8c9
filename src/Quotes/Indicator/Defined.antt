-- ===== src/Quotes/Indicator/Defined.antt =====
-- When the indicators of src/quote_watcher/alerts/indicator.py have a value, and what it is.
use news_project.Prelude.{
  ℕ, suc, ◌+◌, ◌-◌, ◌≤◌, ◌≡◌, refl, ap, ◌∙◌, sym, ◌⊎◌, inl, inr, Bool, true, false, none, some,
  List, [], ◌∷◌, length, arith, ltb, if◌then◌else◌, In, by_branch, Bool-cases,
}
use news_project.Push.Retry.{returned}
use news_project.Quotes.Scan.{Floats}
use news_project.Quotes.Scan.Ranked.{IsLinear}
use news_project.Quotes.Ring.{last, last_of}
use news_project.Quotes.Ring.History.{length-drop}
use news_project.Quotes.Indicator.{
  Arithmetic, MacdResult, too_few, at_end, put_before, extreme, extreme_of, greater, less,
  highest_n_days, lowest_n_days, ema_from, ema_series, difference, macd_result, from_series, macd,
}

last_of-cons : {A : Type 0} (x : A) (xs : List A) → (a : A) × (last_of (x ∷ xs) ≡ some a)
unfolding last_of
last_of-cons x [] = (x, refl)
last_of-cons x (y ∷ xs) = last_of-cons y xs

module _ {F : Type 0} where
  too_few-enough :
      (closes : List F) (n : ℕ) → suc n ≤ length closes → too_few (suc n) (length closes) ≡ false
  unfolding too_few
  too_few-enough closes n h = ground arith

  length-last-suc :
      (closes : List F) (n : ℕ) → suc n ≤ length closes → 1 ≤ length (last (suc n) closes)
  unfolding last
  length-last-suc closes n h = omega (arith, length-drop (length closes - suc n) closes)

module _ {F : Type 0} (lt : F → F → Bool) where
  -- No item comes after this one.
  abbrev pub NoneAfter : F → List F → Type 0
  NoneAfter m [] = Unit
  NoneAfter m (x ∷ xs) = (lt m x ≡ false) × NoneAfter m xs

  abbrev later : F → F → F
  later x y = if lt x y then y else x

  module _ (asym : (x y : F) → lt x y ≡ true → lt y x ≡ false)
      (split : (x y z : F) → lt x z ≡ true → (lt x y ≡ true) ⊎ (lt y z ≡ true)) where
    -- the extreme is an item that no other comes after
    In-extreme :
        (x : F) (xs : List F)
        → In (extreme later x xs) (x ∷ xs) × NoneAfter (extreme later x xs) (x ∷ xs)
    unfolding extreme
    In-extreme x [] = (inl refl, (ground (arith, asym x x), tt))
    In-extreme x (y ∷ ys) =
        by_branch
          (λ z. In (extreme later z ys) (x ∷ y ∷ ys) × NoneAfter (extreme later z ys) (x ∷ y ∷ ys))
          (lt x y) y x
          (λ up.
            let (i, (n, ns)) = In-extreme y ys in
            let m = extreme later y ys in
            (inr i, (ground (arith, n, up, asym x y, split m y x), (n, ns))))
          (λ down.
            let (i, (n, ns)) = In-extreme x ys in
            let m = extreme later x ys in
            (
              elim i [ inl here ↦ inl here | inr there ↦ inr (inr there) ],
              (n, (ground (arith, n, down, split m x y), ns)),
            ))

    extreme_of-some :
        (xs : List F)
        → 1 ≤ length xs
        → (m : F) × (extreme_of later xs ≡ some m) × In m xs × NoneAfter m xs
    unfolding extreme_of
    extreme_of-some [] h = absurd (omega (arith, h))
    extreme_of-some (x ∷ xs) h = let (i, n) = In-extreme x xs in (extreme later x xs, refl, i, n)

module _ {F : Type 0} (fl : Floats F) (ar : Arithmetic F) where
  length-ema_from :
      (alpha : F) (vs : List F) (prev : F) → length (ema_from fl ar alpha prev vs) ≡ length vs
  unfolding ema_from
  length-ema_from alpha [] prev = refl
  length-ema_from alpha (v ∷ vs) prev = ap suc (length-ema_from alpha vs _)

  -- series of one length have a difference, which ends with that of their ends
  difference-cons :
      (x : F) (xs : List F) (y : F) (ys : List F)
      → length xs ≡ length ys
      → (d : F) × (ds : List F) × (a : F) × (b : F) × (difference fl ar (x ∷ xs) (y ∷ ys)
          ≡ returned (d ∷ ds))
        × (last_of (x ∷ xs) ≡ some a)
        × (last_of (y ∷ ys) ≡ some b)
        × (last_of (d ∷ ds) ≡ some (fl.sub a b))
  unfolding difference last_of put_before
  difference-cons x [] y [] e = (fl.sub x y, [], x, y, refl, refl, refl, refl)
  difference-cons x [] y (z ∷ ys) e = absurd (omega (arith, e))
  difference-cons x (z ∷ xs) y [] e = absurd (omega (arith, e))
  difference-cons x (v ∷ xs) y (w ∷ ys) e =
      let (d, ds, a, b, h, k, l, m) = difference-cons v xs w ys (omega (arith, e)) in
      (fl.sub x y, d ∷ ds, a, b, ap (put_before (fl.sub x y)) h, k, l, m)

  -- What `macd` has to give.
  abbrev pub MacdOf : List F → ℕ → ℕ → MacdResult F → Type 0
  MacdOf closes fast slow m =
      (a : F) × (b : F) × (last_of (ema_series fl ar closes fast) ≡ some a)
      × (last_of (ema_series fl ar closes slow) ≡ some b)
      × (m.dif ≡ fl.sub a b)
      × (m.hist ≡ fl.mul (ar.of_nat 2) (fl.sub m.dif m.dea))

  macd-cons :
      (v : F) (vs : List F) (fast slow signal : ℕ)
      → (m : MacdResult F) × (from_series fl ar signal
            (difference fl ar (ema_series fl ar (v ∷ vs) fast) (ema_series fl ar (v ∷ vs) slow))
          ≡ returned (some m))
        × MacdOf (v ∷ vs) fast slow m
  unfolding ema_series from_series macd_result at_end
  macd-cons v vs fast slow signal =
      let quick = ema_from fl ar (fl.div (ar.of_nat 2) (ar.of_nat (fast + 1))) v vs in
      let calm = ema_from fl ar (fl.div (ar.of_nat 2) (ar.of_nat (slow + 1))) v vs in
      let (d, ds, a, b, h, k, l, e) =
        difference-cons v quick v calm (length-ema_from _ vs v ∙ sym (length-ema_from _ vs v)) in
      let (dea, f) =
        last_of-cons d (ema_from fl ar (fl.div (ar.of_nat 2) (ar.of_nat (signal + 1))) d ds) in
      (
        record {
          dif = fl.sub a b;
          dea = dea;
          hist = fl.mul (ar.of_nat 2) (fl.sub (fl.sub a b) dea);
        },
        ap (from_series fl ar signal) h
            ∙ ap
                (λ o.
                  macd_result fl ar (at_end o)
                    (at_end (last_of (ema_series fl ar (d ∷ ds) signal))))
                e
            ∙ ap (λ o. macd_result fl ar (returned (fl.sub a b)) (at_end o)) f,
        (a, b, k, l, refl, refl),
      )

  -- `macd` never raises. It has no result where there is no close or there are fewer than the slow and
  -- the signal days together; else it has one, whose DIF is the last fast average less the last slow
  -- one, and whose histogram is twice DIF less DEA.
  pub macd-Returns :
      (closes : List F) (fast slow signal : ℕ)
      → ((closes ≡ []) ⊎ (ltb (length closes) (slow + signal) ≡ true))
          × (macd fl ar closes fast slow signal ≡ returned none)
        ⊎ ((m : MacdResult F) × (macd fl ar closes fast slow signal ≡ returned (some m))
            × (ltb (length closes) (slow + signal) ≡ false)
            × MacdOf closes fast slow m)
  unfolding macd
  macd-Returns [] fast slow signal = inl (inl refl, refl)
  macd-Returns (v ∷ vs) fast slow signal =
      elim (Bool-cases (ltb (length (v ∷ vs)) (slow + signal))) [
        | inl short ↦ inl (inr short, rw short refl)
        | inr long ↦ let (m, h, d) = macd-cons v vs fast slow signal in inr (m, rw long h, long, d)
      ]

  -- On floats that are linearly ordered, where the closes are at least as many as the days, which are
  -- at least 1, the highest of the last days is one of their closes and none of them is above it, and
  -- the lowest is one of them and none is below it.
  pub highest_n_days-IsGreatest :
      IsLinear fl
      → (closes : List F) (n : ℕ) → suc n ≤ length closes
      → ((m : F) × (highest_n_days fl ar closes (suc n) ≡ some m)
          × In m (last (suc n) closes)
          × NoneAfter fl.ltb m (last (suc n) closes))
        × ((m : F) × (lowest_n_days fl ar closes (suc n) ≡ some m)
            × In m (last (suc n) closes)
            × NoneAfter (λ x y. fl.ltb y x) m (last (suc n) closes))
  unfolding highest_n_days lowest_n_days greater less
  highest_n_days-IsGreatest linear closes n h =
      let xs = last (suc n) closes in
      let enough = too_few-enough closes n h in
      let some_day = length-last-suc closes n h in
      let (m, e, i, a) = extreme_of-some fl.ltb linear.asym linear.split xs some_day in
      let (w, f, j, b) =
        extreme_of-some (λ x y. fl.ltb y x) (λ x y. linear.asym y x)
          (λ x y z k. ground (arith, linear.split z y x k)) xs some_day in
      ((m, rw enough e, i, a), (w, rw enough f, j, b))
