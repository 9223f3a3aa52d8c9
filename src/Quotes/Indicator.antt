-- ===== src/Quotes/Indicator.antt =====
-- src/quote_watcher/alerts/indicator.py, over floats that are a type with operations. A number of days
-- is at least 0; `ma`, `rsi` and the extremes do for less than 0 what they do for 0, and `macd` is
-- called with its default numbers.
pub mod Defined
use news_project.Prelude.{
  ℕ, suc, ◌+◌, ◌-◌, Bool, true, false, ◌||◌, ◌&&◌, Option, none, some, List, [], ◌∷◌, map, take,
  drop, length, ltb, nat_beq, is_empty, if◌then◌else◌,
}
use news_project.Push.Retry.{Outcome, returned, raised}
use news_project.Quotes.Scan.{Floats}
use news_project.Quotes.Ring.{last, last_of}

-- The operations beside those of `Floats`: a whole number as a float, and Python's `sum`.
pub record Arithmetic (F : Type 0) : Type 0 where
  pub of_nat : ℕ → F
  pub add : F → F → F
  pub sum : List F → F

-- What `zip(..., strict=True)` and `xs[-1]` raise.
pub data SeriesError : Type 0 where
  length_mismatch : SeriesError
  index_error : SeriesError

pub record MacdResult (F : Type 0) : Type 0 where
  pub dif : F
  pub dea : F
  pub hist : F

-- `n <= 0 or len(closes) < n`
unfoldable pub too_few : ℕ → ℕ → Bool
too_few n size = nat_beq n 0 || ltb size n

-- `xs[-1]`
unfoldable pub at_end : {A : Type 0} → Option A → Outcome SeriesError A
at_end none = raised index_error
at_end (some x) = returned x

-- `[f - s for f, s in zip(fast, slow, strict=True)]`
unfoldable pub put_before :
    {A : Type 0} → A → Outcome SeriesError (List A) → Outcome SeriesError (List A)
put_before x (raised e) = raised e
put_before x (returned xs) = returned (x ∷ xs)

-- `max` and `min` of a list, whose first item is the first argument
unfoldable pub extreme : {F : Type 0} → (F → F → F) → F → List F → F
extreme pick x [] = x
extreme pick x (y ∷ ys) = extreme pick (pick x y) ys

-- the last days' extreme; there is one, as `n` is at least 1
unfoldable pub extreme_of : {F : Type 0} → (F → F → F) → List F → Option F
unfolding extreme
extreme_of pick [] = none
extreme_of pick (x ∷ xs) = some (extreme pick x xs)

module _ {F : Type 0} (fl : Floats F) (ar : Arithmetic F) where
  -- `ma`
  unfoldable pub ma : List F → ℕ → Option F
  unfolding too_few last
  ma closes n =
      if too_few n (length closes)
      then none
      else some (fl.div (ar.sum (last n closes)) (ar.of_nat n))

  -- `max(x, y)` and `min(x, y)`
  unfoldable pub greater : F → F → F
  greater x y = if fl.ltb x y then y else x

  unfoldable pub less : F → F → F
  less x y = if fl.ltb y x then y else x

  -- `highest_n_days`
  unfoldable pub highest_n_days : List F → ℕ → Option F
  unfolding too_few last extreme_of greater
  highest_n_days closes n =
      if too_few n (length closes) then none else extreme_of greater (last n closes)

  -- `lowest_n_days`
  unfoldable pub lowest_n_days : List F → ℕ → Option F
  unfolding too_few last extreme_of less
  lowest_n_days closes n =
      if too_few n (length closes) then none else extreme_of less (last n closes)

  -- `cross_above`
  unfoldable pub cross_above : F → F → F → F → Bool
  cross_above today_a today_b yday_a yday_b = fl.ltb today_b today_a && fl.leb yday_a yday_b

  -- `cross_below`
  unfoldable pub cross_below : F → F → F → F → Bool
  cross_below today_a today_b yday_a yday_b = fl.ltb today_a today_b && fl.leb yday_b yday_a

  -- `closes[i] - closes[i - 1]` for each `i` from 1
  unfoldable pub diffs_from : F → List F → List F
  diffs_from x [] = []
  diffs_from x (y ∷ ys) = fl.sub y x ∷ diffs_from y ys

  unfoldable pub diffs : List F → List F
  unfolding diffs_from
  diffs [] = []
  diffs (x ∷ xs) = diffs_from x xs

  unfoldable pub gains : List F → List F
  unfolding diffs greater
  gains closes = map (λ d. greater d fl.zero) (diffs closes)

  unfoldable pub losses : List F → List F
  unfolding diffs greater
  losses closes = map (λ d. greater (fl.neg d) fl.zero) (diffs closes)

  -- the smoothing of one average from the n-th value on
  unfoldable pub smooth : ℕ → F → List F → F
  smooth n avg [] = avg
  smooth n avg (g ∷ gs) =
      smooth n (fl.div (ar.add (fl.mul avg (ar.of_nat (n - 1))) g) (ar.of_nat n)) gs

  -- the average of the first `n`, smoothed over the rest
  unfoldable pub average : ℕ → List F → F
  unfolding smooth
  average n xs = smooth n (fl.div (ar.sum (take n xs)) (ar.of_nat n)) (drop n xs)

  -- `rsi`
  unfoldable pub rsi : List F → ℕ → Option F
  unfolding gains losses average
  rsi closes n =
      let avg_gain = average n (gains closes) in
      let avg_loss = average n (losses closes) in
      let one = ar.of_nat 1 in
      if nat_beq n 0 || ltb (length closes) (n + 1)
      then none
      else if fl.equal avg_loss fl.zero
      then some fl.hundred
      else some (fl.sub fl.hundred (fl.div fl.hundred (ar.add one (fl.div avg_gain avg_loss))))

  -- the loop of `_ema_series`, whose last value is the second argument
  unfoldable pub ema_from : F → F → List F → List F
  ema_from alpha prev [] = []
  ema_from alpha prev (v ∷ vs) =
      let next = ar.add (fl.mul alpha v) (fl.mul (fl.sub (ar.of_nat 1) alpha) prev) in
      next ∷ ema_from alpha next vs

  -- `_ema_series`
  unfoldable pub ema_series : List F → ℕ → List F
  unfolding ema_from
  ema_series [] n = []
  ema_series (v ∷ vs) n = v ∷ ema_from (fl.div (ar.of_nat 2) (ar.of_nat (n + 1))) v vs

  unfoldable pub difference : List F → List F → Outcome SeriesError (List F)
  unfolding put_before
  difference [] [] = returned []
  difference [] (s ∷ slow) = raised length_mismatch
  difference (f ∷ fast) [] = raised length_mismatch
  difference (f ∷ fast) (s ∷ slow) = put_before (fl.sub f s) (difference fast slow)

  -- from `dif` on
  unfoldable pub macd_result :
      Outcome SeriesError F → Outcome SeriesError F → Outcome SeriesError (Option (MacdResult F))
  macd_result (raised e) dea = raised e
  macd_result (returned dif) (raised e) = raised e
  macd_result (returned dif) (returned dea) =
      returned
        (some (record { dif = dif; dea = dea; hist = fl.mul (ar.of_nat 2) (fl.sub dif dea) }))

  unfoldable pub from_series :
      ℕ → Outcome SeriesError (List F) → Outcome SeriesError (Option (MacdResult F))
  unfolding ema_series at_end last_of macd_result
  from_series signal (raised e) = raised e
  from_series signal (returned dif) =
      macd_result (at_end (last_of dif)) (at_end (last_of (ema_series dif signal)))

  -- `macd`
  unfoldable pub macd : List F → ℕ → ℕ → ℕ → Outcome SeriesError (Option (MacdResult F))
  unfolding from_series difference ema_series
  macd closes fast slow signal =
      if is_empty closes || ltb (length closes) (slow + signal)
      then returned none
      else from_series signal (difference (ema_series closes fast) (ema_series closes slow))
