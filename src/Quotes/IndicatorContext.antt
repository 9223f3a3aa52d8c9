-- ===== src/Quotes/IndicatorContext.antt =====
-- `build_indicator_context` of src/quote_watcher/alerts/context.py. The closures are functions.
use news_project.Prelude.{ℕ, ◌≡◌, ap, inl, inr, Bool, Option, none, some, List, [], ◌∷◌, ◌++◌}
use news_project.Push.Retry.{Outcome, returned, raised}
use news_project.Quotes.Engine.{QuoteSnapshot}
use news_project.Quotes.Scan.{Floats}
use news_project.Quotes.Indicator.{
  Arithmetic, SeriesError, MacdResult, ma, rsi, cross_above, cross_below, highest_n_days,
  lowest_n_days, macd,
}
use news_project.Quotes.Indicator.Defined.{macd-Returns}
use news_project.Quotes.Context.{Limits, ThresholdContext, build_threshold_context}

-- The averages that are computed beforehand.
pub record Averages (F : Type 0) : Type 0 where
  pub ma5 : Option F
  pub ma10 : Option F
  pub ma20 : Option F
  pub ma60 : Option F
  pub ma120 : Option F

pub record IndicatorContext (F : Type 0) : Type 0 where
  pub base : ThresholdContext F
  pub today : Averages F
  pub yday : Averages F
  pub macd_dif : F
  pub macd_dea : F
  pub macd_hist : F
  pub rsi : ℕ → Option F
  pub cross_above : F → F → Option F → Option F → Bool
  pub cross_below : F → F → Option F → Option F → Bool
  pub highest_n_days : ℕ → Option F
  pub lowest_n_days : ℕ → Option F

module _ {F : Type 0} (fl : Floats F) (ar : Arithmetic F) where
  -- `_ma` or `_ma_yday` at the five numbers of days
  unfoldable pub averages : List F → Averages F
  unfolding ma
  averages closes = record {
    ma5 = ma fl ar closes 5;
    ma10 = ma fl ar closes 10;
    ma20 = ma fl ar closes 20;
    ma60 = ma fl ar closes 60;
    ma120 = ma fl ar closes 120;
  }

  -- `_cross_above`, by the two values of yesterday
  unfoldable pub crossed_above : F → F → Option F → Option F → Bool
  unfolding cross_above
  crossed_above today_a today_b none yday_b = fl.ltb today_b today_a
  crossed_above today_a today_b (some yday_a) none = fl.ltb today_b today_a
  crossed_above today_a today_b (some yday_a) (some yday_b) =
      cross_above fl ar today_a today_b yday_a yday_b

  -- `_cross_below`
  unfoldable pub crossed_below : F → F → Option F → Option F → Bool
  unfolding cross_below
  crossed_below today_a today_b none yday_b = fl.ltb today_a today_b
  crossed_below today_a today_b (some yday_a) none = fl.ltb today_a today_b
  crossed_below today_a today_b (some yday_a) (some yday_b) =
      cross_below fl ar today_a today_b yday_a yday_b

  -- the three values of MACD, which are 0 where there is no result
  unfoldable pub macd_values : Option (MacdResult F) → MacdResult F
  macd_values none = record { dif = fl.zero; dea = fl.zero; hist = fl.zero }
  macd_values (some m) = m

  unfoldable pub with_macd :
      ThresholdContext F
      → List F
      → List F
      → Outcome SeriesError (Option (MacdResult F))
      → Outcome SeriesError (IndicatorContext F)
  unfolding averages crossed_above crossed_below macd_values rsi highest_n_days lowest_n_days
  with_macd base prior today (raised e) = raised e
  with_macd base prior today (returned result) = returned (record {
    base = base;
    today = averages today;
    yday = averages prior;
    macd_dif = (macd_values result).dif;
    macd_dea = (macd_values result).dea;
    macd_hist = (macd_values result).hist;
    rsi = rsi fl ar today;
    cross_above = crossed_above;
    cross_below = crossed_below;
    highest_n_days = highest_n_days fl ar today;
    lowest_n_days = lowest_n_days fl ar today;
  })

  -- `build_indicator_context`, by the closes of the bars
  unfoldable pub build_indicator_context :
      Limits F
      → (ℕ → ℕ)
      → (ℕ → ℕ)
      → QuoteSnapshot F
      → List F
      → F
      → F
      → Outcome SeriesError (IndicatorContext F)
  unfolding with_macd macd build_threshold_context
  build_indicator_context limits hour minute snap prior avg5d avg20d =
      let base = build_threshold_context fl ar limits hour minute snap (record {
        volume_avg5d = avg5d;
        volume_avg20d = avg20d;
        price_high_today_yday = fl.zero;
        price_low_today_yday = fl.zero;
      }) in
      let today = prior ++ snap.price ∷ [] in with_macd base prior today (macd fl ar today 12 26 9)

  -- The context is always built: on any bars, also none.
  build_indicator_context-Returns :
      (limits : Limits F) (hour minute : ℕ → ℕ) (snap : QuoteSnapshot F) (prior : List F)
      (avg5d avg20d : F)
      → (c : IndicatorContext F) × (build_indicator_context limits hour minute snap prior avg5d
            avg20d
          ≡ returned c)
  unfolding build_indicator_context with_macd
  build_indicator_context-Returns limits hour minute snap prior avg5d avg20d =
      elim (macd-Returns fl ar (prior ++ snap.price ∷ []) 12 26 9) [
        | inl (short, e) ↦ (_, ap (with_macd _ prior _) e)
        | inr (m, e, long, d) ↦ (_, ap (with_macd _ prior _) e)
      ]
