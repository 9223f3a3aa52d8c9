-- ===== src/Quotes/Scan/Ranked.antt =====
-- The three lists of src/quote_watcher/alerts/scan_ranker.py.
use news_project.Prelude.{
  ◌≡◌, ◌⊎◌, true, false, not, Bool, Option, none, some, List, arith, keep, if◌then◌else◌,
}
use news_project.Prelude.Sorting.{IsOrder, IsTop, take-IsTop}
use news_project.Quotes.Scan.{
  Floats, MarketRow, MarketScansCfg, ascending, descending, volume_key, gainers, losers, active,
  rank_market,
}

module _ {F : Type 0} (fl : Floats F) where
  -- What `<` does on floats that are numbers, as the feed drops rows with NaN.
  pub record IsLinear : Type 0 where
    pub asym : (x y : F) → fl.ltb x y ≡ true → fl.ltb y x ≡ false
    pub split : (x y z : F) → fl.ltb x z ≡ true → (fl.ltb x y ≡ true) ⊎ (fl.ltb y z ≡ true)

  -- A ratio that is there and not below the threshold, and a ratio with 0 for one that is not there.
  abbrev pub at_least : F → Option F → Bool
  at_least threshold ratio = elim ratio [ none ↦ false | some v ↦ fl.leb threshold v ]

  abbrev pub ratio_key : MarketRow F → F
  ratio_key r = elim r.volume_ratio [
    | none ↦ fl.zero
    | some v ↦ if fl.equal v fl.zero then fl.zero else v
  ]

  module _ (linear : IsLinear) (key : MarketRow F → F) where
    descending-IsOrder : IsOrder (descending fl key)
    unfolding descending
    descending-IsOrder = record {
      total = λ x y h. ground (arith, linear.asym (key x) (key y));
      trans = λ x y z h k. ground (arith, linear.split (key x) (key y) (key z));
    }

    ascending-IsOrder : IsOrder (ascending fl key)
    unfolding ascending
    ascending-IsOrder = record {
      total = λ x y h. ground (arith, linear.asym (key y) (key x));
      trans = λ x y z h k. ground (arith, linear.split (key z) (key y) (key x));
    }

  -- On floats that are linearly ordered, each list of the scan is the top n of its candidates: sorted,
  -- n of them or all if there are fewer, and no candidate that is left out is better than one in it.
  -- Gainers are above the threshold and by falling change, losers below its negative and by rising
  -- change, active rows at or above it in their volume ratio and by falling ratio.
  pub rank_market-IsTop :
      IsLinear
      → (rows : List (MarketRow F)) (cfg : MarketScansCfg F)
      → let result = rank_market fl rows cfg in
        let threshold = cfg.only_when_score_above in
        IsTop
          (λ a b. not (fl.ltb a.pct_change b.pct_change))
          cfg.push_top_n
          (keep (λ (r : MarketRow F). fl.ltb threshold r.pct_change) rows)
          result.top_gainers
        × IsTop
            (λ a b. not (fl.ltb b.pct_change a.pct_change))
            cfg.push_top_n
            (keep (λ (r : MarketRow F). fl.ltb r.pct_change (fl.neg threshold)) rows)
            result.top_losers
        × IsTop
            (λ a b. not (fl.ltb (ratio_key a) (ratio_key b)))
            cfg.push_top_n
            (keep (λ (r : MarketRow F). at_least threshold r.volume_ratio) rows)
            result.top_volume_ratio
  unfolding rank_market
  rank_market-IsTop linear rows cfg =
      let pct : MarketRow F → F = λ r. r.pct_change in
      let threshold = cfg.only_when_score_above in
      (
        take-IsTop _ (descending-IsOrder linear pct) cfg.push_top_n (gainers fl threshold rows),
        take-IsTop _ (ascending-IsOrder linear pct) cfg.push_top_n (losers fl threshold rows),
        take-IsTop _ (descending-IsOrder linear (volume_key fl)) cfg.push_top_n
            (active fl threshold rows),
      )
