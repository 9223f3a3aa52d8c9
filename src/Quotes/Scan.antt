-- ===== src/Quotes/Scan.antt =====
-- src/quote_watcher/alerts/scan_ranker.py, with `MarketRow` and `_infer_market` of
-- feeds/market_scan.py. Floats are a type with the operations that the code uses.
pub mod Ranked
use news_project.Prelude.{
  ℕ, ◌≡◌, Bool, true, false, ◌||◌, not, Option, none, some, List, [], ◌∷◌, keep, take,
  if◌then◌else◌, any, Text, codes, starts_with,
}
use news_project.Prelude.Sorting.{sort_by}

-- The operations on floats, with the formats `:.2f` and `:+.2f`.
pub record Floats (F : Type 0) : Type 0 where
  pub zero : F
  pub hundred : F
  pub ltb : F → F → Bool
  pub leb : F → F → Bool
  pub equal : F → F → Bool
  pub neg : F → F
  pub sub : F → F → F
  pub mul : F → F → F
  pub div : F → F → F
  pub fixed2 : F → Text
  pub signed2 : F → Text
  -- `n / 10000` with the format `:.1f`
  pub in_ten_thousands : ℕ → Text

pub record MarketRow (F : Type 0) : Type 0 where
  pub ticker : Text
  pub name : Text
  pub market : Text
  pub price : F
  pub pct_change : F
  pub volume : ℕ
  pub amount : F
  pub volume_ratio : Option F

-- the part of `MarketScansCfg` that is read
pub record MarketScansCfg (F : Type 0) : Type 0 where
  pub push_top_n : ℕ
  pub only_when_score_above : F

pub record ScanResult (F : Type 0) : Type 0 where
  pub top_gainers : List (MarketRow F)
  pub top_losers : List (MarketRow F)
  pub top_volume_ratio : List (MarketRow F)

-- `_infer_market`
unfoldable pub infer_market : Text → Text
infer_market code =
    let starts : Text → Bool = λ prefix. starts_with prefix code in
    if starts (codes "60") || starts (codes "68")
    then codes "SH"
    else if starts (codes "00") || starts (codes "30")
    then codes "SZ"
    else if starts (codes "8") || (starts (codes "4") || starts (codes "9"))
    then codes "BJ"
    else codes "SH"

module _ {F : Type 0} (fl : Floats F) where
  -- `sorted(..., key=key)`, which asks only `<`, and the same with `reverse=True`
  unfoldable pub ascending : (MarketRow F → F) → MarketRow F → MarketRow F → Bool
  ascending key a b = not (fl.ltb (key b) (key a))

  unfoldable pub descending : (MarketRow F → F) → MarketRow F → MarketRow F → Bool
  descending key a b = not (fl.ltb (key a) (key b))

  -- `r.volume_ratio or 0.0`
  unfoldable pub ratio_or_zero : Option F → F
  ratio_or_zero none = fl.zero
  ratio_or_zero (some v) = if fl.equal v fl.zero then fl.zero else v

  unfoldable pub volume_key : MarketRow F → F
  unfolding ratio_or_zero
  volume_key r = ratio_or_zero r.volume_ratio

  -- `r.volume_ratio is not None and r.volume_ratio >= threshold`
  unfoldable pub ratio_at_least : F → Option F → Bool
  ratio_at_least threshold none = false
  ratio_at_least threshold (some v) = fl.leb threshold v

  -- the generators of the three lists
  unfoldable pub gainers : F → List (MarketRow F) → List (MarketRow F)
  gainers threshold = keep (λ (r : MarketRow F). fl.ltb threshold r.pct_change)

  unfoldable pub losers : F → List (MarketRow F) → List (MarketRow F)
  losers threshold = keep (λ (r : MarketRow F). fl.ltb r.pct_change (fl.neg threshold))

  unfoldable pub active : F → List (MarketRow F) → List (MarketRow F)
  unfolding ratio_at_least
  active threshold = keep (λ (r : MarketRow F). ratio_at_least threshold r.volume_ratio)

  -- `rank_market`
  unfoldable pub rank_market : List (MarketRow F) → MarketScansCfg F → ScanResult F
  unfolding gainers losers active ascending descending volume_key sort_by
  rank_market rows cfg =
      let threshold = cfg.only_when_score_above in
      let n = cfg.push_top_n in
      record {
        top_gainers =
            take n
              (sort_by (descending (λ (r : MarketRow F). r.pct_change)) (gainers threshold rows));
        top_losers =
            take n
              (sort_by (ascending (λ (r : MarketRow F). r.pct_change)) (losers threshold rows));
        top_volume_ratio = take n (sort_by (descending volume_key) (active threshold rows));
      }
