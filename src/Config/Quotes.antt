-- ===== src/Config/Quotes.antt =====
-- `QuoteWatchlistFile` and `HoldingsFile` of src/news_pipeline/config/schema.py. Costs are a type of
-- floats; the settings of the scans stand in Quotes/Scan.
use news_project.Prelude.{ℕ, Option, none, some, List, [], ◌∷◌, elem, if◌then◌else◌, Text, text_eq}
use news_project.Prelude.Dict.{Dict}
use news_project.Common.Ordered.{add}
use news_project.Quotes.Scan.{MarketScansCfg}

pub record QuoteTickerEntry : Type 0 where
  pub ticker : Text
  pub name : Text
  pub market : Text

pub record QuoteWatchlistFile (F : Type 0) : Type 0 where
  pub cn : List QuoteTickerEntry
  pub us : List QuoteTickerEntry
  pub market_scans : Dict Text (MarketScansCfg F)

pub record HoldingEntry (F : Type 0) : Type 0 where
  pub ticker : Text
  pub name : Option Text
  pub qty : ℕ
  pub cost_per_share : F

pub record PortfolioCfg (F : Type 0) : Type 0 where
  pub total_capital : Option F
  pub base_currency : Text

pub record HoldingsFile (F : Type 0) : Type 0 where
  pub holdings : List (HoldingEntry F)
  pub portfolio : PortfolioCfg F

-- the loop with `seen`: the first ticker that is there already
unfoldable pub first_duplicate : {A : Type 0} → (A → Text) → List Text → List A → Option Text
unfolding add
first_duplicate ticker_of seen [] = none
first_duplicate ticker_of seen (e ∷ es) =
    let rest = first_duplicate ticker_of (add (ticker_of e) seen) es in
    if elem (ticker_of e) seen then some (ticker_of e) else rest

-- `_tickers_unique`: the ticker that the message names
unfoldable pub tickers_unique : {F : Type 0} → QuoteWatchlistFile F → Option Text
unfolding first_duplicate
tickers_unique f = elim (first_duplicate (λ (e : QuoteTickerEntry). e.ticker) [] f.cn) [
  | some t ↦ some t
  | none ↦ first_duplicate (λ (e : QuoteTickerEntry). e.ticker) [] f.us
]

-- `_unique_holdings`
unfoldable pub unique_holdings : {F : Type 0} → HoldingsFile F → Option Text
unfolding first_duplicate
unique_holdings f = first_duplicate (λ (h : HoldingEntry _). h.ticker) [] f.holdings
