-- ===== src/Config/Watchlist.antt =====
-- `WatchlistFile` of src/news_pipeline/config/schema.py.
pub mod Valid
use news_project.Prelude.{
  ℕ, ◌≡◌, Bool, true, false, not, ◌&&◌, Option, none, some, List, [], ◌∷◌, map, keep, all, is_empty,
  elem, if◌then◌else◌, nat_beq, ltb, length, Text, text_eq,
}
use news_project.Common.Enums.{Market, us, cn}
use news_project.Common.Ordered.{update, sorted}
use news_project.Rules.Patterns.{TickerEntry, MarketKeywords, RulesSection, keywords_of, entries_of}

pub record LlmSection : Type 0 where
  pub enable : Bool
  pub us : List Text
  pub cn : List Text
  pub macro : List Text
  pub sectors : List Text

pub record WatchlistFile : Type 0 where
  pub rules : RulesSection
  pub llm : LlmSection

-- What the checks raise, with what their messages name.
pub data ConfigError : Type 0 where
  none_enabled : ConfigError
  duplicate_tickers : Market → List Text → ConfigError
  bad_sectors : Market → Text → List Text → ConfigError
  bad_macros : Market → Text → List Text → ConfigError

-- a check: what it raises, if it does
abbrev pub Check : Type 0
Check = Option ConfigError

-- a check and, if it passes, the next one
unfoldable pub and_next : Check → Check → Check
and_next none next = next
and_next (some e) next = some e

-- `at_least_one_enabled`
unfoldable pub at_least_one_enabled : WatchlistFile → Check
at_least_one_enabled f = if not f.rules.enable && not f.llm.enable then some none_enabled else none

unfoldable pub tickers_of : Market → WatchlistFile → List Text
unfolding entries_of
tickers_of market f = map (λ (t : TickerEntry). t.ticker) (entries_of market f.rules)

-- `tickers.count(t)`
unfoldable pub count : Text → List Text → ℕ
count t tickers = length (keep (λ x. text_eq.same x t) tickers)

-- `sorted({t for t in tickers if tickers.count(t) > 1})`
unfoldable pub duplicates : List Text → List Text
unfolding count update sorted
duplicates tickers = sorted (update [] (keep (λ t. ltb 1 (count t tickers)) tickers))

-- `len(tickers) != len(set(tickers))`, for one market
unfoldable pub market_unique : Market → WatchlistFile → Check
unfolding tickers_of duplicates update
market_unique market f =
    let tickers = tickers_of market f in
    if nat_beq (length tickers) (length (update [] tickers))
    then none
    else some (duplicate_tickers market (duplicates tickers))

-- `ticker_unique`
unfoldable pub ticker_unique : WatchlistFile → Check
unfolding market_unique and_next
ticker_unique f = and_next (market_unique us f) (market_unique cn f)

-- `set(xs) - known`, sorted
unfoldable pub unknown : List Text → List Text → List Text
unfolding update sorted
unknown known xs = sorted (update [] (keep (λ x. not (elem x known)) xs))

-- the two tests on an entry
unfoldable pub entry_valid : Market → List Text → List Text → TickerEntry → Check
unfolding unknown
entry_valid market sectors macros entry =
    let no_sectors = unknown sectors entry.sectors in
    let no_macros = unknown macros entry.macro_links in
    if not (is_empty no_sectors)
    then some (bad_sectors market entry.ticker no_sectors)
    else if not (is_empty no_macros)
    then some (bad_macros market entry.ticker no_macros)
    else none

unfoldable pub entries_valid : Market → List Text → List Text → List TickerEntry → Check
unfolding entry_valid and_next
entries_valid market sectors macros [] = none
entries_valid market sectors macros (e ∷ es) =
    and_next (entry_valid market sectors macros e) (entries_valid market sectors macros es)

unfoldable pub market_refs_valid : Market → WatchlistFile → Check
unfolding entries_valid keywords_of entries_of
market_refs_valid market f =
    entries_valid market (keywords_of market f.rules.sector_keywords)
      (keywords_of market f.rules.macro_keywords) (entries_of market f.rules)

-- `sector_macro_refs_valid`
unfoldable pub sector_macro_refs_valid : WatchlistFile → Check
unfolding market_refs_valid and_next
sector_macro_refs_valid f = and_next (market_refs_valid us f) (market_refs_valid cn f)

-- the checks of `WatchlistFile` in their order
unfoldable pub validate : WatchlistFile → Check
unfolding at_least_one_enabled ticker_unique sector_macro_refs_valid and_next
validate f =
    and_next (at_least_one_enabled f) (and_next (ticker_unique f) (sector_macro_refs_valid f))

-- `effective_us`
unfoldable pub effective_us : WatchlistFile → List Text
unfolding tickers_of
effective_us f = if f.rules.enable then tickers_of us f else f.llm.us

-- `effective_cn`
unfoldable pub effective_cn : WatchlistFile → List Text
unfolding tickers_of
effective_cn f = if f.rules.enable then tickers_of cn f else f.llm.cn
