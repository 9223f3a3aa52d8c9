-- ===== src/Rules/Patterns.antt =====
-- rules/patterns.py, rules/verdict.py, and the part of config/schema.py that the rules read.
use news_project.Prelude.{ℕ, Bool, false, List, [], Text}
use news_project.Common.Enums.{Market, us, cn}

pub data PatternKind : Type 0 where
  ticker alias sector macro generic : PatternKind

pub record Pattern : Type 0 where
  pub text : Text
  pub is_english : Bool
  pub kind : PatternKind
  pub market : Market
  -- the ticker's code for `ticker` and `alias`, the keyword itself for the others
  pub owner : Text

pub record Match : Type 0 where
  pub pattern : Pattern
  pub start : ℕ
  -- inclusive
  pub end : ℕ
  pub matched_text : Text

pub record RulesVerdict : Type 0 where
  pub matched : Bool
  pub tickers : List Text
  pub related_tickers : List Text
  pub sectors : List Text
  pub macros : List Text
  pub generic_hits : List Text
  pub markets : List Text
  -- whole points
  pub score_boost : ℕ

-- `RulesVerdict(matched=False)`
abbrev pub no_match : RulesVerdict
no_match = record {
  matched = false;
  tickers = [];
  related_tickers = [];
  sectors = [];
  macros = [];
  generic_hits = [];
  markets = [];
  score_boost = 0;
}

pub record TickerEntry : Type 0 where
  pub ticker : Text
  pub name : Text
  pub aliases : List Text
  pub sectors : List Text
  pub macro_links : List Text
  pub alerts : List Text

pub record MarketKeywords : Type 0 where
  pub us : List Text
  pub cn : List Text

pub data GrayZoneAction : Type 0 where
  skip digest push : GrayZoneAction

-- `matcher` and `matcher_options` choose the matcher; there is one, without options.
pub record RulesSection : Type 0 where
  pub enable : Bool
  pub gray_zone_action : GrayZoneAction
  pub us : List TickerEntry
  pub cn : List TickerEntry
  pub keyword_list : MarketKeywords
  pub macro_keywords : MarketKeywords
  pub sector_keywords : MarketKeywords

-- `getattr(keywords, market)`
unfoldable pub keywords_of : Market → MarketKeywords → List Text
keywords_of us k = k.us
keywords_of cn k = k.cn

-- `getattr(rules, market)`
unfoldable pub entries_of : Market → RulesSection → List TickerEntry
entries_of us r = r.us
entries_of cn r = r.cn
