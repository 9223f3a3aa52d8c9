-- ===== src/Config/Tests.antt =====
-- The theorem on watchlists at one with an entry that refers to an unknown sector.
use news_project.Prelude.{
  ◌≡◌, ◌↔◌, ◌⊎◌, refl, true, false, none, some, List, [], ◌∷◌, elem, any, keep, text_eq, text_beq,
  Text, codes,
}
use news_project.Common.Enums.{us, cn}
use news_project.Common.Ordered.{Distinct, add}
use news_project.Rules.Patterns.{TickerEntry, digest}
use news_project.Config.Watchlist.{WatchlistFile, bad_sectors, validate, tickers_of}
use news_project.Config.Watchlist.Valid.{AllRefer, validate_iff}

abbrev nvda : TickerEntry
nvda = record {
  ticker = codes "NVDA";
  name = codes "NVIDIA";
  aliases = [];
  sectors = codes "Chips" ∷ [];
  macro_links = [];
  alerts = [];
}

abbrev sample_file : List Text → WatchlistFile
sample_file sectors = record {
  rules = record {
    enable = true;
    gray_zone_action = digest;
    us = nvda ∷ [];
    cn = [];
    keyword_list = record { us = []; cn = [] };
    macro_keywords = record { us = []; cn = [] };
    sector_keywords = record { us = sectors; cn = [] };
  };
  llm = record { enable = false; us = []; cn = []; macro = []; sectors = [] };
}

-- the check compares case
unknown_sector :
    validate (sample_file (codes "chips" ∷ []))
    ≡ some (bad_sectors us (codes "NVDA") (codes "Chips" ∷ []))
unfolding validate add elem any keep text_beq
unknown_sector = refl

abbrev sample : WatchlistFile
sample = sample_file (codes "Chips" ∷ [])

validate_iff_example : (validate sample ≡ none) ↔ (
    ((sample.rules.enable ≡ true) ⊎ (sample.llm.enable ≡ true))
    × (Distinct (tickers_of us sample) × Distinct (tickers_of cn sample))
    × (AllRefer sample.rules.sector_keywords.us sample.rules.macro_keywords.us sample.rules.us
        × AllRefer sample.rules.sector_keywords.cn sample.rules.macro_keywords.cn sample.rules.cn))
validate_iff_example = validate_iff sample
