-- ===== src/Rules/Tests.antt =====
-- The theorems on the rules at a small watchlist, with the scanning automaton.
use news_project.Prelude.{
  ◌+◌, ◌↔◌, ◌⊎◌, true, ◌&&◌, none, some, [], ◌∷◌, map, leb, if◌then◌else◌, In, Text, codes,
}
use news_project.Common.Enums.{us}
use news_project.Rules.Patterns.{PatternKind, Match, digest, TickerEntry, RulesSection}
use news_project.Rules.Matcher.{rebuild, find_all}
use news_project.Rules.Matcher.Correct.{Hit, find_all_iff}
use news_project.Rules.Matcher.Naive.{naive, naive-FindsWords}
use news_project.Rules.Engine.{
  compile_patterns, rebuild_engine, match_article, verdict_for, article_text,
}
use news_project.Rules.Engine.Shape.{IsReport, verdict_for-IsReport}
use news_project.Rules.Watchlist.{
  MentionsTicker, LeadsBySector, LeadsByMacro, match_article-tickers, match_article-related,
}

-- `str.lower` on ASCII text
abbrev ascii_lower : Text → Text
ascii_lower = map (λ c. if leb b'A' c && leb c b'Z' then c + 32 else c)

abbrev nvda : TickerEntry
nvda = record {
  ticker = codes "NVDA";
  name = codes "NVIDIA";
  aliases = [];
  sectors = codes "Chips" ∷ [];
  macro_links = codes "Fed" ∷ [];
  alerts = [];
}

abbrev amd : TickerEntry
amd = record {
  ticker = codes "AMD";
  name = codes "AMD Inc";
  aliases = [];
  sectors = codes "chips" ∷ [];
  macro_links = [];
  alerts = [];
}

abbrev sample_rules : RulesSection
sample_rules = record {
  enable = true;
  gray_zone_action = digest;
  us = nvda ∷ amd ∷ [];
  cn = [];
  keyword_list = record { us = []; cn = [] };
  macro_keywords = record { us = codes "fed" ∷ []; cn = [] };
  sector_keywords = record { us = codes "chips" ∷ []; cn = [] };
}

abbrev title : Text
title = codes "Nvidia leads chips"

abbrev sample_match : Match
sample_match = record {
  pattern = record {
    text = codes "nvidia";
    is_english = true;
    kind = PatternKind.alias;
    market = us;
    owner = codes "NVDA";
  };
  start = 0;
  end = 5;
  matched_text = codes "nvidia";
}

find_all_iff_example :
    In sample_match (
      find_all naive ascii_lower
        (some (rebuild naive (compile_patterns ascii_lower sample_rules)))
        title)
    ↔ Hit ascii_lower (compile_patterns ascii_lower sample_rules) title sample_match
find_all_iff_example =
    find_all_iff naive naive-FindsWords ascii_lower (compile_patterns ascii_lower sample_rules)
      title sample_match

match_article-tickers_example :
    In
      (codes "NVDA")
      (match_article naive ascii_lower
        (rebuild_engine naive ascii_lower sample_rules)
        title
        none).tickers
    ↔ MentionsTicker ascii_lower sample_rules (article_text title none) (codes "NVDA")
match_article-tickers_example =
    match_article-tickers naive naive-FindsWords ascii_lower sample_rules title none (codes "NVDA")

match_article-related_example :
    In
      (codes "AMD")
      (match_article naive ascii_lower
        (rebuild_engine naive ascii_lower sample_rules)
        title
        none).related_tickers
    ↔ ((LeadsBySector ascii_lower sample_rules (article_text title none) (codes "AMD")
          ⊎ LeadsByMacro ascii_lower sample_rules (article_text title none) (codes "AMD"))
        × ¬ MentionsTicker ascii_lower sample_rules (article_text title none) (codes "AMD"))
match_article-related_example =
    match_article-related naive naive-FindsWords ascii_lower sample_rules title none (codes "AMD")

verdict_for-IsReport_example : IsReport (
    verdict_for
      ((codes "chips", codes "AMD" ∷ codes "NVDA" ∷ []) ∷ [])
      []
      (sample_match ∷ sample_match ∷ []))
verdict_for-IsReport_example =
    verdict_for-IsReport ((codes "chips", codes "AMD" ∷ codes "NVDA" ∷ []) ∷ []) []
      (sample_match ∷ sample_match ∷ [])
