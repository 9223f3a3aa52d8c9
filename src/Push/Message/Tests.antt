-- ===== src/Push/Message/Tests.antt =====
-- The theorem on messages at one scored article.
use news_project.Prelude.{
  ◌≤◌, ◌≡◌, ◌↔◌, refl, In, true, none, List, [], ◌∷◌, ◌++◌, length, Text, codes, starts_with,
}
use news_project.Common.Enums.{cn, bullish, high, EventType}
use news_project.Common.Contracts.{RawArticle, ScoredNews}
use news_project.Rules.Patterns.{RulesVerdict}
use news_project.Push.Message.{build, build_from_rules, quote_link}
use news_project.Push.Message.Shown.{
  IsAbout, page, mood, IsLink, IsBadge, IsRuleBadge, build-IsLink,
}

abbrev sample_article : RawArticle
sample_article = record {
  source = codes "sina";
  market = cn;
  fetched_at = 100;
  published_at = 90;
  url = codes "https://example.com/a";
  url_hash = codes "a";
  title = codes "Title";
  title_simhash = 0;
  body = none;
  raw_meta = [];
}

abbrev six_tickers : List Text
six_tickers =
    codes "600519"
    ∷ codes "000001"
    ∷ codes "300750"
    ∷ codes "688981"
    ∷ codes "601318"
    ∷ codes "000002"
    ∷ []

abbrev sample_scored : ScoredNews
sample_scored = record {
  enriched = record {
    raw_id = 1;
    summary = codes "Summary";
    related_tickers = six_tickers;
    sectors = codes "a" ∷ codes "b" ∷ codes "c" ∷ [];
    event_type = EventType.other;
    sentiment = bullish;
    magnitude = high;
    confidence = 900;
    key_quotes = [];
    entities = [];
    relations = [];
    model_used = codes "qwen";
    extracted_at = 100;
  };
  score = 80;
  is_critical = true;
  rule_hits = [];
  llm_reason = none;
}

abbrev sample_verdict : RulesVerdict
sample_verdict = record {
  matched = true;
  tickers = codes "600519" ∷ [];
  related_tickers = codes "000001" ∷ [];
  sectors = [];
  macros = codes "fed" ∷ [];
  generic_hits = [];
  markets = codes "cn" ∷ [];
  score_boost = 65;
}

-- a code that starts with 6 is one of Shanghai
shanghai : (quote_link cn (codes "600519")).url ≡ codes "https://quote.eastmoney.com/sh600519.html"
unfolding quote_link starts_with
shanghai = refl

build-IsLink_example :
    let direct = build [] sample_article sample_scored none in
    let ruled = build_from_rules [] sample_article sample_scored sample_verdict none in
    let tickers = sample_verdict.tickers ++ sample_verdict.related_tickers in
    let link = page cn (codes "600519") in
    let b = mood bullish in
    (In link direct.deeplinks ↔ IsLink sample_article six_tickers link)
    × (In link ruled.deeplinks ↔ IsLink sample_article tickers link)
    × (In b direct.badges ↔ IsBadge sample_scored b)
    × (In b ruled.badges ↔ IsRuleBadge sample_verdict b)
    × ((length direct.badges ≤ 9) × (length direct.deeplinks ≤ 4))
    × ((length ruled.badges ≤ 10) × (length ruled.deeplinks ≤ 4))
    × (IsAbout [] sample_article sample_scored direct
        × IsAbout [] sample_article sample_scored ruled)
build-IsLink_example =
    build-IsLink [] sample_article sample_scored sample_verdict none (page cn (codes "600519"))
      (mood bullish)
