-- ===== src/Llm/Tests.antt =====
-- The theorems on the cost tracker at one day's events, and on the tiers at one article.
use news_project.Prelude.{
  ◌+◌, ◌-◌, ◌≤◌, ◌≡◌, ◌↔◌, true, false, ◌||◌, ◌⊎◌, elem, none, text_eq, text_beq, List, [], ◌∷◌,
  Text, codes,
}
use news_project.Common.Enums.{us}
use news_project.Common.Contracts.{RawArticle}
use news_project.Llm.Tiers.{Tier0Verdict, skip, tier2, decide, decide_iff}
use news_project.Llm.Cost.{
  CostTracker, Event, used, checked, run, today_cost, check, check_async, remaining_today,
}
use news_project.Llm.Cost.Totals.{spent, check-run}
use news_project.Llm.Cost.Alerts.{warns, left_for, warns-run}

abbrev today : Text
today = codes "2026-04-25"

abbrev sample_tracker : CostTracker
sample_tracker = record {
  ceiling = 1000;
  pricing = (codes "qwen", record { input_per_m = 2; output_per_m = 3 }) ∷ [];
  daily_total = [];
  has_bark = true;
  warn_num = 4;
  warn_den = 5;
  warned_today = [];
}

-- 850 spent, so that the first check warns
abbrev sample_events : List (Text × Event)
sample_events =
    (today, used (codes "qwen") (record { input_tokens = 200; output_tokens = 150 }))
    ∷ (today, checked)
    ∷ (today, used (codes "other") (record { input_tokens = 900; output_tokens = 900 }))
    ∷ (today, checked)
    ∷ []

check-run_example :
    let after = (run sample_events sample_tracker).1 in
    let cost = today_cost today sample_tracker + spent sample_tracker.pricing today sample_events in
    (check today after ≡ true ↔ sample_tracker.ceiling ≤ cost)
    × ((check_async today after).0.exceeded ≡ check today after)
    × (remaining_today today after ≡ sample_tracker.ceiling - cost)
check-run_example = check-run today sample_events sample_tracker

warns-run_example :
    warns today (run sample_events sample_tracker).0 ≤ left_for today sample_tracker.warned_today
warns-run_example = warns-run today sample_events sample_tracker

abbrev sample_article : RawArticle
sample_article = record {
  source = codes "finnhub";
  market = us;
  fetched_at = 100;
  published_at = 90;
  url = codes "https://example.com/a";
  url_hash = codes "aa";
  title = codes "Title";
  title_simhash = 7;
  body = none;
  raw_meta = [];
}

abbrev sample_verdict : Tier0Verdict
sample_verdict = record {
  relevant = true;
  tier_hint = codes "tier1";
  watchlist_hit = true;
  reason = codes "";
}

decide_iff_example :
    let deep = sample_verdict.watchlist_hit || text_beq sample_verdict.tier_hint (codes "tier2") in
    ((decide (codes "sec_edgar" ∷ []) sample_article sample_verdict ≡ skip) ↔ (
      (elem sample_article.source (codes "sec_edgar" ∷ []) ≡ false)
      × (sample_verdict.relevant ≡ false)))
    × ((decide (codes "sec_edgar" ∷ []) sample_article sample_verdict ≡ tier2) ↔ (
        (elem sample_article.source (codes "sec_edgar" ∷ []) ≡ true)
        ⊎ ((sample_verdict.relevant ≡ true) × (deep ≡ true))))
decide_iff_example = decide_iff (codes "sec_edgar" ∷ []) sample_article sample_verdict
