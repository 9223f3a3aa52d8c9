-- ===== src/Router/Tests.antt =====
-- The theorem on the router at one route.
use news_project.Prelude.{
  true, none, some, List, [], ◌∷◌, Text, codes, text_beq, refl, inl, inr, In,
}
use news_project.Prelude.Dict.{Dict, lookup}
use news_project.Common.Enums.{us, neutral, low, EventType}
use news_project.Common.Contracts.{MessageKind, CommonMessage, ScoredNews}
use news_project.Router.{route, target_markets, plan_of, route_iff}

abbrev sample_message : CommonMessage
sample_message = record {
  title = codes "Title";
  summary = codes "Summary";
  source_label = codes "finnhub";
  source_url = codes "https://example.com";
  badges = [];
  chart_url = none;
  chart_image = none;
  deeplinks = [];
  market = us;
  digest_items = [];
  kind = MessageKind.news;
}

abbrev sample_scored : ScoredNews
sample_scored = record {
  enriched = record {
    raw_id = 7;
    summary = codes "Annual report";
    related_tickers = [];
    sectors = [];
    event_type = EventType.filing;
    sentiment = neutral;
    magnitude = low;
    confidence = 900;
    key_quotes = [];
    entities = [];
    relations = [];
    model_used = codes "qwen";
    extracted_at = 0;
  };
  score = 90;
  is_critical = true;
  rule_hits = [];
  llm_reason = none;
}

abbrev sample_channels : Dict Text (List Text)
sample_channels = (codes "us", codes "feishu_us" ∷ []) ∷ (codes "cn", []) ∷ []

route_iff_example :
    In
      (plan_of sample_scored sample_message (codes "feishu_us" ∷ []))
      (route sample_channels sample_scored sample_message (some (codes "cn" ∷ codes "us" ∷ [])))
unfolding target_markets lookup text_beq
route_iff_example =
    (route_iff sample_channels sample_scored sample_message (some (codes "cn" ∷ codes "us" ∷ []))
        (plan_of sample_scored sample_message (codes "feishu_us" ∷ []))).1
      (codes "us", codes "feishu_us" ∷ [], inl (inr (inl refl)), refl, refl, refl)
