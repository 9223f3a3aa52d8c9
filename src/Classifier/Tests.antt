-- ===== src/Classifier/Tests.antt =====
-- The theorem on importance.py at a news item in the gray zone, whose judge fails.
use news_project.Prelude.{true, none, [], ◌∷◌, codes}
use news_project.Common.Enums.{neutral, low, EventType}
use news_project.Common.Contracts.{EnrichedNews}
use news_project.Rules.Patterns.{digest}
use news_project.Classifier.Importance.{ImportanceClassifier, raise, client_failed, score_news}
use news_project.Classifier.Decision.{Decided, expected_score, score_news-Decided}

abbrev sample_news : EnrichedNews
sample_news = record {
  raw_id = 7;
  summary = codes "Annual report";
  related_tickers = [];
  sectors = [];
  event_type = EventType.filing;
  sentiment = neutral;
  magnitude = low;
  confidence = 900;
  key_quotes = [];
  entities = [];
  relations = [];
  model_used = codes "qwen";
  extracted_at = 0;
}

abbrev sample_classifier : ImportanceClassifier
sample_classifier = record {
  rules = record {
    sources_always_critical = codes "sec_edgar" ∷ [];
    sentiment_high_magnitude_critical = true;
  };
  client = λ e watchlist. raise client_failed;
  lo = 40;
  hi = 70;
  watchlist_tickers = [];
  gray_zone_action = digest;
  llm_enabled = true;
}

score_news-Decided_example :
    Decided sample_classifier sample_news
      (expected_score sample_classifier sample_news (codes "sec_edgar") none)
      (score_news sample_classifier sample_news (codes "sec_edgar") none)
score_news-Decided_example =
    score_news-Decided sample_classifier sample_news (codes "sec_edgar") none
