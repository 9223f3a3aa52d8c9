-- ===== src/Classifier/Rules.antt =====
-- classifier/rules.py: the fixed rules and their weights.
use news_project.Prelude.{
  ℕ, ◌+◌, Bool, true, false, ◌&&◌, List, [], ◌∷◌, ◌++◌, leb, if◌then◌else◌, elem, Text, codes,
  text_eq,
}
use news_project.Common.Enums.{
  Sentiment, bullish, bearish, neutral, Magnitude, low, medium, high, EventType, event_type_value,
}
use news_project.Common.Contracts.{EnrichedNews}

-- `ClassifierRulesCfg`, less the price threshold, which nothing reads
pub record ClassifierRulesCfg : Type 0 where
  pub sources_always_critical : List Text
  pub sentiment_high_magnitude_critical : Bool

pub record RuleHit : Type 0 where
  pub name : Text
  pub weight : ℕ

-- `e.magnitude.value == "high"`
unfoldable pub is_high : Magnitude → Bool
is_high high = true
is_high medium = false
is_high low = false

-- `e.sentiment.value in ("bullish", "bearish")`
unfoldable pub is_strong : Sentiment → Bool
is_strong bullish = true
is_strong bearish = true
is_strong neutral = false

-- `e.event_type.value in ("earnings", "m_and_a", "downgrade", "upgrade")`
unfoldable pub is_notable : EventType → Bool
is_notable EventType.earnings = true
is_notable EventType.m_and_a = true
is_notable EventType.downgrade = true
is_notable EventType.upgrade = true
is_notable EventType.policy = false
is_notable EventType.price_move = false
is_notable EventType.filing = false
is_notable EventType.other = false

-- `e.event_type.value == "filing"`
unfoldable pub is_filing : EventType → Bool
is_filing EventType.filing = true
is_filing EventType.earnings = false
is_filing EventType.m_and_a = false
is_filing EventType.downgrade = false
is_filing EventType.upgrade = false
is_filing EventType.policy = false
is_filing EventType.price_move = false
is_filing EventType.other = false

-- `if test: hits.append(hit)`
unfoldable pub hit_if : Bool → RuleHit → List RuleHit
hit_if test hit = if test then hit ∷ [] else []

-- `RuleEngine.evaluate`
unfoldable pub evaluate : ClassifierRulesCfg → EnrichedNews → Text → List RuleHit
unfolding is_high is_strong is_notable is_filing hit_if
evaluate cfg e source =
    hit_if (elem source cfg.sources_always_critical)
      (record { name = codes "first_party_source"; weight = 30 })
    ++ (hit_if
          (cfg.sentiment_high_magnitude_critical && (is_high e.magnitude && is_strong e.sentiment))
          (record { name = codes "sentiment_high"; weight = 40 })
        ++ (hit_if (is_notable e.event_type)
              (record { name = codes "event_" ++ event_type_value e.event_type; weight = 20 })
            ++ hit_if (is_filing e.event_type) (record { name = codes "filing"; weight = 25 })))

unfoldable pub weights : List RuleHit → ℕ
weights [] = 0
weights (h ∷ hs) = h.weight + weights hs

-- `RuleEngine.score`
unfoldable pub score : List RuleHit → ℕ
unfolding weights
score hits = if leb 100 (weights hits) then 100 else weights hits
