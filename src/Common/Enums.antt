-- ===== src/Common/Enums.antt =====
-- src/shared/common/enums.py and src/news_pipeline/common/enums.py: the string enums.
use news_project.Prelude.{Text, codes}

pub data Market : Type 0 where
  us cn : Market

-- `market.value`
unfoldable pub market_value : Market → Text
market_value us = codes "us"
market_value cn = codes "cn"

pub data Sentiment : Type 0 where
  bullish bearish neutral : Sentiment

pub data Magnitude : Type 0 where
  low medium high : Magnitude

pub data EventType : Type 0 where
  earnings m_and_a policy price_move downgrade upgrade filing other : EventType

pub data EntityType : Type 0 where
  company person event sector policy product : EntityType

pub data Predicate : Type 0 where
  supplies competes_with owns regulates partners_with mentions : Predicate

-- `event_type.value`
unfoldable pub event_type_value : EventType → Text
event_type_value EventType.earnings = codes "earnings"
event_type_value EventType.m_and_a = codes "m_and_a"
event_type_value EventType.policy = codes "policy"
event_type_value EventType.price_move = codes "price_move"
event_type_value EventType.downgrade = codes "downgrade"
event_type_value EventType.upgrade = codes "upgrade"
event_type_value EventType.filing = codes "filing"
event_type_value EventType.other = codes "other"

-- `sentiment.value`
unfoldable pub sentiment_value : Sentiment → Text
sentiment_value bullish = codes "bullish"
sentiment_value bearish = codes "bearish"
sentiment_value neutral = codes "neutral"

-- `magnitude.value`
unfoldable pub magnitude_value : Magnitude → Text
magnitude_value low = codes "low"
magnitude_value medium = codes "medium"
magnitude_value high = codes "high"
