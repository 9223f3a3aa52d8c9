-- ===== src/Common/Contracts.antt =====
-- src/news_pipeline/common/contracts.py and src/shared/common/contracts.py. Times are whole ticks
-- of one clock, scores are whole points, and confidences are in thousandths.
use news_project.Prelude.{ℕ, Bool, Option, List, Text}
use news_project.Prelude.Dict.{Dict}
use news_project.Common.Enums.{Market, Sentiment, Magnitude, EventType, EntityType, Predicate}

pub record RawArticle : Type 0 where
  pub source : Text
  pub market : Market
  pub fetched_at : ℕ
  pub published_at : ℕ
  pub url : Text
  pub url_hash : Text
  pub title : Text
  pub title_simhash : ℕ
  pub body : Option Text
  -- the entries that are lists of strings, the only ones that the code reads
  pub raw_meta : Dict Text (List Text)

pub record Entity : Type 0 where
  pub type : EntityType
  pub name : Text
  pub ticker : Option Text
  pub market : Option Market
  pub aliases : List Text

pub record Relation : Type 0 where
  pub subject : Entity
  pub predicate : Predicate
  pub object : Entity
  pub confidence : ℕ

pub record EnrichedNews : Type 0 where
  pub raw_id : ℕ
  pub summary : Text
  pub related_tickers : List Text
  pub sectors : List Text
  pub event_type : EventType
  pub sentiment : Sentiment
  pub magnitude : Magnitude
  pub confidence : ℕ
  pub key_quotes : List Text
  pub entities : List Entity
  pub relations : List Relation
  pub model_used : Text
  pub extracted_at : ℕ

pub record ScoredNews : Type 0 where
  pub enriched : EnrichedNews
  pub score : ℕ
  pub is_critical : Bool
  pub rule_hits : List Text
  pub llm_reason : Option Text

pub record Badge : Type 0 where
  pub text : Text
  pub color : Text

pub record Deeplink : Type 0 where
  pub label : Text
  pub url : Text

pub record DigestItem : Type 0 where
  pub source_label : Text
  pub url : Text
  pub summary : Text

-- the literals of `kind`
pub data MessageKind : Type 0 where
  news alert alert_burst market_scan digest : MessageKind

-- A URL is the text that the code gives for it.
pub record CommonMessage : Type 0 where
  pub title : Text
  pub summary : Text
  pub source_label : Text
  pub source_url : Text
  pub badges : List Badge
  pub chart_url : Option Text
  -- the bytes of an image
  pub chart_image : Option (List ℕ)
  pub deeplinks : List Deeplink
  pub market : Market
  pub digest_items : List DigestItem
  pub kind : MessageKind

pub record DispatchPlan : Type 0 where
  pub message : CommonMessage
  pub channels : List Text
  pub immediate : Bool
