-- ===== src/Llm/Client.antt =====
-- llm/clients/base.py: what goes to an LLM client and comes back. The payload is the JSON object that
-- the client parsed, with the keys that the extractors read; a missing key is `none`, and the values
-- have the types that the prompts ask for. A confidence is in thousandths. A schema or an example is
-- its JSON text.
use news_project.Prelude.{ℕ, Bool, Option, none, some, List, Text}
use news_project.Llm.Cost.{TokenUsage}
use news_project.Push.Retry.{Outcome}

pub record LlmRequest : Type 0 where
  pub model : Text
  pub system : Text
  pub user : Text
  pub json_mode : Bool
  pub output_schema : Option Text
  pub max_tokens : ℕ
  pub cache_segments : List Text
  pub few_shot_examples : List Text

pub record EntityPayload : Type 0 where
  pub type : Option Text
  pub name : Option Text
  pub ticker : Option Text
  pub market : Option Text
  pub aliases : Option (List Text)

pub record RelationPayload : Type 0 where
  pub subject_name : Option Text
  pub predicate : Option Text
  pub object_name : Option Text
  pub confidence : Option ℕ

pub record Payload : Type 0 where
  pub relevant : Option Bool
  pub tier_hint : Option Text
  pub watchlist_hit : Option Bool
  pub reason : Option Text
  pub summary : Option Text
  pub related_tickers : Option (List Text)
  pub sectors : Option (List Text)
  pub event_type : Option Text
  pub sentiment : Option Text
  pub magnitude : Option Text
  pub confidence : Option ℕ
  pub key_quotes : Option (List Text)
  pub entities : Option (List EntityPayload)
  pub relations : Option (List RelationPayload)

pub record LlmResponse : Type 0 where
  pub text : Text
  pub json_payload : Option Payload
  pub usage : TokenUsage
  pub model : Text

-- `LLMClient.call`, on the state `S` of what lies behind it; it raises an exception with a text
abbrev pub LlmClient : Type 0 → Type 0
LlmClient S = LlmRequest → S → Outcome Text LlmResponse × S

-- `payload.get(key, default)`
unfoldable pub get_or : {A : Type 0} → A → Option A → A
get_or default none = default
get_or default (some value) = value
