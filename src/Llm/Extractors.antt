-- ===== src/Llm/Extractors.antt =====
-- llm/extractors.py: the three tiers over a client. One reading of the clock, with its day, stands for
-- those of one call.
pub mod Deep
pub mod Known
use news_project.Prelude.{
  ℕ, Bool, true, false, Option, none, some, List, [], ◌∷◌, ◌++◌, leb, if◌then◌else◌, is_empty, map,
  join, Text, codes, text_eq,
}
use news_project.Prelude.Dict.{Dict, lookup, insert}
use news_project.Common.Contracts.{RawArticle, Entity, Relation, EnrichedNews}
use news_project.Common.Coerce.{
  safe_event_type, safe_sentiment, safe_magnitude, safe_predicate, safe_entity_type, safe_market,
}
use news_project.Llm.Cost.{CostTracker, Alert, record_usage}
use news_project.Llm.Client.{
  LlmRequest, LlmResponse, LlmClient, Payload, EntityPayload, RelationPayload, get_or,
}
use news_project.Llm.Prompts.{PromptFile, RenderedPrompt, render}
use news_project.Llm.Tiers.{Tier0Verdict}
use news_project.Push.Retry.{Outcome, returned, raised}

-- What a tier raises.
pub data LlmError : Type 0 where
  -- `CostCeilingExceeded`
  cost_ceiling_exceeded : LlmError
  -- of the rendering of the prompt
  not_rendered : Text → LlmError
  -- of the client
  client_failed : Text → LlmError
  -- `LLMError("tier… invalid json")`
  invalid_json : LlmError
  -- `payload["summary"]` without that key
  key_error : LlmError
  -- a confidence that is not in [0, 1]
  validation_error : LlmError

-- The tracker that the tiers share, the alerts that it has sent, and what lies behind the clients.
pub record World (S : Type 0) : Type 0 where
  pub cost : CostTracker
  pub alerts : List Alert
  pub backend : S

-- The fields that the three classes have, and Python's `str.format` on named arguments.
pub record Extractor (S : Type 0) : Type 0 where
  pub client : LlmClient S
  pub prompt : PromptFile
  pub model_override : Option Text
  pub format : Text → Dict Text Text → Outcome Text Text

-- `self._model_override or rendered.model_target`; an empty string is falsy
unfoldable pub model_or : Option Text → Text → Text
model_or none target = target
model_or (some name) target = if is_empty name then target else name

-- `if payload is None: raise LLMError(...)`
unfoldable pub payload_of : Option Payload → Outcome LlmError Payload
payload_of none = raised invalid_json
payload_of (some payload) = returned payload

module _ {S : Type 0} where
  -- from the response on: the use is recorded, then the payload is tested
  unfoldable pub answered :
      Text → World S → Outcome Text LlmResponse × S → Outcome LlmError Payload × World S
  unfolding payload_of
  answered day w (raised text, s) = (raised (client_failed text), record w { backend = s })
  answered day w (returned resp, s) = (
    payload_of resp.json_payload,
    record w { cost = record_usage day resp.model resp.usage w.cost; backend = s },
  )

  -- `resp = await self._client.call(req)` and what follows, if the prompt was rendered
  unfoldable pub ask :
      Text
      → Extractor S
      → (RenderedPrompt → LlmRequest)
      → Outcome Text RenderedPrompt
      → World S
      → Outcome LlmError Payload × World S
  unfolding answered
  ask day ex request (raised e) w = (raised (not_rendered e), w)
  ask day ex request (returned r) w = answered day w (ex.client (request r) w.backend)

  -- the result that a payload gives
  unfoldable pub conclude :
      {A : Type 0}
      → (Payload → Outcome LlmError A)
      → Outcome LlmError Payload × World S
      → Outcome LlmError A × World S
  conclude f (raised e, w) = (raised e, w)
  conclude f (returned payload, w) = (f payload, w)

-- the request of tier 0, without segments and examples
unfoldable pub short_request : Option Text → ℕ → RenderedPrompt → LlmRequest
unfolding model_or
short_request override max_tokens r = record {
  model = model_or override r.model_target;
  system = r.system;
  user = r.user;
  json_mode = true;
  output_schema = r.output_schema;
  max_tokens = max_tokens;
  cache_segments = [];
  few_shot_examples = [];
}

-- the request of tiers 1 and 2
unfoldable pub full_request : Option Text → ℕ → RenderedPrompt → LlmRequest
unfolding short_request
full_request override max_tokens r = record (short_request override max_tokens r) {
  cache_segments = r.cache_segments;
  few_shot_examples = r.few_shot_examples;
}

-- `",".join(art.raw_meta.get("tickers", []) or [])`
unfoldable pub meta_tickers : RawArticle → Text
unfolding get_or
meta_tickers art = join (codes ",") (get_or [] (lookup (codes "tickers") art.raw_meta))

unfoldable pub verdict_of : Payload → Outcome LlmError Tier0Verdict
unfolding get_or
verdict_of p = returned (record {
  relevant = get_or false p.relevant;
  tier_hint = get_or (codes "tier1") p.tier_hint;
  watchlist_hit = get_or false p.watchlist_hit;
  reason = get_or [] p.reason;
})

-- `Tier0Classifier.classify`
unfoldable pub classify :
    {S : Type 0}
    → Text
    → Extractor S
    → RawArticle
    → List Text
    → List Text
    → World S
    → Outcome LlmError Tier0Verdict × World S
unfolding ask conclude short_request meta_tickers verdict_of
classify day ex art watchlist_us watchlist_cn w =
    let vars =
      (codes "title", art.title)
      ∷ (codes "source", art.source)
      ∷ (codes "tickers", meta_tickers art)
      ∷ (codes "watchlist", join (codes ",") (watchlist_us ++ watchlist_cn))
      ∷ [] in
    conclude verdict_of
      (ask day ex (short_request ex.model_override 200) (render ex.format ex.prompt vars) w)
