-- ===== src/Pending.antt =====
-- `process_pending` of src/news_pipeline/scheduler/jobs.py, with `synth_enriched_from_rules`,
-- `_choose_digest_key` and `_raw_to_article`. A row has an id. The clocks are read once for each item.
pub mod Row
pub mod Batch
pub mod Settled
pub mod Marks
pub mod Drained
pub mod Stuck
pub mod Ready
pub mod Returns
pub mod Published
mod Tests
use news_project.Prelude.{
  ℕ, suc, ◌+◌, Bool, true, false, not, Option, none, some, List, [], ◌∷◌, ◌++◌, any, map, take, ltb,
  is_empty, if◌then◌else◌, Text, codes, text_beq, text_eq, rstrip,
}
use news_project.Prelude.Dict.{Dict}
use news_project.Common.Enums.{
  Market, us, cn, market_value, Sentiment, neutral, Magnitude, low, EventType,
}
use news_project.Common.Ordered.{update, sorted}
use news_project.Common.Contracts.{
  RawArticle, EnrichedNews, ScoredNews, Deeplink, CommonMessage, DispatchPlan,
}
use news_project.Rules.Patterns.{RulesVerdict}
use news_project.Classifier.Importance.{
  ImportanceClassifier, JudgeError, Result, ok, raise, score_news,
}
use news_project.Router.{route}
use news_project.Push.Burst.{BurstSuppressor, should_send}
use news_project.Push.Dispatcher.{Pusher, dispatch}
use news_project.Push.Message.{build, build_from_rules}
use news_project.Push.Retry.{Outcome, returned, raised}
use news_project.Llm.Extractors.{LlmError, World}
use news_project.Llm.Pipeline.{LlmPipeline, process, process_with_rules}
use news_project.Dedup.Raw.{RawNews, mark_status, list_pending}
use news_project.Digest.{DigestBuffer, enqueue}
use news_project.Storage.Processed.{NewsProcessed, processed_row, insert_processed}
use news_project.Storage.PushLog.{PushLog, write_all}

-- What ends a batch early.
pub data JobError : Type 0 where
  -- the `assert` of the rules-only mode
  assertion_error : JobError
  -- `Market(row.market)`
  value_error : JobError
  -- of a model of pydantic: an address that `HttpUrl` refuses
  validation_error : JobError
  -- of `score_news`, which the `try` does not enclose
  not_scored : JudgeError → JobError
  -- a unique constraint of the database
  integrity_error : JobError

-- `art.body or ""`
unfoldable pub body_of : RawArticle → Text
body_of art = elim art.body [ none ↦ [] | some body ↦ body ]

-- `body_excerpt or art.title`
unfoldable pub summary_or_title : Text → Text → Text
summary_or_title [] title = title
summary_or_title (c ∷ excerpt) title = c ∷ excerpt

-- `synth_enriched_from_rules`
unfoldable pub synth_enriched_from_rules : ℕ → RawArticle → RulesVerdict → ℕ → EnrichedNews
unfolding body_of summary_or_title
synth_enriched_from_rules now art verdict raw_id = record {
  raw_id = raw_id;
  summary = summary_or_title (rstrip (take 200 (body_of art))) art.title;
  related_tickers = sorted (update [] (verdict.tickers ++ verdict.related_tickers));
  sectors = verdict.sectors;
  event_type = EventType.other;
  sentiment = neutral;
  magnitude = low;
  confidence = 0;
  key_quotes = [];
  entities = [];
  relations = [];
  model_used = codes "rules-only";
  extracted_at = now;
}

-- `_choose_digest_key`, by the local hour of the market
unfoldable pub choose_digest_key : ℕ → Market → Text
choose_digest_key hour market =
    let period = if ltb hour 12 then codes "morning" else codes "evening" in
    period ++ (codes "_" ++ market_value market)

-- `Market(value)`
unfoldable pub market_of : Text → Option Market
market_of value =
    if text_beq value (codes "us")
    then some us
    else if text_beq value (codes "cn")
    then some cn
    else none

-- `_raw_to_article`, after its market has been read: the address is what `HttpUrl` makes of the row's, or
-- there is no article where that refuses it
unfoldable pub raw_to_article : (Text → Option Text) → RawNews → Market → Option RawArticle
raw_to_article http_url row market = elim (http_url row.url) [
  | none ↦ none
  | some url ↦ some (record {
    source = row.source;
    market = market;
    fetched_at = row.fetched_at;
    published_at = row.published_at;
    url = url;
    url_hash = row.url_hash;
    title = row.title;
    title_simhash = row.title_simhash;
    body = row.body;
    raw_meta = row.raw_meta;
  })
]

-- the addresses of a message, which `CommonMessage` and `Deeplink` take as `HttpUrl`
unfoldable pub addresses : CommonMessage → List Text
addresses msg = msg.source_url ∷ map (λ (l : Deeplink). l.url) msg.deeplinks

unfoldable pub is_refused : (Text → Option Text) → Text → Bool
is_refused http_url url = elim (http_url url) [ none ↦ true | some v ↦ false ]

-- a message that has been built, if its addresses are accepted
unfoldable pub validated : (Text → Option Text) → CommonMessage → Outcome JobError CommonMessage
unfolding addresses is_refused any
validated http_url msg =
    if any (is_refused http_url) (addresses msg) then raised validation_error else returned msg

-- A reading of the clocks: the UTC day and time, `time.monotonic`, and the hour in a market's zone.
pub record Clock : Type 0 where
  pub day : Text
  pub now : ℕ
  pub monotonic : ℕ
  pub local_hour : Market → ℕ

-- The arguments of the job that it does not change. `match` of the rules engine is given if the rules
-- are enabled and there is an engine; the ids of new rows are the database's. `http_url` is pydantic's
-- `HttpUrl`: the address that it makes of a text, if it accepts the text.
pub record Settings (S : Type 0) : Type 0 where
  pub rules_match : Option (RawArticle → RulesVerdict)
  pub llm_enabled : Bool
  pub llm : LlmPipeline S
  pub importance : ImportanceClassifier
  pub source_labels : Dict Text Text
  pub by_market : Dict Text (List Text)
  pub registry : Dict Text Pusher
  pub lower : Text → Text
  pub http_url : Text → Option Text
  pub isoformat : ℕ → Text
  pub error_text : LlmError → Text
  pub clock : RawNews → Clock
  pub processed_id : List NewsProcessed → ℕ
  pub digest_id : List DigestBuffer → ℕ

-- What the job changes.
pub record JobState (S : Type 0) : Type 0 where
  pub raw : List RawNews
  pub processed : List NewsProcessed
  pub push_log : List PushLog
  pub digest : List DigestBuffer
  pub burst : BurstSuppressor
  pub world : World S
