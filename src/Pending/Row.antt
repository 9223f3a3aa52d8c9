-- ===== src/Pending/Row.antt =====
-- The body of the loop of `process_pending` of src/news_pipeline/scheduler/jobs.py.
use news_project.Prelude.{
  ℕ, Bool, true, false, not, Option, none, some, List, [], ◌∷◌, if◌then◌else◌, Text, codes,
  text_beq, text_eq,
}
use news_project.Common.Enums.{Market, market_value}
use news_project.Common.Contracts.{
  RawArticle, EnrichedNews, ScoredNews, CommonMessage, DispatchPlan,
}
use news_project.Rules.Patterns.{RulesVerdict}
use news_project.Classifier.Importance.{Result, ok, raise, score_news}
use news_project.Router.{route}
use news_project.Push.Burst.{should_send}
use news_project.Push.Dispatcher.{dispatch}
use news_project.Push.Message.{build, build_from_rules}
use news_project.Push.Retry.{Outcome, returned, raised}
use news_project.Llm.Extractors.{LlmError, World}
use news_project.Llm.Pipeline.{process, process_with_rules}
use news_project.Dedup.Raw.{RawNews, mark_status}
use news_project.Digest.{DigestBuffer, enqueue}
use news_project.Storage.Processed.{NewsProcessed, processed_row, insert_processed}
use news_project.Storage.PushLog.{write_all}
use news_project.Pending.{
  JobError, assertion_error, value_error, validation_error, validated, not_scored, integrity_error,
  synth_enriched_from_rules, choose_digest_key, market_of, raw_to_article, Settings, JobState,
}

-- `markets=verdict.markets if verdict is not None else None`
unfoldable pub markets_of : Option RulesVerdict → Option (List Text)
markets_of none = none
markets_of (some v) = some v.markets

-- `scored.llm_reason == "rules-only-grayzone-skip"`
unfoldable pub is_dropped : Option Text → Bool
is_dropped none = false
is_dropped (some reason) = text_beq reason (codes "rules-only-grayzone-skip")

module _ {S : Type 0} (cfg : Settings S) (row : RawNews) where
  -- `raw_dao.mark_status(...)` and `continue`
  unfoldable pub leave : Text → Option Text → JobState S → Outcome JobError Bool × JobState S
  leave status error st =
      (returned false, record st { raw = mark_status row.id status error st.raw })

  -- an immediate plan: `should_send`, and the dispatch with its log unless that refuses
  unfoldable pub push_now : ℕ → List Text → DispatchPlan → JobState S → JobState S
  push_now proc_id tickers p st =
      let clock = cfg.clock row in
      let (send, burst) = should_send clock.monotonic tickers st.burst in
      let results = dispatch cfg.registry p.message p.channels in
      record st {
        push_log = if send then write_all clock.now proc_id results st.push_log else st.push_log;
        burst = burst;
      }

  -- the `else` of the loop over the plans; the table as `enqueue` leaves it
  unfoldable pub enqueued :
      Option (List DigestBuffer) → JobState S → Outcome JobError Bool × JobState S
  enqueued none st = (raised integrity_error, st)
  enqueued (some digest) st = (returned true, record st { digest = digest })

  unfoldable pub push_later : ℕ → Market → JobState S → Outcome JobError Bool × JobState S
  unfolding enqueued
  push_later proc_id market st =
      let clock = cfg.clock row in
      let key = choose_digest_key (clock.local_hour market) market in
      enqueued
        (enqueue (cfg.digest_id st.digest) clock.now proc_id (market_value market) key st.digest) st

  -- the loop over the plans, and `processed += 1`
  unfoldable pub run_plans :
      ℕ → Market → List Text → List DispatchPlan → JobState S → Outcome JobError Bool × JobState S
  unfolding push_now push_later
  run_plans proc_id market tickers [] st = (returned true, st)
  run_plans proc_id market tickers (p ∷ ps) st =
      let rest = run_plans proc_id market tickers ps (push_now proc_id tickers p st) in
      if p.immediate then rest else push_later proc_id market st

  -- `msg`
  unfoldable pub message_for :
      RawArticle → ScoredNews → Option RulesVerdict → Outcome JobError CommonMessage
  unfolding validated
  message_for art scored verdict =
      let http_url = cfg.http_url in
      let built = validated http_url (build cfg.source_labels art scored none) in
      if cfg.llm_enabled then built else elim verdict [
        | none ↦ raised assertion_error
        | some v ↦ validated http_url (build_from_rules cfg.source_labels art scored v none)
      ]

  -- from the message on
  unfoldable pub publish :
      ℕ
      → RawArticle
      → EnrichedNews
      → ScoredNews
      → Option RulesVerdict
      → Outcome JobError CommonMessage
      → JobState S
      → Outcome JobError Bool × JobState S
  unfolding run_plans markets_of
  publish proc_id art enriched scored verdict (raised e) st = (raised e, st)
  publish proc_id art enriched scored verdict (returned msg) st =
      run_plans proc_id art.market enriched.related_tickers
        (route cfg.by_market scored msg (markets_of verdict)) st

  -- from `proc_dao.insert` on
  unfoldable pub persist :
      RawArticle
      → EnrichedNews
      → ScoredNews
      → Option RulesVerdict
      → ℕ
      → Option (List NewsProcessed)
      → JobState S
      → Outcome JobError Bool × JobState S
  unfolding publish message_for
  persist art enriched scored verdict proc_id none st = (raised integrity_error, st)
  persist art enriched scored verdict proc_id (some rows) st =
      publish proc_id art enriched scored verdict (message_for art scored verdict)
        (record st { processed = rows; raw = mark_status row.id (codes "processed") none st.raw })

  -- from the score on
  unfoldable pub after_score :
      RawArticle
      → EnrichedNews
      → Option RulesVerdict
      → Result ScoredNews
      → JobState S
      → Outcome JobError Bool × JobState S
  unfolding persist leave is_dropped
  after_score art enriched verdict (raise e) st = (raised (not_scored e), st)
  after_score art enriched verdict (ok scored) st =
      let proc_id = cfg.processed_id st.processed in
      let rows = insert_processed (processed_row proc_id row.id enriched scored) st.processed in
      if is_dropped scored.llm_reason
      then leave (codes "skipped_grayzone") none st
      else persist art enriched scored verdict proc_id rows st

  unfoldable pub score_and_on :
      RawArticle
      → Option RulesVerdict
      → EnrichedNews
      → JobState S
      → Outcome JobError Bool × JobState S
  unfolding after_score
  score_and_on art verdict enriched st =
      after_score art enriched verdict (score_news cfg.importance enriched row.source verdict) st

  -- what the pipeline gave: the `except` clause, no news, or news
  unfoldable pub after_llm :
      RawArticle
      → Option RulesVerdict
      → Outcome LlmError (Option EnrichedNews) × World S
      → JobState S
      → Outcome JobError Bool × JobState S
  unfolding leave score_and_on
  after_llm art verdict (raised e, w) st =
      leave (codes "dead") (some (cfg.error_text e)) (record st { world = w })
  after_llm art verdict (returned none, w) st =
      leave (codes "skipped") none (record st { world = w })
  after_llm art verdict (returned (some enriched), w) st =
      score_and_on art verdict enriched (record st { world = w })

  -- `process_with_rules` on a verdict that matches, else `process`
  unfoldable pub call_llm :
      RawArticle → Option RulesVerdict → World S → Outcome LlmError (Option EnrichedNews) × World S
  call_llm art none w =
      let clock = cfg.clock row in
      process cfg.lower cfg.isoformat clock.day clock.now cfg.llm art row.id w
  call_llm art (some v) w =
      let clock = cfg.clock row in
      if v.matched
      then process_with_rules cfg.lower cfg.isoformat clock.day clock.now cfg.llm art v row.id w
      else process cfg.lower cfg.isoformat clock.day clock.now cfg.llm art row.id w

  -- the mode without the LLM
  unfoldable pub rules_only :
      RawArticle → Option RulesVerdict → JobState S → Outcome JobError Bool × JobState S
  unfolding score_and_on
  rules_only art none st = (raised assertion_error, st)
  rules_only art (some v) st =
      let enriched = synth_enriched_from_rules (cfg.clock row).now art v row.id in
      if v.matched then score_and_on art (some v) enriched st else (raised assertion_error, st)

  unfoldable pub enrich_and_on :
      RawArticle → Option RulesVerdict → JobState S → Outcome JobError Bool × JobState S
  unfolding after_llm call_llm rules_only
  enrich_and_on art verdict st =
      if cfg.llm_enabled
      then after_llm art verdict (call_llm art verdict st.world) st
      else rules_only art verdict st

  -- the rules' gate
  unfoldable pub gate :
      RawArticle
      → Option (RawArticle → RulesVerdict)
      → JobState S
      → Outcome JobError Bool × JobState S
  unfolding leave enrich_and_on
  gate art none st = enrich_and_on art none st
  gate art (some rules_match) st =
      let v = rules_match art in
      if not v.matched then leave (codes "skipped_rules") none st else enrich_and_on art (some v) st

  unfoldable pub with_article : Option RawArticle → JobState S → Outcome JobError Bool × JobState S
  unfolding gate
  with_article none st = (raised validation_error, st)
  with_article (some art) st = gate art cfg.rules_match st

  unfoldable pub with_market : Option Market → JobState S → Outcome JobError Bool × JobState S
  unfolding with_article raw_to_article
  with_market none st = (raised value_error, st)
  with_market (some market) st = with_article (raw_to_article cfg.http_url row market) st

  -- the body of the loop of `process_pending`: whether it reaches `processed += 1`
  unfoldable pub process_row : JobState S → Outcome JobError Bool × JobState S
  unfolding with_market market_of
  process_row st = with_market (market_of row.market) st
