-- ===== src/Pending/Settled.antt =====
-- What `process_pending` of src/news_pipeline/scheduler/jobs.py leaves in the table of raw news.
use news_project.Prelude.{
  ℕ, ◌+◌, ◌≡◌, refl, ap, ◌∙◌, sym, Bool, true, false, not, Option, none, some, List, [], ◌∷◌,
  if◌then◌else◌, any, arith, length, length-append, Text, codes, text_beq, Bool-cases, by_branch,
  Option-cases, inl, inr,
}
use news_project.Common.Contracts.{
  RawArticle, EnrichedNews, ScoredNews, CommonMessage, DispatchPlan,
}
use news_project.Common.Enums.{Market}
use news_project.Rules.Patterns.{RulesVerdict}
use news_project.Classifier.Importance.{Result, ok, raise, score_news}
use news_project.Router.{route}
use news_project.Push.Retry.{Outcome, returned, raised}
use news_project.Llm.Extractors.{LlmError, World}
use news_project.Dedup.Raw.{RawNews, mark_status}
use news_project.Digest.{DigestBuffer}
use news_project.Storage.Processed.{NewsProcessed, processed_row, insert_processed}
use news_project.Pending.{
  JobError, assertion_error, integrity_error, validation_error, validated, addresses, is_refused,
  value_error, not_scored, Settings, JobState, market_of, raw_to_article, synth_enriched_from_rules,
}
use news_project.Pending.Row.{
  leave, push_now, enqueued, push_later, run_plans, message_for, markets_of, publish, persist,
  is_dropped, after_score, score_and_on, after_llm, call_llm, rules_only, enrich_and_on, gate,
  with_article, with_market, process_row,
}

-- how many an item counts for
abbrev pub ticks : Bool → ℕ
ticks b = if b then 1 else 0

-- Which exceptions come from what is published, after the mark.
abbrev IsLate : JobError → Type 0
IsLate assertion_error = Unit
IsLate integrity_error = Unit
IsLate validation_error = Unit
IsLate value_error = ⊥
IsLate (not_scored e) = ⊥

-- An exception of the other kinds leaves the raw news as it was.
abbrev pub RaisesEarly : List RawNews → List RawNews → JobError → Type 0
RaisesEarly rows rows' assertion_error = Unit
RaisesEarly rows rows' integrity_error = Unit
RaisesEarly rows rows' validation_error = Unit
RaisesEarly rows rows' value_error = rows' ≡ rows
RaisesEarly rows rows' (not_scored e) = rows' ≡ rows

module _ {S : Type 0} (cfg : Settings S) (row : RawNews) where
  -- The tables of raw and processed news are as before.
  abbrev Keeps : JobState S → Outcome JobError Bool × JobState S → Type 0
  Keeps st (raised e, st') = IsLate e
  Keeps st (returned b, st') = (b ≡ true) × (st'.raw ≡ st.raw) × (st'.processed ≡ st.processed)

  -- The item has got a status other than "pending", and the processed news that the item counts for
  -- is there.
  abbrev pub Settles : JobState S → Outcome JobError Bool × JobState S → Type 0
  Settles st (raised e, st') = RaisesEarly st.raw st'.raw e
  Settles st (returned b, st') =
      (status : Text) × (error : Option Text) × (text_beq status (codes "pending") ≡ false)
      × (st'.raw ≡ mark_status row.id status error st.raw)
      × (length st'.processed ≡ length st.processed + ticks b)

  leave-Settles :
      (status : Text) (error : Option Text) (st : JobState S)
      → text_beq status (codes "pending") ≡ false
      → Settles st (leave cfg row status error st)
  unfolding leave
  leave-Settles status error st h = (status, error, h, refl, ground arith)

  push_later-Keeps :
      (proc_id : ℕ) (market : Market) (st : JobState S)
      → Keeps st (push_later cfg row proc_id market st)
  unfolding push_later
  push_later-Keeps proc_id market st = enqueued-Keeps _ st
    where
      enqueued-Keeps :
          (o : Option (List DigestBuffer)) (st : JobState S) → Keeps st (enqueued cfg row o st)
      enqueued-Keeps none st = tt
      enqueued-Keeps (some d) st = (refl, refl, refl)

  run_plans-Keeps :
      (proc_id : ℕ) (market : Market) (tickers : List Text) (ps : List DispatchPlan)
      (st : JobState S)
      → Keeps st (run_plans cfg row proc_id market tickers ps st)
  unfolding run_plans push_now
  run_plans-Keeps proc_id market tickers [] st = (refl, refl, refl)
  run_plans-Keeps proc_id market tickers (p ∷ ps) st = elim (Bool-cases p.immediate) [
    | inl e ↦
        rw e (run_plans-Keeps proc_id market tickers ps (push_now cfg row proc_id tickers p st))
    | inr e ↦ rw e (push_later-Keeps proc_id market st)
  ]

  publish-Keeps :
      (proc_id : ℕ) (art : RawArticle) (e : EnrichedNews) (scored : ScoredNews)
      (v : Option RulesVerdict) (msg : CommonMessage) (st : JobState S)
      → Keeps st (publish cfg row proc_id art e scored v (returned msg) st)
  unfolding publish
  publish-Keeps proc_id art e scored v msg st =
      run_plans-Keeps proc_id art.market e.related_tickers
        (route cfg.by_market scored msg (markets_of v)) st

  validated-publish :
      (proc_id : ℕ) (art : RawArticle) (e : EnrichedNews) (scored : ScoredNews)
      (v : Option RulesVerdict) (msg : CommonMessage) (st : JobState S)
      → Keeps st (publish cfg row proc_id art e scored v (validated cfg.http_url msg) st)
  unfolding publish validated
  validated-publish proc_id art e scored v msg st =
      by_branch (λ m. Keeps st (publish cfg row proc_id art e scored v m st))
        (any (is_refused cfg.http_url) (addresses msg)) (raised validation_error) (returned msg)
        (λ h. tt) (λ h. publish-Keeps proc_id art e scored v msg st)

  message_for-publish :
      (proc_id : ℕ) (art : RawArticle) (e : EnrichedNews) (scored : ScoredNews)
      (v : Option RulesVerdict) (st : JobState S)
      → Keeps st (publish cfg row proc_id art e scored v (message_for cfg row art scored v) st)
  unfolding publish message_for
  message_for-publish proc_id art e scored none st =
      by_branch (λ m. Keeps st (publish cfg row proc_id art e scored none m st)) cfg.llm_enabled _ _
        (λ h. validated-publish proc_id art e scored none _ st) (λ h. tt)
  message_for-publish proc_id art e scored (some v) st =
      by_branch (λ m. Keeps st (publish cfg row proc_id art e scored (some v) m st)) cfg.llm_enabled
        _ _ (λ h. validated-publish proc_id art e scored (some v) _ st)
        (λ h. validated-publish proc_id art e scored (some v) _ st)

  -- what is published after the mark
  Keeps-Settles :
      (st st' : JobState S) (o : Outcome JobError Bool × JobState S) (status : Text)
      (error : Option Text)
      → text_beq status (codes "pending") ≡ false
      → st'.raw ≡ mark_status row.id status error st.raw
      → length st'.processed ≡ length st.processed + 1
      → Keeps st' o
      → Settles st o
  Keeps-Settles st st' (raised assertion_error, s) status error h r p k = tt
  Keeps-Settles st st' (raised integrity_error, s) status error h r p k = tt
  Keeps-Settles st st' (raised validation_error, s) status error h r p k = tt
  Keeps-Settles st st' (raised value_error, s) status error h r p k = absurd k
  Keeps-Settles st st' (raised (not_scored e), s) status error h r p k = absurd k
  Keeps-Settles st st' (returned b, s) status error h r p (one, raw, proc) = (
    status,
    error,
    h,
    raw ∙ r,
    ap length proc ∙ p ∙ ap (λ b. length st.processed + ticks b) (sym one),
  )

  length-insert_processed :
      (r : NewsProcessed) (rows rows' : List NewsProcessed)
      → insert_processed r rows ≡ some rows'
      → length rows' ≡ length rows + 1
  unfolding insert_processed
  length-insert_processed r rows rows' h = ground (arith, length-append rows (r ∷ []))

  persist-Settles :
      (art : RawArticle) (e : EnrichedNews) (scored : ScoredNews) (v : Option RulesVerdict)
      (proc_id : ℕ) (o : Option (List NewsProcessed)) (st : JobState S)
      → ((rows : List NewsProcessed) → o ≡ some rows → length rows ≡ length st.processed + 1)
      → Settles st (persist cfg row art e scored v proc_id o st)
  unfolding persist text_beq
  persist-Settles art e scored v proc_id none st h = tt
  persist-Settles art e scored v proc_id (some rows) st h =
      let st' : JobState S = record st {
        processed = rows;
        raw = mark_status row.id (codes "processed") none st.raw;
      } in
      Keeps-Settles st st' _ (codes "processed") none refl refl (h rows refl)
        (message_for-publish proc_id art e scored v st')

  after_score-Settles :
      (art : RawArticle) (e : EnrichedNews) (v : Option RulesVerdict) (r : Result ScoredNews)
      (st : JobState S)
      → Settles st (after_score cfg row art e v r st)
  unfolding after_score text_beq
  after_score-Settles art e v (raise x) st = refl
  after_score-Settles art e v (ok scored) st =
      let proc_id = cfg.processed_id st.processed in
      let new = processed_row proc_id row.id e scored in
      elim (Bool-cases (is_dropped scored.llm_reason)) [
        | inl d ↦ rw d (leave-Settles (codes "skipped_grayzone") none st refl)
        | inr d ↦ rw d (
            persist-Settles art e scored v proc_id (insert_processed new st.processed) st
              (length-insert_processed new st.processed))
      ]

  score_and_on-Settles :
      (art : RawArticle) (v : Option RulesVerdict) (e : EnrichedNews) (st : JobState S)
      → Settles st (score_and_on cfg row art v e st)
  unfolding score_and_on
  score_and_on-Settles art v e st =
      after_score-Settles art e v (score_news cfg.importance e row.source v) st

  after_llm-Settles :
      (art : RawArticle) (v : Option RulesVerdict)
      (o : Outcome LlmError (Option EnrichedNews) × World S) (st : JobState S)
      → Settles st (after_llm cfg row art v o st)
  unfolding after_llm text_beq
  after_llm-Settles art v (raised e, w) st =
      leave-Settles (codes "dead") (some (cfg.error_text e)) (record st { world = w }) refl
  after_llm-Settles art v (returned none, w) st =
      leave-Settles (codes "skipped") none (record st { world = w }) refl
  after_llm-Settles art v (returned (some e), w) st =
      score_and_on-Settles art v e (record st { world = w })

  rules_only-Settles :
      (art : RawArticle) (v : Option RulesVerdict) (st : JobState S)
      → Settles st (rules_only cfg row art v st)
  unfolding rules_only
  rules_only-Settles art none st = tt
  rules_only-Settles art (some v) st =
      let e = synth_enriched_from_rules (cfg.clock row).now art v row.id in
      by_branch (Settles st) v.matched (score_and_on cfg row art (some v) e st)
        (raised assertion_error, st) (λ m. score_and_on-Settles art (some v) e st) (λ m. tt)

  enrich_and_on-Settles :
      (art : RawArticle) (v : Option RulesVerdict) (st : JobState S)
      → Settles st (enrich_and_on cfg row art v st)
  unfolding enrich_and_on
  enrich_and_on-Settles art v st =
      by_branch (Settles st) cfg.llm_enabled
        (after_llm cfg row art v (call_llm cfg row art v st.world) st) (rules_only cfg row art v st)
        (λ m. after_llm-Settles art v (call_llm cfg row art v st.world) st)
        (λ m. rules_only-Settles art v st)

  gate-Settles :
      (art : RawArticle) (match : Option (RawArticle → RulesVerdict)) (st : JobState S)
      → Settles st (gate cfg row art match st)
  unfolding gate text_beq
  gate-Settles art none st = enrich_and_on-Settles art none st
  gate-Settles art (some match) st =
      by_branch (Settles st) (not (match art).matched)
        (leave cfg row (codes "skipped_rules") none st)
        (enrich_and_on cfg row art (some (match art)) st)
        (λ m. leave-Settles (codes "skipped_rules") none st refl)
        (λ m. enrich_and_on-Settles art (some (match art)) st)

  with_article-Settles :
      (art : Option RawArticle) (st : JobState S) → Settles st (with_article cfg row art st)
  unfolding with_article
  with_article-Settles none st = tt
  with_article-Settles (some art) st = gate-Settles art cfg.rules_match st

  pub process_row-Settles : (st : JobState S) → Settles st (process_row cfg row st)
  unfolding process_row with_market
  process_row-Settles st = elim (Option-cases (market_of row.market)) [
    | inl e ↦ rw e refl
    | inr (market, e) ↦ rw e (with_article-Settles (raw_to_article cfg.http_url row market) st)
  ]
