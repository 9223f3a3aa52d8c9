-- ===== src/Pending/Published.antt =====
-- What `process_pending` of src/news_pipeline/scheduler/jobs.py does with scored news: push or queue.
use mathlib.Core.List.{append_assoc, append-nil}
use news_project.Prelude.{
  ℕ, ◌≡◌, refl, ap, ◌∙◌, sym, subst, Bool, true, false, Option, none, List, [], ◌∷◌, ◌++◌, any, map,
  ltb, codes, nat_beq, if◌then◌else◌, Text, Bool-cases, inl, inr, by_branch, is_empty, gather,
}
use news_project.Prelude.Dict.{Dict}
use news_project.Common.Enums.{Market, us, cn, market_value}
use news_project.Common.Contracts.{
  RawArticle, EnrichedNews, ScoredNews, CommonMessage, DispatchPlan,
}
use news_project.Rules.Patterns.{RulesVerdict}
use news_project.Router.{route, plans_for, channels_for, target_markets}
use news_project.Push.Burst.{BurstSuppressor, should_send}
use news_project.Push.Dispatcher.{SendResult, dispatch}
use news_project.Push.Retry.{Outcome, returned, raised}
use news_project.Dedup.Raw.{RawNews}
use news_project.Digest.{DigestBuffer, enqueue}
use news_project.Storage.PushLog.{PushLog, push_row, write, write_all}
use news_project.Pending.{JobError, integrity_error, Settings, JobState, choose_digest_key}
use news_project.Pending.Row.{push_now, enqueued, push_later, run_plans, markets_of, publish}

-- A row of the log for one news item and the result of a channel.
abbrev pub log_row : ℕ → ℕ → Text × SendResult → PushLog
log_row now news_id (channel, r) = record {
  news_id = news_id;
  channel = channel;
  sent_at = now;
  status = if r.ok then codes "ok" else codes "failed";
  http_status = r.http_status;
  response = r.response_body;
  retries = r.retries;
}

write_all-eq :
    (now news_id : ℕ) (results : Dict Text SendResult) (log : List PushLog)
    → write_all now news_id results log ≡ log ++ map (log_row now news_id) results
unfolding write_all write push_row
write_all-eq now news_id [] log = sym (append-nil log)
write_all-eq now news_id ((ch, r) ∷ results) log =
    let new = log_row now news_id (ch, r) in
    write_all-eq now news_id results (log ++ new ∷ [])
    ∙ append_assoc log (new ∷ []) (map (log_row now news_id) results)

-- The digest of the half of a market's day: an hour before 12 is in the morning.
abbrev pub key_at : ℕ → Market → Text
key_at hour us = if ltb hour 12 then codes "morning_us" else codes "evening_us"
key_at hour cn = if ltb hour 12 then codes "morning_cn" else codes "evening_cn"

choose_digest_key-eq-key_at :
    (hour : ℕ) (market : Market) → choose_digest_key hour market ≡ key_at hour market
unfolding choose_digest_key market_value
choose_digest_key-eq-key_at hour us =
    by_branch (λ p. p ++ codes "_us" ≡ key_at hour us) (ltb hour 12) _ _ (λ e. rw e refl)
      (λ e. rw e refl)
choose_digest_key-eq-key_at hour cn =
    by_branch (λ p. p ++ codes "_cn" ≡ key_at hour cn) (ltb hour 12) _ _ (λ e. rw e refl)
      (λ e. rw e refl)

-- A row of the digest buffer that waits for the digest of this market and key.
abbrev pub waiting_row : ℕ → ℕ → ℕ → Market → Text → DigestBuffer
waiting_row id now news_id market key = record {
  id = id;
  news_id = news_id;
  market = market_value market;
  scheduled_digest = key;
  added_at = now;
  consumed_at = none;
}

-- All plans are immediate, or none is.
abbrev pub AllImmediate : Bool → List DispatchPlan → Type 0
AllImmediate b [] = Unit
AllImmediate b (p ∷ ps) = (p.immediate ≡ b) × AllImmediate b ps

append-AllImmediate :
    (b : Bool) (ps qs : List DispatchPlan)
    → AllImmediate b ps
    → AllImmediate b qs
    → AllImmediate b (ps ++ qs)
append-AllImmediate b [] qs h k = k
append-AllImmediate b (p ∷ ps) qs (e, h) k = (e, append-AllImmediate b ps qs h k)

plans_for-AllImmediate :
    (by_market : Dict Text (List Text)) (scored : ScoredNews) (msg : CommonMessage) (mkt : Text)
    → AllImmediate scored.is_critical (plans_for by_market scored msg mkt)
unfolding plans_for
plans_for-AllImmediate by_market scored msg mkt =
    by_branch (AllImmediate scored.is_critical) (is_empty (channels_for by_market mkt)) []
      (record {
        message = msg;
        channels = channels_for by_market mkt;
        immediate = scored.is_critical;
      }
        ∷ [])
      (λ e. tt) (λ e. (refl, tt))

gather-AllImmediate :
    (by_market : Dict Text (List Text)) (scored : ScoredNews) (msg : CommonMessage)
    (mkts : List Text)
    → AllImmediate scored.is_critical (gather (plans_for by_market scored msg) mkts)
unfolding gather
gather-AllImmediate by_market scored msg [] = tt
gather-AllImmediate by_market scored msg (m ∷ ms) =
    append-AllImmediate scored.is_critical (plans_for by_market scored msg m) _
      (plans_for-AllImmediate by_market scored msg m) (gather-AllImmediate by_market scored msg ms)

-- the plans of a message all have its urgency
route-AllImmediate :
    (by_market : Dict Text (List Text)) (scored : ScoredNews) (msg : CommonMessage)
    (markets : Option (List Text))
    → AllImmediate scored.is_critical (route by_market scored msg markets)
unfolding route
route-AllImmediate by_market scored msg markets =
    gather-AllImmediate by_market scored msg (target_markets msg markets)

module _ {S : Type 0} (cfg : Settings S) (row : RawNews) (proc_id : ℕ) (market : Market)
    (tickers : List Text) where
  -- The buffer with one row more, for the digest of the half of the market's day.
  abbrev pub queue : JobState S → JobState S
  queue st =
      let clock = cfg.clock row in
      let key = key_at (clock.local_hour market) market in
      let new = waiting_row (cfg.digest_id st.digest) clock.now proc_id market key in
      record st { digest = st.digest ++ new ∷ [] }

  -- The rows that immediate plans add: of a plan that the suppressor lets through one for each result of
  -- its dispatch, of another plan none; and the suppressor after them.
  abbrev pub Sent : List DispatchPlan → BurstSuppressor → List PushLog → BurstSuppressor → Type 0
  Sent [] burst rows burst' = (rows ≡ []) × (burst' ≡ burst)
  Sent (p ∷ ps) burst rows burst' =
      let clock = cfg.clock row in
      let results = dispatch cfg.registry p.message p.channels in
      let (send, next) = should_send clock.monotonic tickers burst in
      (rest : List PushLog) × (rows
        ≡ (if send then map (log_row clock.now proc_id) results else []) ++ rest)
      × Sent ps next rest burst'

  -- What becomes of a news item with this id in a market, by whether it is critical.
  pub data Published (st : JobState S)
      : Bool → List DispatchPlan → Outcome JobError Bool × JobState S → Type 0 where
    -- no channel is configured
    nowhere : {b : Bool} → Published st b [] (returned true, st)
    -- critical: it is not queued, and each plan is pushed or held back
    pushed :
        {ps : List DispatchPlan} {st' : JobState S} (rows : List PushLog)
        → st'.raw ≡ st.raw
        → st'.processed ≡ st.processed
        → st'.digest ≡ st.digest
        → st'.world ≡ st.world
        → st'.push_log ≡ st.push_log ++ rows
        → Sent ps st.burst rows st'.burst
        → Published st true ps (returned true, st')
    -- not critical: one row waits for a digest, and nothing is pushed
    queued :
        {p : DispatchPlan} {ps : List DispatchPlan}
        → Published st false (p ∷ ps) (returned true, queue st)
    -- not critical, and the buffer already has a row of that news item
    refused :
        {p : DispatchPlan} {ps : List DispatchPlan}
        → any (λ (r : DigestBuffer). nat_beq r.news_id proc_id) st.digest ≡ true
        → Published st false (p ∷ ps) (raised integrity_error, st)

  push_now-log :
      (p : DispatchPlan) (st : JobState S)
      → let clock = cfg.clock row in
        let results = dispatch cfg.registry p.message p.channels in
        (push_now cfg row proc_id tickers p st).push_log
        ≡ st.push_log
          ++ (if (should_send clock.monotonic tickers st.burst).0
              then map (log_row clock.now proc_id) results
              else [])
  unfolding push_now
  push_now-log p st =
      let clock = cfg.clock row in
      let results = dispatch cfg.registry p.message p.channels in
      elim (Bool-cases (should_send clock.monotonic tickers st.burst).0) [
        | inl let_through ↦ rw let_through (write_all-eq clock.now proc_id results st.push_log)
        | inr held ↦ rw held (sym (append-nil st.push_log))
      ]

  -- Plans that are pushed: the tables but the log stay, and the log gets the rows.
  abbrev Pushes : List DispatchPlan → JobState S → JobState S → List PushLog → Type 0
  Pushes ps st st' rows =
      (st'.raw ≡ st.raw)
      × (st'.processed ≡ st.processed)
      × (st'.digest ≡ st.digest)
      × (st'.world ≡ st.world)
      × (st'.push_log ≡ st.push_log ++ rows)
      × Sent ps st.burst rows st'.burst

  run_plans-Pushes :
      (ps : List DispatchPlan) (st : JobState S)
      → AllImmediate true ps
      → (st' : JobState S) × (rows : List PushLog) × (run_plans cfg row proc_id market tickers ps st
          ≡ (returned true, st'))
        × Pushes ps st st' rows
  unfolding run_plans push_now
  run_plans-Pushes [] st im =
      (st, [], refl, (refl, refl, refl, refl, sym (append-nil st.push_log), (refl, refl)))
  run_plans-Pushes (q ∷ ps) st (e, im) =
      let next = push_now cfg row proc_id tickers q st in
      let clock = cfg.clock row in
      let new =
        if (should_send clock.monotonic tickers st.burst).0
        then map (log_row clock.now proc_id) (dispatch cfg.registry q.message q.channels)
        else [] in
      let (st', rest, f, (r, p, d, w, l, s)) = run_plans-Pushes ps next im in
      (
        st',
        new ++ rest,
        ap
              (λ c.
                if c
                then run_plans cfg row proc_id market tickers ps next
                else push_later cfg row proc_id market st)
              e
            ∙ f,
        (
          r,
          p,
          d,
          w,
          l ∙ ap (λ log. log ++ rest) (push_now-log q st) ∙ append_assoc st.push_log new rest,
          (rest, refl, s),
        ),
      )

  push_later-Published :
      (p : DispatchPlan) (ps : List DispatchPlan) (st : JobState S)
      → Published st false (p ∷ ps) (push_later cfg row proc_id market st)
  unfolding push_later enqueue enqueued
  push_later-Published p ps st =
      rw (choose_digest_key-eq-key_at ((cfg.clock row).local_hour market) market)
        (elim (Bool-cases (any (λ (r : DigestBuffer). nat_beq r.news_id proc_id) st.digest)) [
          | inl taken ↦ rw taken (refused taken)
          | inr free ↦ rw free queued
        ])

  run_plans-Published :
      (critical : Bool) (ps : List DispatchPlan) (st : JobState S)
      → AllImmediate critical ps
      → Published st critical ps (run_plans cfg row proc_id market tickers ps st)
  unfolding run_plans
  run_plans-Published true ps st im =
      let (st', rows, e, (r, p, d, w, l, s)) = run_plans-Pushes ps st im in
      subst (Published st true ps) (sym e) (pushed rows r p d w l s)
  run_plans-Published false [] st im = nowhere
  run_plans-Published false (p ∷ ps) st (e, im) =
      subst (Published st false (p ∷ ps))
        (sym (
          ap
            (λ c.
              if c
              then run_plans cfg row proc_id market tickers ps
                  (push_now cfg row proc_id tickers p st)
              else push_later cfg row proc_id market st)
            e))
        (push_later-Published p ps st)

-- Critical news is never queued and the job does not raise: for each plan in turn that the suppressor
-- lets through at the tickers of the news, the log gets one row for each result of the plan's dispatch,
-- with its channel, status, texts and retries, and none for a plan that it holds back.
-- Other news with a plan leaves log and bursts alone and gets one row in the buffer, for the morning
-- digest of its market if the hour there is before 12 and for the evening digest else, unless the buffer
-- has a row of it, when the job raises and changes nothing.
-- Without a plan nothing happens. The tables of raw and of processed news are not touched.
pub publish-Published :
    {S : Type 0} (cfg : Settings S) (row : RawNews) (proc_id : ℕ) (art : RawArticle)
    (e : EnrichedNews) (scored : ScoredNews) (verdict : Option RulesVerdict) (msg : CommonMessage)
    (st : JobState S)
    → Published cfg row proc_id art.market e.related_tickers st scored.is_critical
        (route cfg.by_market scored msg (markets_of verdict))
        (publish cfg row proc_id art e scored verdict (returned msg) st)
unfolding publish
publish-Published cfg row proc_id art e scored verdict msg st =
    let plans = route cfg.by_market scored msg (markets_of verdict) in
    run_plans-Published cfg row proc_id art.market e.related_tickers scored.is_critical plans st
      (route-AllImmediate cfg.by_market scored msg (markets_of verdict))
