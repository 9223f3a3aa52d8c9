-- ===== src/Scrape.antt =====
-- src/news_pipeline/storage/dao/source_state.py, and `scrape_one_source` of scheduler/jobs.py. Times
-- are whole seconds. `now` is the clock before the fetch and `later` after it.
pub mod Outcomes
mod Tests
use news_project.Prelude.{
  ℕ, suc, ◌+◌, ◌-◌, ◌*◌, Bool, true, false, Option, none, some, List, [], ◌∷◌, leb, ltb,
  if◌then◌else◌, Text, codes, text_eq,
}
use news_project.Prelude.Dict.{Dict, lookup, insert}
use news_project.Common.Contracts.{RawArticle}
use news_project.Dedup.Raw.{RawNews}
use news_project.Dedup.{DedupDecision, check_and_register}

-- a row of `source_state`, whose key is the source
pub record SourceState : Type 0 where
  pub last_fetched_at : Option ℕ
  pub last_seen_url : Option Text
  pub paused_until : Option ℕ
  pub last_error : Option Text
  pub error_count : ℕ

-- `SourceState(source=source)`
abbrev pub new_state : SourceState
new_state = record {
  last_fetched_at = none;
  last_seen_url = none;
  paused_until = none;
  last_error = none;
  error_count = 0;
}

-- the row of the source, or a new one
unfoldable pub or_new : Option SourceState → SourceState
or_new none = new_state
or_new (some row) = row

unfoldable pub state_of : Text → Dict Text SourceState → SourceState
unfolding or_new
state_of source states = or_new (lookup source states)

-- `SourceStateDAO.update_watermark`, without a `last_seen_url`, which no caller gives
unfoldable pub update_watermark : Text → ℕ → Dict Text SourceState → Dict Text SourceState
update_watermark source at states =
    insert source
      (record (state_of source states) {
        last_fetched_at = some at;
        last_error = none;
        error_count = 0;
      })
      states

-- `SourceStateDAO.record_error`
unfoldable pub record_error : Text → Text → Dict Text SourceState → Dict Text SourceState
record_error source error states =
    let row = state_of source states in
    insert source (record row { last_error = some error; error_count = row.error_count + 1 }) states

-- `SourceStateDAO.set_paused`
unfoldable pub set_paused : Text → ℕ → Text → Dict Text SourceState → Dict Text SourceState
set_paused source until error states =
    insert source
      (record (state_of source states) { paused_until = some until; last_error = some error })
      states

-- `row.paused_until > now`, or not paused without one
unfoldable pub pauses : Option ℕ → ℕ → Bool
pauses none now = false
pauses (some until) now = ltb now until

-- `SourceStateDAO.is_paused`; a new row is not paused either
unfoldable pub is_paused : Text → ℕ → Dict Text SourceState → Bool
is_paused source now states = pauses (state_of source states).paused_until now

-- `state.last_fetched_at if state and state.last_fetched_at else now - lookback`
unfoldable pub since_of : Option ℕ → ℕ → ℕ → ℕ
since_of none now lookback_minutes = now - lookback_minutes * 60
since_of (some at) now lookback_minutes = at

-- What a fetch does: it returns items, or raises `AntiCrawlError`, an exception that `_is_transient`
-- accepts, or another one.
pub data Fetched : Type 0 where
  items : List RawArticle → Fetched
  anti_crawl transient structural : Text → Fetched

-- The alerts that a job sends, by the head of their title.
pub data ScrapeAlert : Type 0 where
  anti_crawl_alert structural_alert : Text → ScrapeAlert

unfoldable pub alert_if : Bool → ScrapeAlert → List ScrapeAlert
alert_if has_bark alert = if has_bark then alert ∷ [] else []

-- What a job did: the number that it returns, the names of the metrics that it incremented, and
-- its alerts.
pub record Scraped : Type 0 where
  pub new_count : ℕ
  pub metrics : List Text
  pub alerts : List ScrapeAlert

-- the loop over the items
unfoldable pub register_all :
    (List RawNews → ℕ) → ℕ → ℕ → List RawArticle → List RawNews → ℕ × List Text × List RawNews
register_all new_id dist now [] rows = (0, [], rows)
register_all new_id dist now (art ∷ arts) rows =
    let one = check_and_register new_id dist now art rows in
    let (count, names, rows') = register_all new_id dist now arts one.1 in
    (
      if one.0.is_new then count + 1 else count,
      (if one.0.is_new then codes "scrape_new" else codes "scrape_dup") ∷ names,
      rows',
    )

-- `max(it.published_at for it in items)`, from the first on
unfoldable pub latest : ℕ → List RawArticle → ℕ
latest at [] = at
latest at (art ∷ arts) = latest (if leb at art.published_at then art.published_at else at) arts

unfoldable pub watermark : ℕ → List RawArticle → ℕ
unfolding latest
watermark later [] = later
watermark later (art ∷ arts) = latest art.published_at arts

-- The tables that a job changes.
pub record Tables : Type 0 where
  pub states : Dict Text SourceState
  pub rows : List RawNews

module _ (new_id : List RawNews → ℕ) (dist : ℕ) (source : Text) (has_bark : Bool) where
  -- the `except` clauses, or the rest of the job
  unfoldable pub handle : ℕ → Fetched → Tables → Scraped × Tables
  unfolding alert_if
  handle later (anti_crawl error) t = (
    record { new_count = 0; metrics = []; alerts = alert_if has_bark (anti_crawl_alert source) },
    record t { states = set_paused source (later + 30 * 60) (codes "anti_crawl") t.states },
  )
  handle later (transient error) t = (
    record { new_count = 0; metrics = []; alerts = [] },
    record t { states = record_error source error t.states },
  )
  handle later (structural error) t = (
    record { new_count = 0; metrics = []; alerts = alert_if has_bark (structural_alert source) },
    record t { states = record_error source error t.states },
  )
  handle later (items arts) t =
      let (count, names, rows) = register_all new_id dist later arts t.rows in
      (
        record { new_count = count; metrics = names; alerts = [] },
        record { states = update_watermark source (watermark later arts) t.states; rows = rows },
      )

  -- `scrape_one_source`; the scraper's `fetch` takes `since`
  unfoldable pub scrape_one_source : (ℕ → Fetched) → ℕ → ℕ → ℕ → Tables → Scraped × Tables
  unfolding handle
  scrape_one_source fetch lookback_minutes now later t =
      if is_paused source now t.states
      then (record { new_count = 0; metrics = []; alerts = [] }, t)
      else handle later
          (fetch (since_of (state_of source t.states).last_fetched_at now lookback_minutes)) t
