-- ===== src/Storage/PushLog.antt =====
-- src/news_pipeline/storage/dao/push_log.py, and `alert_on_push_failures` of scheduler/jobs.py. Times
-- are whole seconds. The id of a row, which nothing reads, is left out.
mod Tests
pub mod Failures
use news_project.Prelude.{
  ℕ, suc, ◌+◌, ◌*◌, ◌&&◌, Bool, Option, none, some, List, [], ◌∷◌, ◌++◌, keep, leb, length, gather,
  if◌then◌else◌, Text, codes, text_eq, text_beq,
}
use news_project.Prelude.Dict.{Dict, lookup, insert}
use news_project.Push.Dispatcher.{SendResult}

pub record PushLog : Type 0 where
  pub news_id : ℕ
  pub channel : Text
  pub sent_at : ℕ
  pub status : Text
  pub http_status : Option ℕ
  pub response : Text
  pub retries : ℕ

-- the row that `process_pending` has written for a channel's result
unfoldable pub push_row : ℕ → ℕ → Text → SendResult → PushLog
push_row now news_id channel r = record {
  news_id = news_id;
  channel = channel;
  sent_at = now;
  status = if r.ok then codes "ok" else codes "failed";
  http_status = r.http_status;
  response = r.response_body;
  retries = r.retries;
}

-- `PushLogDAO.write`
unfoldable pub write : PushLog → List PushLog → List PushLog
write row rows = rows ++ row ∷ []

-- the loop over `results.items()`
unfoldable pub write_all : ℕ → ℕ → Dict Text SendResult → List PushLog → List PushLog
unfolding write push_row
write_all now news_id [] rows = rows
write_all now news_id ((ch, r) ∷ results) rows =
    write_all now news_id results (write (push_row now news_id ch r) rows)

-- `status == "failed"` and `sent_at >= cutoff`, with `cutoff = now - window`
unfoldable pub is_failure : ℕ → ℕ → PushLog → Bool
is_failure now window row = text_beq row.status (codes "failed") && leb now (row.sent_at + window)

-- `PushLogDAO.count_today_failures`
unfoldable pub count_today_failures : ℕ → Text → List PushLog → ℕ
unfolding is_failure
count_today_failures now channel rows =
    length (keep (λ (r : PushLog). text_beq r.channel channel && is_failure now 86400 r) rows)

-- `group_by(PushLog.channel)` with the count of each group
unfoldable pub tally : Option ℕ → ℕ
tally none = 1
tally (some n) = suc n

unfoldable pub count_by_channel : List PushLog → Dict Text ℕ → Dict Text ℕ
unfolding tally
count_by_channel [] counts = counts
count_by_channel (r ∷ rows) counts =
    count_by_channel rows (insert r.channel (tally (lookup r.channel counts)) counts)

-- `PushLogDAO.failure_counts_by_channel`
unfoldable pub failure_counts_by_channel : ℕ → ℕ → List PushLog → Dict Text ℕ
unfolding count_by_channel is_failure
failure_counts_by_channel now window_minutes rows =
    count_by_channel (keep (is_failure now (window_minutes * 60)) rows) []

-- the round of the loop for a channel: the one that is alerted on, if any
unfoldable pub over_threshold : ℕ → Text × ℕ → List (Text × ℕ)
over_threshold threshold (channel, count) =
    if leb threshold count then (channel, count) ∷ [] else []

-- `alert_on_push_failures`: the channels and counts of the alerts that it sends
unfoldable pub alert_on_push_failures : Bool → ℕ → ℕ → ℕ → List PushLog → List (Text × ℕ)
unfolding failure_counts_by_channel over_threshold
alert_on_push_failures has_bark threshold now window_minutes rows =
    if has_bark
    then gather (over_threshold threshold) (failure_counts_by_channel now window_minutes rows)
    else []
