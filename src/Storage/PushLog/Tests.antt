-- ===== src/Storage/PushLog/Tests.antt =====
-- The theorem on the alerts at three rows of the log.
use news_project.Prelude.{ℕ, ◌*◌, ◌≤◌, ◌<◌, ◌≡◌, ◌↔◌, true, none, List, [], ◌∷◌, In, Text, codes}
use news_project.Storage.PushLog.{PushLog, alert_on_push_failures}
use news_project.Storage.PushLog.Failures.{failures, alert_on_push_failures_iff}

abbrev push_row_at : ℕ → Text → PushLog
push_row_at at status = record {
  news_id = 1;
  channel = codes "feishu_us";
  sent_at = at;
  status = status;
  http_status = none;
  response = [];
  retries = 0;
}

abbrev sample_log : List PushLog
sample_log =
    push_row_at 100 (codes "failed")
    ∷ push_row_at 5000 (codes "failed")
    ∷ push_row_at 5100 (codes "ok")
    ∷ []

alert_on_push_failures_iff_example :
    In (codes "feishu_us", 1) (alert_on_push_failures true 1 6000 60 sample_log)
    ↔ ((1 ≡ failures 6000 (60 * 60) (codes "feishu_us") sample_log) × (1 ≤ 1) × (0 < 1))
alert_on_push_failures_iff_example =
    alert_on_push_failures_iff 1 6000 60 1 (codes "feishu_us") sample_log
