-- ===== src/Pending/Stuck.antt =====
-- A batch of `process_pending` of src/news_pipeline/scheduler/jobs.py whose first item is not scored.
use news_project.Prelude.{ℕ, ◌≡◌, ap, ◌∙◌, subst, List, ◌∷◌}
use news_project.Push.Retry.{raised}
use news_project.Classifier.Importance.{JudgeError}
use news_project.Dedup.Raw.{RawNews, list_pending}
use news_project.Pending.{not_scored, Settings, JobState}
use news_project.Pending.Row.{process_row}
use news_project.Pending.Settled.{Settles, process_row-Settles}
use news_project.Pending.Batch.{and_then, process_rows, process_pending}

-- If scoring the first item of a batch raises, then the whole batch raises that exception, no other
-- item is looked at, and the raw news are as before: the next batch is the same, with the same item
-- first.
pub process_pending-not_scored :
    {S : Type 0} (cfg : Settings S) (batch_size : ℕ) (st st' : JobState S) (row : RawNews)
    (rows : List RawNews) (e : JudgeError)
    → list_pending batch_size st.raw ≡ row ∷ rows
    → process_row cfg row st ≡ (raised (not_scored e), st')
    → (process_pending cfg batch_size st ≡ (raised (not_scored e), st'))
      × (st'.raw ≡ st.raw)
      × (list_pending batch_size st'.raw ≡ row ∷ rows)
unfolding process_pending process_rows and_then
process_pending-not_scored cfg batch_size st st' row rows e first h =
    let same = subst (Settles cfg row st) h (process_row-Settles cfg row st) in
    (
      ap (λ batch. process_rows cfg batch st) first
          ∙ ap (λ o. and_then o (process_rows cfg rows)) h,
      same,
      ap (list_pending batch_size) same ∙ first,
    )
