-- ===== src/Pending/Batch.antt =====
-- The loop of `process_pending` of src/news_pipeline/scheduler/jobs.py.
use news_project.Prelude.{ℕ, suc, Bool, List, [], ◌∷◌, if◌then◌else◌, text_eq}
use news_project.Push.Retry.{Outcome, returned, raised}
use news_project.Dedup.Raw.{RawNews, list_pending}
use news_project.Pending.{JobError, Settings, JobState}
use news_project.Pending.Row.{process_row}

-- the count after a round, and the next rounds
unfoldable pub counted :
    {S : Type 0} → Bool → Outcome JobError ℕ × JobState S → Outcome JobError ℕ × JobState S
counted b (raised e, st) = (raised e, st)
counted b (returned n, st) = (returned (if b then suc n else n), st)

unfoldable pub and_then :
    {S : Type 0}
    → Outcome JobError Bool × JobState S
    → (JobState S → Outcome JobError ℕ × JobState S)
    → Outcome JobError ℕ × JobState S
unfolding counted
and_then (raised e, st) rest = (raised e, st)
and_then (returned b, st) rest = counted b (rest st)

module _ {S : Type 0} (cfg : Settings S) where
  unfoldable pub process_rows : List RawNews → JobState S → Outcome JobError ℕ × JobState S
  unfolding process_row and_then
  process_rows [] st = (returned 0, st)
  process_rows (row ∷ rows) st = and_then (process_row cfg row st) (process_rows rows)

  -- `process_pending`
  unfoldable pub process_pending : ℕ → JobState S → Outcome JobError ℕ × JobState S
  unfolding process_rows
  process_pending batch_size st = process_rows (list_pending batch_size st.raw) st
