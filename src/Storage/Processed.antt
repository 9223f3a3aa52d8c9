-- ===== src/Storage/Processed.antt =====
-- src/news_pipeline/storage/dao/news_processed.py. Scores are whole points, confidences thousandths;
-- the id of a new row, which the database chooses, is a parameter.
use news_project.Prelude.{
  ℕ, Bool, Option, none, some, List, [], ◌∷◌, ◌++◌, keep, take, any, leb, nat_beq, if◌then◌else◌,
  Text, codes, text_beq,
}
use news_project.Prelude.Sorting.{sort_by}
use news_project.Common.Enums.{event_type_value, sentiment_value, magnitude_value}
use news_project.Common.Contracts.{EnrichedNews, ScoredNews}

pub record NewsProcessed : Type 0 where
  pub id : ℕ
  pub raw_id : ℕ
  pub summary : Text
  pub event_type : Text
  pub sentiment : Text
  pub magnitude : Text
  pub confidence : ℕ
  pub key_quotes : List Text
  pub score : ℕ
  pub is_critical : Bool
  pub rule_hits : List Text
  pub llm_reason : Option Text
  pub model_used : Text
  pub extracted_at : ℕ
  pub push_status : Text

-- the row that `process_pending` gives to `insert`
unfoldable pub processed_row : ℕ → ℕ → EnrichedNews → ScoredNews → NewsProcessed
processed_row id raw_id e scored = record {
  id = id;
  raw_id = raw_id;
  summary = e.summary;
  event_type = event_type_value e.event_type;
  sentiment = sentiment_value e.sentiment;
  magnitude = magnitude_value e.magnitude;
  confidence = e.confidence;
  key_quotes = e.key_quotes;
  score = scored.score;
  is_critical = scored.is_critical;
  rule_hits = scored.rule_hits;
  llm_reason = scored.llm_reason;
  model_used = e.model_used;
  extracted_at = e.extracted_at;
  push_status = codes "pending";
}

-- `NewsProcessedDAO.insert`; the database refuses a second row for one raw item, when the call raises
unfoldable pub insert_processed : NewsProcessed → List NewsProcessed → Option (List NewsProcessed)
insert_processed row rows =
    if any (λ (r : NewsProcessed). nat_beq r.raw_id row.raw_id) rows
    then none
    else some (rows ++ row ∷ [])

-- `NewsProcessedDAO.get`
unfoldable pub get_processed : ℕ → List NewsProcessed → Option NewsProcessed
get_processed id [] = none
get_processed id (row ∷ rows) =
    let rest = get_processed id rows in if nat_beq row.id id then some row else rest

-- `NewsProcessedDAO.mark_push_status`; an id is that of one row
unfoldable pub mark_push_status : ℕ → Text → List NewsProcessed → List NewsProcessed
mark_push_status id status [] = []
mark_push_status id status (row ∷ rows) =
    let rest = mark_push_status id status rows in
    if nat_beq row.id id then record row { push_status = status } ∷ rows else row ∷ rest

unfoldable pub extracted_first : NewsProcessed → NewsProcessed → Bool
extracted_first a b = leb a.extracted_at b.extracted_at

-- `NewsProcessedDAO.list_pending_push`
unfoldable pub list_pending_push : ℕ → List NewsProcessed → List NewsProcessed
unfolding extracted_first sort_by
list_pending_push limit rows = take limit (
    sort_by extracted_first
      (keep (λ (r : NewsProcessed). text_beq r.push_status (codes "pending")) rows))
