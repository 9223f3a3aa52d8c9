-- ===== src/Dedup/Raw.antt =====
-- src/news_pipeline/storage/dao/raw_news.py over the table `raw_news` of storage/models.py, as the
-- list of its rows. Times are whole seconds. A simhash is its 64-bit pattern as a number; the id of a
-- new row, which the database chooses, is a parameter.
use news_project.Prelude.{
  ℕ, ◌+◌, ◌*◌, Bool, Option, none, some, List, [], ◌∷◌, ◌++◌, map, keep, take, leb, nat_beq,
  if◌then◌else◌, Text, codes, text_beq,
}
use news_project.Prelude.Dict.{Dict}
use news_project.Prelude.Sorting.{sort_by}
use news_project.Common.Enums.{market_value}
use news_project.Common.Contracts.{RawArticle}

pub record RawNews : Type 0 where
  pub id : ℕ
  pub source : Text
  pub market : Text
  pub url : Text
  pub url_hash : Text
  pub title : Text
  pub title_simhash : ℕ
  pub body : Option Text
  pub raw_meta : Dict Text (List Text)
  pub fetched_at : ℕ
  pub published_at : ℕ
  pub status : Text
  pub error : Option Text

-- `RawNewsDAO.find_by_url_hash`
unfoldable pub find_by_url_hash : Text → List RawNews → Option RawNews
find_by_url_hash url_hash [] = none
find_by_url_hash url_hash (row ∷ rows) =
    let rest = find_by_url_hash url_hash rows in
    if text_beq row.url_hash url_hash then some row else rest

-- the row that `insert` adds, with the fields that `check_and_register` gives it
unfoldable pub row_of : ℕ → RawArticle → RawNews
row_of id art = record {
  id = id;
  source = art.source;
  market = market_value art.market;
  url = art.url;
  url_hash = art.url_hash;
  title = art.title;
  title_simhash = art.title_simhash;
  body = art.body;
  raw_meta = art.raw_meta;
  fetched_at = art.fetched_at;
  published_at = art.published_at;
  status = codes "pending";
  error = none;
}

-- `insert` by whether the unique hash is taken, when it returns the id of the row that has it
unfoldable pub insert_unless :
    (List RawNews → ℕ) → RawArticle → Option RawNews → List RawNews → ℕ × List RawNews
unfolding row_of
insert_unless new_id art (some row) rows = (row.id, rows)
insert_unless new_id art none rows = (new_id rows, rows ++ row_of (new_id rows) art ∷ [])

-- `RawNewsDAO.insert`
unfoldable pub insert_row : (List RawNews → ℕ) → RawArticle → List RawNews → ℕ × List RawNews
unfolding insert_unless find_by_url_hash
insert_row new_id art rows = insert_unless new_id art (find_by_url_hash art.url_hash rows) rows

-- `RawNewsDAO.get`
unfoldable pub get_row : ℕ → List RawNews → Option RawNews
get_row id [] = none
get_row id (row ∷ rows) = let rest = get_row id rows in if nat_beq row.id id then some row else rest

-- `RawNewsDAO.mark_status`; an id is that of one row
unfoldable pub mark_status : ℕ → Text → Option Text → List RawNews → List RawNews
mark_status id status error [] = []
mark_status id status error (row ∷ rows) =
    let rest = mark_status id status error rows in
    if nat_beq row.id id then record row { status = status; error = error } ∷ rows else row ∷ rest

-- `row.fetched_at >= cutoff`, with `cutoff = now - window`
unfoldable pub is_recent : ℕ → ℕ → RawNews → Bool
is_recent now window_hours row = leb now (row.fetched_at + window_hours * 3600)

-- `RawNewsDAO.list_recent_simhashes`
unfoldable pub list_recent_simhashes : ℕ → ℕ → List RawNews → List (ℕ × ℕ)
unfolding is_recent
list_recent_simhashes now window_hours rows =
    map (λ (row : RawNews). (row.id, row.title_simhash)) (keep (is_recent now window_hours) rows)

-- `status == "pending"`
unfoldable pub is_waiting : RawNews → Bool
is_waiting row = text_beq row.status (codes "pending")

-- `order_by(RawNews.published_at)`; rows of one time keep the order of the table
unfoldable pub published_first : RawNews → RawNews → Bool
published_first a b = leb a.published_at b.published_at

-- `RawNewsDAO.list_pending`
unfoldable pub list_pending : ℕ → List RawNews → List RawNews
unfolding is_waiting published_first sort_by
list_pending limit rows = take limit (sort_by published_first (keep is_waiting rows))
