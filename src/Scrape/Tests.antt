-- ===== src/Scrape/Tests.antt =====
-- The theorems on the scrape job at a source with two items, and at an anti-crawl page.
use news_project.Prelude.{
  ℕ, ◌+◌, ◌≡◌, refl, true, none, some, List, [], ◌∷◌, arith, length, Text, codes,
}
use news_project.Prelude.Dict.{lookup}
use news_project.Common.Enums.{us}
use news_project.Common.Contracts.{RawArticle}
use news_project.Common.Ordered.{Distinct}
use news_project.Dedup.Raw.{RawNews}
use news_project.Dedup.Distinctness.{url_hashes}
use news_project.Scrape.{
  items, anti_crawl, Tables, state_of, watermark, scrape_one_source, is_paused, or_new, pauses,
}
use news_project.Scrape.Outcomes.{
  AllBy, job, scrape_one_source-rows, scrape_one_source-items, scrape_one_source-anti_crawl,
}

abbrev article : Text → ℕ → RawArticle
article hash published = record {
  source = codes "finnhub";
  market = us;
  fetched_at = 5000;
  published_at = published;
  url = codes "https://example.com/a";
  url_hash = hash;
  title = codes "Title";
  title_simhash = 7;
  body = none;
  raw_meta = [];
}

abbrev two_items : List RawArticle
two_items = article (codes "aa") 4000 ∷ article (codes "bb") 4500 ∷ []

abbrev next_id : List RawNews → ℕ
next_id rows = length rows + 1

abbrev no_rows : Tables
no_rows = record { states = []; rows = [] }

abbrev source : Text
source = codes "finnhub"

scrape_one_source-rows_example :
    let done = job next_id 4 source true (λ since. items two_items) 60 5000 5010 no_rows in
    (length done.1.rows ≡ length no_rows.rows + done.0.new_count)
    × Distinct (url_hashes done.1.rows)
scrape_one_source-rows_example =
    scrape_one_source-rows next_id 4 source true (λ since. items two_items) 60 5000 5010 no_rows tt

scrape_one_source-items_example :
    let done = job next_id 4 source true (λ since. items two_items) 60 5000 5010 no_rows in
    let row = state_of source done.1.states in
    (row.last_fetched_at ≡ some (watermark 5010 two_items))
    × AllBy (watermark 5010 two_items) two_items
    × (row.last_error ≡ none)
    × (row.error_count ≡ 0)
    × (length done.0.metrics ≡ length two_items)
unfolding is_paused state_of or_new pauses lookup
scrape_one_source-items_example =
    scrape_one_source-items next_id 4 source true (λ since. items two_items) 60 5000 5010 no_rows
      two_items refl refl

scrape_one_source-anti_crawl_example :
    let done = job next_id 4 source true (λ since. anti_crawl (codes "403")) 60 5000 5010 no_rows in
    (done.1.rows ≡ [])
    × (scrape_one_source next_id 4 source true (λ since. items two_items) 60 6000 6010 done.1
        ≡ (record { new_count = 0; metrics = []; alerts = [] }, done.1))
unfolding is_paused state_of or_new pauses lookup
scrape_one_source-anti_crawl_example =
    scrape_one_source-anti_crawl next_id 4 source true (λ since. anti_crawl (codes "403")) 60 5000
      5010 no_rows (codes "403") (λ since. items two_items) 6000 6010 refl refl (omega arith)
