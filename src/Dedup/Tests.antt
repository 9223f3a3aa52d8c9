-- ===== src/Dedup/Tests.antt =====
-- The theorems on dedup at a table of one row.
use news_project.Prelude.{ℕ, ◌+◌, refl, elem, any, none, List, [], ◌∷◌, Text, codes, length}
use news_project.Common.Enums.{us}
use news_project.Common.Contracts.{RawArticle}
use news_project.Common.Ordered.{Distinct}
use news_project.Dedup.Raw.{RawNews, row_of}
use news_project.Dedup.{check_and_register}
use news_project.Dedup.Registered.{Registered, check_and_register-Registered}
use news_project.Dedup.Distinctness.{Event, register, mark, run, url_hashes, url_hashes-run}

abbrev article : Text → ℕ → RawArticle
article hash simhash = record {
  source = codes "finnhub";
  market = us;
  fetched_at = 100;
  published_at = 90;
  url = codes "https://example.com/a";
  url_hash = hash;
  title = codes "Title";
  title_simhash = simhash;
  body = none;
  raw_meta = [];
}

abbrev next_id : List RawNews → ℕ
next_id rows = length rows + 1

abbrev one_row : List RawNews
one_row = row_of 1 (article (codes "aa") 255) ∷ []

check_and_register-Registered_example :
    Registered next_id 4 200
      (article (codes "bb") 254)
      one_row
      (check_and_register next_id 4 200 (article (codes "bb") 254) one_row)
check_and_register-Registered_example =
    check_and_register-Registered next_id 4 200 (article (codes "bb") 254) one_row

abbrev sample_events : List Event
sample_events =
    register 200 (article (codes "bb") 254)
    ∷ register 210 (article (codes "cc") 65536)
    ∷ mark 1 (codes "processed") none
    ∷ register 220 (article (codes "cc") 0)
    ∷ []

one_row-Distinct : Distinct (url_hashes one_row)
unfolding row_of elem any
one_row-Distinct = (refl, tt)

url_hashes-run_example : Distinct (url_hashes (run next_id 4 sample_events one_row))
url_hashes-run_example = url_hashes-run next_id 4 sample_events one_row one_row-Distinct
