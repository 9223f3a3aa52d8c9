-- ===== src/Dedup.antt =====
-- src/news_pipeline/dedup/dedup.py, with `hamming` of common/hashing.py.
pub mod Raw
pub mod Registered
pub mod Distinctness
mod Tests
use news_project.Prelude.{
  ℕ, zero, suc, ◌+◌, ◌/◌, ◌%◌, Bool, true, false, Option, none, some, List, [], ◌∷◌, leb, nat_beq,
  if◌then◌else◌, Text, codes,
}
use news_project.Common.Contracts.{RawArticle}
use news_project.Dedup.Raw.{RawNews, find_by_url_hash, insert_row, list_recent_simhashes}

-- how many of the lowest `bits` bits of two numbers differ
unfoldable pub differing_bits : ℕ → ℕ → ℕ → ℕ
differing_bits zero a b = 0
differing_bits (suc bits) a b =
    differing_bits bits (a / 2) (b / 2) + (if nat_beq (a % 2) (b % 2) then 0 else 1)

-- `hamming`: the mask keeps 64 bits
unfoldable pub hamming : ℕ → ℕ → ℕ
hamming = differing_bits 64

pub record DedupDecision : Type 0 where
  pub is_new : Bool
  pub raw_id : Option ℕ
  pub reason : Option Text

-- the loop over `list_recent_simhashes`: the id at which it returns; `distance` is that to the
-- article's simhash
unfoldable pub first_near : (ℕ → ℕ) → ℕ → List (ℕ × ℕ) → Option ℕ
first_near distance dist [] = none
first_near distance dist ((rid, sh) ∷ rest) =
    let later = first_near distance dist rest in if leb (distance sh) dist then some rid else later

module _ (new_id : List RawNews → ℕ) where
  -- after the loop
  unfoldable pub by_simhash : RawArticle → Option ℕ → List RawNews → DedupDecision × List RawNews
  unfolding insert_row
  by_simhash art (some rid) rows =
      (record { is_new = false; raw_id = some rid; reason = some (codes "simhash") }, rows)
  by_simhash art none rows =
      let (id, rows') = insert_row new_id art rows in
      (record { is_new = true; raw_id = some id; reason = none }, rows')

  -- after `find_by_url_hash`; a row of the table has an id
  unfoldable pub by_url :
      ℕ → ℕ → RawArticle → Option RawNews → List RawNews → DedupDecision × List RawNews
  unfolding by_simhash
  by_url dist now art (some row) rows =
      (record { is_new = false; raw_id = some row.id; reason = some (codes "url_hash") }, rows)
  by_url dist now art none rows =
      by_simhash art
        (first_near (λ sh. hamming sh art.title_simhash) dist (list_recent_simhashes now 24 rows))
        rows

  -- `Dedup.check_and_register`, with `title_distance_max` and the time
  unfoldable pub check_and_register :
      ℕ → ℕ → RawArticle → List RawNews → DedupDecision × List RawNews
  unfolding by_url
  check_and_register dist now art rows =
      by_url dist now art (find_by_url_hash art.url_hash rows) rows
