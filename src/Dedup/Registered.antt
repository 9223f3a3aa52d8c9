-- ===== src/Dedup/Registered.antt =====
-- What a call of `check_and_register` decides, and what it leaves in the table.
use news_project.Prelude.{
  ℕ, ◌+◌, ◌*◌, ◌≤◌, ◌<◌, ◌≡◌, refl, sym, ap, subst, true, false, Option, none, some, List, [], ◌∷◌,
  ◌++◌, arith, leb, In, inl, inr, Text, codes, text_beq, text_beq_iff, keep, In-keep, keep-In,
  In-map, map-In, Bool-cases,
}
use news_project.Common.Contracts.{RawArticle}
use news_project.Dedup.Raw.{
  RawNews, find_by_url_hash, row_of, insert_unless, insert_row, is_recent, list_recent_simhashes,
}
use news_project.Dedup.{DedupDecision, hamming, first_near, by_simhash, by_url, check_and_register}

-- No row has the hash.
abbrev pub IsFresh : Text → List RawNews → Type 0
IsFresh url_hash rows = (row : RawNews) → In row rows → row.url_hash ≡ url_hash → ⊥

pub find_by_url_hash-some :
    (url_hash : Text) (rows : List RawNews) (row : RawNews)
    → find_by_url_hash url_hash rows ≡ some row
    → In row rows × (row.url_hash ≡ url_hash)
unfolding find_by_url_hash
find_by_url_hash-some h [] row e = ground arith
find_by_url_hash-some h (r ∷ rows) row e =
    ground (arith, find_by_url_hash-some h rows row, text_beq_iff r.url_hash h)

pub find_by_url_hash-none :
    (url_hash : Text) (rows : List RawNews)
    → find_by_url_hash url_hash rows ≡ none
    → IsFresh url_hash rows
unfolding find_by_url_hash
find_by_url_hash-none h [] e row i same = i.1
find_by_url_hash-none h (r ∷ rows) e row i same = elim (Bool-cases (text_beq r.url_hash h)) [
  | inl taken ↦ ground arith
  | inr other ↦ elim i [
    | inl here ↦ ground (arith, text_beq_iff r.url_hash h, ap (λ (x : RawNews). x.url_hash) here)
    | inr there ↦ find_by_url_hash-none h rows (ground arith) row there same
  ]
]

module _ (distance : ℕ → ℕ) (dist : ℕ) where
  first_near-some :
      (rest : List (ℕ × ℕ)) (rid : ℕ)
      → first_near distance dist rest ≡ some rid
      → (sh : ℕ) × In (rid, sh) rest × (distance sh ≤ dist)
  unfolding first_near
  first_near-some [] rid e = ground arith
  first_near-some ((r, sh) ∷ rest) rid e = elim (Bool-cases (leb (distance sh) dist)) [
    | inl near ↦ (sh, inl (ground arith), ground arith)
    | inr far ↦ let (s, i, n) = first_near-some rest rid (ground arith) in (s, inr i, n)
  ]

  first_near-none :
      (rest : List (ℕ × ℕ)) (rid sh : ℕ)
      → first_near distance dist rest ≡ none
      → In (rid, sh) rest
      → dist < distance sh
  unfolding first_near
  first_near-none [] rid sh e i = absurd i.1
  first_near-none ((r, s) ∷ rest) rid sh e i = elim i [
    | inl here ↦ ground (arith, ap (λ (x : ℕ × ℕ). x.1) here)
    | inr there ↦ first_near-none rest rid sh (ground arith) there
  ]

-- What a call decides, and the table after it.
pub data Registered (new_id : List RawNews → ℕ) (dist now : ℕ) (art : RawArticle)
    (rows : List RawNews) : DedupDecision × List RawNews → Type 0 where
  same_url :
      (row : RawNews)
      → In row rows
      → row.url_hash ≡ art.url_hash
      → Registered new_id dist now art rows
          (record { is_new = false; raw_id = some row.id; reason = some (codes "url_hash") }, rows)
  near_title :
      (row : RawNews)
      → IsFresh art.url_hash rows
      → In row rows
      → now ≤ row.fetched_at + 24 * 3600
      → hamming row.title_simhash art.title_simhash ≤ dist
      → Registered new_id dist now art rows
          (record { is_new = false; raw_id = some row.id; reason = some (codes "simhash") }, rows)
  added :
      IsFresh art.url_hash rows
      → ((row : RawNews)
          → In row rows
          → now ≤ row.fetched_at + 24 * 3600
          → dist < hamming row.title_simhash art.title_simhash)
      → Registered new_id dist now art rows (
        record { is_new = true; raw_id = some (new_id rows); reason = none },
        rows ++ row_of (new_id rows) art ∷ [],
      )

module _ (now : ℕ) (rows : List RawNews) where
  -- the pairs are those of the recent rows
  In-list_recent :
      (rid sh : ℕ)
      → In (rid, sh) (list_recent_simhashes now 24 rows)
      → (row : RawNews) × In row rows
        × (now ≤ row.fetched_at + 24 * 3600)
        × (row.id ≡ rid)
        × (row.title_simhash ≡ sh)
  unfolding list_recent_simhashes is_recent
  In-list_recent rid sh i =
      let (row, j, e) = In-map _ (rid, sh) (keep (is_recent now 24) rows) i in
      let (k, recent) = In-keep (is_recent now 24) row rows j in
      (
        row,
        k,
        ground arith,
        ground (arith, ap (λ (x : ℕ × ℕ). x.0) e),
        ground (arith, ap (λ (x : ℕ × ℕ). x.1) e),
      )

  list_recent-In :
      (row : RawNews)
      → In row rows
      → now ≤ row.fetched_at + 24 * 3600
      → In (row.id, row.title_simhash) (list_recent_simhashes now 24 rows)
  unfolding list_recent_simhashes is_recent
  list_recent-In row i recent =
      map-In (λ (r : RawNews). (r.id, r.title_simhash)) row (keep (is_recent now 24) rows)
        (keep-In (is_recent now 24) row rows i (ground arith))

module _ (new_id : List RawNews → ℕ) (dist now : ℕ) (art : RawArticle) (rows : List RawNews) where
  insert_fresh :
      find_by_url_hash art.url_hash rows ≡ none
      → insert_row new_id art rows ≡ (new_id rows, rows ++ row_of (new_id rows) art ∷ [])
  unfolding insert_row insert_unless
  insert_fresh e = rw e refl

  by_simhash-Registered :
      find_by_url_hash art.url_hash rows ≡ none
      → (near : Option ℕ)
      → first_near (λ sh. hamming sh art.title_simhash) dist (list_recent_simhashes now 24 rows)
        ≡ near
      → Registered new_id dist now art rows (by_simhash new_id art near rows)
  unfolding by_simhash
  by_simhash-Registered fresh (some rid) e =
      let (sh, i, close) =
        first_near-some (λ sh. hamming sh art.title_simhash) dist
          (list_recent_simhashes now 24 rows) rid e in
      let (row, j, recent, id, same) = In-list_recent now rows rid sh i in
      subst
        (λ r.
          Registered new_id dist now art rows
            (record { is_new = false; raw_id = some r; reason = some (codes "simhash") }, rows))
        id
        (near_title row (find_by_url_hash-none art.url_hash rows fresh) j recent
          (subst (λ x. hamming x art.title_simhash ≤ dist) (sym same) close))
  by_simhash-Registered fresh none e = rw (insert_fresh fresh) (
      added (find_by_url_hash-none art.url_hash rows fresh) (λ row i recent.
        first_near-none (λ sh. hamming sh art.title_simhash) dist
          (list_recent_simhashes now 24 rows) row.id row.title_simhash e
          (list_recent-In now rows row i recent)))

  by_url-Registered :
      (found : Option RawNews)
      → find_by_url_hash art.url_hash rows ≡ found
      → Registered new_id dist now art rows (by_url new_id dist now art found rows)
  unfolding by_url
  by_url-Registered (some row) e =
      let (i, same) = find_by_url_hash-some art.url_hash rows row e in same_url row i same
  by_url-Registered none e = by_simhash-Registered e _ refl

  -- An article whose url hash is in the table is a duplicate of that row; one whose title is within
  -- the distance of a row fetched in the last 24 hours is a duplicate of that row; in both cases the
  -- table stays. Any other article is new: the table gets its row, pending, and no other.
  pub check_and_register-Registered :
      Registered new_id dist now art rows (check_and_register new_id dist now art rows)
  unfolding check_and_register
  check_and_register-Registered = by_url-Registered (find_by_url_hash art.url_hash rows) refl
