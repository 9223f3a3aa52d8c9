-- ===== src/Dedup/Distinctness.antt =====
-- The table `raw_news` over calls of `check_and_register` and `mark_status`.
use news_project.Prelude.{
  ℕ, ◌≡◌, refl, sym, subst, false, ◌||◌, Option, List, [], ◌∷◌, ◌++◌, arith, elem, any, inl, inr,
  Text, text_eq, text_beq, text_beq_iff,
}
use news_project.Common.Contracts.{RawArticle}
use news_project.Common.Ordered.{Distinct}
use news_project.Dedup.Raw.{RawNews, row_of, mark_status}
use news_project.Dedup.{DedupDecision, check_and_register}
use news_project.Dedup.Registered.{
  IsFresh, Registered, same_url, near_title, added, check_and_register-Registered,
}

abbrev pub url_hashes : List RawNews → List Text
url_hashes [] = []
url_hashes (row ∷ rows) = row.url_hash ∷ url_hashes rows

-- What the scraper and the processing job do to the table.
pub data Event : Type 0 where
  register : ℕ → RawArticle → Event
  mark : ℕ → Text → Option Text → Event

unfoldable pub run : (List RawNews → ℕ) → ℕ → List Event → List RawNews → List RawNews
unfolding check_and_register mark_status
run new_id dist [] rows = rows
run new_id dist (register now art ∷ events) rows =
    run new_id dist events (check_and_register new_id dist now art rows).1
run new_id dist (mark id status error ∷ events) rows =
    run new_id dist events (mark_status id status error rows)

url_hashes-mark_status :
    (id : ℕ) (status : Text) (error : Option Text) (rows : List RawNews)
    → url_hashes (mark_status id status error rows) ≡ url_hashes rows
unfolding mark_status
url_hashes-mark_status id status error [] = refl
url_hashes-mark_status id status error (row ∷ rows) =
    ground (arith, url_hashes-mark_status id status error rows)

not_listed :
    (url_hash : Text) (rows : List RawNews)
    → IsFresh url_hash rows
    → elem url_hash (url_hashes rows) ≡ false
unfolding elem any
not_listed h [] fresh = refl
not_listed h (row ∷ rows) fresh = ground (
  arith,
  not_listed h rows (λ r i. fresh r (inr i)),
  fresh row (inl refl),
  text_beq_iff h row.url_hash,
)

elem-snoc :
    (x : Text) (rows : List RawNews) (row : RawNews)
    → elem x (url_hashes (rows ++ row ∷ [])) ≡ (elem x (url_hashes rows) || text_beq x row.url_hash)
unfolding elem any
elem-snoc x [] row = ground arith
elem-snoc x (r ∷ rows) row = ground (arith, elem-snoc x rows row)

Distinct-snoc :
    (rows : List RawNews) (row : RawNews)
    → Distinct (url_hashes rows)
    → IsFresh row.url_hash rows
    → Distinct (url_hashes (rows ++ row ∷ []))
Distinct-snoc [] row d fresh = (unfold elem any in refl, tt)
Distinct-snoc (r ∷ rows) row d fresh = (
  ground (
    arith,
    elem-snoc r.url_hash rows row,
    d.0,
    fresh r (inl refl),
    text_beq_iff r.url_hash row.url_hash,
  ),
  Distinct-snoc rows row d.1 (λ x i. fresh x (inr i)),
)

pub Registered-Distinct :
    (new_id : List RawNews → ℕ) (dist now : ℕ) (art : RawArticle) (rows : List RawNews)
    (result : DedupDecision × List RawNews)
    → Registered new_id dist now art rows result
    → Distinct (url_hashes rows)
    → Distinct (url_hashes result.1)
unfolding row_of
Registered-Distinct new_id dist now art rows result (same_url row i e) d = d
Registered-Distinct new_id dist now art rows result (near_title row f i r n) d = d
Registered-Distinct new_id dist now art rows result (added fresh far) d =
    Distinct-snoc rows (row_of (new_id rows) art) d fresh

-- Over any registrations and changes of status on a table without two rows of one url hash, no two
-- rows of the table get the same url hash.
pub url_hashes-run :
    (new_id : List RawNews → ℕ) (dist : ℕ) (events : List Event) (rows : List RawNews)
    → Distinct (url_hashes rows)
    → Distinct (url_hashes (run new_id dist events rows))
unfolding run
url_hashes-run new_id dist [] rows d = d
url_hashes-run new_id dist (register now art ∷ events) rows d =
    url_hashes-run new_id dist events (check_and_register new_id dist now art rows).1 (
      Registered-Distinct new_id dist now art rows _
        (check_and_register-Registered new_id dist now art rows) d)
url_hashes-run new_id dist (mark id status error ∷ events) rows d =
    url_hashes-run new_id dist events (mark_status id status error rows)
      (subst Distinct (sym (url_hashes-mark_status id status error rows)) d)
