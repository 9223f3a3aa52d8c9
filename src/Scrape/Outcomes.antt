-- ===== src/Scrape/Outcomes.antt =====
-- What `scrape_one_source` leaves behind.
use news_project.Prelude.{
  ℕ, ◌+◌, ◌*◌, ◌≤◌, ◌<◌, ◌≡◌, refl, ap, Bool, false, none, some, List, [], ◌∷◌, arith, length,
  length-append, In, inl, inr, leb, if◌then◌else◌, Text, text_eq, text_beq_iff, Bool-cases,
}
use news_project.Prelude.Dict.{Dict, insert, lookup-insert}
use news_project.Common.Contracts.{RawArticle}
use news_project.Common.Ordered.{Distinct}
use news_project.Dedup.Raw.{RawNews}
use news_project.Dedup.{DedupDecision, check_and_register}
use news_project.Dedup.Registered.{
  Registered, same_url, near_title, added, check_and_register-Registered,
}
use news_project.Dedup.Distinctness.{url_hashes, Registered-Distinct}
use news_project.Scrape.{
  SourceState, or_new, state_of, update_watermark, set_paused, pauses, is_paused, since_of, Fetched,
  items, anti_crawl, transient, structural, Scraped, register_all, latest, watermark, Tables,
  handle, scrape_one_source,
}

state_of-insert :
    (source : Text) (row : SourceState) (states : Dict Text SourceState)
    → state_of source (insert source row states) ≡ row
unfolding state_of or_new
state_of-insert source row states =
    rw (lookup-insert source source row states) (ground (arith, text_beq_iff source source))

Registered-length :
    (new_id : List RawNews → ℕ) (dist now : ℕ) (art : RawArticle) (rows : List RawNews)
    (result : DedupDecision × List RawNews)
    → Registered new_id dist now art rows result
    → length result.1 ≡ length rows + (if result.0.is_new then 1 else 0)
Registered-length new_id dist now art rows result (same_url row i e) = ground arith
Registered-length new_id dist now art rows result (near_title row f i r n) = ground arith
Registered-length new_id dist now art rows result (added fresh far) = length-append rows _

-- Each of the items was published by the time.
abbrev pub AllBy : ℕ → List RawArticle → Type 0
AllBy w [] = Unit
AllBy w (art ∷ arts) = (art.published_at ≤ w) × AllBy w arts

AllBy-each :
    (w : ℕ) (arts : List RawArticle)
    → ((art : RawArticle) → In art arts → art.published_at ≤ w)
    → AllBy w arts
AllBy-each w [] h = tt
AllBy-each w (art ∷ arts) h = (h art (inl refl), AllBy-each w arts (λ a i. h a (inr i)))

latest-start : (at : ℕ) (arts : List RawArticle) → at ≤ latest at arts
unfolding latest
latest-start at [] = omega arith
latest-start at (art ∷ arts) =
    ground (arith, latest-start (if leb at art.published_at then art.published_at else at) arts)

latest_covers :
    (at : ℕ) (arts : List RawArticle) (art : RawArticle)
    → In art arts
    → art.published_at ≤ latest at arts
unfolding latest
latest_covers at [] art i = absurd i.1
latest_covers at (a ∷ arts) art i =
    let start = if leb at a.published_at then a.published_at else at in
    elim i [
      | inl e ↦ ground (arith, ap (λ (x : RawArticle). x.published_at) e, latest-start start arts)
      | inr j ↦ latest_covers start arts art j
    ]

watermark_covers :
    (later : ℕ) (arts : List RawArticle) (art : RawArticle)
    → In art arts
    → art.published_at ≤ watermark later arts
unfolding watermark
watermark_covers later [] art i = absurd i.1
watermark_covers later (a ∷ arts) art i = elim i [
  | inl e ↦
      ground (arith, ap (λ (x : RawArticle). x.published_at) e, latest-start a.published_at arts)
  | inr j ↦ latest_covers a.published_at arts art j
]

module _ (new_id : List RawNews → ℕ) (dist : ℕ) where
  register_all-counts :
      (now : ℕ) (arts : List RawArticle) (rows : List RawNews)
      → let (count, names, rows') = register_all new_id dist now arts rows in
        (length rows' ≡ length rows + count) × (length names ≡ length arts)
  unfolding register_all
  register_all-counts now [] rows = ground arith
  register_all-counts now (art ∷ arts) rows =
      let one = check_and_register new_id dist now art rows in
      ground (
        arith,
        register_all-counts now arts one.1,
        Registered-length new_id dist now art rows one
            (check_and_register-Registered new_id dist now art rows),
      )

  register_all-Distinct :
      (now : ℕ) (arts : List RawArticle) (rows : List RawNews)
      → Distinct (url_hashes rows)
      → Distinct (url_hashes (register_all new_id dist now arts rows).2)
  unfolding register_all
  register_all-Distinct now [] rows d = d
  register_all-Distinct now (art ∷ arts) rows d =
      register_all-Distinct now arts (check_and_register new_id dist now art rows).1 (
        Registered-Distinct new_id dist now art rows _
          (check_and_register-Registered new_id dist now art rows) d)

  module _ (source : Text) (has_bark : Bool) (fetch : ℕ → Fetched) (lookback_minutes now later : ℕ)
      (t : Tables) where
    abbrev pub job : Scraped × Tables
    job = scrape_one_source new_id dist source has_bark fetch lookback_minutes now later t

    abbrev pub fetched : Fetched
    fetched = fetch (since_of (state_of source t.states).last_fetched_at now lookback_minutes)

    job_runs :
        is_paused source now t.states ≡ false
        → job ≡ handle new_id dist source has_bark later fetched t
    unfolding scrape_one_source
    job_runs free = rw free refl

    handle-rows :
        (outcome : Fetched)
        → let (r, after) = handle new_id dist source has_bark later outcome t in
          length after.rows ≡ length t.rows + r.new_count
    unfolding handle
    handle-rows (items arts) = (register_all-counts later arts t.rows).0
    handle-rows (anti_crawl error) = ground arith
    handle-rows (transient error) = ground arith
    handle-rows (structural error) = ground arith

    handle-Distinct :
        (outcome : Fetched)
        → Distinct (url_hashes t.rows)
        → Distinct (url_hashes (handle new_id dist source has_bark later outcome t).1.rows)
    unfolding handle
    handle-Distinct (items arts) d = register_all-Distinct later arts t.rows d
    handle-Distinct (anti_crawl error) d = d
    handle-Distinct (transient error) d = d
    handle-Distinct (structural error) d = d

    -- On a table without two rows of one url hash, whatever the fetch does, the number that the job
    -- returns is that of the rows that it added, and still no two rows have one url hash.
    pub scrape_one_source-rows :
        Distinct (url_hashes t.rows)
        → (length job.1.rows ≡ length t.rows + job.0.new_count) × Distinct (url_hashes job.1.rows)
    unfolding scrape_one_source
    scrape_one_source-rows d = elim (Bool-cases (is_paused source now t.states)) [
      | inl paused ↦ rw paused (ground arith, d)
      | inr free ↦ rw free (handle-rows fetched, handle-Distinct fetched d)
    ]

    -- If the source is not paused and the fetch returns items, the watermark is at or after the
    -- publication of each of them, the errors are cleared, and each item is counted by one metric.
    pub scrape_one_source-items :
        (arts : List RawArticle)
        → is_paused source now t.states ≡ false
        → fetched ≡ items arts
        → let row = state_of source job.1.states in
          (row.last_fetched_at ≡ some (watermark later arts))
          × AllBy (watermark later arts) arts
          × (row.last_error ≡ none)
          × (row.error_count ≡ 0)
          × (length job.0.metrics ≡ length arts)
    scrape_one_source-items arts free e =
        rw (job_runs free, e)
          (unfold handle update_watermark in
            rw (state_of-insert source _ t.states) (
              refl,
              AllBy-each (watermark later arts) arts (watermark_covers later arts),
              refl,
              refl,
              (register_all-counts later arts t.rows).1,
            ))

    -- If the source is not paused and the fetch meets an anti-crawl page, no row is added, and a job of
    -- the source that starts less than 30 minutes later does nothing, whatever it would fetch.
    pub scrape_one_source-anti_crawl :
        (error : Text) (fetch' : ℕ → Fetched) (now' later' : ℕ)
        → is_paused source now t.states ≡ false
        → fetched ≡ anti_crawl error
        → now' < later + 30 * 60
        → (job.1.rows ≡ t.rows)
          × (scrape_one_source new_id dist source has_bark fetch' lookback_minutes now' later' job.1
              ≡ (record { new_count = 0; metrics = []; alerts = [] }, job.1))
    scrape_one_source-anti_crawl error fetch' now' later' free e early =
        rw (job_runs free, e)
          (unfold handle set_paused scrape_one_source is_paused pauses in
            (refl, rw (state_of-insert source _ t.states) (ground arith)))
