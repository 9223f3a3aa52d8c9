-- ===== src/Pending/Returns.antt =====
-- In the rules-only mode a batch of `process_pending` of src/news_pipeline/scheduler/jobs.py ends.
use news_project.Prelude.{
  ℕ, suc, ◌≡◌, refl, ap, ◌∙◌, sym, subst, ◌⊎◌, inl, inr, Bool, true, false, not, Option, none, some,
  List, [], ◌∷◌, ◌++◌, any, elem, map, nat_beq, nat_eq, if◌then◌else◌, arith, leb, ltb, by_branch,
  Text, codes,
}
use news_project.Common.Enums.{Market}
use news_project.Common.Contracts.{RawArticle, EnrichedNews, ScoredNews, DispatchPlan}
use news_project.Rules.Patterns.{RulesVerdict}
use news_project.Classifier.Importance.{ImportanceClassifier, Result, ok, decide, score_news}
use news_project.Router.{route}
use news_project.Push.Message.{build, build_from_rules, message_of}
use news_project.Push.Retry.{Outcome, returned, raised}
use news_project.Dedup.Raw.{RawNews, mark_status, list_pending}
use news_project.Digest.{DigestBuffer}
use news_project.Storage.Processed.{NewsProcessed, processed_row, insert_processed}
use news_project.Pending.{
  JobError, Settings, JobState, validation_error, validated, addresses, synth_enriched_from_rules,
}
use news_project.Pending.Row.{
  leave, message_for, markets_of, publish, persist, is_dropped, after_score, score_and_on,
  with_article, rules_only, enrich_and_on, gate, with_market, process_row,
}
use news_project.Pending.Published.{
  key_at, waiting_row, Published, nowhere, pushed, queued, refused, publish-Published,
}
use news_project.Pending.Batch.{counted, and_then, process_rows, process_pending}
use news_project.Pending.Ready.{
  AreAccepted, IsReadable, Linked, IsNew, IsFresh, AllReady, clash, elem-last, Linked-append,
  Linked-queue, Linked-fresh, AllReady-append,
}

-- no verdict of the rules-only classifier raises
decide-ok :
    (c : ImportanceClassifier) (e : EnrichedNews) (names : List Text) (s : ℕ)
    → c.llm_enabled ≡ false
    → (r : ScoredNews) × (decide c e names s ≡ ok r)
unfolding decide
decide-ok c e names s off =
    let P : Result ScoredNews → Type 0 = λ o. (r : ScoredNews) × (o ≡ ok r) in
    by_branch P (leb c.hi s) _ _ (λ h. (_, refl))
      (λ h.
        by_branch P (ltb s c.lo) _ _ (λ k. (_, refl))
          (λ k. by_branch P c.llm_enabled _ _ (λ on. absurd (clash off on)) (λ j. (_, refl))))

score_news-ok :
    (c : ImportanceClassifier) (e : EnrichedNews) (source : Text) (v : Option RulesVerdict)
    → c.llm_enabled ≡ false
    → (r : ScoredNews) × (score_news c e source v ≡ ok r)
unfolding score_news
score_news-ok c e source v off = decide-ok c e _ _ off

module _ {S : Type 0} (cfg : Settings S) where
  -- What a round does: nothing to the processed news, or one row more, of this item; and what is
  -- queued is still processed.
  abbrev Moves : RawNews → JobState S → Outcome JobError Bool × JobState S → Type 0
  Moves row st (raised e, st') = ⊥
  Moves row st (returned b, st') =
      Linked st'.digest st'.processed
      × ((st'.processed ≡ st.processed)
          ⊎ ((new : NewsProcessed) × (new.raw_id ≡ row.id)
              × (st'.processed ≡ st.processed ++ new ∷ [])))

  leave-Moves :
      (row : RawNews) (status : Text) (error : Option Text) (st : JobState S)
      → Linked st.digest st.processed
      → Moves row st (leave cfg row status error st)
  unfolding leave
  leave-Moves row status error st l = (l, inl refl)

  -- what `publish` does to the state after the insertion
  Published-Moves :
      (row : RawNews) (new : NewsProcessed) (market : Market) (tickers : List Text)
      (st st' : JobState S) (critical : Bool) (ps : List DispatchPlan)
      (o : Outcome JobError Bool × JobState S)
      → new.raw_id ≡ row.id
      → st'.processed ≡ st.processed ++ new ∷ []
      → Linked st'.digest st'.processed
      → any (λ (d : DigestBuffer). nat_beq d.news_id new.id) st'.digest ≡ false
      → Published cfg row new.id market tickers st' critical ps o
      → Moves row st o
  Published-Moves row new market tickers st st' critical ps o id p l free nowhere =
      (l, inr (new, id, p))
  Published-Moves row new market tickers st st' critical ps o id p l free
        (pushed {st' = after} rows r q d w x a) =
      (
        subst (λ ds. Linked ds after.processed) (sym d)
            (subst (λ ps. Linked st'.digest ps) (sym q) l),
        inr (new, id, q ∙ p),
      )
  Published-Moves row new market tickers st st' critical ps o id p l free queued = (
    Linked-queue st'.digest
        (waiting_row (cfg.digest_id st'.digest) (cfg.clock row).now new.id market
          (key_at ((cfg.clock row).local_hour market) market))
        st'.processed l
        (subst (λ ps. elem new.id (map (λ (r : NewsProcessed). r.id) ps) ≡ true) (sym p)
          (elem-last st.processed new)),
    inr (new, id, p),
  )
  Published-Moves row new market tickers st st' critical ps o id p l free (refused taken) =
      absurd (clash free taken)

  -- the settings of the mode without an LLM
  module _ (off : cfg.llm_enabled ≡ false) (judge_off : cfg.importance.llm_enabled ≡ false)
      (fresh : IsFresh cfg.processed_id) (row : RawNews) where
    message_for-returned :
        (art : RawArticle) (scored : ScoredNews) (v : RulesVerdict)
        → AreAccepted cfg.http_url art v
        → message_for cfg row art scored (some v)
          ≡ returned (build_from_rules cfg.source_labels art scored v none)
    unfolding message_for validated addresses build_from_rules message_of
    message_for-returned art scored v acc =
        ap
          (λ b.
            if b
            then validated cfg.http_url (build cfg.source_labels art scored none)
            else validated cfg.http_url (build_from_rules cfg.source_labels art scored v none))
          off
        ∙ ap
            (λ b.
              if b
              then raised validation_error
              else returned (build_from_rules cfg.source_labels art scored v none))
            acc

    persist-Moves :
        (art : RawArticle) (e : EnrichedNews) (scored : ScoredNews) (v : RulesVerdict)
        (st : JobState S)
        → AreAccepted cfg.http_url art v
        → Linked st.digest st.processed
        → IsNew row.id st.processed
        → let proc_id = cfg.processed_id st.processed in
          Moves row st (
            persist cfg row art e scored
              (some v)
              proc_id
              (insert_processed (processed_row proc_id row.id e scored) st.processed)
              st)
    unfolding persist insert_processed processed_row
    persist-Moves art e scored v st acc l free =
        let proc_id = cfg.processed_id st.processed in
        let new = processed_row proc_id row.id e scored in
        let st' = record st {
          processed = st.processed ++ new ∷ [];
          raw = mark_status row.id (codes "processed") none st.raw;
        } in
        let msg = build_from_rules cfg.source_labels art scored v none in
        subst (λ rows. Moves row st (persist cfg row art e scored (some v) proc_id rows st))
          (sym (ap (λ b. if b then none else some (st.processed ++ new ∷ [])) free))
          (subst (λ m. Moves row st (publish cfg row proc_id art e scored (some v) m st'))
            (sym (message_for-returned art scored v acc))
            (Published-Moves row new art.market e.related_tickers st st' scored.is_critical
              (route cfg.by_market scored msg (markets_of (some v))) _ refl refl
              (Linked-append st.digest st.processed new l)
              (Linked-fresh proc_id st.digest st.processed l (fresh st.processed))
              (publish-Published cfg row proc_id art e scored (some v) msg st')))

    after_score-Moves :
        (art : RawArticle) (e : EnrichedNews) (v : RulesVerdict) (o : Result ScoredNews)
        (st : JobState S)
        → (r : ScoredNews) × (o ≡ ok r)
        → AreAccepted cfg.http_url art v
        → Linked st.digest st.processed
        → IsNew row.id st.processed
        → Moves row st (after_score cfg row art e (some v) o st)
    unfolding after_score
    after_score-Moves art e v o st (scored, h) acc l free =
        subst (λ x. Moves row st (after_score cfg row art e (some v) x st)) (sym h)
          (by_branch (Moves row st) (is_dropped scored.llm_reason) _ _
            (λ d. leave-Moves row (codes "skipped_grayzone") none st l)
            (λ d. persist-Moves art e scored v st acc l free))

    rules_only-Moves :
        (art : RawArticle) (v : RulesVerdict) (st : JobState S)
        → v.matched ≡ true
        → AreAccepted cfg.http_url art v
        → Linked st.digest st.processed
        → IsNew row.id st.processed
        → Moves row st (rules_only cfg row art (some v) st)
    unfolding rules_only score_and_on
    rules_only-Moves art v st m acc l free =
        let e = synth_enriched_from_rules (cfg.clock row).now art v row.id in
        by_branch (Moves row st) v.matched _ _
          (λ h.
            after_score-Moves art e v _ st
              (score_news-ok cfg.importance e row.source (some v) judge_off) acc l free)
          (λ h. absurd (clash h m))

    gate-Moves :
        (art : RawArticle) (f : RawArticle → RulesVerdict) (st : JobState S)
        → AreAccepted cfg.http_url art (f art)
        → Linked st.digest st.processed
        → IsNew row.id st.processed
        → Moves row st (gate cfg row art (some f) st)
    unfolding gate enrich_and_on
    gate-Moves art f st acc l free =
        by_branch (Moves row st) (not (f art).matched) _ _
          (λ h. leave-Moves row (codes "skipped_rules") none st l)
          (λ h.
            by_branch (Moves row st) cfg.llm_enabled _ _ (λ on. absurd (clash off on))
              (λ j. rules_only-Moves art (f art) st (ground (arith, h)) acc l free))

    process_row-Moves :
        (f : RawArticle → RulesVerdict) (st : JobState S)
        → cfg.rules_match ≡ some f
        → IsReadable cfg.http_url f row
        → Linked st.digest st.processed
        → IsNew row.id st.processed
        → Moves row st (process_row cfg row st)
    unfolding process_row with_market with_article
    process_row-Moves f st rules (m, art, known, read, acc) l free =
        subst (λ o. Moves row st (with_market cfg row o st)) (sym known)
          (subst (λ o. Moves row st (with_article cfg row o st)) (sym read)
            (subst (λ g. Moves row st (gate cfg row art g st)) (sym rules)
              (gate-Moves art f st acc l free)))

    -- a round leaves the later rows ready
    AllReady-Moves :
        (f : RawArticle → RulesVerdict) (rows : List RawNews) (st : JobState S) (b : Bool)
        (st' : JobState S)
        → Moves row st (returned b, st')
        → elem row.id (map (λ (x : RawNews). x.id) rows) ≡ false
        → AllReady cfg.http_url f rows st.processed
        → AllReady cfg.http_url f rows st'.processed
    AllReady-Moves f rows st b st' (l, inl same) other ready =
        subst (AllReady cfg.http_url f rows) (sym same) ready
    AllReady-Moves f rows st b st' (l, inr (new, id, p)) other ready =
        subst (AllReady cfg.http_url f rows) (sym p) (
          AllReady-append cfg.http_url f rows st.processed new
            (subst (λ i. elem i (map (λ (x : RawNews). x.id) rows) ≡ false) (sym id) other) ready)

  -- A batch from a state on that returns.
  abbrev Returns : Outcome JobError ℕ × JobState S → Type 0
  Returns o = (n : ℕ) × (st' : JobState S) × (o ≡ (returned n, st'))

  counted-Returns :
      (b : Bool) (o : Outcome JobError ℕ × JobState S) → Returns o → Returns (counted b o)
  unfolding counted
  counted-Returns b o (n, st', e) = (if b then suc n else n, st', ap (counted b) e)

  module _ (off : cfg.llm_enabled ≡ false) (judge_off : cfg.importance.llm_enabled ≡ false)
      (fresh : IsFresh cfg.processed_id) (f : RawArticle → RulesVerdict)
      (rules : cfg.rules_match ≡ some f) where
    and_then-Returns :
        (row : RawNews) (rows : List RawNews) (st : JobState S)
        (o : Outcome JobError Bool × JobState S)
        → elem row.id (map (λ (x : RawNews). x.id) rows) ≡ false
        → AllReady cfg.http_url f rows st.processed
        → Moves row st o
        → ((st' : JobState S)
            → Linked st'.digest st'.processed
            → AllReady cfg.http_url f rows st'.processed
            → Returns (process_rows cfg rows st'))
        → Returns (and_then o (process_rows cfg rows))
    unfolding and_then
    and_then-Returns row rows st (raised e, st') other ready m later = absurd m
    and_then-Returns row rows st (returned b, st') other ready m later =
        counted-Returns b _
          (later st' m.0 (AllReady-Moves off judge_off fresh row f rows st b st' m other ready))

    process_rows-Returns :
        (rows : List RawNews) (st : JobState S)
        → Linked st.digest st.processed
        → AllReady cfg.http_url f rows st.processed
        → Returns (process_rows cfg rows st)
    unfolding process_rows
    process_rows-Returns [] st l ready = (0, st, refl)
    process_rows-Returns (row ∷ rows) st l (readable, new, other, ready) =
        and_then-Returns row rows st (process_row cfg row st) other ready
          (process_row-Moves off judge_off fresh row f st rules readable l new)
          (λ st'. process_rows-Returns rows st')

-- Without an LLM and with a rules engine, a batch returns, if each row it takes has a known market and an
-- address that `HttpUrl` accepts, as it does those of a message on the article, an id of its own and no
-- processed news yet, a new processed row gets an id that no row has, and only processed news is queued.
pub process_pending-Returns :
    {S : Type 0} (cfg : Settings S) (f : RawArticle → RulesVerdict) (batch_size : ℕ)
    (st : JobState S)
    → cfg.llm_enabled ≡ false
    → cfg.importance.llm_enabled ≡ false
    → cfg.rules_match ≡ some f
    → IsFresh cfg.processed_id
    → Linked st.digest st.processed
    → AllReady cfg.http_url f (list_pending batch_size st.raw) st.processed
    → (n : ℕ) × (st' : JobState S) × (process_pending cfg batch_size st ≡ (returned n, st'))
unfolding process_pending
process_pending-Returns cfg f batch_size st off judge_off rules fresh l ready =
    process_rows-Returns cfg off judge_off fresh f rules (list_pending batch_size st.raw) st l ready
