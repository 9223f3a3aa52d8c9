-- ===== src/Llm/Pipeline/Gate.antt =====
-- What llm/pipeline.py returns, and when.
use news_project.Prelude.{
  ℕ, ◌≡◌, refl, ◌≤◌, true, Option, none, some, [], arith, Text, Bool-cases, inl, inr, leb, text_eq,
}
use news_project.Common.Contracts.{RawArticle, EnrichedNews}
use news_project.Rules.Patterns.{RulesVerdict}
use news_project.Llm.Cost.{CostTracker, Checked, check_async, today_cost, conclude}
use news_project.Llm.Extractors.{LlmError, cost_ceiling_exceeded, World, classify}
use news_project.Llm.Extractors.Known.{
  IsConsistent, Consistent, summarize-Consistent, extract-Consistent,
}
use news_project.Llm.Tiers.{Tier, skip, tier1, tier2, Tier0Verdict, decide}
use news_project.Llm.Pipeline.{
  LlmPipeline, guarded, given, run_tier, routed, classify_and_run, process, ruled_tier,
  process_with_rules,
}
use news_project.Push.Retry.{Outcome, returned, raised}

-- What a call returned is no news or consistent news.
abbrev pub ConsistentIfAny : Outcome LlmError (Option EnrichedNews) → Type 0
ConsistentIfAny (raised e) = Unit
ConsistentIfAny (returned none) = Unit
ConsistentIfAny (returned (some news)) = IsConsistent news

given-ConsistentIfAny :
    {S : Type 0} (o : Outcome LlmError EnrichedNews × World S)
    → Consistent o.0
    → ConsistentIfAny (given o).0
unfolding given
given-ConsistentIfAny (raised e, w) h = tt
given-ConsistentIfAny (returned news, w) h = h

module _ {S : Type 0} (lower : Text → Text) (isoformat : ℕ → Text) (day : Text) (now : ℕ)
    (p : LlmPipeline S) (art : RawArticle) (raw_id : ℕ) where
  run_tier-ConsistentIfAny :
      (t : Tier) (w : World S)
      → ConsistentIfAny (run_tier lower isoformat day now p t art raw_id w).0
  unfolding run_tier
  run_tier-ConsistentIfAny skip w = tt
  run_tier-ConsistentIfAny tier1 w =
      given-ConsistentIfAny _ (summarize-Consistent lower isoformat day now p.t1 art raw_id w)
  run_tier-ConsistentIfAny tier2 w =
      given-ConsistentIfAny _ (extract-Consistent lower isoformat day now p.t2 art raw_id [] w)

  routed-ConsistentIfAny :
      (o : Outcome LlmError Tier0Verdict × World S)
      → ConsistentIfAny (routed lower isoformat day now p art raw_id o).0
  unfolding routed
  routed-ConsistentIfAny (raised e, w) = tt
  routed-ConsistentIfAny (returned v, w) =
      run_tier-ConsistentIfAny (decide p.router_first_party art v) w

  classify_and_run-ConsistentIfAny :
      (w : World S) → ConsistentIfAny (classify_and_run lower isoformat day now p art raw_id w).0
  unfolding classify_and_run
  classify_and_run-ConsistentIfAny w =
      routed-ConsistentIfAny (classify day p.classifier art p.watchlist_us p.watchlist_cn w)

  guarded-ConsistentIfAny :
      (c : Checked × CostTracker) (w : World S)
      (rest : World S → Outcome LlmError (Option EnrichedNews) × World S)
      → ((w' : World S) → ConsistentIfAny (rest w').0)
      → ConsistentIfAny (guarded c w rest).0
  unfolding guarded
  guarded-ConsistentIfAny (c, cost) w rest h = elim (Bool-cases c.exceeded) [
    | inl e ↦ rw e tt
    | inr e ↦ rw e (h _)
  ]

  -- Whatever the clients answer, news that either way of the pipeline returns has a confidence of at
  -- most 1, entities with names that are not empty and not repeated, and relations only between these
  -- entities, each with a confidence of at most 1.
  pub process-ConsistentIfAny :
      (verdict : RulesVerdict) (w : World S)
      → ConsistentIfAny (process lower isoformat day now p art raw_id w).0
        × ConsistentIfAny (process_with_rules lower isoformat day now p art verdict raw_id w).0
  unfolding process process_with_rules
  process-ConsistentIfAny verdict w = (
    guarded-ConsistentIfAny (check_async day w.cost) w
        (classify_and_run lower isoformat day now p art raw_id) classify_and_run-ConsistentIfAny,
    guarded-ConsistentIfAny (check_async day w.cost) w
        (run_tier lower isoformat day now p (ruled_tier lower isoformat day now p art verdict) art
          raw_id)
        (run_tier-ConsistentIfAny (ruled_tier lower isoformat day now p art verdict)),
  )

  -- Nothing but the alerts of the tracker has changed, and the call raised.
  abbrev pub IsRefused : World S → Outcome LlmError (Option EnrichedNews) × World S → Type 0
  IsRefused w (o, w') =
      (o ≡ raised cost_ceiling_exceeded) × (w'.cost ≡ w.cost) × (w'.backend ≡ w.backend)

  guarded-IsRefused :
      (w : World S) (rest : World S → Outcome LlmError (Option EnrichedNews) × World S)
      → leb w.cost.ceiling (today_cost day w.cost) ≡ true
      → IsRefused w (guarded (check_async day w.cost) w rest)
  unfolding guarded check_async conclude
  guarded-IsRefused w rest h = rw h (refl, refl, refl)

  -- Once the day's cost has reached the ceiling, both ways of the pipeline raise
  -- `CostCeilingExceeded`; no client is called and no cost is added.
  pub process-IsRefused :
      (verdict : RulesVerdict) (w : World S)
      → w.cost.ceiling ≤ today_cost day w.cost
      → IsRefused w (process lower isoformat day now p art raw_id w)
        × IsRefused w (process_with_rules lower isoformat day now p art verdict raw_id w)
  unfolding process process_with_rules
  process-IsRefused verdict w reached =
      let over : leb w.cost.ceiling (today_cost day w.cost) ≡ true = ground arith in
      (
        guarded-IsRefused w (classify_and_run lower isoformat day now p art raw_id) over,
        guarded-IsRefused w
            (run_tier lower isoformat day now p (ruled_tier lower isoformat day now p art verdict)
              art raw_id)
            over,
      )
