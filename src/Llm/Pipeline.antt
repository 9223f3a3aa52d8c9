-- ===== src/Llm/Pipeline.antt =====
-- llm/pipeline.py: `LLMPipeline`, whose tiers share the tracker. One reading of the clock, with its
-- day, stands for those of one call.
pub mod Gate
pub mod Budget
mod Tests
use news_project.Prelude.{
  ℕ, Bool, true, false, ◌||◌, not, Option, none, some, List, [], ◌∷◌, ◌++◌, if◌then◌else◌, is_empty,
  elem, any, map, Text, text_eq,
}
use news_project.Common.Contracts.{RawArticle, EnrichedNews}
use news_project.Rules.Patterns.{RulesVerdict}
use news_project.Llm.Cost.{CostTracker, Checked, check_async}
use news_project.Llm.Extractors.{LlmError, cost_ceiling_exceeded, World, Extractor, classify}
use news_project.Llm.Extractors.Deep.{summarize, extract}
use news_project.Llm.Tiers.{Tier, skip, tier1, tier2, Tier0Verdict, decide}
use news_project.Push.Retry.{Outcome, returned, raised}

-- The router's first-party sources stand beside the pipeline's own.
pub record LlmPipeline (S : Type 0) : Type 0 where
  pub classifier : Extractor S
  pub t1 : Extractor S
  pub t2 : Extractor S
  pub router_first_party : List Text
  pub watchlist_us : List Text
  pub watchlist_cn : List Text
  pub first_party_sources : List Text

-- `await self._cost.check_async()` before the rest, which a raise leaves out
unfoldable pub guarded :
    {S A : Type 0}
    → Checked × CostTracker
    → World S
    → (World S → Outcome LlmError A × World S)
    → Outcome LlmError A × World S
guarded (c, cost) w rest =
    let w' = record w { cost = cost; alerts = w.alerts ++ c.alerts } in
    if c.exceeded then (raised cost_ceiling_exceeded, w') else rest w'

-- the `Some` of a result
unfoldable pub given :
    {S A : Type 0} → Outcome LlmError A × World S → Outcome LlmError (Option A) × World S
given (raised e, w) = (raised e, w)
given (returned a, w) = (returned (some a), w)

module _ {S : Type 0} (lower : Text → Text) (isoformat : ℕ → Text) (day : Text) (now : ℕ)
    (p : LlmPipeline S) where
  -- the branches on the decision
  unfoldable pub run_tier :
      Tier → RawArticle → ℕ → World S → Outcome LlmError (Option EnrichedNews) × World S
  unfolding given
  run_tier skip art raw_id w = (returned none, w)
  run_tier tier1 art raw_id w = given (summarize lower isoformat day now p.t1 art raw_id w)
  run_tier tier2 art raw_id w = given (extract lower isoformat day now p.t2 art raw_id [] w)

  -- from the answer of tier 0 on
  unfoldable pub routed :
      RawArticle
      → ℕ
      → Outcome LlmError Tier0Verdict × World S
      → Outcome LlmError (Option EnrichedNews) × World S
  unfolding run_tier
  routed art raw_id (raised e, w) = (raised e, w)
  routed art raw_id (returned verdict, w) =
      run_tier (decide p.router_first_party art verdict) art raw_id w

  -- `LLMPipeline.process` after the check
  unfoldable pub classify_and_run :
      RawArticle → ℕ → World S → Outcome LlmError (Option EnrichedNews) × World S
  unfolding routed
  classify_and_run art raw_id w =
      routed art raw_id (classify day p.classifier art p.watchlist_us p.watchlist_cn w)

  -- `LLMPipeline.process`
  unfoldable pub process :
      RawArticle → ℕ → World S → Outcome LlmError (Option EnrichedNews) × World S
  unfolding guarded classify_and_run
  process art raw_id w = guarded (check_async day w.cost) w (classify_and_run art raw_id)

  -- the tier by `verdict.tickers or art.source in self._first_party_sources`
  unfoldable pub ruled_tier : RawArticle → RulesVerdict → Tier
  ruled_tier art verdict =
      if not (is_empty verdict.tickers) || elem art.source p.first_party_sources
      then tier2
      else tier1

  -- `LLMPipeline.process_with_rules`
  unfoldable pub process_with_rules :
      RawArticle → RulesVerdict → ℕ → World S → Outcome LlmError (Option EnrichedNews) × World S
  unfolding guarded run_tier ruled_tier
  process_with_rules art verdict raw_id w =
      guarded (check_async day w.cost) w (run_tier (ruled_tier art verdict) art raw_id)
