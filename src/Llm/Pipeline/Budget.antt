-- ===== src/Llm/Pipeline/Budget.antt =====
-- How far llm/pipeline.py can go past the daily ceiling.
use news_project.Prelude.{
  ℕ, ◌+◌, ◌≤◌, ◌<◌, ◌≡◌, ◌∙◌, sym, subst, false, Option, none, some, List, [], ◌∷◌, arith, Text,
  text_eq, Bool-cases, inl, inr,
}
use news_project.Prelude.Dict.{Dict, lookup}
use news_project.Common.Contracts.{RawArticle}
use news_project.Rules.Patterns.{RulesVerdict}
use news_project.Llm.Cost.{
  CostTracker, ModelPricing, TokenUsage, check_async, today_cost, total_of, record_usage, cost_at,
  conclude,
}
use news_project.Llm.Cost.Totals.{
  total_of-charge, pricing-charge, ceiling-charge, check_async-Keeps, ceiling-check_async,
}
use news_project.Llm.Client.{LlmRequest, LlmResponse, LlmClient, Payload}
use news_project.Llm.Prompts.{RenderedPrompt}
use news_project.Llm.Extractors.{LlmError, World, Extractor, answered, ask, classify}
use news_project.Llm.Extractors.{conclude as with_payload}
use news_project.Llm.Extractors.Deep.{summarize, extract}
use news_project.Llm.Tiers.{Tier, skip, tier1, tier2, Tier0Verdict, decide}
use news_project.Llm.Pipeline.{
  LlmPipeline, guarded, given, run_tier, routed, classify_and_run, process, ruled_tier,
  process_with_rules,
}
use news_project.Push.Retry.{Outcome, returned, raised}

-- An answer costs at most `most`.
abbrev CostsAtMost : Dict Text ModelPricing → ℕ → Outcome Text LlmResponse → Type 0
CostsAtMost prices most (raised e) = Unit
CostsAtMost prices most (returned r) = cost_at (lookup r.model prices) r.usage ≤ most

-- Each answer of the client costs at most `most`.
abbrev pub IsCheap : {S : Type 0} → Dict Text ModelPricing → ℕ → LlmClient S → Type 0
IsCheap prices most client = (req : LlmRequest) (s : _) → CostsAtMost prices most (client req s).0

-- The clients of all three tiers.
abbrev pub AllCheap : {S : Type 0} → Dict Text ModelPricing → ℕ → LlmPipeline S → Type 0
AllCheap prices most p =
    IsCheap prices most p.classifier.client
    × IsCheap prices most p.t1.client
    × IsCheap prices most p.t2.client

module _ {S : Type 0} (lower : Text → Text) (isoformat : ℕ → Text) (day : Text) (now : ℕ)
    (p : LlmPipeline S) where
  -- One call of the pipeline, with the rules' verdict or without one.
  unfoldable pub call : RawArticle × Option RulesVerdict × ℕ → World S → World S
  call (art, none, raw_id) w = (process lower isoformat day now p art raw_id w).1
  call (art, some v, raw_id) w = (process_with_rules lower isoformat day now p art v raw_id w).1

  abbrev pub calls : List (RawArticle × Option RulesVerdict × ℕ) → World S → World S
  calls [] w = w
  calls (c ∷ cs) w = calls cs (call c w)

module _ (day : Text) (prices : Dict Text ModelPricing) (ceiling : ℕ) where
  -- A tracker with these prices and this ceiling, and with less than `bound` spent on the day.
  abbrev pub IsBelow : ℕ → CostTracker → Type 0
  IsBelow bound t = (t.pricing ≡ prices) × (t.ceiling ≡ ceiling) × (today_cost day t < bound)

  record_usage-IsBelow :
      (bound most : ℕ) (model : Text) (usage : TokenUsage) (t : CostTracker)
      → cost_at (lookup model prices) usage ≤ most
      → IsBelow bound t
      → IsBelow (bound + most) (record_usage day model usage t)
  unfolding record_usage today_cost
  record_usage-IsBelow bound most model usage t cheap (p, c, b) =
      let price = lookup model t.pricing in
      let small = subst (λ ps. cost_at (lookup model ps) usage ≤ most) (sym p) cheap in
      (
        pricing-charge day price usage t ∙ p,
        ceiling-charge day price usage t ∙ c,
        ground (arith, total_of-charge day day price usage t, small),
      )

  later-IsBelow : (bound most : ℕ) (t : CostTracker) → IsBelow bound t → IsBelow (bound + most) t
  later-IsBelow bound most t (p, c, b) = (p, c, omega arith)

  check_async-IsBelow :
      (bound : ℕ) (t : CostTracker) → IsBelow bound t → IsBelow bound (check_async day t).1
  unfolding today_cost
  check_async-IsBelow bound t (p, c, b) =
      let (totals, priced) = check_async-Keeps day t in
      (
        priced ∙ p,
        ceiling-check_async day t ∙ c,
        subst (λ total. total_of day total < bound) (sym totals) b,
      )

  under_ceiling :
      (t : CostTracker) → (check_async day t).0.exceeded ≡ false → today_cost day t < t.ceiling
  unfolding check_async conclude
  under_ceiling t h = ground arith

  -- a check that does not raise
  passed-IsBelow :
      (bound : ℕ) (t : CostTracker)
      → (check_async day t).0.exceeded ≡ false
      → IsBelow bound t
      → IsBelow ceiling (check_async day t).1
  passed-IsBelow bound t passed (p, c, b) =
      check_async-IsBelow ceiling t (p, c, omega (arith, under_ceiling t passed, c))

  module _ {S : Type 0} (most : ℕ) where
    answered-IsBelow :
        (bound : ℕ) (w : World S) (a : Outcome Text LlmResponse × S)
        → CostsAtMost prices most a.0
        → IsBelow bound w.cost
        → IsBelow (bound + most) (answered day w a).1.cost
    unfolding answered
    answered-IsBelow bound w (raised e, s) cheap b = later-IsBelow bound most w.cost b
    answered-IsBelow bound w (returned r, s) cheap b =
        record_usage-IsBelow bound most r.model r.usage w.cost cheap b

    ask-IsBelow :
        (bound : ℕ) (ex : Extractor S) (request : RenderedPrompt → LlmRequest)
        (o : Outcome Text RenderedPrompt) (w : World S)
        → IsCheap prices most ex.client
        → IsBelow bound w.cost
        → IsBelow (bound + most) (ask day ex request o w).1.cost
    unfolding ask
    ask-IsBelow bound ex request (raised e) w cheap b = later-IsBelow bound most w.cost b
    ask-IsBelow bound ex request (returned r) w cheap b =
        answered-IsBelow bound w (ex.client (request r) w.backend) (cheap (request r) w.backend) b

    with_payload-IsBelow :
        {A : Type 0} (bound : ℕ) (f : Payload → Outcome LlmError A)
        (o : Outcome LlmError Payload × World S)
        → IsBelow bound o.1.cost
        → IsBelow bound (with_payload f o).1.cost
    unfolding with_payload
    with_payload-IsBelow bound f (raised e, w) b = b
    with_payload-IsBelow bound f (returned p, w) b = b

    given-IsBelow :
        {A : Type 0} (bound : ℕ) (o : Outcome LlmError A × World S)
        → IsBelow bound o.1.cost
        → IsBelow bound (given o).1.cost
    unfolding given
    given-IsBelow bound (raised e, w) b = b
    given-IsBelow bound (returned a, w) b = b

    guarded-IsBelow :
        {A : Type 0} (rest : World S → Outcome LlmError A × World S) (w : World S)
        → ((w' : World S)
            → IsBelow ceiling w'.cost
            → IsBelow (ceiling + most + most) (rest w').1.cost)
        → IsBelow (ceiling + most + most) w.cost
        → IsBelow (ceiling + most + most) (guarded (check_async day w.cost) w rest).1.cost
    unfolding guarded
    guarded-IsBelow rest w h b = elim (Bool-cases (check_async day w.cost).0.exceeded) [
      | inl e ↦ rw e (check_async-IsBelow (ceiling + most + most) w.cost b)
      | inr e ↦ rw e (h _ (passed-IsBelow (ceiling + most + most) w.cost e b))
    ]

    module _ (lower : Text → Text) (isoformat : ℕ → Text) (now : ℕ) (p : LlmPipeline S)
        (cheap : AllCheap prices most p) where
      run_tier-IsBelow :
          (bound : ℕ) (t : Tier) (art : RawArticle) (raw_id : ℕ) (w : World S)
          → IsBelow bound w.cost
          → IsBelow (bound + most) (run_tier lower isoformat day now p t art raw_id w).1.cost
      unfolding run_tier summarize extract
      run_tier-IsBelow bound skip art raw_id w b = later-IsBelow bound most w.cost b
      run_tier-IsBelow bound tier1 art raw_id w b =
          given-IsBelow (bound + most) _
            (with_payload-IsBelow (bound + most) _ _ (ask-IsBelow bound p.t1 _ _ w cheap.1 b))
      run_tier-IsBelow bound tier2 art raw_id w b =
          given-IsBelow (bound + most) _
            (with_payload-IsBelow (bound + most) _ _ (ask-IsBelow bound p.t2 _ _ w cheap.2 b))

      routed-IsBelow :
          (bound : ℕ) (art : RawArticle) (raw_id : ℕ) (o : Outcome LlmError Tier0Verdict × World S)
          → IsBelow bound o.1.cost
          → IsBelow (bound + most) (routed lower isoformat day now p art raw_id o).1.cost
      unfolding routed
      routed-IsBelow bound art raw_id (raised e, w) b = later-IsBelow bound most w.cost b
      routed-IsBelow bound art raw_id (returned v, w) b =
          run_tier-IsBelow bound (decide p.router_first_party art v) art raw_id w b

      classify_and_run-IsBelow :
          (bound : ℕ) (art : RawArticle) (raw_id : ℕ) (w : World S)
          → IsBelow bound w.cost
          → IsBelow
              (bound + most + most)
              (classify_and_run lower isoformat day now p art raw_id w).1.cost
      unfolding classify_and_run classify
      classify_and_run-IsBelow bound art raw_id w b =
          routed-IsBelow (bound + most) art raw_id _ (
            with_payload-IsBelow (bound + most) _ _
              (ask-IsBelow bound p.classifier _ _ w cheap.0 b))

      call-IsBelow :
          (c : RawArticle × Option RulesVerdict × ℕ) (w : World S)
          → IsBelow (ceiling + most + most) w.cost
          → IsBelow (ceiling + most + most) (call lower isoformat day now p c w).cost
      unfolding call process process_with_rules
      call-IsBelow (art, none, raw_id) w b =
          guarded-IsBelow (classify_and_run lower isoformat day now p art raw_id) w
            (classify_and_run-IsBelow ceiling art raw_id) b
      call-IsBelow (art, some v, raw_id) w b =
          let t = ruled_tier lower isoformat day now p art v in
          guarded-IsBelow (run_tier lower isoformat day now p t art raw_id) w
            (λ w' b'.
              later-IsBelow (ceiling + most) most _ (run_tier-IsBelow ceiling t art raw_id w' b'))
            b

      -- If each answer of the clients costs at most `most`, and the day's cost is below the ceiling
      -- and twice `most`, then it stays so over any sequence of calls of the pipeline on that day,
      -- with verdicts or without, and the prices and the ceiling stay.
      pub calls-IsBelow :
          (cs : List (RawArticle × Option RulesVerdict × ℕ)) (w : World S)
          → IsBelow (ceiling + most + most) w.cost
          → IsBelow (ceiling + most + most) (calls lower isoformat day now p cs w).cost
      calls-IsBelow [] w b = b
      calls-IsBelow (c ∷ cs) w b =
          calls-IsBelow cs (call lower isoformat day now p c w) (call-IsBelow c w b)
