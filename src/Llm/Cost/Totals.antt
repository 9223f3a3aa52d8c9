-- ===== src/Llm/Cost/Totals.antt =====
-- What llm/cost_tracker.py keeps of the money spent.
use news_project.Prelude.{
  ℕ, ◌+◌, ◌-◌, ◌≤◌, ◌≡◌, ◌↔◌, refl, true, Option, subst, ◌∙◌, none, some, List, [], ◌∷◌, arith,
  if◌then◌else◌, Text, text_eq, text_beq, text_beq_iff,
}
use news_project.Prelude.Dict.{Dict, lookup, insert, lookup-insert}
use news_project.Llm.Cost.{
  ModelPricing, CostTracker, TokenUsage, total_of, today_cost, cost_at, charge, record_usage, check,
  check_async, conclude, remaining_today, Event, used, checked, run,
}

-- What the events of a day cost.
unfoldable pub spent : Dict Text ModelPricing → Text → List (Text × Event) → ℕ
unfolding cost_at
spent pricing day [] = 0
spent pricing day ((d, checked) ∷ events) = spent pricing day events
spent pricing day ((d, used model usage) ∷ events) =
    (if text_beq d day then cost_at (lookup model pricing) usage else 0) + spent pricing day events

total_of-insert :
    (day d : Text) (total : ℕ) (totals : Dict Text ℕ)
    → total_of day (insert d total totals) ≡ (if text_beq d day then total else total_of day totals)
unfolding total_of
total_of-insert day d total totals =
    rw (lookup-insert d day total totals) (ground (arith, text_beq_iff d day))

-- one use
pub total_of-charge :
    (day d : Text) (price : Option ModelPricing) (usage : TokenUsage) (t : CostTracker)
    → total_of day (charge d price usage t).daily_total
      ≡ total_of day t.daily_total + (if text_beq d day then cost_at price usage else 0)
unfolding charge cost_at
total_of-charge day d none usage t = ground arith
total_of-charge day d (some p) usage t =
    rw (total_of-insert day d _ t.daily_total) (ground (arith, text_beq_iff d day))

pub pricing-charge :
    (day : Text) (price : Option ModelPricing) (usage : TokenUsage) (t : CostTracker)
    → (charge day price usage t).pricing ≡ t.pricing
unfolding charge
pricing-charge day none usage t = refl
pricing-charge day (some p) usage t = refl

pub ceiling-charge :
    (day : Text) (price : Option ModelPricing) (usage : TokenUsage) (t : CostTracker)
    → (charge day price usage t).ceiling ≡ t.ceiling
unfolding charge
ceiling-charge day none usage t = refl
ceiling-charge day (some p) usage t = refl

pub ceiling-check_async : (day : Text) (t : CostTracker) → (check_async day t).1.ceiling ≡ t.ceiling
unfolding check_async conclude
ceiling-check_async day t = ground arith

-- a check changes neither totals nor prices
pub check_async-Keeps :
    (day : Text) (t : CostTracker)
    → ((check_async day t).1.daily_total ≡ t.daily_total)
      × ((check_async day t).1.pricing ≡ t.pricing)
unfolding check_async conclude
check_async-Keeps day t = ground arith

-- The total of a day after any events is the total before and what the day's uses cost.
pub today_cost-run :
    (day : Text) (events : List (Text × Event)) (t : CostTracker)
    → today_cost day (run events t).1 ≡ today_cost day t + spent t.pricing day events
unfolding today_cost run spent record_usage
today_cost-run day [] t = ground arith
today_cost-run day ((d, used model usage) ∷ events) t =
    let price = lookup model t.pricing in
    let ih =
      subst
        (λ p.
          today_cost day (run events (charge d price usage t)).1
          ≡ total_of day (charge d price usage t).daily_total + spent p day events)
        (pricing-charge d price usage t) (today_cost-run day events (charge d price usage t)) in
    ground (arith, ih, total_of-charge day d price usage t)
today_cost-run day ((d, checked) ∷ events) t =
    let later = run events (check_async d t).1 in
    let (totals, prices) = check_async-Keeps d t in
    subst (λ p. today_cost day later.1 ≡ total_of day t.daily_total + spent p day events) prices
      (subst
        (λ kept.
          today_cost day later.1 ≡ total_of day kept + spent (check_async d t).1.pricing day events)
        totals (today_cost-run day events (check_async d t).1))

-- no step changes the ceiling
ceiling-run :
    (events : List (Text × Event)) (t : CostTracker) → (run events t).1.ceiling ≡ t.ceiling
unfolding run record_usage
ceiling-run [] t = refl
ceiling-run ((d, used model usage) ∷ events) t =
    ceiling-run events (charge d (lookup model t.pricing) usage t)
    ∙ ceiling-charge d (lookup model t.pricing) usage t
ceiling-run ((d, checked) ∷ events) t =
    ceiling-run events (check_async d t).1 ∙ ceiling-check_async d t

check_lem :
    (day : Text) (t : CostTracker)
    → (check day t ≡ true ↔ t.ceiling ≤ today_cost day t)
      × ((check_async day t).0.exceeded ≡ check day t)
unfolding check check_async conclude
check_lem day t = ground arith

-- After any events, a check on a day raises just when the total before them and what the day's uses
-- cost have reached the ceiling, and what remains is the ceiling less that sum.
pub check-run :
    (day : Text) (events : List (Text × Event)) (t : CostTracker)
    → let after = (run events t).1 in
      let cost = today_cost day t + spent t.pricing day events in
      (check day after ≡ true ↔ t.ceiling ≤ cost)
      × ((check_async day after).0.exceeded ≡ check day after)
      × (remaining_today day after ≡ t.ceiling - cost)
unfolding remaining_today
check-run day events t =
    let after = (run events t).1 in
    let (raises, agree) = check_lem day after in
    let cost = today_cost-run day events t in
    let ceiling = ceiling-run events t in
    (
      subst (λ c. check day after ≡ true ↔ c ≤ today_cost day t + spent t.pricing day events)
          ceiling (subst (λ c. check day after ≡ true ↔ after.ceiling ≤ c) cost raises),
      agree,
      ground (arith, cost, ceiling),
    )
