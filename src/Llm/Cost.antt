-- ===== src/Llm/Cost.antt =====
-- llm/cost_tracker.py. A price is a whole number of a currency unit per million tokens; costs, totals
-- and the ceiling count millionths of that unit, so that a cost is a whole number too. Rounding of
-- floats is not modelled. The day, `utc_now()` cut to a date, is an argument. The lock has no place
-- here: each method is one step.
pub mod Totals
pub mod Alerts
use news_project.Prelude.{
  ℕ, ◌+◌, ◌-◌, ◌*◌, Bool, true, false, ◌&&◌, not, Option, none, some, List, [], ◌∷◌, leb,
  if◌then◌else◌, elem, Text, text_eq,
}
use news_project.Prelude.Dict.{Dict, lookup, insert}

pub record ModelPricing : Type 0 where
  pub input_per_m : ℕ
  pub output_per_m : ℕ

pub record TokenUsage : Type 0 where
  pub input_tokens : ℕ
  pub output_tokens : ℕ

pub record CostTracker : Type 0 where
  pub ceiling : ℕ
  pub pricing : Dict Text ModelPricing
  pub daily_total : Dict Text ℕ
  -- whether an alerter is configured
  pub has_bark : Bool
  -- `warn_threshold` as a fraction
  pub warn_num : ℕ
  pub warn_den : ℕ
  pub warned_today : List Text

-- `self._daily_total[day]`. The `defaultdict` also enters a zero for a day that it lacks, which reads
-- as the day's absence does.
unfoldable pub or_zero : Option ℕ → ℕ
or_zero none = 0
or_zero (some n) = n

unfoldable pub total_of : Text → Dict Text ℕ → ℕ
unfolding or_zero
total_of day totals = or_zero (lookup day totals)

-- `CostTracker.today_cost_cny`
unfoldable pub today_cost : Text → CostTracker → ℕ
unfolding total_of
today_cost day t = total_of day t.daily_total

-- what a use costs at a price; a model without a price costs nothing
unfoldable pub cost_at : Option ModelPricing → TokenUsage → ℕ
cost_at none usage = 0
cost_at (some p) usage = usage.input_tokens * p.input_per_m + usage.output_tokens * p.output_per_m

-- `record` after `p = self._pricing.get(model)`
unfoldable pub charge : Text → Option ModelPricing → TokenUsage → CostTracker → CostTracker
unfolding cost_at total_of
charge day none usage t = t
charge day (some p) usage t =
    let cost = cost_at (some p) usage in
    record t { daily_total = insert day (total_of day t.daily_total + cost) t.daily_total }

-- `CostTracker.record`
unfoldable pub record_usage : Text → Text → TokenUsage → CostTracker → CostTracker
unfolding charge
record_usage day model usage t = charge day (lookup model t.pricing) usage t

-- The messages that a check sends to the alerter.
pub data Alert : Type 0 where
  llm_cost_exceeded llm_cost_warn : Alert

-- `CostTracker.check`: whether it raises `CostCeilingExceeded`
unfoldable pub check : Text → CostTracker → Bool
unfolding today_cost
check day t = leb t.ceiling (today_cost day t)

-- `if self._bark is not None: await self._bark.send(...)`
unfoldable pub send : Bool → Alert → List Alert
send has_bark alert = if has_bark then alert ∷ [] else []

-- A checked call: whether it raised, and the alerts that it sent.
pub record Checked : Type 0 where
  pub exceeded : Bool
  pub alerts : List Alert

-- `check_async` after its tests: `over` is `today_cost >= self._ceiling`, `near` is `today_cost >=
-- self._ceiling * self._warn_threshold` and `seen` is `today_key in self._warned_today`
unfoldable pub conclude : Bool → Bool → Bool → Text → CostTracker → Checked × CostTracker
unfolding send
conclude over near seen day t =
    if over
    then (record { exceeded = true; alerts = send t.has_bark llm_cost_exceeded }, t)
    else if near && not seen
    then (
      record { exceeded = false; alerts = send t.has_bark llm_cost_warn },
      record t { warned_today = day ∷ t.warned_today },
    )
    else (record { exceeded = false; alerts = [] }, t)

-- `CostTracker.check_async`
unfoldable pub check_async : Text → CostTracker → Checked × CostTracker
unfolding today_cost conclude
check_async day t =
    let cost = today_cost day t in
    let over = leb t.ceiling cost in
    let near = leb (t.ceiling * t.warn_num) (cost * t.warn_den) in
    conclude over near (elem day t.warned_today) day t

-- `CostTracker.remaining_today`; `-` stops at 0, as the `max` in the source does
unfoldable pub remaining_today : Text → CostTracker → ℕ
unfolding today_cost
remaining_today day t = t.ceiling - today_cost day t

-- What the pipeline does with the tracker on a day.
pub data Event : Type 0 where
  used : Text → TokenUsage → Event
  checked : Event

-- the day beside each alert
unfoldable pub tag : Text → List Alert → List (Text × Alert) → List (Text × Alert)
tag day [] rest = rest
tag day (a ∷ alerts) rest = (day, a) ∷ tag day alerts rest

-- the alerts of a sequence of events, each with its day
unfoldable pub run : List (Text × Event) → CostTracker → List (Text × Alert) × CostTracker
unfolding record_usage check_async tag
run [] t = ([], t)
run ((day, used model usage) ∷ events) t = run events (record_usage day model usage t)
run ((day, checked) ∷ events) t =
    let (c, t') = check_async day t in let rest = run events t' in (tag day c.alerts rest.0, rest.1)
