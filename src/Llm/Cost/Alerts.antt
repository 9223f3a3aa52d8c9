-- ===== src/Llm/Cost/Alerts.antt =====
-- How often llm/cost_tracker.py alerts.
use news_project.Prelude.{
  ℕ, ◌+◌, ◌≤◌, ◌≡◌, refl, Bool, true, false, Option, none, some, List, [], ◌∷◌, arith,
  if◌then◌else◌, any, elem, Text, text_eq, text_beq, text_beq_iff, subst, sym,
}
use news_project.Prelude.Dict.{lookup}
use news_project.Llm.Cost.{
  CostTracker, TokenUsage, ModelPricing, charge, record_usage, check_async, conclude, Alert,
  llm_cost_exceeded, llm_cost_warn, Event, used, checked, tag, run, send,
}

-- how many of the alerts warn about the day
unfoldable pub warns : Text → List (Text × Alert) → ℕ
warns day [] = 0
warns day ((d, llm_cost_exceeded) ∷ rest) = warns day rest
warns day ((d, llm_cost_warn) ∷ rest) =
    let later = warns day rest in if text_beq d day then 1 + later else later

-- how many warnings the day may still see
unfoldable pub left_for : Text → List Text → ℕ
left_for day warned = if elem day warned then 0 else 1

warned_today-charge :
    (day : Text) (price : Option ModelPricing) (usage : TokenUsage) (t : CostTracker)
    → (charge day price usage t).warned_today ≡ t.warned_today
unfolding charge
warned_today-charge day none usage t = refl
warned_today-charge day (some p) usage t = refl

warns-exceeded :
    (day d : Text) (has_bark : Bool) (rest : List (Text × Alert))
    → warns day (tag d (send has_bark llm_cost_exceeded) rest) ≡ warns day rest
unfolding warns tag send
warns-exceeded day d true rest = refl
warns-exceeded day d false rest = refl

warns-warn :
    (day d : Text) (has_bark : Bool) (rest : List (Text × Alert))
    → warns day (tag d (send has_bark llm_cost_warn) rest)
      ≤ warns day rest + (if text_beq d day then 1 else 0)
unfolding warns tag send
warns-warn day d true rest = ground arith
warns-warn day d false rest = ground arith

-- a day that is warned about now, and was not before
left_for-warned :
    (day d : Text) (warned : List Text)
    → elem d warned ≡ false
    → left_for day (d ∷ warned) + (if text_beq d day then 1 else 0) ≤ left_for day warned
unfolding left_for elem any
left_for-warned day d warned h = ground (arith, text_beq_iff d day, text_beq_iff day d)

-- a check spends what it may
warns-conclude :
    (day d : Text) (over near seen : Bool) (t : CostTracker) (rest : List (Text × Alert))
    → elem d t.warned_today ≡ seen
    → warns day rest ≤ left_for day (conclude over near seen d t).1.warned_today
    → warns day (tag d (conclude over near seen d t).0.alerts rest) ≤ left_for day t.warned_today
unfolding conclude warns tag left_for send elem
warns-conclude day d true near seen t rest e h =
    subst (λ n. n ≤ left_for day t.warned_today) (sym (warns-exceeded day d t.has_bark rest)) h
warns-conclude day d false false seen t rest e h = h
warns-conclude day d false true true t rest e h = h
warns-conclude day d false true false t rest e h =
    ground (arith, warns-warn day d t.has_bark rest, left_for-warned day d t.warned_today e)

-- Over any events, at most one warning is sent for a day, and none for a day already warned about.
pub warns-run :
    (day : Text) (events : List (Text × Event)) (t : CostTracker)
    → warns day (run events t).0 ≤ left_for day t.warned_today
unfolding run record_usage warns check_async
warns-run day [] t = ground arith
warns-run day ((d, used model usage) ∷ events) t =
    subst
      (λ w. warns day (run events (charge d (lookup model t.pricing) usage t)).0 ≤ left_for day w)
      (warned_today-charge d (lookup model t.pricing) usage t)
      (warns-run day events (charge d (lookup model t.pricing) usage t))
warns-run day ((d, checked) ∷ events) t =
    warns-conclude day d _ _ _ t (run events (check_async d t).1).0 refl
      (warns-run day events (check_async d t).1)
