-- ===== src/Quotes/Rule/Target.antt =====
-- What the validation of rule.py demands of a rule.
use news_project.Prelude.{
  ◌≡◌, ◌↔◌, ◌⊎◌, refl, true, false, Option, none, some, arith, is_empty, Text,
}
use news_project.Quotes.Rule.{
  AlertKind, threshold, indicator, event, composite, TargetKind, ticker_target, sector_target,
  AlertRule, is_none, is_falsy, validate_event, validate_kind, validate_target,
}

abbrev pub IsGiven : Option Text → Type 0
IsGiven value = (x : Text) × (value ≡ some x)

abbrev pub IsFilled : Option Text → Type 0
IsFilled value = (x : Text) × (value ≡ some x) × (is_empty x ≡ false)

abbrev pub EventTarget : TargetKind → AlertRule → Type 0
EventTarget ticker_target r = IsGiven r.ticker
EventTarget sector_target r = IsFilled r.sector

-- The target that a rule of each kind needs.
abbrev pub HasTarget : AlertKind → AlertRule → Type 0
HasTarget threshold r = IsGiven r.ticker
HasTarget indicator r = IsGiven r.ticker
HasTarget event r = EventTarget r.target_kind r
HasTarget composite r = IsFilled r.holding ⊎ (r.portfolio ≡ true)

is_none_iff : (value : Option Text) → (is_none value ≡ false) ↔ IsGiven value
unfolding is_none
is_none_iff none = (λ h. cc, λ (x, e). ground arith)
is_none_iff (some y) = (λ h. (y, refl), λ h. refl)

is_falsy_iff : (value : Option Text) → (is_falsy value ≡ false) ↔ IsFilled value
unfolding is_falsy
is_falsy_iff none = (λ h. cc, λ (x, e, n). ground arith)
is_falsy_iff (some y) = (λ h. (y, refl, h), λ (x, e, n). ground arith)

event_iff :
    (target : TargetKind) (r : AlertRule) → (validate_event target r ≡ none) ↔ EventTarget target r
unfolding validate_event
event_iff ticker_target r = ground (arith, is_none_iff r.ticker)
event_iff sector_target r = ground (arith, is_falsy_iff r.sector)

kind_iff : (kind : AlertKind) (r : AlertRule) → (validate_kind kind r ≡ none) ↔ HasTarget kind r
unfolding validate_kind
kind_iff threshold r = ground (arith, is_none_iff r.ticker)
kind_iff indicator r = ground (arith, is_none_iff r.ticker)
kind_iff event r = event_iff r.target_kind r
kind_iff composite r = ground (arith, is_falsy_iff r.holding)

-- A rule passes the validation exactly when it has the target of its kind: a ticker for threshold,
-- indicator and ticker events, a non-empty sector for sector events, and a non-empty holding or the
-- portfolio for composite rules.
pub validate_target_iff : (r : AlertRule) → (validate_target r ≡ none) ↔ HasTarget r.kind r
unfolding validate_target
validate_target_iff r = kind_iff r.kind r
