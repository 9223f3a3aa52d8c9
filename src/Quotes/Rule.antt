-- ===== src/Quotes/Rule.antt =====
-- src/quote_watcher/alerts/rule.py: the alert rules and their validation.
pub mod Unique
pub mod Target
use news_project.Prelude.{
  ℕ, Bool, true, false, ◌&&◌, ◌||◌, not, Option, none, some, List, [], ◌∷◌, if◌then◌else◌, elem,
  is_empty, Text, text_eq,
}

pub data AlertKind : Type 0 where
  threshold indicator event composite : AlertKind

pub data Severity : Type 0 where
  info warning critical : Severity

pub data TargetKind : Type 0 where
  ticker_target sector_target : TargetKind

pub record AlertRule : Type 0 where
  pub id : Text
  pub kind : AlertKind
  pub expr : Text
  pub cooldown_min : ℕ
  pub severity : Severity
  pub ticker : Option Text
  pub name : Option Text
  pub target_kind : TargetKind
  pub sector : Option Text
  pub holding : Option Text
  pub portfolio : Bool
  pub needs : List Text

-- `x is None`
unfoldable pub is_none : Option Text → Bool
is_none none = true
is_none (some x) = false

-- `not x` of a string or None
unfoldable pub is_falsy : Option Text → Bool
is_falsy none = true
is_falsy (some x) = is_empty x

-- the errors of the validators, each with the id in its text
pub data RuleError : Type 0 where
  requires_ticker event_requires_ticker event_requires_sector composite_requires_target
        duplicate_id :
      Text → RuleError

-- the branch of `event`
unfoldable pub validate_event : TargetKind → AlertRule → Option RuleError
unfolding is_none is_falsy
validate_event ticker_target r =
    if is_none r.ticker then some (event_requires_ticker r.id) else none
validate_event sector_target r =
    if is_falsy r.sector then some (event_requires_sector r.id) else none

-- the branches on the kind
unfoldable pub validate_kind : AlertKind → AlertRule → Option RuleError
unfolding is_none is_falsy validate_event
validate_kind threshold r = if is_none r.ticker then some (requires_ticker r.id) else none
validate_kind indicator r = if is_none r.ticker then some (requires_ticker r.id) else none
validate_kind event r = validate_event r.target_kind r
validate_kind composite r =
    if is_falsy r.holding && not r.portfolio then some (composite_requires_target r.id) else none

-- `AlertRule._validate_target`: the error that it raises
unfoldable pub validate_target : AlertRule → Option RuleError
unfolding validate_kind
validate_target r = validate_kind r.kind r

-- `AlertsFile._unique_ids`
unfoldable pub unique_ids : List Text → List AlertRule → Option RuleError
unique_ids seen [] = none
unique_ids seen (r ∷ rules) =
    let rest = unique_ids (r.id ∷ seen) rules in
    if elem r.id seen then some (duplicate_id r.id) else rest
