-- ===== src/Quotes/Engine/Evaluations.antt =====
-- alerts/engine.py over the life of the process: how far apart a rule alerts for one ticker.
use news_project.Prelude.{
  ℕ, ◌+◌, ◌*◌, ◌≤◌, refl, sym, subst, Bool, true, false, Option, none, some, List, [], ◌∷◌,
  if◌then◌else◌, Text,
}
use news_project.Quotes.Rule.{AlertRule}
use news_project.Quotes.State.{StateTracker}
use news_project.Quotes.Engine.{Interpreted, QuoteSnapshot, Contexts, evaluate_for_snapshot}
use news_project.Quotes.Engine.Cooldown.{last_at}
use news_project.Quotes.Engine.Spacing.{Moves, still, moved}
use news_project.Quotes.Engine.Snapshot.{fired_for, CoolsFor, evaluate_for_snapshot-Moves}

-- An evaluation: the rules then in force, the snapshot, and its contexts.
pub record Evaluation (F Ctx : Type 0) : Type 0 where
  pub rules : List AlertRule
  pub snap : QuoteSnapshot F
  pub ctxs : Contexts Ctx

abbrev pub time_of : Option ℕ → ℕ
time_of none = 0
time_of (some n) = n

-- `w` or more after the time before, if there was one, and so on.
abbrev pub Spaced : ℕ → Option ℕ → List ℕ → Type 0
Spaced w before [] = Unit
Spaced w none (x ∷ xs) = Spaced w (some x) xs
Spaced w (some p) (x ∷ xs) = (p + w ≤ x) × Spaced w (some x) xs

-- In every evaluation, the rules with the id have at least the cooldown.
abbrev pub AllCool : {F Ctx : Type 0} → Text → ℕ → List (Evaluation F Ctx) → Type 0
AllCool i cooldown_min [] = Unit
AllCool i cooldown_min (e ∷ evs) = CoolsFor i cooldown_min e.rules × AllCool i cooldown_min evs

Spaced-moved :
    (w : ℕ) (before after : Option ℕ) (fired : Bool) (later : List ℕ)
    → Moves w before after fired
    → Spaced w after later
    → Spaced w before (if fired then time_of after ∷ later else later)
Spaced-moved w before after false later (still e) k = subst (λ b. Spaced w b later) e k
Spaced-moved w none after true later (moved n e h) k =
    subst (λ b. Spaced w (some (time_of b)) later) (sym e) (subst (λ b. Spaced w b later) e k)
Spaced-moved w (some p) after true later (moved n e h) k = (
  subst (λ b. p + w ≤ time_of b) (sym e) (h p refl),
  subst (λ b. Spaced w (some (time_of b)) later) (sym e) (subst (λ b. Spaced w b later) e k),
)

module _ {F Ctx : Type 0} (clock : ℕ → ℕ) (interp : Text → Ctx → Interpreted) (i key : Text) where
  -- The times of the evaluations with a verdict of the rule `i` for the ticker `key`, as the table has
  -- them afterwards.
  unfoldable pub alert_times : List (Evaluation F Ctx) → StateTracker F → List ℕ
  unfolding evaluate_for_snapshot
  alert_times [] s = []
  alert_times (e ∷ evs) s =
      let result = evaluate_for_snapshot clock interp e.rules e.snap e.ctxs s in
      let later = alert_times evs result.1 in
      if fired_for i key result.0 then time_of (last_at i key result.1) ∷ later else later

  -- With a clock that does not go back, over any sequence of evaluations whose rules with id `i` have a
  -- cooldown of at least `cooldown_min` minutes, the times of the evaluations that alert for rule `i`
  -- and ticker `key` are that many minutes or more apart, the first one from the time that the table
  -- has before.
  pub alert_times-Spaced :
      (monotone : (m n : ℕ) → m ≤ n → clock m ≤ clock n) (cooldown_min : ℕ)
      (evs : List (Evaluation F Ctx)) (s : StateTracker F)
      → AllCool i cooldown_min evs
      → Spaced (cooldown_min * 60) (last_at i key s) (alert_times evs s)
  unfolding alert_times
  alert_times-Spaced monotone cooldown_min [] s c = tt
  alert_times-Spaced monotone cooldown_min (e ∷ evs) s c =
      let result = evaluate_for_snapshot clock interp e.rules e.snap e.ctxs s in
      Spaced-moved (cooldown_min * 60) (last_at i key s) (last_at i key result.1) _ _
        (evaluate_for_snapshot-Moves clock interp e.snap monotone i key cooldown_min e.rules e.ctxs
          s c.0)
        (alert_times-Spaced monotone cooldown_min evs result.1 c.1)
