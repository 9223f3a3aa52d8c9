-- ===== src/Quotes/Tests.antt =====
-- The theorems on the quote watcher at one rule and two snapshots.
use news_project.Prelude.{
  ℕ, ◌+◌, ◌*◌, ◌≤◌, ◌≡◌, ◌↔◌, true, false, none, some, List, [], ◌∷◌, arith, leb, inl, inr, Text,
  codes,
}
use news_project.Quotes.Rule.{AlertRule, threshold, warning, ticker_target, validate_target}
use news_project.Quotes.Rule.Target.{HasTarget, validate_target_iff}
use news_project.Quotes.State.{StateTracker}
use news_project.Quotes.Engine.{Interpreted, finished, eval_expr, QuoteSnapshot, consider}
use news_project.Quotes.Engine.Cooldown.{last_at, consider_iff}
use news_project.Quotes.Engine.Snapshot.{CoolsFor}
use news_project.Quotes.Engine.Evaluations.{
  Evaluation, AllCool, Spaced, alert_times, alert_times-Spaced,
}

abbrev limit_rule : AlertRule
limit_rule = record {
  id = codes "moutai_up";
  kind = threshold;
  expr = codes "price_now > 100";
  cooldown_min = 30;
  severity = warning;
  ticker = some (codes "600519");
  name = none;
  target_kind = ticker_target;
  sector = none;
  holding = none;
  portfolio = false;
  needs = [];
}

-- prices are numbers here, and so is the context
abbrev sample_snapshot : ℕ → QuoteSnapshot ℕ
sample_snapshot price = record {
  ticker = codes "600519";
  market = codes "SH";
  name = codes "Moutai";
  ts = 0;
  price = price;
  open_price = 90;
  high = 120;
  low = 80;
  prev_close = 90;
  volume = 1000;
  amount = 100000;
  bid1 = 1;
  ask1 = 1;
}

abbrev above_100 : Text → ℕ → Interpreted
above_100 expr price = finished (leb 101 price) false

-- half an hour passes between two readings
abbrev slow_clock : ℕ → ℕ
slow_clock n = n * 1800

slow_clock_mono : (m n : ℕ) → m ≤ n → slow_clock m ≤ slow_clock n
slow_clock_mono m n h = omega arith

abbrev new_tracker : StateTracker ℕ
new_tracker = record { rows = []; reads = 0 }

abbrev sample_evaluation : ℕ → Evaluation ℕ ℕ
sample_evaluation price = record {
  rules = limit_rule ∷ [];
  snap = sample_snapshot price;
  ctxs = record { basic = price; holding = none; indicators = none };
}

abbrev three_evaluations : List (Evaluation ℕ ℕ)
three_evaluations = sample_evaluation 110 ∷ sample_evaluation 99 ∷ sample_evaluation 111 ∷ []

only_rule-CoolsFor : (r : AlertRule) → r ≡ limit_rule → 30 ≤ r.cooldown_min
only_rule-CoolsFor r e = rw e (omega arith)

limit_rule-CoolsFor : CoolsFor (codes "moutai_up") 30 (limit_rule ∷ [])
limit_rule-CoolsFor r i e = elim i [
  | inl same ↦ only_rule-CoolsFor r same
  | inr nothing ↦ absurd nothing.1
]

three_evaluations-AllCool : AllCool (codes "moutai_up") 30 three_evaluations
three_evaluations-AllCool = (limit_rule-CoolsFor, (limit_rule-CoolsFor, (limit_rule-CoolsFor, tt)))

alert_times-Spaced_example :
    Spaced (30 * 60) (last_at (codes "moutai_up") (codes "600519") new_tracker) (
      alert_times slow_clock above_100
        (codes "moutai_up")
        (codes "600519")
        three_evaluations
        new_tracker)
alert_times-Spaced_example =
    alert_times-Spaced slow_clock above_100 (codes "moutai_up") (codes "600519") slow_clock_mono 30
      three_evaluations new_tracker three_evaluations-AllCool

consider_iff_example :
    ((consider slow_clock above_100 (codes "600519") (some 110) 110 limit_rule new_tracker).0
      ≡ true)
    ↔ ((eval_expr above_100 limit_rule 110 ≡ true)
        × ((p : ℕ)
            → last_at limit_rule.id (codes "600519") new_tracker ≡ some p
            → p + limit_rule.cooldown_min * 60 ≤ slow_clock new_tracker.reads))
consider_iff_example =
    consider_iff slow_clock above_100 (codes "600519") (some 110) limit_rule new_tracker 110

validate_target_iff_example :
    (validate_target limit_rule ≡ none) ↔ HasTarget limit_rule.kind limit_rule
validate_target_iff_example = validate_target_iff limit_rule
