-- ===== src/Quotes/Engine.antt =====
-- src/quote_watcher/alerts/engine.py, with verdict.py and the snapshot of feeds/base.py. The
-- interpreter of asteval is a parameter. The contexts that alerts/context.py builds are arguments,
-- of a type `Ctx`; what they hold is computed with floats.
pub mod Cooldown
pub mod Spacing
pub mod Snapshot
pub mod Evaluations
use news_project.Prelude.{
  ℕ, ◌+◌, Bool, true, false, ◌&&◌, not, Option, none, some, List, [], ◌∷◌, ◌++◌, if◌then◌else◌,
  keep, is_empty, Text, text_beq, codes,
}
use news_project.Quotes.Rule.{
  AlertKind, threshold, indicator, event, composite, AlertRule, TargetKind, ticker_target,
  sector_target,
}
use news_project.Quotes.State.{AlertState, StateTracker, is_in_cooldown, mark_triggered, bump_count}

pub record QuoteSnapshot (F : Type 0) : Type 0 where
  pub ticker : Text
  pub market : Text
  pub name : Text
  pub ts : ℕ
  pub price : F
  pub open_price : F
  pub high : F
  pub low : F
  pub prev_close : F
  pub volume : ℕ
  pub amount : F
  pub bid1 : F
  pub ask1 : F

pub record AlertVerdict (F Ctx : Type 0) : Type 0 where
  pub rule : AlertRule
  pub snapshot : QuoteSnapshot F
  pub ctx_dump : Ctx

-- What a run of the interpreter on an expression does: it raises, or gives a value's truth and
-- whether it recorded errors.
pub data Interpreted : Type 0 where
  failed : Interpreted
  finished : Bool → Bool → Interpreted

-- `_eval_expr` after the run of the interpreter
unfoldable pub truth_of : Interpreted → Bool
truth_of failed = false
truth_of (finished truth errors) = if errors then false else truth

-- `r.kind == kind`
unfoldable pub is_kind : AlertKind → AlertKind → Bool
is_kind threshold threshold = true
is_kind threshold indicator = false
is_kind threshold event = false
is_kind threshold composite = false
is_kind indicator threshold = false
is_kind indicator indicator = true
is_kind indicator event = false
is_kind indicator composite = false
is_kind event threshold = false
is_kind event indicator = false
is_kind event event = true
is_kind event composite = false
is_kind composite threshold = false
is_kind composite indicator = false
is_kind composite event = false
is_kind composite composite = true

-- `r.target_kind == "ticker"`
unfoldable pub is_ticker_target : TargetKind → Bool
is_ticker_target ticker_target = true
is_ticker_target sector_target = false

-- `x == ticker` for a string or None
unfoldable pub names : Option Text → Text → Bool
names none ticker = false
names (some x) ticker = text_beq x ticker

-- `AlertEngine._eval_expr`
unfoldable pub eval_expr : {Ctx : Type 0} → (Text → Ctx → Interpreted) → AlertRule → Ctx → Bool
unfolding truth_of
eval_expr interp rule ctx = truth_of (interp rule.expr ctx)

-- the contexts of a snapshot: of the threshold and event rules, of the ticker's holding where the
-- holdings have one, and of the indicators where there is a cache of bars
pub record Contexts (Ctx : Type 0) : Type 0 where
  pub basic : Ctx
  pub holding : Option Ctx
  pub indicators : Option Ctx

module _ {F Ctx : Type 0} (clock : ℕ → ℕ) (interp : Text → Ctx → Interpreted) where
  -- the body of the loops after `_eval_expr` and `is_in_cooldown`: whether the rule fires
  unfoldable pub settle :
      Text → Option F → AlertRule → Bool × StateTracker F → Bool × StateTracker F
  unfolding bump_count mark_triggered
  settle key value rule (true, s) = (false, bump_count rule.id key s)
  settle key value rule (false, s) = (true, mark_triggered clock rule.id key value s)

  -- the body of the loops over rules
  unfoldable pub consider :
      Text → Option F → Ctx → AlertRule → StateTracker F → Bool × StateTracker F
  unfolding eval_expr is_in_cooldown settle
  consider key value ctx rule s =
      if eval_expr interp rule ctx
      then settle key value rule (is_in_cooldown clock rule.id key rule.cooldown_min s)
      else (false, s)

  -- the loop over rules, for a key, a value and a snapshot
  unfoldable pub run_loop :
      Text
      → Option F
      → QuoteSnapshot F
      → Ctx
      → List AlertRule
      → StateTracker F
      → List (AlertVerdict F Ctx) × StateTracker F
  unfolding consider
  run_loop key value snap ctx [] s = ([], s)
  run_loop key value snap ctx (rule ∷ rules) s =
      let one = consider key value ctx rule s in
      let rest = run_loop key value snap ctx rules one.1 in
      (
        if one.0 then record { rule = rule; snapshot = snap; ctx_dump = ctx } ∷ rest.0 else rest.0,
        rest.1,
      )

  -- `AlertEngine._run_rules`; in every context of a snapshot, `price_now` is its price
  unfoldable pub run_rules :
      QuoteSnapshot F
      → Ctx
      → List AlertRule
      → StateTracker F
      → List (AlertVerdict F Ctx) × StateTracker F
  unfolding run_loop
  run_rules snap = run_loop snap.ticker (some snap.price) snap

  -- `_run_rules`, or nothing without a context
  unfoldable pub run_if :
      QuoteSnapshot F
      → Option Ctx
      → List AlertRule
      → StateTracker F
      → List (AlertVerdict F Ctx) × StateTracker F
  unfolding run_rules
  run_if snap none rules s = ([], s)
  run_if snap (some ctx) rules s = run_rules snap ctx rules s

  -- `AlertEngine.evaluate_for_snapshot`; an empty group of rules leaves the tracker as it is
  unfoldable pub evaluate_for_snapshot :
      List AlertRule
      → QuoteSnapshot F
      → Contexts Ctx
      → StateTracker F
      → List (AlertVerdict F Ctx) × StateTracker F
  unfolding run_if is_kind is_ticker_target names
  evaluate_for_snapshot rules snap ctxs s =
      let first =
        run_rules snap ctxs.basic
          (keep (λ (r : AlertRule). is_kind r.kind threshold && names r.ticker snap.ticker) rules)
          s in
      let second =
        run_if snap ctxs.holding
          (keep (λ (r : AlertRule). is_kind r.kind composite && names r.holding snap.ticker) rules)
          first.1 in
      let third =
        run_if snap ctxs.indicators
          (keep (λ (r : AlertRule). is_kind r.kind indicator && names r.ticker snap.ticker) rules)
          second.1 in
      let fourth =
        run_rules snap ctxs.basic
          (keep
            (λ (r : AlertRule).
              is_kind r.kind event
              && (is_ticker_target r.target_kind && names r.ticker snap.ticker))
            rules)
          third.1 in
      (first.0 ++ (second.0 ++ (third.0 ++ fourth.0)), fourth.1)

  -- `AlertEngine.evaluate_portfolio`, with the first of the snapshots, if any, the context of the
  -- portfolio and its `total_unrealized_pnl_pct`
  unfoldable pub evaluate_portfolio :
      List AlertRule
      → Option (QuoteSnapshot F)
      → Ctx
      → F
      → StateTracker F
      → List (AlertVerdict F Ctx) × StateTracker F
  unfolding run_loop is_kind
  evaluate_portfolio rules none ctx pnl_pct s = ([], s)
  evaluate_portfolio rules (some any_snap) ctx pnl_pct s =
      run_loop (codes "_portfolio") (some pnl_pct) any_snap ctx
        (keep (λ (r : AlertRule). is_kind r.kind composite && r.portfolio) rules) s
