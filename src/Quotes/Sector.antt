-- ===== src/Quotes/Sector.antt =====
-- `evaluate_sector` of src/quote_watcher/alerts/engine.py, with `SectorSnapshot` of feeds/sector.py and
-- `build_sector_context` of alerts/context.py, of which the values are given; the context that the
-- interpreter reads is made from them by an argument.
use news_project.Prelude.{
  ℕ, ◌&&◌, not, Option, none, some, List, [], ◌∷◌, ◌++◌, if◌then◌else◌, Text, text_eq, codes,
}
use news_project.Prelude.Dict.{Dict, lookup}
use news_project.Quotes.Rule.{event, AlertRule}
use news_project.Quotes.State.{StateTracker}
use news_project.Quotes.Engine.{
  QuoteSnapshot, AlertVerdict, Interpreted, is_kind, is_ticker_target, consider,
}

pub record SectorSnapshot (F : Type 0) : Type 0 where
  pub name : Text
  pub pct_change : F
  pub volume_ratio : Option F
  pub turnover_rate : Option F

-- the three values of `build_sector_context`
pub record SectorContext (F : Type 0) : Type 0 where
  pub sector_pct_change : F
  pub sector_volume_ratio : F
  pub sector_turnover_rate : F

unfoldable pub or_zero : {F : Type 0} → F → Option F → F
or_zero zero none = zero
or_zero zero (some v) = v

-- `build_sector_context`
unfoldable pub build_sector_context : {F : Type 0} → F → SectorSnapshot F → SectorContext F
unfolding or_zero
build_sector_context zero s = record {
  sector_pct_change = s.pct_change;
  sector_volume_ratio = or_zero zero s.volume_ratio;
  sector_turnover_rate = or_zero zero s.turnover_rate;
}

-- `_sector_placeholder_snapshot`
unfoldable pub placeholder_snapshot : {F : Type 0} → F → ℕ → Text → QuoteSnapshot F
placeholder_snapshot zero now sector = record {
  ticker = codes "sector:" ++ sector;
  market = codes "SH";
  name = sector;
  ts = now;
  price = zero;
  open_price = zero;
  high = zero;
  low = zero;
  prev_close = zero;
  volume = 0;
  amount = zero;
  bid1 = zero;
  ask1 = zero;
}

-- the sector of a rule for sector events
unfoldable pub sector_of : AlertRule → Option Text
unfolding is_kind is_ticker_target
sector_of rule =
    if is_kind rule.kind event && not (is_ticker_target rule.target_kind) then rule.sector else none

module _ {F Ctx : Type 0} (clock : ℕ → ℕ) (interp : Text → Ctx → Interpreted) (zero : F) (now : ℕ)
    (ctx_of : SectorContext F → Ctx) (sector_snaps : Dict Text (SectorSnapshot F)) where
  -- the body of the loop, by the sector of the rule and its snapshot
  unfoldable pub consider_sector :
      AlertRule → Option Text → StateTracker F → List (AlertVerdict F Ctx) × StateTracker F
  unfolding consider build_sector_context placeholder_snapshot
  consider_sector rule none s = ([], s)
  consider_sector rule (some sector) s = elim (lookup sector sector_snaps) [
    | none ↦ ([], s)
    | some snap ↦
        let ctx = ctx_of (build_sector_context zero snap) in
        let one =
          consider clock interp (codes "_sector:" ++ sector) (some snap.pct_change) ctx rule s in
        let verdict : AlertVerdict F Ctx = record {
          rule = rule;
          snapshot = placeholder_snapshot zero now sector;
          ctx_dump = ctx;
        } in
        (if one.0 then verdict ∷ [] else [], one.1)
  ]

  -- `AlertEngine.evaluate_sector`
  unfoldable pub evaluate_sector :
      List AlertRule → StateTracker F → List (AlertVerdict F Ctx) × StateTracker F
  unfolding consider_sector sector_of
  evaluate_sector [] s = ([], s)
  evaluate_sector (rule ∷ rules) s =
      let one = consider_sector rule (sector_of rule) s in
      let rest = evaluate_sector rules one.1 in (one.0 ++ rest.0, rest.1)
