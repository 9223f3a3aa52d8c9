-- ===== src/Quotes/Jobs/Closed.antt =====
-- The jobs of src/quote_watcher/scheduler/jobs.py while the market is closed.
use news_project.Prelude.{
  ℕ, ◌≤◌, ◌<◌, ◌≡◌, ◌⊎◌, refl, Bool, true, false, Option, List, [], arith, is_empty, by_branch,
  Text,
}
use news_project.Prelude.Dict.{Dict}
use news_project.Push.Dispatcher.{Pusher}
use news_project.Push.Retry.{returned, raised}
use news_project.Quotes.Rule.{AlertRule}
use news_project.Quotes.State.{StateTracker}
use news_project.Quotes.Engine.{QuoteSnapshot, Interpreted}
use news_project.Quotes.Scan.{Floats, MarketRow, MarketScansCfg}
use news_project.Quotes.Sector.{SectorSnapshot, SectorContext}
use news_project.Quotes.Ring.{TickRing}
use news_project.Quotes.Calendar.{
  BeijingTime, aware, is_open, session, session_at, is_trading, time_of,
}
use news_project.Quotes.Jobs.{when_open, poll_quotes, evaluate_sector_alerts, scan_market}

-- A weekend, a holiday, or outside the hours.
abbrev pub IsShut : {Date : Type 0} → (Date → Bool) → BeijingTime Date → Type 0
IsShut is_holiday bj =
    (5 ≤ bj.weekday)
    ⊎ (is_holiday bj.date ≡ true)
    ⊎ (bj.time < 34200)
    ⊎ ((41400 ≤ bj.time) × (bj.time < 46800))
    ⊎ (54000 ≤ bj.time)

is_open-IsShut :
    {Date : Type 0} (is_holiday : Date → Bool) (bj : BeijingTime Date)
    → IsShut is_holiday bj
    → is_open is_holiday (aware bj) ≡ returned false
unfolding is_open session session_at is_trading time_of
is_open-IsShut is_holiday bj shut = ground arith

when_open-shut :
    {A : Type 0} (o : _) (shut rest : A)
    → o ≡ returned false
    → when_open o shut rest ≡ returned shut
unfolding when_open
when_open-shut (returned true) shut rest e = cc
when_open-shut (returned false) shut rest e = refl
when_open-shut (raised x) shut rest e = cc

-- On a weekend, on a holiday and outside the hours, whatever the feeds would return, `poll_quotes`
-- gives no snapshots and leaves the ring, `scan_market` sends nothing, and `evaluate_sector_alerts`
-- sends nothing and leaves the tracker.
pub scan_market-IsShut :
    {F Ctx Date : Type 0} (fl : Floats F) (hms hm : ℕ → Text) (pct_of ratio_of : Ctx → Option F)
    (registry : Dict Text Pusher) (channels : List Text) (clock : ℕ → ℕ)
    (interp : Text → Ctx → Interpreted) (rules : List AlertRule) (ctx_of : SectorContext F → Ctx)
    (snaps : List (QuoteSnapshot F)) (rows : List (MarketRow F))
    (sectors : Dict Text (SectorSnapshot F)) (cfg : MarketScansCfg F) (now : ℕ)
    (ring : TickRing (QuoteSnapshot F)) (s : StateTracker F) (is_holiday : Date → Bool)
    (bj : BeijingTime Date)
    → IsShut is_holiday bj
    → (poll_quotes is_holiday (aware bj) snaps ring ≡ returned ([], ring))
      × (scan_market fl hms pct_of ratio_of registry channels is_holiday (aware bj) hm now cfg rows
          ≡ returned (0, []))
      × (evaluate_sector_alerts fl hms pct_of ratio_of registry channels clock interp rules
            is_holiday
            (aware bj)
            now
            ctx_of
            sectors
            s
          ≡ returned (0, [], s))
unfolding poll_quotes scan_market evaluate_sector_alerts
scan_market-IsShut fl hms hm pct_of ratio_of registry channels clock interp rules ctx_of snaps rows
      sectors cfg now ring s is_holiday bj shut =
    let e = is_open-IsShut is_holiday bj shut in
    (
      when_open-shut (is_open is_holiday (aware bj)) _ _ e,
      by_branch (λ r. r ≡ returned (0, [])) (is_empty channels) _ _ (λ h. refl)
          (λ h. when_open-shut (is_open is_holiday (aware bj)) _ _ e),
      by_branch (λ r. r ≡ returned (0, [], s)) (is_empty channels) _ _ (λ h. refl)
          (λ h. when_open-shut (is_open is_holiday (aware bj)) _ _ e),
    )
