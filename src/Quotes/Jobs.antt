-- ===== src/Quotes/Jobs.antt =====
-- src/quote_watcher/scheduler/jobs.py. What a feed returns is an argument; what the jobs send stands
-- in their result, a message with the results of its channels.
pub mod Closed
use news_project.Prelude.{
  ℕ, suc, ◌+◌, Bool, true, false, ◌&&◌, not, Option, none, some, List, [], ◌∷◌, ◌++◌, map, is_empty,
  length, if◌then◌else◌, Text,
}
use news_project.Prelude.Dict.{Dict}
use news_project.Common.Contracts.{CommonMessage}
use news_project.Push.Dispatcher.{Pusher, SendResult, dispatch}
use news_project.Push.Retry.{Outcome, returned, raised}
use news_project.Quotes.Rule.{AlertRule}
use news_project.Quotes.State.{StateTracker}
use news_project.Quotes.Engine.{
  QuoteSnapshot, AlertVerdict, Interpreted, Contexts, evaluate_for_snapshot,
}
use news_project.Quotes.Scan.{Floats, MarketRow, MarketScansCfg, ScanResult, rank_market}
use news_project.Quotes.Sector.{SectorSnapshot, SectorContext, evaluate_sector}
use news_project.Quotes.Emit.{build_alert_message, build_burst_message}
use news_project.Quotes.ScanMessage.{build_market_scan_message}
use news_project.Quotes.Calendar.{Moment, NotAware, is_open}
use news_project.Quotes.Ring.{TickRing, append}

-- A message that was dispatched, with the results.
abbrev pub Sent : Type 0
Sent = CommonMessage × Dict Text SendResult

unfoldable pub append_all :
    {F : Type 0} → List (QuoteSnapshot F) → TickRing (QuoteSnapshot F) → TickRing (QuoteSnapshot F)
unfolding append
append_all [] ring = ring
append_all (s ∷ snaps) ring = append_all snaps (append (λ (q : QuoteSnapshot _). q.ticker) s ring)

-- from `if not calendar.is_open(now)` on: the rest if the market is open, else the given result
unfoldable pub when_open : {A : Type 0} → Outcome NotAware Bool → A → A → Outcome NotAware A
when_open (raised e) shut rest = raised e
when_open (returned open_now) shut rest = returned (if open_now then rest else shut)

-- `poll_quotes`, on what the feed would return
unfoldable pub poll_quotes :
    {F Date : Type 0}
    → (Date → Bool)
    → Moment Date
    → List (QuoteSnapshot F)
    → TickRing (QuoteSnapshot F)
    → Outcome NotAware (List (QuoteSnapshot F) × TickRing (QuoteSnapshot F))
unfolding when_open append_all
poll_quotes is_holiday now snaps ring =
    when_open (is_open is_holiday now) ([], ring) (snaps, append_all snaps ring)

module _ {F Ctx : Type 0} (fl : Floats F) (hms : ℕ → Text) (pct_of volume_ratio_of : Ctx → Option F)
    (registry : Dict Text Pusher) (channels : List Text) where
  -- `await dispatcher.dispatch(msg, channels=channels)`
  unfoldable pub send : CommonMessage → Sent
  send msg = (msg, dispatch registry msg channels)

  -- what is sent for the verdicts of a snapshot
  unfoldable pub send_verdicts : List (AlertVerdict F Ctx) → List Sent
  unfolding send
  send_verdicts [] = []
  send_verdicts (v ∷ []) = send (build_alert_message fl hms pct_of volume_ratio_of v) ∷ []
  send_verdicts (v ∷ w ∷ vs) =
      send (build_burst_message fl hms pct_of volume_ratio_of v (w ∷ vs)) ∷ []

  module _ (clock : ℕ → ℕ) (interp : Text → Ctx → Interpreted) (rules : List AlertRule) where
    -- the loop over the snapshots
    unfoldable pub alert_snaps :
        (QuoteSnapshot F → Contexts Ctx)
        → List (QuoteSnapshot F)
        → StateTracker F
        → List Sent × StateTracker F
    unfolding send_verdicts
    alert_snaps contexts [] s = ([], s)
    alert_snaps contexts (snap ∷ snaps) s =
        let one = evaluate_for_snapshot clock interp rules snap (contexts snap) s in
        let rest = alert_snaps contexts snaps one.1 in (send_verdicts one.0 ++ rest.0, rest.1)

    -- `evaluate_alerts`: the count that it returns, what it sent, and the tracker
    unfoldable pub evaluate_alerts :
        (QuoteSnapshot F → Contexts Ctx)
        → List (QuoteSnapshot F)
        → StateTracker F
        → ℕ × List Sent × StateTracker F
    unfolding alert_snaps
    evaluate_alerts contexts snaps s =
        let (sent, s') = alert_snaps contexts snaps s in
        if is_empty channels then (0, [], s) else (length sent, sent, s')

    -- `evaluate_sector_alerts`, on what the feed would return
    unfoldable pub evaluate_sector_alerts :
        {Date : Type 0}
        → (Date → Bool)
        → Moment Date
        → ℕ
        → (SectorContext F → Ctx)
        → Dict Text (SectorSnapshot F)
        → StateTracker F
        → Outcome NotAware (ℕ × List Sent × StateTracker F)
    unfolding when_open send
    evaluate_sector_alerts is_holiday at now ctx_of sector_snaps s =
        let (verdicts, s') = evaluate_sector clock interp fl.zero now ctx_of sector_snaps rules s in
        let sent = map (λ v. send (build_alert_message fl hms pct_of volume_ratio_of v)) verdicts in
        if is_empty channels
        then returned (0, [], s)
        else when_open (is_open is_holiday at) (0, [], s)
            (if is_empty sector_snaps then (0, [], s) else (length verdicts, sent, s'))

  -- `not (result.top_gainers or result.top_losers or result.top_volume_ratio)`
  unfoldable pub is_quiet : ScanResult F → Bool
  is_quiet r = is_empty r.top_gainers && (is_empty r.top_losers && is_empty r.top_volume_ratio)

  -- `scan_market` on the rows that the feed would return, once the market is open
  unfoldable pub scan_rows : (ℕ → Text) → ℕ → MarketScansCfg F → List (MarketRow F) → ℕ × List Sent
  unfolding is_quiet send
  scan_rows hm now cfg rows =
      let result = rank_market fl rows cfg in
      if is_empty rows
      then (0, [])
      else if is_quiet result
      then (0, [])
      else (1, send (build_market_scan_message fl hm result now) ∷ [])

  -- `scan_market`
  unfoldable pub scan_market :
      {Date : Type 0}
      → (Date → Bool)
      → Moment Date
      → (ℕ → Text)
      → ℕ
      → MarketScansCfg F
      → List (MarketRow F)
      → Outcome NotAware (ℕ × List Sent)
  unfolding when_open scan_rows
  scan_market is_holiday at hm now cfg rows =
      if is_empty channels
      then returned (0, [])
      else when_open (is_open is_holiday at) (0, []) (scan_rows hm now cfg rows)
