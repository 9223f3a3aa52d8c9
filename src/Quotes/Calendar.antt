-- ===== src/Quotes/Calendar.antt =====
-- src/quote_watcher/feeds/calendar.py. A moment without a time zone is told from one that has been
-- taken to Beijing, of which the code reads the weekday (0 is Monday), the date and the time, here in
-- seconds; the package's holidays are a parameter.
use news_project.Prelude.{
  ℕ, ◌+◌, ◌*◌, ◌≤◌, ◌<◌, ◌≡◌, ◌↔◌, ◌⊎◌, Bool, true, false, ◌||◌, leb, ltb, if◌then◌else◌, arith,
}
use news_project.Push.Retry.{Outcome, returned, raised}

pub data Session : Type 0 where
  pre morning noon_break afternoon post closed : Session

-- `time(h, m)`
unfoldable pub time_of : ℕ → ℕ → ℕ
time_of h m = h * 3600 + m * 60

-- A time in Beijing.
pub record BeijingTime (Date : Type 0) : Type 0 where
  pub date : Date
  pub weekday : ℕ
  pub time : ℕ

pub data Moment (Date : Type 0) : Type 0 where
  naive : Moment Date
  aware : BeijingTime Date → Moment Date

-- `ValueError("dt must be timezone-aware")`
pub data NotAware : Type 0 where
  not_aware : NotAware

module _ {Date : Type 0} (is_holiday : Date → Bool) where
  -- the tests on the time
  unfoldable pub session_at : ℕ → Session
  unfolding time_of
  session_at t =
      if ltb t (time_of 9 30)
      then pre
      else if ltb t (time_of 11 30)
      then morning
      else if ltb t (time_of 13 0)
      then noon_break
      else if ltb t (time_of 15 0)
      then afternoon
      else post

  -- `MarketCalendar.session`
  unfoldable pub session : Moment Date → Outcome NotAware Session
  unfolding session_at
  session naive = raised not_aware
  session (aware bj) =
      returned (if leb 5 bj.weekday || is_holiday bj.date then closed else session_at bj.time)

  unfoldable pub is_trading : Session → Bool
  is_trading pre = false
  is_trading morning = true
  is_trading noon_break = false
  is_trading afternoon = true
  is_trading post = false
  is_trading closed = false

  -- `MarketCalendar.is_open`
  unfoldable pub is_open : Moment Date → Outcome NotAware Bool
  unfolding session is_trading
  is_open dt = elim (session dt) [ raised e ↦ raised e | returned s ↦ returned (is_trading s) ]

  -- The market is open in Beijing exactly from 9:30 until before 11:30 and from 13:00 until before
  -- 15:00 on a day from Monday to Friday that is not a holiday.
  pub is_open_iff :
      (bj : BeijingTime Date)
      → (is_open (aware bj) ≡ returned true) ↔ (
          (bj.weekday < 5)
          × (is_holiday bj.date ≡ false)
          × (((34200 ≤ bj.time) × (bj.time < 41400)) ⊎ ((46800 ≤ bj.time) × (bj.time < 54000))))
  unfolding is_open session session_at is_trading time_of
  is_open_iff bj = ground arith
