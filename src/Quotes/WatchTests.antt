-- ===== src/Quotes/WatchTests.antt =====
-- The theorems on the scan, the ring and the jobs, with numbers in the place of floats.
use news_project.Prelude.{
  ℕ, ◌+◌, ◌-◌, ◌*◌, ◌/◌, ◌≡◌, ◌⊎◌, not, keep, In, length, some, inl, inr, Bool, true, false, Option,
  none, List, [], ◌∷◌, arith, ltb, leb, nat_beq, Text, codes,
}
use news_project.Prelude.Sorting.{IsTop}
use news_project.Push.Retry.{returned}
use news_project.Quotes.Rule.{AlertRule}
use news_project.Quotes.State.{StateTracker}
use news_project.Quotes.Engine.{QuoteSnapshot, Interpreted, finished}
use news_project.Quotes.Scan.{Floats, MarketRow, MarketScansCfg, rank_market}
use news_project.Quotes.Scan.Ranked.{IsLinear, at_least, ratio_key, rank_market-IsTop}
use news_project.Quotes.Sector.{SectorContext}
use news_project.Quotes.Calendar.{BeijingTime, aware}
use news_project.Quotes.Ring.{TickRing, last, history}
use news_project.Quotes.Ring.History.{after, snaps_of, history-after_new}
use news_project.Quotes.Jobs.{poll_quotes, evaluate_sector_alerts, scan_market}
use news_project.Quotes.Jobs.Closed.{IsShut, scan_market-IsShut}
use news_project.Quotes.Indicator.{Arithmetic, MacdResult, highest_n_days, lowest_n_days, macd}
use news_project.Quotes.Indicator.Defined.{
  NoneAfter, MacdOf, highest_n_days-IsGreatest, macd-Returns,
}

-- numbers of hundredths above -100
abbrev whole : Floats ℕ
whole = record {
  zero = 10000;
  hundred = 20000;
  ltb = ltb;
  leb = leb;
  equal = nat_beq;
  neg = λ x. 20000 - x;
  sub = λ x y. x - y;
  mul = λ x y. x * y;
  div = λ x y. x / y;
  fixed2 = λ x. [];
  signed2 = λ x. [];
  in_ten_thousands = λ n. [];
}

whole-IsLinear : IsLinear whole
whole-IsLinear = record { asym = λ x y h. ground arith; split = λ x y z h. ground arith }

abbrev sample_row : Text → ℕ → MarketRow ℕ
sample_row ticker pct = record {
  ticker = ticker;
  name = ticker;
  market = codes "SH";
  price = 10100;
  pct_change = pct;
  volume = 1;
  amount = 10100;
  volume_ratio = none;
}

abbrev sample_rows : List (MarketRow ℕ)
sample_rows =
    sample_row (codes "600519") 10900
    ∷ sample_row (codes "600520") 10950
    ∷ sample_row (codes "600521") 9100
    ∷ []

abbrev sample_cfg : MarketScansCfg ℕ
sample_cfg = record { push_top_n = 1; only_when_score_above = 10800 }

rank_market-IsTop_example :
    IsTop
      (λ a b. not (ltb a.pct_change b.pct_change))
      1
      (keep (λ (r : MarketRow ℕ). ltb 10800 r.pct_change) sample_rows)
      (rank_market whole sample_rows sample_cfg).top_gainers
    × IsTop
        (λ a b. not (ltb b.pct_change a.pct_change))
        1
        (keep (λ (r : MarketRow ℕ). ltb r.pct_change (20000 - 10800)) sample_rows)
        (rank_market whole sample_rows sample_cfg).top_losers
    × IsTop
        (λ a b. not (ltb (ratio_key whole a) (ratio_key whole b)))
        1
        (keep (λ (r : MarketRow ℕ). at_least whole 10800 r.volume_ratio) sample_rows)
        (rank_market whole sample_rows sample_cfg).top_volume_ratio
rank_market-IsTop_example = rank_market-IsTop whole whole-IsLinear sample_rows sample_cfg

abbrev ticks : List (Text × ℕ)
ticks = (codes "a", 1) ∷ (codes "b", 2) ∷ (codes "a", 3) ∷ (codes "a", 4) ∷ []

abbrev ticker_of : Text × ℕ → Text
ticker_of tick = tick.0

history-after_new_example :
    history (codes "a") (after ticker_of ticks (record { max = 2; data_of = [] }))
    ≡ last 2 (snaps_of ticker_of (codes "a") ticks)
history-after_new_example = history-after_new ticker_of (codes "a") ticks 2

-- a Wednesday at noon
abbrev noon : BeijingTime ℕ
noon = record { date = 20260422; weekday = 2; time = 43200 }

abbrev no_holiday : ℕ → Bool
no_holiday date = false

noon-IsShut : IsShut no_holiday noon
noon-IsShut = inr (inr (inr (inl (omega arith, omega arith))))

abbrev sample_snapshot : QuoteSnapshot ℕ
sample_snapshot = record {
  ticker = codes "600519";
  market = codes "SH";
  name = codes "A";
  ts = 43200;
  price = 10100;
  open_price = 10100;
  high = 10100;
  low = 10100;
  prev_close = 10100;
  volume = 1;
  amount = 10100;
  bid1 = 10100;
  ask1 = 10100;
}

abbrev sample_ring : TickRing (QuoteSnapshot ℕ)
sample_ring = record { max = 2; data_of = [] }

abbrev sample_tracker : StateTracker ℕ
sample_tracker = record { rows = []; reads = 0 }

abbrev no_text : ℕ → Text
no_text t = []

abbrev nothing : ℕ → Option ℕ
nothing ctx = none

abbrev always : Text → ℕ → Interpreted
always expr ctx = finished true false

abbrev no_rules : List AlertRule
no_rules = []

abbrev change : SectorContext ℕ → ℕ
change ctx = ctx.sector_pct_change

abbrev channels : List Text
channels = codes "feishu_cn" ∷ []

scan_market-IsShut_example :
    (poll_quotes no_holiday (aware noon) (sample_snapshot ∷ []) sample_ring
      ≡ returned ([], sample_ring))
    × (scan_market whole no_text nothing nothing [] channels no_holiday
          (aware noon)
          no_text
          43200
          sample_cfg
          sample_rows
        ≡ returned (0, []))
    × (evaluate_sector_alerts whole no_text nothing nothing [] channels
          (λ n. n)
          always
          no_rules
          no_holiday
          (aware noon)
          43200
          change
          []
          sample_tracker
        ≡ returned (0, [], sample_tracker))
scan_market-IsShut_example =
    scan_market-IsShut whole no_text no_text nothing nothing [] channels (λ n. n) always no_rules
      change (sample_snapshot ∷ []) sample_rows [] sample_cfg 43200 sample_ring sample_tracker
      no_holiday noon noon-IsShut

abbrev whole_arithmetic : Arithmetic ℕ
whole_arithmetic = record { of_nat = λ n. n; add = λ x y. x + y; sum = λ xs. 0 }

abbrev sample_closes : List ℕ
sample_closes = 10100 ∷ 10300 ∷ 10200 ∷ []

highest_n_days-IsGreatest_example :
    ((m : ℕ) × (highest_n_days whole whole_arithmetic sample_closes 2 ≡ some m)
      × In m (last 2 sample_closes)
      × NoneAfter whole.ltb m (last 2 sample_closes))
    × ((m : ℕ) × (lowest_n_days whole whole_arithmetic sample_closes 2 ≡ some m)
        × In m (last 2 sample_closes)
        × NoneAfter (λ x y. whole.ltb y x) m (last 2 sample_closes))
highest_n_days-IsGreatest_example =
    highest_n_days-IsGreatest whole whole_arithmetic whole-IsLinear sample_closes 1 (omega arith)

macd-Returns_example :
    ((sample_closes ≡ []) ⊎ (ltb (length sample_closes) (2 + 1) ≡ true))
      × (macd whole whole_arithmetic sample_closes 1 2 1 ≡ returned none)
    ⊎ ((m : MacdResult ℕ) × (macd whole whole_arithmetic sample_closes 1 2 1 ≡ returned (some m))
        × (ltb (length sample_closes) (2 + 1) ≡ false)
        × MacdOf whole whole_arithmetic sample_closes 1 2 m)
macd-Returns_example = macd-Returns whole whole_arithmetic sample_closes 1 2 1
