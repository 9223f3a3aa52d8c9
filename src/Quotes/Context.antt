-- ===== src/Quotes/Context.antt =====
-- src/quote_watcher/alerts/context.py, over floats that are a type with operations. A dictionary of
-- names is a record; the hour and the minute of a time in Beijing are arguments.
pub mod Portfolio
use news_project.Prelude.{
  ℕ, suc, ◌+◌, ◌*◌, Bool, true, false, ◌&&◌, not, Option, none, some, List, [], ◌∷◌, ◌++◌, map, ltb,
  if◌then◌else◌, Text, codes, text_eq,
}
use news_project.Prelude.Dict.{Dict, lookup}
use news_project.Push.Retry.{Outcome, returned, raised}
use news_project.Config.Quotes.{HoldingEntry, HoldingsFile}
use news_project.Quotes.Engine.{QuoteSnapshot}
use news_project.Quotes.Scan.{Floats}
use news_project.Quotes.Emit.{pct_change}
use news_project.Quotes.Indicator.{
  Arithmetic, SeriesError, MacdResult, ma, rsi, highest_n_days, lowest_n_days, macd,
}

-- The volumes and yesterday's prices, which the callers compute.
pub record History (F : Type 0) : Type 0 where
  pub volume_avg5d : F
  pub volume_avg20d : F
  pub price_high_today_yday : F
  pub price_low_today_yday : F

pub record ThresholdContext (F : Type 0) : Type 0 where
  pub price_now : F
  pub price_open : F
  pub high_today : F
  pub low_today : F
  pub prev_close : F
  pub price_high_today_yday : F
  pub price_low_today_yday : F
  pub pct_change_intraday : F
  pub volume_today : ℕ
  pub amount_today : F
  pub volume_avg5d : F
  pub volume_avg20d : F
  pub volume_ratio : F
  pub bid1 : F
  pub ask1 : F
  pub is_limit_up : Bool
  pub is_limit_down : Bool
  pub now_hhmm : ℕ

pub record HoldingContext (F : Type 0) : Type 0 where
  pub base : ThresholdContext F
  pub cost_per_share : F
  pub qty : ℕ
  pub pct_change_from_cost : F
  pub unrealized_pnl : F
  pub unrealized_pnl_pct : F

pub record PortfolioContext (F : Type 0) : Type 0 where
  pub total_unrealized_pnl : F
  pub total_unrealized_pnl_pct : F
  pub holding_count_in_loss : ℕ

-- The floats that the source writes as 1.099 and 0.901.
pub record Limits (F : Type 0) : Type 0 where
  pub up : F
  pub down : F

module _ {F : Type 0} (fl : Floats F) (ar : Arithmetic F) where
  -- `build_threshold_context`
  unfoldable pub build_threshold_context :
      Limits F → (ℕ → ℕ) → (ℕ → ℕ) → QuoteSnapshot F → History F → ThresholdContext F
  unfolding pct_change
  build_threshold_context limits hour minute snap h = record {
    price_now = snap.price;
    price_open = snap.open_price;
    high_today = snap.high;
    low_today = snap.low;
    prev_close = snap.prev_close;
    price_high_today_yday = h.price_high_today_yday;
    price_low_today_yday = h.price_low_today_yday;
    pct_change_intraday = pct_change fl snap;
    volume_today = snap.volume;
    amount_today = snap.amount;
    volume_avg5d = h.volume_avg5d;
    volume_avg20d = h.volume_avg20d;
    volume_ratio =
        if fl.ltb fl.zero h.volume_avg5d
        then fl.div (ar.of_nat snap.volume) h.volume_avg5d
        else fl.zero;
    bid1 = snap.bid1;
    ask1 = snap.ask1;
    is_limit_up =
        fl.equal snap.ask1 fl.zero
        && (fl.ltb fl.zero snap.bid1 && fl.ltb (fl.mul snap.prev_close limits.up) snap.price);
    is_limit_down =
        fl.equal snap.bid1 fl.zero
        && (fl.ltb fl.zero snap.ask1 && fl.ltb snap.price (fl.mul snap.prev_close limits.down));
    now_hhmm = hour snap.ts * 100 + minute snap.ts;
  }

  -- `(snap.price - h.cost_per_share) * h.qty`
  unfoldable pub pnl_of : QuoteSnapshot F → HoldingEntry F → F
  pnl_of snap h = fl.mul (fl.sub snap.price h.cost_per_share) (ar.of_nat h.qty)

  -- `build_composite_holding_context`; yesterday's prices are left at 0
  unfoldable pub build_composite_holding_context :
      Limits F → (ℕ → ℕ) → (ℕ → ℕ) → QuoteSnapshot F → HoldingEntry F → F → F → HoldingContext F
  unfolding build_threshold_context pnl_of
  build_composite_holding_context limits hour minute snap holding avg5d avg20d =
      let cost = holding.cost_per_share in
      let pnl = pnl_of snap holding in
      record {
        base = build_threshold_context limits hour minute snap (record {
          volume_avg5d = avg5d;
          volume_avg20d = avg20d;
          price_high_today_yday = fl.zero;
          price_low_today_yday = fl.zero;
        });
        cost_per_share = cost;
        qty = holding.qty;
        pct_change_from_cost =
            if fl.ltb fl.zero cost
            then fl.mul (fl.div (fl.sub snap.price cost) cost) fl.hundred
            else fl.zero;
        unrealized_pnl = pnl;
        unrealized_pnl_pct =
            if fl.ltb fl.zero cost && ltb 0 holding.qty
            then fl.mul (fl.div pnl (fl.mul cost (ar.of_nat holding.qty))) fl.hundred
            else fl.zero;
      }

  -- a round of the loop of `build_composite_portfolio_context`, by the snapshot of the holding
  unfoldable pub add_pnl : HoldingEntry F → Option (QuoteSnapshot F) → F × ℕ → F × ℕ
  unfolding pnl_of
  add_pnl h none (total, in_loss) = (total, in_loss)
  add_pnl h (some snap) (total, in_loss) =
      let pnl = pnl_of snap h in
      (ar.add total pnl, if fl.ltb pnl fl.zero then suc in_loss else in_loss)

  unfoldable pub add_pnls : Dict Text (QuoteSnapshot F) → List (HoldingEntry F) → F × ℕ → F × ℕ
  unfolding add_pnl
  add_pnls snaps [] acc = acc
  add_pnls snaps (h ∷ hs) acc = add_pnls snaps hs (add_pnl h (lookup h.ticker snaps) acc)

  -- `capital and capital > 0`
  unfoldable pub percent_of : Option F → F → F
  percent_of none total = fl.zero
  percent_of (some capital) total =
      if not (fl.equal capital fl.zero) && fl.ltb fl.zero capital
      then fl.mul (fl.div total capital) fl.hundred
      else fl.zero

  -- `build_composite_portfolio_context`
  unfoldable pub build_composite_portfolio_context :
      HoldingsFile F → Dict Text (QuoteSnapshot F) → PortfolioContext F
  unfolding add_pnls percent_of
  build_composite_portfolio_context holdings snaps =
      let (total, in_loss) = add_pnls snaps holdings.holdings (fl.zero, 0) in
      record {
        total_unrealized_pnl = total;
        total_unrealized_pnl_pct = percent_of holdings.portfolio.total_capital total;
        holding_count_in_loss = in_loss;
      }
