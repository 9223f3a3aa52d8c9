-- ===== src/Quotes/Emit.antt =====
-- src/quote_watcher/emit/message.py and emit/scan_message.py. The formats of floats are operations of
-- `Floats`; `strftime` is a parameter on the ticks that stand for times, and so are the two values
-- that a context may have, `pct_change_intraday` and `volume_ratio`.
use news_project.Prelude.{
  ℕ, zero, suc, ◌+◌, ◌/◌, ◌%◌, Option, none, some, List, [], ◌∷◌, ◌++◌, ltb, if◌then◌else◌, map,
  length, join, Text, text_beq, codes,
}
use news_project.Common.Enums.{cn}
use news_project.Common.Contracts.{Deeplink, MessageKind, CommonMessage}
use news_project.Quotes.Engine.{QuoteSnapshot, AlertVerdict}
use news_project.Quotes.Scan.{Floats}

-- `str(n)`, the digits of a number; the fuel is one more than the number
unfoldable pub digits : ℕ → ℕ → Text
digits zero n = []
digits (suc fuel) n =
    let rest = digits fuel (n / 10) in
    if ltb n 10 then (48 + n) ∷ [] else rest ++ (48 + n % 10) ∷ []

unfoldable pub decimal : ℕ → Text
unfolding digits
decimal n = digits (suc n) n

-- the market's prefix in `_deeplinks_for_ticker`
unfoldable pub link_prefix : Text → Text
link_prefix market =
    if text_beq market (codes "SH")
    then codes "sh"
    else if text_beq market (codes "SZ")
    then codes "sz"
    else codes "bj"

-- `market_lc` of the two messages
unfoldable pub source_prefix : Text → Text
source_prefix market = if text_beq market (codes "SH") then codes "sh" else codes "sz"

unfoldable pub quote_url : Text → Text → Text
quote_url prefix ticker =
    codes "https://quote.eastmoney.com/" ++ (prefix ++ (ticker ++ codes ".html"))

-- `_deeplinks_for_ticker`
unfoldable pub deeplinks_for_ticker : Text → Text → List Deeplink
unfolding link_prefix quote_url
deeplinks_for_ticker ticker market =
    record { label = codes "东财 K 线"; url = quote_url (link_prefix market) ticker }
    ∷ record { label = codes "雪球"; url = codes "https://xueqiu.com/S/" ++ (market ++ ticker) }
    ∷ []

module _ {F : Type 0} (fl : Floats F) where
  -- `_arrow`
  unfoldable pub arrow : F → Text
  arrow pct =
      if fl.ltb pct fl.zero then codes "🔻" else if fl.ltb fl.zero pct then codes "🚀" else codes "⚡"

  -- `QuoteSnapshot.pct_change`
  unfoldable pub pct_change : QuoteSnapshot F → F
  pct_change snap =
      if fl.equal snap.prev_close fl.zero
      then fl.zero
      else fl.mul (fl.div (fl.sub snap.price snap.prev_close) snap.prev_close) fl.hundred

  unfoldable pub alert_color : F → Text
  alert_color pct = if fl.ltb pct fl.zero then codes "red" else codes "green"

  unfoldable pub price_line : QuoteSnapshot F → F → Text
  price_line snap pct =
      codes "当前价: " ++ (fl.fixed2 snap.price ++ (codes "  (" ++ (fl.signed2 pct ++ codes "%)")))

  -- `if vol_ratio:`
  unfoldable pub ratio_lines : Option F → List Text
  ratio_lines none = []
  ratio_lines (some v) = if fl.equal v fl.zero then [] else (codes "量比: " ++ fl.fixed2 v) ∷ []

  -- `{arrow} {snap.name} ({snap.ticker}) `
  unfoldable pub title_of : QuoteSnapshot F → F → Text → Text
  unfolding arrow
  title_of snap pct rest =
      arrow pct
      ++ (codes " " ++ (snap.name ++ (codes " (" ++ (snap.ticker ++ (codes ") " ++ rest)))))

  module _ {Ctx : Type 0} (hms : ℕ → Text) (pct_of volume_ratio_of : Ctx → Option F) where
    -- `ctx_dump.get("pct_change_intraday", snap.pct_change)`
    unfoldable pub change_of : AlertVerdict F Ctx → F
    unfolding pct_change
    change_of v = elim (pct_of v.ctx_dump) [ none ↦ pct_change v.snapshot | some pct ↦ pct ]

    -- `build_alert_message`
    unfoldable pub build_alert_message : AlertVerdict F Ctx → CommonMessage
    unfolding change_of price_line ratio_lines title_of alert_color source_prefix quote_url
        deeplinks_for_ticker
    build_alert_message v =
        let snap = v.snapshot in
        let pct = change_of v in
        let trigger = codes "⚡ 触发: " ++ (v.rule.id ++ (codes "(" ++ (v.rule.expr ++ codes ")"))) in
        let volume = codes "今日量: " ++ (fl.in_ten_thousands snap.volume ++ codes "万手") in
        let lines =
          trigger
          ∷ price_line snap pct
          ∷ volume
          ∷ (ratio_lines (volume_ratio_of v.ctx_dump) ++ (codes "⏱ " ++ hms snap.ts) ∷ []) in
        record {
          title = title_of snap pct v.rule.id;
          summary = join (codes "\n") lines;
          source_label = codes "quote_watcher";
          source_url = quote_url (source_prefix snap.market) snap.ticker;
          badges =
              record { text = codes "#" ++ snap.ticker; color = codes "blue" }
              ∷ record { text = codes "alert"; color = alert_color pct }
              ∷ [];
          chart_url = none;
          chart_image = none;
          deeplinks = deeplinks_for_ticker snap.ticker snap.market;
          market = cn;
          digest_items = [];
          kind = MessageKind.alert;
        }

    unfoldable pub rule_line : AlertVerdict F Ctx → Text
    rule_line v = codes "✓ " ++ (v.rule.id ++ (codes ": " ++ v.rule.expr))

    -- `build_burst_message` on a list that starts with `v`
    unfoldable pub build_burst_message :
        AlertVerdict F Ctx → List (AlertVerdict F Ctx) → CommonMessage
    unfolding pct_change price_line rule_line title_of alert_color source_prefix quote_url
        deeplinks_for_ticker decimal
    build_burst_message v vs =
        let snap = v.snapshot in
        let pct = pct_change snap in
        let lines =
          map rule_line (v ∷ vs) ++ price_line snap pct ∷ (codes "⏱ " ++ hms snap.ts) ∷ [] in
        let count = codes "x" ++ decimal (length (v ∷ vs)) in
        record {
          title = title_of snap pct (codes "多规则触发(" ++ (count ++ codes ")"));
          summary = join (codes "\n") lines;
          source_label = codes "quote_watcher";
          source_url = quote_url (source_prefix snap.market) snap.ticker;
          badges =
              record { text = codes "#" ++ snap.ticker; color = codes "blue" }
              ∷ record { text = codes "多规则" ++ count; color = codes "yellow" }
              ∷ record { text = codes "alert"; color = alert_color pct }
              ∷ [];
          chart_url = none;
          chart_image = none;
          deeplinks = deeplinks_for_ticker snap.ticker snap.market;
          market = cn;
          digest_items = [];
          kind = MessageKind.alert_burst;
        }
