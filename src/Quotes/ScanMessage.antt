-- ===== src/Quotes/ScanMessage.antt =====
-- src/quote_watcher/emit/scan_message.py; `hm` is `strftime('%H:%M')`.
use news_project.Prelude.{
  ℕ, suc, Option, none, some, List, [], ◌∷◌, ◌++◌, map, length, join, Text, codes,
}
use news_project.Common.Enums.{cn}
use news_project.Common.Contracts.{MessageKind, CommonMessage}
use news_project.Quotes.Scan.{Floats, MarketRow, ScanResult}
use news_project.Quotes.Emit.{decimal}

module _ {F : Type 0} (fl : Floats F) where
  -- the lines of `enumerate(rows, i)`
  unfoldable pub mover_lines : ℕ → List (MarketRow F) → List Text
  unfolding decimal
  mover_lines i [] = []
  mover_lines i (r ∷ rows) =
      (decimal i
        ++ (codes ". "
            ++ (r.name
                ++ (codes " ("
                    ++ (r.ticker ++ (codes ")  " ++ (fl.signed2 r.pct_change ++ codes "%")))))))
      ∷ mover_lines (suc i) rows

  -- `_format_mover_lines`
  unfoldable pub format_mover_lines : Text → Text → List (MarketRow F) → List Text
  unfolding mover_lines decimal
  format_mover_lines label_emoji label [] = []
  format_mover_lines label_emoji label (r ∷ rows) =
      (label_emoji
        ++ (codes " " ++ (label ++ (codes " top " ++ (decimal (length (r ∷ rows)) ++ codes ":")))))
      ∷ mover_lines 1 (r ∷ rows)

  unfoldable pub ratio_of : Option F → F
  ratio_of none = fl.zero
  ratio_of (some vr) = vr

  unfoldable pub volume_line : MarketRow F → Text
  unfolding ratio_of
  volume_line r =
      codes "- "
      ++ (r.name
          ++ (codes " (" ++ (r.ticker ++ (codes ") 量比 " ++ fl.fixed2 (ratio_of r.volume_ratio)))))

  -- `_format_volume_lines`
  unfoldable pub format_volume_lines : List (MarketRow F) → List Text
  unfolding volume_line decimal
  format_volume_lines [] = []
  format_volume_lines (r ∷ rows) =
      (codes "📈 量比异动 top " ++ (decimal (length (r ∷ rows)) ++ codes ":"))
      ∷ map volume_line (r ∷ rows)

  -- `if lines: sections.append("\n".join(lines))`
  unfoldable pub section : List Text → List Text
  section [] = []
  section (l ∷ lines) = join (codes "\n") (l ∷ lines) ∷ []

  -- `"无异动" if not sections else "\n\n".join(sections)`
  unfoldable pub summary_of : List Text → Text
  summary_of [] = codes "无异动"
  summary_of (s ∷ sections) = join (codes "\n\n") (s ∷ sections)

  -- `build_market_scan_message`
  unfoldable pub build_market_scan_message : (ℕ → Text) → ScanResult F → ℕ → CommonMessage
  unfolding format_mover_lines format_volume_lines section summary_of
  build_market_scan_message hm result now =
      let g = format_mover_lines (codes "🚀") (codes "涨幅") result.top_gainers in
      let l = format_mover_lines (codes "📉") (codes "跌幅") result.top_losers in
      let v = format_volume_lines result.top_volume_ratio in
      record {
        title = codes "📊 A股 " ++ (hm now ++ codes " 异动榜");
        summary = summary_of (section g ++ (section l ++ section v));
        source_label = codes "quote_watcher";
        source_url = codes "https://quote.eastmoney.com/center.html";
        badges = record { text = codes "market_scan"; color = codes "blue" } ∷ [];
        chart_url = none;
        chart_image = none;
        deeplinks = [];
        market = cn;
        digest_items = [];
        kind = MessageKind.market_scan;
      }
