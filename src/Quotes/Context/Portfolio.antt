-- ===== src/Quotes/Context/Portfolio.antt =====
-- The totals over the holdings in src/quote_watcher/alerts/context.py.
use news_project.Prelude.{
  ℕ, suc, ◌+◌, ◌≤◌, ◌≡◌, refl, ap, ◌∙◌, sym, Bool, true, false, Option, none, some, List, [], ◌∷◌,
  ◌++◌, length, length-append, keep, arith, if◌then◌else◌, Text, text_eq,
}
use news_project.Prelude.Dict.{Dict, lookup}
use news_project.Config.Quotes.{HoldingEntry, HoldingsFile}
use news_project.Quotes.Engine.{QuoteSnapshot}
use news_project.Quotes.Scan.{Floats}
use news_project.Quotes.Indicator.{Arithmetic}
use news_project.Quotes.Context.{
  pnl_of, add_pnl, add_pnls, percent_of, build_composite_portfolio_context,
}

module _ {F : Type 0} (fl : Floats F) (ar : Arithmetic F) where
  abbrev in_loss : F → Bool
  in_loss pnl = fl.ltb pnl fl.zero

  -- The profit of a holding that has a snapshot.
  abbrev priced : HoldingEntry F → Option (QuoteSnapshot F) → List F
  priced h none = []
  priced h (some snap) = pnl_of fl ar snap h ∷ []

  -- The profits of the holdings that have a snapshot.
  abbrev pub pnls : Dict Text (QuoteSnapshot F) → List (HoldingEntry F) → List F
  pnls snaps [] = []
  pnls snaps (h ∷ hs) = priced h (lookup h.ticker snaps) ++ pnls snaps hs

  abbrev pub add_all : F → List F → F
  add_all total [] = total
  add_all total (p ∷ ps) = add_all (ar.add total p) ps

  count_one :
      (b : Bool) (n : ℕ) (p : F) → (if b then suc n else n) ≡ n + length (if b then p ∷ [] else [])
  count_one true n p = omega arith
  count_one false n p = omega arith

  add_all-append : (ps qs : List F) (t : F) → add_all t (ps ++ qs) ≡ add_all (add_all t ps) qs
  add_all-append [] qs t = refl
  add_all-append (p ∷ ps) qs t = add_all-append ps qs (ar.add t p)

  length-keep-append :
      (ps qs : List F)
      → length (keep in_loss (ps ++ qs)) ≡ length (keep in_loss ps) + length (keep in_loss qs)
  unfolding keep
  length-keep-append [] qs = omega arith
  length-keep-append (p ∷ ps) qs = ground (arith, length-keep-append ps qs)

  length-keep-le : (ps : List F) → length (keep in_loss ps) ≤ length ps
  unfolding keep
  length-keep-le [] = omega arith
  length-keep-le (p ∷ ps) = ground (arith, length-keep-le ps)

  add_pnl-eq :
      (h : HoldingEntry F) (o : Option (QuoteSnapshot F)) (t : F) (n : ℕ)
      → add_pnl fl ar h o (t, n) ≡ (add_all t (priced h o), n + length (keep in_loss (priced h o)))
  unfolding add_pnl keep
  add_pnl-eq h none t n = ap (λ k. (t, k)) (omega arith)
  add_pnl-eq h (some snap) t n =
      ap (λ k. (ar.add t (pnl_of fl ar snap h), k)) (count_one (in_loss (pnl_of fl ar snap h)) n _)

  add_pnls-eq :
      (snaps : Dict Text (QuoteSnapshot F)) (hs : List (HoldingEntry F)) (t : F) (n : ℕ)
      → add_pnls fl ar snaps hs (t, n)
        ≡ (add_all t (pnls snaps hs), n + length (keep in_loss (pnls snaps hs)))
  unfolding add_pnls keep
  add_pnls-eq snaps [] t n = ap (λ k. (t, k)) (omega arith)
  add_pnls-eq snaps (h ∷ hs) t n =
      let ps = priced h (lookup h.ticker snaps) in
      let qs = pnls snaps hs in
      ap (add_pnls fl ar snaps hs) (add_pnl-eq h (lookup h.ticker snaps) t n)
      ∙ add_pnls-eq snaps hs (add_all t ps) (n + length (keep in_loss ps))
      ∙ ap (λ x. (x, (n + length (keep in_loss ps)) + length (keep in_loss qs)))
          (sym (add_all-append ps qs t))
      ∙ ap (λ k. (add_all t (ps ++ qs), k)) (omega (arith, length-keep-append ps qs))

  length-priced : (h : HoldingEntry F) (o : Option (QuoteSnapshot F)) → length (priced h o) ≤ 1
  length-priced h none = omega arith
  length-priced h (some snap) = omega arith

  length-pnls :
      (snaps : Dict Text (QuoteSnapshot F)) (hs : List (HoldingEntry F))
      → length (pnls snaps hs) ≤ length hs
  length-pnls snaps [] = omega arith
  length-pnls snaps (h ∷ hs) = omega (
    arith,
    length-append (priced h (lookup h.ticker snaps)) (pnls snaps hs),
    length-priced h (lookup h.ticker snaps),
    length-pnls snaps hs,
  )

  -- The total is that of the profits of the holdings that have a snapshot, in their order; the count is
  -- that of the profits below 0, and at most that of the holdings.
  build_composite_portfolio_context-pnls :
      (holdings : HoldingsFile F) (snaps : Dict Text (QuoteSnapshot F))
      → let c = build_composite_portfolio_context fl ar holdings snaps in
        let ps = pnls snaps holdings.holdings in
        (c.total_unrealized_pnl ≡ add_all fl.zero ps)
        × (c.total_unrealized_pnl_pct
            ≡ percent_of fl ar holdings.portfolio.total_capital (add_all fl.zero ps))
        × (c.holding_count_in_loss ≡ length (keep in_loss ps))
        × (c.holding_count_in_loss ≤ length holdings.holdings)
  unfolding build_composite_portfolio_context
  build_composite_portfolio_context-pnls holdings snaps =
      let ps = pnls snaps holdings.holdings in
      let e = add_pnls-eq snaps holdings.holdings fl.zero 0 in
      let count : (add_pnls fl ar snaps holdings.holdings (fl.zero, 0)).1
          ≡ length (keep in_loss ps) =
        ap (λ x. x.1) e ∙ omega arith in
      (
        ap (λ x. x.0) e,
        ap (λ x. percent_of fl ar holdings.portfolio.total_capital x.0) e,
        count,
        omega (arith, count, length-keep-le ps, length-pnls snaps holdings.holdings),
      )
