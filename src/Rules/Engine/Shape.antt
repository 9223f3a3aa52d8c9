-- ===== src/Rules/Engine/Shape.antt =====
-- The form of a verdict of rules/engine.py: its lists and its score.
use news_project.Prelude.{
  ℕ, ◌+◌, ◌≤◌, ◌≡◌, refl, Bool, false, List, [], ◌∷◌, arith, if◌then◌else◌, is_empty, keep, elem,
  any, Text, text_eq,
}
use news_project.Common.Enums.{market_value}
use news_project.Common.Ordered.{
  add, sorted, insert_sorted, Distinct, Increasing, add-Distinct, update-Distinct,
  sorted-Increasing,
}
use news_project.Rules.Patterns.{PatternKind, Pattern, Match, RulesVerdict}
use news_project.Rules.Engine.{
  Index, Hits, no_hits, indexed, collect_kind, collect, verdict_of, verdict_for, compute_boost,
}

record IsSets (h : Hits) : Type 0 where
  tickers : Distinct h.tickers
  sectors : Distinct h.sectors
  macros : Distinct h.macros
  markets : Distinct h.markets
  related : Distinct h.related

module _ (sec mac : Index) where
  collect_kind-IsSets :
      (kind : PatternKind) (p : Pattern) (h : Hits)
      → IsSets h
      → IsSets (collect_kind sec mac kind p h)
  unfolding collect_kind
  collect_kind-IsSets PatternKind.sector p h d =
      ground (arith, add-Distinct p.text h.sectors, update-Distinct h.related (indexed sec p.text))
  collect_kind-IsSets PatternKind.macro p h d =
      ground (arith, add-Distinct p.text h.macros, update-Distinct h.related (indexed mac p.text))
  collect_kind-IsSets PatternKind.generic p h d = ground arith
  collect_kind-IsSets PatternKind.ticker p h d = ground (arith, add-Distinct p.owner h.tickers)
  collect_kind-IsSets PatternKind.alias p h d = ground (arith, add-Distinct p.owner h.tickers)

  collect-IsSets : (h : Hits) (ms : List Match) → IsSets h → IsSets (collect sec mac h ms)
  unfolding collect
  collect-IsSets h [] d = d
  collect-IsSets h (m ∷ ms) d =
      let p = m.pattern in
      let next = record h { markets = add (market_value p.market) h.markets } in
      let d' : IsSets next = ground (arith, add-Distinct (market_value p.market) h.markets) in
      collect-IsSets (collect_kind sec mac p.kind p next) ms (collect_kind-IsSets p.kind p next d')

elem-keep :
    (p : Text → Bool) (x : Text) (xs : List Text) → elem x xs ≡ false → elem x (keep p xs) ≡ false
unfolding elem any keep
elem-keep p x [] h = refl
elem-keep p x (y ∷ ys) h = ground (arith, elem-keep p x ys)

keep-Distinct : (p : Text → Bool) (xs : List Text) → Distinct xs → Distinct (keep p xs)
unfolding keep
keep-Distinct p [] d = tt
keep-Distinct p (x ∷ xs) d = ground (arith, elem-keep p x xs, keep-Distinct p xs)

is_empty-insert_sorted : (x : Text) (ys : List Text) → is_empty (insert_sorted x ys) ≡ false
unfolding insert_sorted
is_empty-insert_sorted x [] = refl
is_empty-insert_sorted x (y ∷ ys) = ground arith

is_empty-sorted : (xs : List Text) → is_empty (sorted xs) ≡ is_empty xs
unfolding sorted
is_empty-sorted [] = refl
is_empty-sorted (x ∷ xs) = is_empty-insert_sorted x (sorted xs)

-- The points that the parts of a verdict are worth.
abbrev pub points : RulesVerdict → ℕ
points v =
    (if is_empty v.tickers then 0 else 50)
    + (if is_empty v.sectors then 0 else 20)
    + (if is_empty v.macros then 0 else 15)

pub record IsReport (v : RulesVerdict) : Type 0 where
  pub tickers : Increasing v.tickers
  pub related_tickers : Increasing v.related_tickers
  pub sectors : Increasing v.sectors
  pub macros : Increasing v.macros
  pub markets : Increasing v.markets
  pub score : v.score_boost ≡ points v
  pub bounded : v.score_boost ≤ 85

compute_boost_lem :
    (ts ss ms : List Text)
    → compute_boost ts ss ms
      ≡ (if is_empty ts then 0 else 50)
        + (if is_empty ss then 0 else 20)
        + (if is_empty ms then 0 else 15)
unfolding compute_boost
compute_boost_lem ts ss ms = ground arith

verdict_of-IsReport : (h : Hits) → IsSets h → IsReport (verdict_of h)
unfolding verdict_of
verdict_of-IsReport h d = record {
  tickers = sorted-Increasing h.tickers d.tickers;
  related_tickers = sorted-Increasing _ (keep-Distinct _ h.related d.related);
  sectors = sorted-Increasing h.sectors d.sectors;
  macros = sorted-Increasing h.macros d.macros;
  markets = sorted-Increasing h.markets d.markets;
  score = rw (
    compute_boost_lem h.tickers h.sectors h.macros,
    is_empty-sorted h.tickers,
    is_empty-sorted h.sectors,
    is_empty-sorted h.macros,
  );
  bounded = rw (compute_boost_lem h.tickers h.sectors h.macros) (ground arith);
}

-- Whatever the matches, the lists of the verdict are strictly increasing by code points, so without
-- repetitions; its score is 50 points for a ticker, 20 for a sector and 15 for a macro keyword, so
-- at most 85.
pub verdict_for-IsReport : (sec mac : Index) (ms : List Match) → IsReport (verdict_for sec mac ms)
unfolding verdict_for
verdict_for-IsReport sec mac [] = ground arith
verdict_for-IsReport sec mac (m ∷ ms) =
    verdict_of-IsReport _ (collect-IsSets sec mac no_hits (m ∷ ms) (ground arith))
