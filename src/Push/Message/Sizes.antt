-- ===== src/Push/Message/Sizes.antt =====
-- The sizes of a message of shared/push/common/message_builder.py shows.
use Prim.Native.Nat.{min}
use news_project.Prelude.{
  ℕ, zero, suc, ◌+◌, ◌≤◌, ◌≡◌, refl, ◌∙◌, Option, List, [], ◌∷◌, ◌++◌, map, take, length,
  length-append, is_empty, if◌then◌else◌, arith, Text, codes,
}
use news_project.Prelude.Dict.{Dict}
use news_project.Common.Enums.{sentiment_value, magnitude_value}
use news_project.Common.Contracts.{RawArticle, ScoredNews, Badge}
use news_project.Rules.Patterns.{RulesVerdict}
use news_project.Push.Message.{
  ticker_badges, sector_badges, first_badge, quote_link, deeplinks_of, message_of, build, badge,
  sentiment_color, build_from_rules,
}

length-map : {A B : Type 0} (f : A → B) (xs : List A) → length (map f xs) ≡ length xs
length-map f [] = refl
length-map f (x ∷ xs) = omega (arith, length-map f xs)

length-take : {A : Type 0} (n : ℕ) (xs : List A) → length (take n xs) ≡ min n (length xs)
length-take zero xs = omega arith
length-take (suc n) [] = omega arith
length-take (suc n) (x ∷ xs) = omega (arith, length-take n xs)

length-ticker_badges : (ts : List Text) → length (ticker_badges ts) ≡ min 5 (length ts)
unfolding ticker_badges
length-ticker_badges ts = length-map _ (take 5 ts) ∙ length-take 5 ts

length-sector_badges : (ss : List Text) → length (sector_badges ss) ≡ min 2 (length ss)
unfolding sector_badges
length-sector_badges ss = length-map _ (take 2 ss) ∙ length-take 2 ss

length-first_badge :
    (color mark : Text) (hits : List Text)
    → length (first_badge color mark hits) ≡ (if is_empty hits then 0 else 1)
unfolding first_badge
length-first_badge color mark [] = refl
length-first_badge color mark (hit ∷ hits) = refl

length-deeplinks_of :
    (art : RawArticle) (ts : List Text) → length (deeplinks_of art ts) ≡ 1 + min 3 (length ts)
unfolding deeplinks_of
length-deeplinks_of art ts =
    omega (arith, length-map (quote_link art.market) (take 3 ts), length-take 3 ts)

badges_of_build :
    (ts ss : List Text) (a b : Badge)
    → length (ticker_badges ts ++ (sector_badges ss ++ a ∷ b ∷ []))
      ≡ min 5 (length ts) + min 2 (length ss) + 2
badges_of_build ts ss a b = omega (
  arith,
  length-append (ticker_badges ts) (sector_badges ss ++ a ∷ b ∷ []),
  length-append (sector_badges ss) (a ∷ b ∷ []),
  length-ticker_badges ts,
  length-sector_badges ss,
)

badges_of_rules :
    (ts ss : List Text) (xs ys : List Badge) (a : Badge)
    → length (ticker_badges ts ++ (sector_badges ss ++ (xs ++ (ys ++ a ∷ []))))
      ≡ min 5 (length ts) + min 2 (length ss) + length xs + length ys + 1
badges_of_rules ts ss xs ys a = omega (
  arith,
  length-append (ticker_badges ts) (sector_badges ss ++ (xs ++ (ys ++ a ∷ []))),
  length-append (sector_badges ss) (xs ++ (ys ++ a ∷ [])),
  length-append xs (ys ++ a ∷ []),
  length-append ys (a ∷ []),
  length-ticker_badges ts,
  length-sector_badges ss,
)

-- Both kinds of message have at most four links, the article's and one for each of the first three
-- tickers. `build` shows min 5 tickers and min 2 sectors and two badges more, so at most 9;
-- `build_from_rules` shows min 5 tickers, min 2 sectors, one macro and one keyword if there is one,
-- and one badge more, so at most 10.
pub length-build :
    (labels : Dict Text Text) (art : RawArticle) (scored : ScoredNews) (verdict : RulesVerdict)
    (chart_url : Option Text)
    → let e = scored.enriched in
      let direct = build labels art scored chart_url in
      let ruled = build_from_rules labels art scored verdict chart_url in
      let tickers = verdict.tickers ++ verdict.related_tickers in
      (length direct.badges ≡ min 5 (length e.related_tickers) + min 2 (length e.sectors) + 2)
      × (length direct.badges ≤ 9)
      × (length direct.deeplinks ≡ 1 + min 3 (length e.related_tickers))
      × (length direct.deeplinks ≤ 4)
      × (length ruled.badges
          ≡ min 5 (length tickers)
            + min 2 (length verdict.sectors)
            + (if is_empty verdict.macros then 0 else 1)
            + (if is_empty verdict.generic_hits then 0 else 1)
            + 1)
      × (length ruled.badges ≤ 10)
      × (length ruled.deeplinks ≡ 1 + min 3 (length tickers))
      × (length ruled.deeplinks ≤ 4)
unfolding build build_from_rules message_of
length-build labels art scored verdict chart_url =
    let e = scored.enriched in
    let tickers = verdict.tickers ++ verdict.related_tickers in
    let macros = first_badge (codes "yellow") (codes "📊 ") verdict.macros in
    let keywords = first_badge (codes "gray") (codes "🔖 ") verdict.generic_hits in
    let direct =
      badges_of_build e.related_tickers e.sectors
        (badge (sentiment_color e.sentiment) (sentiment_value e.sentiment))
        (badge (codes "yellow") (magnitude_value e.magnitude)) in
    let links = length-deeplinks_of art e.related_tickers in
    let ruled =
      badges_of_rules tickers verdict.sectors macros keywords
        (badge (codes "green") (codes "rules")) in
    let m = length-first_badge (codes "yellow") (codes "📊 ") verdict.macros in
    let k = length-first_badge (codes "gray") (codes "🔖 ") verdict.generic_hits in
    let ruled_links = length-deeplinks_of art tickers in
    (direct, omega arith, links, omega arith, omega arith, ground arith, ruled_links, omega arith)
