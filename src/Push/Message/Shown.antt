-- ===== src/Push/Message/Shown.antt =====
-- What a message of shared/push/common/message_builder.py shows.
use news_project.Prelude.{
  ◌≤◌, ◌≡◌, ◌↔◌, ◌⊎◌, refl, sym, ◌∙◌, subst, inl, inr, Option, none, some, List, [], ◌∷◌, ◌++◌, map,
  take, text_eq, length, if◌then◌else◌, arith, In, In-append, In-append_left, In-append_right,
  In-map, map-In, by_branch, Text, codes, starts_with,
}
use news_project.Prelude.Dict.{Dict, lookup}
use news_project.Common.Enums.{
  Market, us, cn, Sentiment, bullish, bearish, neutral, Magnitude, low, medium, high,
  sentiment_value, magnitude_value,
}
use news_project.Common.Contracts.{RawArticle, ScoredNews, Badge, Deeplink, CommonMessage}
use news_project.Rules.Patterns.{RulesVerdict}
use news_project.Push.Message.{
  ticker_badges, sector_badges, first_badge, quote_link, deeplinks_of, message_of, label_for, build,
  badge, sentiment_color, build_from_rules,
}
use news_project.Push.Message.Sizes.{length-build}

-- The quote page of a ticker: at Yahoo, or at Eastmoney, under `sh` where the code starts with 6 and else
-- under `sz`.
abbrev pub page : Market → Text → Deeplink
page us t = record {
  label = codes "Yahoo " ++ t;
  url = codes "https://finance.yahoo.com/quote/" ++ t;
}
page cn t = record {
  label = codes "东财 " ++ t;
  url =
      if starts_with (codes "6") t
      then codes "https://quote.eastmoney.com/sh" ++ (t ++ codes ".html")
      else codes "https://quote.eastmoney.com/sz" ++ (t ++ codes ".html");
}

-- The link to the article, or that to the quote page of one of the first three tickers.
abbrev pub IsLink : RawArticle → List Text → Deeplink → Type 0
IsLink art tickers link =
    (link ≡ record { label = codes "原文"; url = art.url })
    ⊎ ((t : Text) × In t (take 3 tickers) × (link ≡ page art.market t))

-- A blue badge of one of the first five tickers, or a grey one of one of the first two sectors.
abbrev pub IsTopic : List Text → List Text → Badge → Type 0
IsTopic tickers sectors b =
    ((t : Text) × In t (take 5 tickers) × (b ≡ record { text = t; color = codes "blue" }))
    ⊎ ((s : Text) × In s (take 2 sectors)
        × (b ≡ record { text = codes "#" ++ s; color = codes "gray" }))

abbrev pub mood : Sentiment → Badge
mood bullish = record { text = codes "bullish"; color = codes "green" }
mood bearish = record { text = codes "bearish"; color = codes "red" }
mood neutral = record { text = codes "neutral"; color = codes "gray" }

abbrev pub weight : Magnitude → Badge
weight low = record { text = codes "low"; color = codes "yellow" }
weight medium = record { text = codes "medium"; color = codes "yellow" }
weight high = record { text = codes "high"; color = codes "yellow" }

-- A badge with the first of these, after the mark.
abbrev pub IsFirst : Text → Text → List Text → Badge → Type 0
IsFirst color mark [] b = ⊥
IsFirst color mark (hit ∷ hits) b = b ≡ record { text = mark ++ hit; color = color }

In-map_iff :
    {A B : Type 0} (f : A → B) (b : B) (xs : List A)
    → In b (map f xs) ↔ ((x : A) × In x xs × (b ≡ f x))
In-map_iff f b xs =
    (λ i. In-map f b xs i, λ (x, i, e). subst (λ y. In y (map f xs)) (sym e) (map-In f x xs i))

In-append_iff : {A : Type 0} (a : A) (xs ys : List A) → In a (xs ++ ys) ↔ (In a xs ⊎ In a ys)
In-append_iff a xs ys = (
  In-append a xs ys,
  λ i. elim i [ inl j ↦ In-append_left a xs ys j | inr j ↦ In-append_right a xs ys j ],
)

quote_link-eq-page : (m : Market) (t : Text) → quote_link m t ≡ page m t
unfolding quote_link
quote_link-eq-page us t = refl
quote_link-eq-page cn t =
    let name : Text = codes "东财 " ++ t in
    let in_market : Text → Text =
      λ m. codes "https://quote.eastmoney.com/" ++ (m ++ (t ++ codes ".html")) in
    by_branch (λ (m : Text). record { label = name; url = in_market m } ≡ page cn t)
      (starts_with (codes "6") t) (codes "sh") (codes "sz") (λ e. rw e refl) (λ e. rw e refl)

deeplinks_of-IsLink :
    (art : RawArticle) (tickers : List Text) (link : Deeplink)
    → In link (deeplinks_of art tickers) ↔ IsLink art tickers link
unfolding deeplinks_of
deeplinks_of-IsLink art tickers link =
    let (there, back) = In-map_iff (quote_link art.market) link (take 3 tickers) in
    (
      λ i. elim i [
        | inl e ↦ inl e
        | inr j ↦ let (t, k, e) = there j in inr (t, k, e ∙ quote_link-eq-page art.market t)
      ],
      λ l. elim l [
        | inl e ↦ inl e
        | inr (t, k, e) ↦ inr (back (t, k, e ∙ sym (quote_link-eq-page art.market t)))
      ],
    )

ticker_badges-IsTopic :
    (tickers sectors : List Text) (rest : List Badge) (b : Badge)
    → In b (ticker_badges tickers ++ (sector_badges sectors ++ rest))
      ↔ (IsTopic tickers sectors b ⊎ In b rest)
unfolding ticker_badges sector_badges badge
ticker_badges-IsTopic tickers sectors rest b =
    let ts = ticker_badges tickers in
    let ss = sector_badges sectors in
    let (at_tickers, to_tickers) = In-map_iff (badge (codes "blue")) b (take 5 tickers) in
    let (at_sectors, to_sectors) =
      In-map_iff (λ s. badge (codes "gray") (codes "#" ++ s)) b (take 2 sectors) in
    (
      λ i. elim (In-append b ts (ss ++ rest) i) [
        | inl j ↦ inl (inl (at_tickers j))
        | inr j ↦ elim (In-append b ss rest j) [ inl k ↦ inl (inr (at_sectors k)) | inr k ↦ inr k ]
      ],
      λ i. elim i [
        | inl topic ↦ elim topic [
          | inl j ↦ In-append_left b ts (ss ++ rest) (to_tickers j)
          | inr j ↦ In-append_right b ts (ss ++ rest) (In-append_left b ss rest (to_sectors j))
        ]
        | inr k ↦ In-append_right b ts (ss ++ rest) (In-append_right b ss rest k)
      ],
    )

first_badge-append :
    (color mark : Text) (hits : List Text) (rest : List Badge) (b : Badge)
    → In b (first_badge color mark hits ++ rest) ↔ (IsFirst color mark hits b ⊎ In b rest)
unfolding first_badge badge
first_badge-append color mark [] rest b = ground arith
first_badge-append color mark (hit ∷ hits) rest b = ground arith

badge-mood : (s : Sentiment) → badge (sentiment_color s) (sentiment_value s) ≡ mood s
unfolding badge sentiment_color sentiment_value
badge-mood bullish = refl
badge-mood bearish = refl
badge-mood neutral = refl

badge-weight : (m : Magnitude) → badge (codes "yellow") (magnitude_value m) ≡ weight m
unfolding badge magnitude_value
badge-weight low = refl
badge-weight medium = refl
badge-weight high = refl

-- The badges of `build`, and of `build_from_rules`.
abbrev pub IsBadge : ScoredNews → Badge → Type 0
IsBadge scored b =
    let e = scored.enriched in
    IsTopic e.related_tickers e.sectors b ⊎ ((b ≡ mood e.sentiment) ⊎ (b ≡ weight e.magnitude))

abbrev pub IsRuleBadge : RulesVerdict → Badge → Type 0
IsRuleBadge v b =
    IsTopic (v.tickers ++ v.related_tickers) v.sectors b
    ⊎ (IsFirst (codes "yellow") (codes "📊 ") v.macros b
        ⊎ (IsFirst (codes "gray") (codes "🔖 ") v.generic_hits b
            ⊎ (b ≡ record { text = codes "rules"; color = codes "green" })))

build-IsBadge :
    (labels : Dict Text Text) (art : RawArticle) (scored : ScoredNews) (chart_url : Option Text)
    (b : Badge)
    → In b (build labels art scored chart_url).badges ↔ IsBadge scored b
unfolding build message_of
build-IsBadge labels art scored chart_url b =
    let e = scored.enriched in
    ground (
      arith,
      ticker_badges-IsTopic e.related_tickers e.sectors
          (badge (sentiment_color e.sentiment) (sentiment_value e.sentiment)
            ∷ badge (codes "yellow") (magnitude_value e.magnitude)
            ∷ [])
          b,
      badge-mood e.sentiment,
      badge-weight e.magnitude,
    )

build_from_rules-IsRuleBadge :
    (labels : Dict Text Text) (art : RawArticle) (scored : ScoredNews) (v : RulesVerdict)
    (chart_url : Option Text) (b : Badge)
    → In b (build_from_rules labels art scored v chart_url).badges ↔ IsRuleBadge v b
unfolding build_from_rules message_of badge
build_from_rules-IsRuleBadge labels art scored v chart_url b =
    let last = badge (codes "green") (codes "rules") ∷ [] in
    let marked = first_badge (codes "gray") (codes "🔖 ") v.generic_hits ++ last in
    let many = first_badge (codes "yellow") (codes "📊 ") v.macros ++ marked in
    let (t, t') = ticker_badges-IsTopic (v.tickers ++ v.related_tickers) v.sectors many b in
    let (m, m') = first_badge-append (codes "yellow") (codes "📊 ") v.macros marked b in
    let (g, g') = first_badge-append (codes "gray") (codes "🔖 ") v.generic_hits last b in
    (
      λ i. elim (t i) [
        | inl x ↦ inl x
        | inr y ↦ elim (m y) [
          | inl x ↦ inr (inl x)
          | inr z ↦ elim (g z) [
            | inl x ↦ inr (inr (inl x))
            | inr w ↦ elim w [ inl e ↦ inr (inr (inr e)) | inr none_left ↦ absurd none_left.1 ]
          ]
        ]
      ],
      λ i. elim i [
        | inl x ↦ t' (inl x)
        | inr y ↦ t' (
            inr (
              m' (elim y [
                | inl x ↦ inl x
                | inr z ↦ inr (g' (elim z [ inl x ↦ inl x | inr e ↦ inr (inl e) ]))
              ])))
      ],
    )

-- The message has the article's title, address and market, the summary of the news, and the label of
-- the source, which is its id where there is none.
abbrev pub IsAbout : Dict Text Text → RawArticle → ScoredNews → CommonMessage → Type 0
IsAbout labels art scored msg =
    (msg.title ≡ art.title)
    × (msg.source_url ≡ art.url)
    × (msg.market ≡ art.market)
    × (msg.summary ≡ scored.enriched.summary)
    × (msg.source_label ≡ elim (lookup art.source labels) [ none ↦ art.source | some l ↦ l ])

-- A message has the article's title, address and market, the summary of the news, and the label of
-- its source, or the id where there is none. Its links are the article's and, for each of the first
-- three tickers, its quote page in the article's market. `build` shows exactly blue badges of the
-- first five tickers, grey ones of the first two sectors, the sentiment in its colour and the
-- magnitude in yellow; `build_from_rules` shows those of the verdict's tickers and sectors, its
-- first macro in yellow and its first keyword in grey after their marks, and a green one that says
-- rules. There are at most four links, and at most nine badges in the one and ten in the other.
pub build-IsLink :
    (labels : Dict Text Text) (art : RawArticle) (scored : ScoredNews) (verdict : RulesVerdict)
    (chart_url : Option Text) (link : Deeplink) (b : Badge)
    → let direct = build labels art scored chart_url in
      let ruled = build_from_rules labels art scored verdict chart_url in
      let tickers = verdict.tickers ++ verdict.related_tickers in
      (In link direct.deeplinks ↔ IsLink art scored.enriched.related_tickers link)
      × (In link ruled.deeplinks ↔ IsLink art tickers link)
      × (In b direct.badges ↔ IsBadge scored b)
      × (In b ruled.badges ↔ IsRuleBadge verdict b)
      × ((length direct.badges ≤ 9) × (length direct.deeplinks ≤ 4))
      × ((length ruled.badges ≤ 10) × (length ruled.deeplinks ≤ 4))
      × (IsAbout labels art scored direct × IsAbout labels art scored ruled)
unfolding build build_from_rules message_of label_for
build-IsLink labels art scored verdict chart_url link b =
    let tickers = verdict.tickers ++ verdict.related_tickers in
    let (n, few, k, l, m, many, o, p) = length-build labels art scored verdict chart_url in
    (
      deeplinks_of-IsLink art scored.enriched.related_tickers link,
      deeplinks_of-IsLink art tickers link,
      build-IsBadge labels art scored chart_url b,
      build_from_rules-IsRuleBadge labels art scored verdict chart_url b,
      (few, l),
      (many, p),
      ((refl, refl, refl, refl, refl), (refl, refl, refl, refl, refl)),
    )
