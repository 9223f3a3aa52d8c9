-- ===== src/Push/Message.antt =====
-- src/shared/push/common/message_builder.py: `MessageBuilder`, whose labels are the first argument. An
-- address is the text that `HttpUrl` gets; whether it accepts it is tested where a message is used.
pub mod Sizes
pub mod Shown
mod Tests
use news_project.Prelude.{
  ◌≡◌, Bool, true, false, Option, none, some, List, [], ◌∷◌, ◌++◌, map, take, is_empty,
  if◌then◌else◌, Text, codes, text_eq, starts_with,
}
use news_project.Prelude.Dict.{Dict, lookup}
use news_project.Common.Enums.{
  Market, us, cn, Sentiment, bullish, bearish, neutral, sentiment_value, magnitude_value,
}
use news_project.Common.Contracts.{
  RawArticle, ScoredNews, Badge, Deeplink, MessageKind, CommonMessage,
}
use news_project.Rules.Patterns.{RulesVerdict}

-- `_SENTIMENT_COLOR`
unfoldable pub sentiment_color : Sentiment → Text
sentiment_color bullish = codes "green"
sentiment_color bearish = codes "red"
sentiment_color neutral = codes "gray"

-- `MessageBuilder.label_for`
unfoldable pub label_for : Dict Text Text → Text → Text
label_for labels source_id = elim (lookup source_id labels) [ none ↦ source_id | some l ↦ l ]

-- a badge with `color`
unfoldable pub badge : Text → Text → Badge
badge color text = record { text = text; color = color }

-- the badges of the first five tickers, and those of the first two sectors
unfoldable pub ticker_badges : List Text → List Badge
unfolding badge
ticker_badges tickers = map (badge (codes "blue")) (take 5 tickers)

unfoldable pub sector_badges : List Text → List Badge
unfolding badge
sector_badges sectors = map (λ s. badge (codes "gray") (codes "#" ++ s)) (take 2 sectors)

-- the link for a ticker, to the quote page of its market
unfoldable pub quote_link : Market → Text → Deeplink
quote_link us t = record {
  label = codes "Yahoo " ++ t;
  url = codes "https://finance.yahoo.com/quote/" ++ t;
}
quote_link cn t =
    let prefix = if starts_with (codes "6") t then codes "sh" else codes "sz" in
    record {
      label = codes "东财 " ++ t;
      url = codes "https://quote.eastmoney.com/" ++ (prefix ++ (t ++ codes ".html"));
    }

-- the list that starts with the link to the article and goes on with the first three tickers
unfoldable pub deeplinks_of : RawArticle → List Text → List Deeplink
unfolding quote_link
deeplinks_of art tickers =
    record { label = codes "原文"; url = art.url } ∷ map (quote_link art.market) (take 3 tickers)

-- `CommonMessage(...)`, the same in both methods
unfoldable pub message_of :
    Dict Text Text
    → RawArticle
    → ScoredNews
    → Option Text
    → List Badge
    → List Deeplink
    → CommonMessage
unfolding label_for
message_of labels art scored chart_url badges deeplinks = record {
  title = art.title;
  summary = scored.enriched.summary;
  source_label = label_for labels art.source;
  source_url = art.url;
  badges = badges;
  chart_url = chart_url;
  chart_image = none;
  deeplinks = deeplinks;
  market = art.market;
  digest_items = [];
  kind = MessageKind.news;
}

-- `MessageBuilder.build`
unfoldable pub build : Dict Text Text → RawArticle → ScoredNews → Option Text → CommonMessage
unfolding ticker_badges sector_badges sentiment_color deeplinks_of message_of
build labels art scored chart_url =
    let e = scored.enriched in
    let badges =
      ticker_badges e.related_tickers
      ++ (sector_badges e.sectors
          ++ (badge (sentiment_color e.sentiment) (sentiment_value e.sentiment)
              ∷ badge (codes "yellow") (magnitude_value e.magnitude)
              ∷ [])) in
    message_of labels art scored chart_url badges (deeplinks_of art e.related_tickers)

-- `if hits:` with the badge of the first one
unfoldable pub first_badge : Text → Text → List Text → List Badge
unfolding badge
first_badge color mark [] = []
first_badge color mark (hit ∷ hits) = badge color (mark ++ hit) ∷ []

-- `MessageBuilder.build_from_rules`
unfoldable pub build_from_rules :
    Dict Text Text → RawArticle → ScoredNews → RulesVerdict → Option Text → CommonMessage
unfolding ticker_badges sector_badges first_badge deeplinks_of message_of
build_from_rules labels art scored verdict chart_url =
    let tickers = verdict.tickers ++ verdict.related_tickers in
    let badges =
      ticker_badges tickers
      ++ (sector_badges verdict.sectors
          ++ (first_badge (codes "yellow") (codes "📊 ") verdict.macros
              ++ (first_badge (codes "gray") (codes "🔖 ") verdict.generic_hits
                  ++ badge (codes "green") (codes "rules") ∷ []))) in
    message_of labels art scored chart_url badges (deeplinks_of art tickers)
