-- ===== src/Common/Coerce.antt =====
-- The lenient coercions of src/news_pipeline/common/enums.py. An enum is looked up by the table of its
-- values; `lower` is `str.lower`.
use news_project.Prelude.{
  ◌≡◌, refl, ap, ◌∙◌, Option, none, some, [], ◌∷◌, Text, codes, text_eq, text_beq,
}
use news_project.Prelude.Dict.{Dict, lookup}
use news_project.Common.Enums.{
  Market, us, cn, Sentiment, bullish, bearish, neutral, Magnitude, low, medium, high, EventType,
  EntityType, Predicate, market_value, event_type_value,
}

abbrev event_types : Dict Text EventType
event_types =
    (codes "earnings", EventType.earnings)
    ∷ (codes "m_and_a", EventType.m_and_a)
    ∷ (codes "policy", EventType.policy)
    ∷ (codes "price_move", EventType.price_move)
    ∷ (codes "downgrade", EventType.downgrade)
    ∷ (codes "upgrade", EventType.upgrade)
    ∷ (codes "filing", EventType.filing)
    ∷ (codes "other", EventType.other)
    ∷ []

abbrev sentiments : Dict Text Sentiment
sentiments =
    (codes "bullish", bullish) ∷ (codes "bearish", bearish) ∷ (codes "neutral", neutral) ∷ []

abbrev magnitudes : Dict Text Magnitude
magnitudes = (codes "low", low) ∷ (codes "medium", medium) ∷ (codes "high", high) ∷ []

abbrev predicates : Dict Text Predicate
predicates =
    (codes "supplies", Predicate.supplies)
    ∷ (codes "competes_with", Predicate.competes_with)
    ∷ (codes "owns", Predicate.owns)
    ∷ (codes "regulates", Predicate.regulates)
    ∷ (codes "partners_with", Predicate.partners_with)
    ∷ (codes "mentions", Predicate.mentions)
    ∷ []

abbrev entity_types : Dict Text EntityType
entity_types =
    (codes "company", EntityType.company)
    ∷ (codes "person", EntityType.person)
    ∷ (codes "event", EntityType.event)
    ∷ (codes "sector", EntityType.sector)
    ∷ (codes "policy", EntityType.policy)
    ∷ (codes "product", EntityType.product)
    ∷ []

abbrev markets : Dict Text Market
markets = (codes "us", us) ∷ (codes "cn", cn) ∷ []

-- the result, or the default for one that is missing
unfoldable pub or_default : {E : Type 0} → E → Option E → E
or_default default none = default
or_default default (some e) = e

-- the member of the enum, if the value is given and is one
unfoldable pub member : {E : Type 0} → Dict Text E → (Text → Text) → Option Text → Option E
member table lower none = none
member table lower (some value) = lookup (lower value) table

unfoldable pub safe_event_type : (Text → Text) → Option Text → EventType
unfolding or_default member
safe_event_type lower value = or_default EventType.other (member event_types lower value)

unfoldable pub safe_sentiment : (Text → Text) → Option Text → Sentiment
unfolding or_default member
safe_sentiment lower value = or_default neutral (member sentiments lower value)

unfoldable pub safe_magnitude : (Text → Text) → Option Text → Magnitude
unfolding or_default member
safe_magnitude lower value = or_default low (member magnitudes lower value)

unfoldable pub safe_predicate : (Text → Text) → Option Text → Predicate
unfolding or_default member
safe_predicate lower value = or_default Predicate.mentions (member predicates lower value)

unfoldable pub safe_entity_type : (Text → Text) → Option Text → EntityType
unfolding or_default member
safe_entity_type lower value = or_default EntityType.company (member entity_types lower value)

unfoldable pub safe_market : (Text → Text) → Option Text → Option Market
unfolding member
safe_market lower value = member markets lower value

lookup-event_types : (e : EventType) → lookup (event_type_value e) event_types ≡ some e
unfolding event_type_value lookup text_beq
lookup-event_types EventType.earnings = refl
lookup-event_types EventType.m_and_a = refl
lookup-event_types EventType.policy = refl
lookup-event_types EventType.price_move = refl
lookup-event_types EventType.downgrade = refl
lookup-event_types EventType.upgrade = refl
lookup-event_types EventType.filing = refl
lookup-event_types EventType.other = refl

lookup-markets : (m : Market) → lookup (market_value m) markets ≡ some m
unfolding market_value lookup text_beq
lookup-markets us = refl
lookup-markets cn = refl

-- A value that is that of an event type or market in lower case is read as this event type or market.
pub safe_event_type-value :
    (lower : Text → Text) (v w : Text) (e : EventType) (m : Market)
    → lower v ≡ event_type_value e
    → lower w ≡ market_value m
    → (safe_event_type lower (some v) ≡ e) × (safe_market lower (some w) ≡ some m)
unfolding safe_event_type safe_market or_default member
safe_event_type-value lower v w e m h k = (
  ap (λ x. or_default EventType.other (lookup x event_types)) h
      ∙ ap (or_default EventType.other) (lookup-event_types e),
  ap (λ x. lookup x markets) k ∙ lookup-markets m,
)
