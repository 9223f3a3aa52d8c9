-- ===== src/Router.antt =====
-- src/news_pipeline/router/routes.py
mod Tests
use news_project.Prelude.{
  ◌≡◌, ◌↔◌, refl, sym, subst, Bool, Option, none, some, List, [], ◌∷◌, ◌++◌, if◌then◌else◌, arith,
  is_empty, ◌⊎◌, In, gather, In-gather, gather-In, Text, text_eq, Option-cases, Bool-cases, inl,
  inr, false, true,
}
use news_project.Prelude.Dict.{Dict, lookup}
use news_project.Common.Enums.{market_value}
use news_project.Common.Contracts.{CommonMessage, ScoredNews, DispatchPlan}

-- `markets or [msg.market.value]`: an empty list falls back too
unfoldable pub target_markets : CommonMessage → Option (List Text) → List Text
target_markets msg none = market_value msg.market ∷ []
target_markets msg (some []) = market_value msg.market ∷ []
target_markets msg (some (m ∷ ms)) = m ∷ ms

-- `self._by_market.get(mkt, [])`
unfoldable pub channels_for : Dict Text (List Text) → Text → List Text
channels_for by_market mkt = elim (lookup mkt by_market) [ none ↦ [] | some channels ↦ channels ]

-- one round of the loop
unfoldable pub plans_for :
    Dict Text (List Text) → ScoredNews → CommonMessage → Text → List DispatchPlan
unfolding channels_for
plans_for by_market scored msg mkt =
    let channels = channels_for by_market mkt in
    if is_empty channels
    then []
    else record { message = msg; channels = channels; immediate = scored.is_critical } ∷ []

-- `DispatchRouter.route`
unfoldable pub route :
    Dict Text (List Text) → ScoredNews → CommonMessage → Option (List Text) → List DispatchPlan
unfolding plans_for
route by_market scored msg markets =
    gather (plans_for by_market scored msg) (target_markets msg markets)

-- The plan of a market with these channels.
abbrev pub plan_of : ScoredNews → CommonMessage → List Text → DispatchPlan
plan_of scored msg channels = record {
  message = msg;
  channels = channels;
  immediate = scored.is_critical;
}

plans_for_iff :
    (by_market : Dict Text (List Text)) (scored : ScoredNews) (msg : CommonMessage) (mkt : Text)
    (plan : DispatchPlan)
    → In plan (plans_for by_market scored msg mkt) ↔ (
        (channels : List Text) × (lookup mkt by_market ≡ some channels)
        × (is_empty channels ≡ false)
        × (plan ≡ plan_of scored msg channels))
unfolding plans_for
plans_for_iff by_market scored msg mkt plan = elim (Option-cases (lookup mkt by_market)) [
  | inl e ↦ ground arith
  | inr (channels, e) ↦
      (λ i. (channels, e, ground arith, ground arith), λ (cs, e', n, p). ground arith)
]

-- One of the given markets, or the message's own where none are given or the list is empty.
abbrev pub IsTarget : CommonMessage → Option (List Text) → Text → Type 0
IsTarget msg none mkt = mkt ≡ market_value msg.market
IsTarget msg (some given) mkt = In mkt given ⊎ ((given ≡ []) × (mkt ≡ market_value msg.market))

cons≢nil : {m : Text} {ms : List Text} → (m ∷ ms) ≡ [] → ⊥
cons≢nil e = cc

target_markets_iff :
    (msg : CommonMessage) (markets : Option (List Text)) (mkt : Text)
    → In mkt (target_markets msg markets) ↔ IsTarget msg markets mkt
unfolding target_markets
target_markets_iff msg none mkt = ground arith
target_markets_iff msg (some []) mkt = ground arith
target_markets_iff msg (some (m ∷ ms)) mkt =
    (λ i. inl i, λ t. elim t [ inl i ↦ i | inr (empty, e) ↦ absurd (cons≢nil empty) ])

-- A plan is made for a channel list exactly when that is the list of a target market and not empty:
-- the targets are the given markets, or the message's own where none are given or the list is empty.
-- Each plan carries the message, and is immediate exactly for critical news.
pub route_iff :
    (by_market : Dict Text (List Text)) (scored : ScoredNews) (msg : CommonMessage)
    (markets : Option (List Text)) (plan : DispatchPlan)
    → In plan (route by_market scored msg markets) ↔ (
        (mkt : Text) × (channels : List Text) × IsTarget msg markets mkt
        × (lookup mkt by_market ≡ some channels)
        × (is_empty channels ≡ false)
        × (plan ≡ plan_of scored msg channels))
unfolding route
route_iff by_market scored msg markets plan = (
  λ i.
      let (mkt, m, j) =
        In-gather (plans_for by_market scored msg) plan (target_markets msg markets) i in
      let (channels, e, n, p) = (plans_for_iff by_market scored msg mkt plan).0 j in
      (mkt, channels, (target_markets_iff msg markets mkt).0 m, e, n, p),
  λ (mkt, channels, m, e, n, p).
      gather-In (plans_for by_market scored msg) mkt plan (target_markets msg markets)
        ((target_markets_iff msg markets mkt).1 m)
        ((plans_for_iff by_market scored msg mkt plan).1 (channels, e, n, p)),
)
