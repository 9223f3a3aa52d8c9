-- ===== src/Llm/Tiers.antt =====
-- src/news_pipeline/llm/router.py, and the choice of the client in llm/client_selection.py. The
-- verdict is `Tier0Verdict` of llm/extractors.py.
use news_project.Prelude.{
  ◌≡◌, ◌↔◌, ◌⊎◌, Bool, true, false, ◌||◌, not, Option, none, some, List, arith, if◌then◌else◌, elem,
  Text, codes, text_eq, text_beq, starts_with, strip, is_empty, ◌&&◌, Bool-cases, inl, inr,
}
use news_project.Common.Contracts.{RawArticle}

pub data Tier : Type 0 where
  skip tier1 tier2 : Tier

pub record Tier0Verdict : Type 0 where
  pub relevant : Bool
  pub tier_hint : Text
  pub watchlist_hit : Bool
  pub reason : Text

-- `LLMRouter.decide`
unfoldable pub decide : List Text → RawArticle → Tier0Verdict → Tier
decide first_party art verdict =
    if elem art.source first_party
    then tier2
    else if not verdict.relevant
    then skip
    else if verdict.watchlist_hit || text_beq verdict.tier_hint (codes "tier2")
    then tier2
    else tier1

-- `is_anthropic_configured`
unfoldable pub is_anthropic_configured : Text → Bool
unfolding strip
is_anthropic_configured api_key =
    let key = strip api_key in not (is_empty key) && not (text_beq key (codes "REPLACE_ME"))

-- `pick_client_and_model`
unfoldable pub pick_client_and_model :
    {Client : Type 0} → Text → Option Client → Client → Text → Client × Text
pick_client_and_model configured_model anthropic_client dashscope_client tier1_fallback_model =
    if starts_with (codes "claude-") configured_model
    then elim anthropic_client [
      | none ↦ (dashscope_client, tier1_fallback_model)
      | some client ↦ (client, configured_model)
    ]
    else (dashscope_client, configured_model)

-- An article is skipped exactly when its source is not first-party and it is not relevant; it is
-- extracted in depth exactly when its source is first-party, or it is relevant and hits the watchlist
-- or has the hint for tier 2.
pub decide_iff :
    (first_party : List Text) (art : RawArticle) (verdict : Tier0Verdict)
    → let deep = verdict.watchlist_hit || text_beq verdict.tier_hint (codes "tier2") in
      ((decide first_party art verdict ≡ skip)
        ↔ ((elem art.source first_party ≡ false) × (verdict.relevant ≡ false)))
      × ((decide first_party art verdict ≡ tier2)
          ↔ ((elem art.source first_party ≡ true) ⊎ ((verdict.relevant ≡ true) × (deep ≡ true))))
unfolding decide
decide_iff first_party art verdict = elim (Bool-cases (elem art.source first_party)) [
  | inl first ↦ rw first (ground arith)
  | inr other ↦ rw other (ground arith)
]
