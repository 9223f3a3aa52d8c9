-- ===== src/Classifier/Importance.antt =====
-- classifier/importance.py and classifier/llm_judge.py. The scores are whole points: every weight
-- and boost of the source is whole, and comparing a whole score with a fractional bound is comparing
-- it with the bound rounded up. What the LLM client returns or raises is a parameter.
use news_project.Prelude.{
  ℕ, ◌+◌, Bool, true, false, Option, none, some, List, [], ◌∷◌, ◌++◌, map, leb, ltb, if◌then◌else◌,
  Text, codes, join,
}
use news_project.Common.Contracts.{EnrichedNews, ScoredNews}
use news_project.Rules.Patterns.{RulesVerdict, GrayZoneAction, skip, digest, push}
use news_project.Classifier.Rules.{ClassifierRulesCfg, evaluate, score}

-- What ends a call of the judge early.
pub data JudgeError : Type 0 where
  -- the client's exception
  client_failed : JudgeError
  -- `payload["is_critical"]` on a payload without that key
  key_error : JudgeError

pub data Result (A : Type 0) : Type 0 where
  ok : A → Result A
  raise : JudgeError → Result A

infixl 5 ◌>>=◌
abbrev pub ◌>>=◌ : {A B : Type 0} → Result A → (A → Result B) → Result B
ok a >>= f = f a
raise e >>= f = raise e

-- The JSON object that the client parsed, with the two keys that the code reads.
pub record JudgePayload : Type 0 where
  pub is_critical : Option Bool
  pub reason : Option Text

-- The client: `raise`, or `resp.json_payload`. An empty object is falsy, as `none` is.
abbrev pub Client : Type 0
Client = EnrichedNews → List Text → Result (Option JudgePayload)

unfoldable pub read_payload : Option JudgePayload → Result (Bool × Text)
read_payload none = ok (false, [])
read_payload (some payload) = elim payload.is_critical [
  | none ↦ raise key_error
  | some critical ↦ ok (critical, elim payload.reason [ none ↦ [] | some reason ↦ reason ])
]

-- `LLMJudge.judge`
unfoldable pub judge : Client → EnrichedNews → List Text → Result (Bool × Text)
unfolding read_payload
judge client e watchlist = do payload ← client e watchlist; read_payload payload

pub record ImportanceClassifier : Type 0 where
  pub rules : ClassifierRulesCfg
  pub client : Client
  pub lo : ℕ
  pub hi : ℕ
  pub watchlist_tickers : List Text
  pub gray_zone_action : GrayZoneAction
  pub llm_enabled : Bool

-- the three branches on `action`
unfoldable pub gray_zone : GrayZoneAction → Bool × Text
gray_zone push = (true, codes "rules-only-grayzone-push")
gray_zone skip = (false, codes "rules-only-grayzone-skip")
gray_zone digest = (false, codes "rules-only-grayzone-digest")

-- the score and the names of the rules after the two additions of the verdict
unfoldable pub add_verdict : Option RulesVerdict → ℕ × List Text → ℕ × List Text
add_verdict none (score, names) = (score, names)
add_verdict (some v) (score, names) =
    if v.matched
    then (score + v.score_boost, names ++ (codes "rules_" ++ join (codes ",") v.markets) ∷ [])
    else (score, names)

-- `ScoredNews(...)`
unfoldable pub scored : EnrichedNews → List Text → ℕ → Bool → Option Text → ScoredNews
scored e names s critical reason = record {
  enriched = e;
  score = s;
  is_critical = critical;
  rule_hits = names;
  llm_reason = reason;
}

-- from `if score >= self._hi` to the end of `score_news`
unfoldable pub decide : ImportanceClassifier → EnrichedNews → List Text → ℕ → Result ScoredNews
unfolding judge gray_zone scored
decide c e names s =
    if leb c.hi s
    then ok (scored e names s true none)
    else if ltb s c.lo
    then ok (scored e names s false none)
    else if c.llm_enabled
    then (do
      answer ← judge c.client e c.watchlist_tickers
      ok (scored e names s answer.0 (some answer.1)))
    else let answer = gray_zone c.gray_zone_action in ok (scored e names s answer.0 (some answer.1))

-- `ImportanceClassifier.score_news`
unfoldable pub score_news :
    ImportanceClassifier → EnrichedNews → Text → Option RulesVerdict → Result ScoredNews
unfolding decide
score_news c e source verdict =
    let hits = evaluate c.rules e source in
    let (total, names) = add_verdict verdict (score hits, map (λ h. h.name) hits) in
    decide c e names (if leb 100 total then 100 else total)
