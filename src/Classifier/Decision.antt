-- ===== src/Classifier/Decision.antt =====
-- The decision of classifier/importance.py in terms of the score, and the score in terms of the
-- rules.
use Prim.Native.Nat.{min}
use news_project.Prelude.{
  ℕ, ◌+◌, ◌≤◌, ◌<◌, ◌≡◌, inl, inr, refl, sym, subst, Bool, true, false, ◌&&◌, Option, none, some,
  List, map, leb, ltb, if◌then◌else◌, arith, elem, Text, text_eq, Bool-cases,
}
use news_project.Common.Contracts.{EnrichedNews, ScoredNews}
use news_project.Rules.Patterns.{RulesVerdict}
use news_project.Classifier.Rules.{
  ClassifierRulesCfg, is_high, is_strong, is_notable, is_filing, evaluate, weights, score,
}
use news_project.Classifier.Importance.{
  ImportanceClassifier, JudgeError, Result, ok, raise, ◌>>=◌, judge, gray_zone, add_verdict, decide,
  scored, score_news,
}

-- The points of the four fixed rules.
abbrev pub rule_points : ClassifierRulesCfg → EnrichedNews → Text → ℕ
rule_points cfg e source =
    (if elem source cfg.sources_always_critical then 30 else 0)
    + (if cfg.sentiment_high_magnitude_critical && (is_high e.magnitude && is_strong e.sentiment)
        then 40
        else 0)
    + (if is_notable e.event_type then 20 else 0)
    + (if is_filing e.event_type then 25 else 0)

-- The points that a verdict adds.
abbrev pub boost_of : Option RulesVerdict → ℕ
boost_of none = 0
boost_of (some v) = if v.matched then v.score_boost else 0

abbrev pub expected_score : ImportanceClassifier → EnrichedNews → Text → Option RulesVerdict → ℕ
expected_score c e source verdict = min 100 (rule_points c.rules e source + boost_of verdict)

-- no event type is both notable and a filing, so the cap on the rules' own score never acts
score-evaluate :
    (cfg : ClassifierRulesCfg) (e : EnrichedNews) (source : Text)
    → score (evaluate cfg e source) ≡ rule_points cfg e source
unfolding score evaluate weights is_notable is_filing
score-evaluate cfg e source = ground arith

add_verdict-score :
    (v : Option RulesVerdict) (points : ℕ) (names : List Text)
    → (add_verdict v (points, names)).0 ≡ points + boost_of v
unfolding add_verdict
add_verdict-score v points names = ground arith

-- How the gray zone is decided: by the judge, or without one by the configured action.
abbrev pub gray_answer : ImportanceClassifier → EnrichedNews → Result (Bool × Text)
gray_answer c e =
    if c.llm_enabled
    then judge c.client e c.watchlist_tickers
    else ok (gray_zone c.gray_zone_action)

-- What a result has to be at score `s`.
pub data Decided (c : ImportanceClassifier) (e : EnrichedNews) (s : ℕ)
    : Result ScoredNews → Type 0 where
  high :
      {r : ScoredNews}
      → c.hi ≤ s
      → r.score ≡ s
      → r.enriched ≡ e
      → r.is_critical ≡ true
      → r.llm_reason ≡ none
      → Decided c e s (ok r)
  low :
      {r : ScoredNews}
      → s < c.hi
      → s < c.lo
      → r.score ≡ s
      → r.enriched ≡ e
      → r.is_critical ≡ false
      → r.llm_reason ≡ none
      → Decided c e s (ok r)
  gray :
      {r : ScoredNews}
      → s < c.hi
      → c.lo ≤ s
      → r.score ≡ s
      → r.enriched ≡ e
      → (reason : Text) → gray_answer c e ≡ ok (r.is_critical, reason)
      → r.llm_reason ≡ some reason
      → Decided c e s (ok r)
  failed :
      {err : JudgeError}
      → s < c.hi
      → c.lo ≤ s
      → c.llm_enabled ≡ true
      → gray_answer c e ≡ raise err
      → Decided c e s (raise err)

module _ (c : ImportanceClassifier) (e : EnrichedNews) (names : List Text) (s : ℕ) where
  decide_high : leb c.hi s ≡ true → decide c e names s ≡ ok (scored e names s true none)
  unfolding decide
  decide_high at_top = ground arith

  decide_low :
      leb c.hi s ≡ false → ltb s c.lo ≡ true → decide c e names s ≡ ok (scored e names s false none)
  unfolding decide
  decide_low below under = ground arith

  decide_gray :
      leb c.hi s ≡ false
      → ltb s c.lo ≡ false
      → decide c e names s
        ≡ (gray_answer c e >>= λ answer. ok (scored e names s answer.0 (some answer.1)))
  unfolding decide
  decide_gray below between = ground arith

  gray-Decided :
      leb c.hi s ≡ false
      → ltb s c.lo ≡ false
      → (answer : Result (Bool × Text)) → gray_answer c e ≡ answer
      → Decided c e s (answer >>= λ a. ok (scored e names s a.0 (some a.1)))
  unfolding scored
  gray-Decided below between (ok (critical, reason)) a =
      gray (ground arith) (ground arith) refl refl reason a refl
  gray-Decided below between (raise err) a = failed (ground arith) (ground arith) (ground arith) a

  decide-Decided : Decided c e s (decide c e names s)
  unfolding scored
  decide-Decided = elim (Bool-cases (leb c.hi s)) [
    | inl at_top ↦
        subst (Decided c e s) (sym (decide_high at_top)) (high (ground arith) refl refl refl refl)
    | inr below ↦ elim (Bool-cases (ltb s c.lo)) [
      | inl under ↦
          subst (Decided c e s) (sym (decide_low below under))
            (low (ground arith) (ground arith) refl refl refl refl)
      | inr between ↦
          subst (Decided c e s) (sym (decide_gray below between))
            (gray-Decided below between (gray_answer c e) refl)
    ]
  ]

-- The score of the result is the points of the fixed rules and of a matched verdict, at most 100. At
-- `hi` or above the news is critical, below `lo` (and `hi`) it is not, and both without a reason; in
-- between the answer and the reason are the judge's, or the configured action's when the LLM is off.
-- The call fails exactly with the judge's error, which only the gray zone asks.
pub score_news-Decided :
    (c : ImportanceClassifier) (e : EnrichedNews) (source : Text) (verdict : Option RulesVerdict)
    → Decided c e (expected_score c e source verdict) (score_news c e source verdict)
unfolding score_news
score_news-Decided c e source verdict =
    let hits = evaluate c.rules e source in
    let with_verdict = add_verdict verdict (score hits, map (λ h. h.name) hits) in
    let same : (if leb 100 with_verdict.0 then 100 else with_verdict.0)
        ≡ expected_score c e source verdict =
      ground (
        arith,
        add_verdict-score verdict (score hits) (map (λ h. h.name) hits),
        score-evaluate c.rules e source,
      ) in
    rw same (decide-Decided c e with_verdict.1 (expected_score c e source verdict))
