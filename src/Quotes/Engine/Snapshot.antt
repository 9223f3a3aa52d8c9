-- ===== src/Quotes/Engine/Snapshot.antt =====
-- `evaluate_for_snapshot` of alerts/engine.py as one sequence of rounds.
use news_project.Prelude.{
  ℕ, ◌*◌, ◌≤◌, ◌≡◌, refl, sym, subst, ap, Bool, true, false, ◌&&◌, ◌||◌, Option, none, some, List,
  [], ◌∷◌, ◌++◌, if◌then◌else◌, keep, In, In-append, In-keep, inl, inr, Text,
}
use news_project.Quotes.Rule.{AlertRule, threshold, indicator, event, composite}
use news_project.Quotes.State.{StateTracker}
use news_project.Quotes.State.Rows.{same_row}
use news_project.Quotes.Engine.{
  Interpreted, QuoteSnapshot, AlertVerdict, Contexts, consider, run_loop, run_rules, run_if,
  evaluate_for_snapshot, is_kind, is_ticker_target, names,
}
use news_project.Quotes.Engine.Cooldown.{last_at, consider-Step}
use news_project.Quotes.Engine.Spacing.{Moves, still, Moves-trans, round-Moves}

-- Some verdict is of the rule with the id, for the key.
abbrev pub fired_for : {F Ctx : Type 0} → Text → Text → List (AlertVerdict F Ctx) → Bool
fired_for i key [] = false
fired_for i key (v ∷ vs) = same_row v.rule.id v.snapshot.ticker i key || fired_for i key vs

-- Every rule with the id has at least the cooldown.
abbrev pub CoolsFor : Text → ℕ → List AlertRule → Type 0
CoolsFor i cooldown_min rules =
    (r : AlertRule) → In r rules → r.id ≡ i → cooldown_min ≤ r.cooldown_min

-- one more rule
if-append :
    {A : Type 0} (b : Bool) (x : A) (xs ys : List A)
    → (if b then x ∷ (xs ++ ys) else xs ++ ys) ≡ (if b then x ∷ xs else xs) ++ ys
if-append true x xs ys = refl
if-append false x xs ys = refl

module _ {F Ctx : Type 0} (clock : ℕ → ℕ) (interp : Text → Ctx → Interpreted)
    (snap : QuoteSnapshot F) where
  -- The verdicts of rounds for one snapshot, each a context with a rule, and the tracker.
  unfoldable pub replay :
      List (Ctx × AlertRule) → StateTracker F → List (AlertVerdict F Ctx) × StateTracker F
  unfolding consider
  replay [] s = ([], s)
  replay ((ctx, rule) ∷ rounds) s =
      let one = consider clock interp snap.ticker (some snap.price) ctx rule s in
      let rest = replay rounds one.1 in
      (
        if one.0 then record { rule = rule; snapshot = snap; ctx_dump = ctx } ∷ rest.0 else rest.0,
        rest.1,
      )

  -- the rounds of a group of rules
  abbrev pub rounds_for : Ctx → List AlertRule → List (Ctx × AlertRule)
  rounds_for ctx [] = []
  rounds_for ctx (rule ∷ rules) = (ctx, rule) ∷ rounds_for ctx rules

  run_loop-eq-replay :
      (ctx : Ctx) (rules : List AlertRule) (s : StateTracker F)
      → run_loop clock interp snap.ticker (some snap.price) snap ctx rules s
        ≡ replay (rounds_for ctx rules) s
  unfolding run_loop replay
  run_loop-eq-replay ctx [] s = refl
  run_loop-eq-replay ctx (rule ∷ rules) s =
      rw
        (run_loop-eq-replay ctx rules
          (consider clock interp snap.ticker (some snap.price) ctx rule s).1)
        refl

  replay-append :
      (a b : List (Ctx × AlertRule)) (s : StateTracker F)
      → replay (a ++ b) s
        ≡ ((replay a s).0 ++ (replay b (replay a s).1).0, (replay b (replay a s).1).1)
  unfolding replay
  replay-append [] b s = refl
  replay-append ((ctx, rule) ∷ a) b s =
      let one = consider clock interp snap.ticker (some snap.price) ctx rule s in
      rw (replay-append a b one.1) (
        ap (λ (vs : List (AlertVerdict F Ctx)). (vs, (replay b (replay a one.1).1).1))
          (if-append one.0 _ (replay a one.1).0 _))

  abbrev rounds_if : Option Ctx → List AlertRule → List (Ctx × AlertRule)
  rounds_if none rules = []
  rounds_if (some ctx) rules = rounds_for ctx rules

  run_rules-eq-replay :
      (ctx : Ctx) (rules : List AlertRule) (s : StateTracker F)
      → run_rules clock interp snap ctx rules s ≡ replay (rounds_for ctx rules) s
  unfolding run_rules
  run_rules-eq-replay ctx rules s = run_loop-eq-replay ctx rules s

  run_if-eq-replay :
      (ctx : Option Ctx) (rules : List AlertRule) (s : StateTracker F)
      → run_if clock interp snap ctx rules s ≡ replay (rounds_if ctx rules) s
  unfolding run_if replay
  run_if-eq-replay none rules s = refl
  run_if-eq-replay (some ctx) rules s = run_rules-eq-replay ctx rules s

  -- The rounds of an evaluation: the threshold rules of the ticker, the composite rules of its
  -- holding, its indicator rules, and its event rules; each group in the order of the rules.
  abbrev rounds_of : List AlertRule → Contexts Ctx → List (Ctx × AlertRule)
  rounds_of rules ctxs =
      rounds_for ctxs.basic
        (keep (λ (r : AlertRule). is_kind r.kind threshold && names r.ticker snap.ticker) rules)
      ++ (rounds_if ctxs.holding (
            keep (λ (r : AlertRule). is_kind r.kind composite && names r.holding snap.ticker) rules)
          ++ (rounds_if ctxs.indicators (
                keep (λ (r : AlertRule). is_kind r.kind indicator && names r.ticker snap.ticker)
                  rules)
              ++ rounds_for ctxs.basic (
                  keep
                    (λ (r : AlertRule).
                      is_kind r.kind event
                      && (is_ticker_target r.target_kind && names r.ticker snap.ticker))
                    rules)))

  evaluate_for_snapshot-eq-replay :
      (rules : List AlertRule) (ctxs : Contexts Ctx) (s : StateTracker F)
      → evaluate_for_snapshot clock interp rules snap ctxs s ≡ replay (rounds_of rules ctxs) s
  unfolding evaluate_for_snapshot
  evaluate_for_snapshot-eq-replay rules ctxs s =
      rw
        (
          run_rules-eq-replay, run_if-eq-replay, run_if-eq-replay, run_loop-eq-replay,
          replay-append, replay-append, replay-append,
        )
        refl

  -- the rules of the rounds are among the rules
  rule_of-rounds_for :
      (ctx c : Ctx) (r : AlertRule) (rules : List AlertRule)
      → In (c, r) (rounds_for ctx rules)
      → In r rules
  rule_of-rounds_for ctx c r [] h = absurd h.1
  rule_of-rounds_for ctx c r (x ∷ rules) (inl e) = inl (ap (λ (p : Ctx × AlertRule). p.1) e)
  rule_of-rounds_for ctx c r (x ∷ rules) (inr h) = inr (rule_of-rounds_for ctx c r rules h)

  rule_of-rounds_if :
      (ctx : Option Ctx) (c : Ctx) (r : AlertRule) (rules : List AlertRule)
      → In (c, r) (rounds_if ctx rules)
      → In r rules
  rule_of-rounds_if none c r rules h = absurd h.1
  rule_of-rounds_if (some ctx) c r rules h = rule_of-rounds_for ctx c r rules h

  -- The rules of the rounds are among the rules.
  abbrev Among : List AlertRule → List (Ctx × AlertRule) → Type 0
  Among rules rounds = (c : Ctx) (r : AlertRule) → In (c, r) rounds → In r rules

  Among-append :
      (rules : List AlertRule) (a b : List (Ctx × AlertRule))
      → Among rules a
      → Among rules b
      → Among rules (a ++ b)
  Among-append rules a b in_a in_b c r h = elim (In-append (c, r) a b h) [
    | inl l ↦ in_a c r l
    | inr l ↦ in_b c r l
  ]

  Among-rounds_if :
      (rules : List AlertRule) (ctx : Option Ctx) (p : AlertRule → Bool)
      → Among rules (rounds_if ctx (keep p rules))
  Among-rounds_if rules ctx p c r h =
      (In-keep p r rules (rule_of-rounds_if ctx c r (keep p rules) h)).0

  Among-rounds_of :
      (rules : List AlertRule) (ctxs : Contexts Ctx) → Among rules (rounds_of rules ctxs)
  Among-rounds_of rules ctxs = Among-append rules _ _ (Among-rounds_if rules (some ctxs.basic) _) (
      Among-append rules _ _ (Among-rounds_if rules ctxs.holding _) (
        Among-append rules _ _ (Among-rounds_if rules ctxs.indicators _)
          (Among-rounds_if rules (some ctxs.basic) _)))

  module _ (monotone : (m n : ℕ) → m ≤ n → clock m ≤ clock n) (i key : Text)
      (cooldown_min : ℕ) where
    -- the verdict of a round in front
    fired-cons :
        (fired : Bool) (ctx : Ctx) (rule : AlertRule) (vs : List (AlertVerdict F Ctx))
        → fired_for i key
            (if fired then record { rule = rule; snapshot = snap; ctx_dump = ctx } ∷ vs else vs)
          ≡ (fired && same_row rule.id snap.ticker i key || fired_for i key vs)
    fired-cons true ctx rule vs = refl
    fired-cons false ctx rule vs = refl

    replay-Moves :
        (rounds : List (Ctx × AlertRule)) (s : StateTracker F)
        → ((c : Ctx) (r : AlertRule) → In (c, r) rounds → r.id ≡ i → cooldown_min ≤ r.cooldown_min)
        → Moves
            (cooldown_min * 60)
            (last_at i key s)
            (last_at i key (replay rounds s).1)
            (fired_for i key (replay rounds s).0)
    unfolding replay
    replay-Moves [] s h = still refl
    replay-Moves ((ctx, rule) ∷ rounds) s h =
        let one = consider clock interp snap.ticker (some snap.price) ctx rule s in
        subst (Moves (cooldown_min * 60) (last_at i key s) (last_at i key (replay rounds one.1).1))
          (sym (fired-cons one.0 ctx rule (replay rounds one.1).0))
          (Moves-trans (cooldown_min * 60) _ _ _ _ _
            (round-Moves clock interp monotone i key cooldown_min rule.id snap.ticker
              rule.cooldown_min s one (h ctx rule (inl refl))
              (consider-Step clock interp snap.ticker (some snap.price) rule s ctx))
            (replay-Moves rounds one.1 (λ c r m. h c r (inr m))))

    -- an evaluation
    pub evaluate_for_snapshot-Moves :
        (rules : List AlertRule) (ctxs : Contexts Ctx) (s : StateTracker F)
        → CoolsFor i cooldown_min rules
        → let result = evaluate_for_snapshot clock interp rules snap ctxs s in
          Moves
            (cooldown_min * 60)
            (last_at i key s)
            (last_at i key result.1)
            (fired_for i key result.0)
    evaluate_for_snapshot-Moves rules ctxs s h =
        rw (evaluate_for_snapshot-eq-replay rules ctxs s)
          (replay-Moves (rounds_of rules ctxs) s (λ c r m. h r (Among-rounds_of rules ctxs c r m)))
