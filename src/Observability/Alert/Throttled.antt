-- ===== src/Observability/Alert/Throttled.antt =====
-- How often src/shared/observability/alert.py sends one alert.
use news_project.Prelude.{
  ℕ, ◌+◌, ◌<◌, ◌≡◌, refl, ap, ◌∙◌, sym, subst, true, false, none, some, List, [], ◌∷◌, lt→ltb,
  arith, if◌then◌else◌, by_branch, Text, text_eq, text_beq, text_beq_iff, Bool-cases, inl, inr,
}
use news_project.Prelude.Dict.{lookup, insert, lookup-insert}
use news_project.Push.Retry.{Outcome}
use news_project.Observability.Alert.{
  AlertLevel, BarkAlerter, Alerted, key_of, is_throttled, alert_url, accepted, send,
}

-- A call of `send`, with its time and what the request does.
pub record Call : Type 0 where
  pub now : ℕ
  pub http : Text → Outcome Text ℕ
  pub title : Text
  pub body : Text
  pub level : AlertLevel

abbrev pub send_call : Call → BarkAlerter → Alerted × BarkAlerter
send_call c a = send c.now c.http c.title c.body c.level a

-- the key of a call
abbrev pub key_for : Call → Text
key_for c = key_of c.level c.title

-- The calls for a key are all made before a time.
abbrev pub AllBefore : Text → ℕ → List Call → Type 0
AllBefore key time [] = Unit
AllBefore key time (c ∷ cs) =
    (if text_beq (key_for c) key then c.now < time else Unit) × AllBefore key time cs

-- No call for a key makes a request.
abbrev pub AllSilent : Text → List Call → BarkAlerter → Type 0
AllSilent key [] a = Unit
AllSilent key (c ∷ cs) a =
    (if text_beq (key_for c) key then (send_call c a).0.request ≡ none else Unit)
    × AllSilent key cs (send_call c a).1

-- `send` with the test computed
throttled-send :
    (c : Call) (a : BarkAlerter)
    → is_throttled a.throttle c.now (lookup (key_for c) a.last_sent) ≡ true
    → send_call c a ≡ (record { ok = false; request = none }, a)
unfolding send
throttled-send c a h =
    ap
      (λ b. if b then (record { ok = false; request = none }, a) else (
        record {
          ok = accepted (c.http (alert_url a.base c.title c.body));
          request = some (alert_url a.base c.title c.body);
        },
        record a { last_sent = insert (key_for c) c.now a.last_sent },
      ))
      h

throttle-send : (c : Call) (a : BarkAlerter) → (send_call c a).1.throttle ≡ a.throttle
unfolding send
throttle-send c a =
    by_branch (λ (r : Alerted × BarkAlerter). r.1.throttle ≡ a.throttle)
      (is_throttled a.throttle c.now (lookup (key_for c) a.last_sent)) _ _ (λ h. refl) (λ h. refl)

-- another key
lookup-send :
    (key : Text) (c : Call) (a : BarkAlerter)
    → text_beq (key_for c) key ≡ false
    → lookup key (send_call c a).1.last_sent ≡ lookup key a.last_sent
unfolding send
lookup-send key c a other =
    by_branch (λ (r : Alerted × BarkAlerter). lookup key r.1.last_sent ≡ lookup key a.last_sent)
      (is_throttled a.throttle c.now (lookup (key_for c) a.last_sent)) _ _ (λ h. refl)
      (λ h.
        lookup-insert (key_for c) key c.now a.last_sent
        ∙ ap (λ b. if b then some c.now else lookup key a.last_sent) other)

-- a request sets the time of its key
request-send :
    (c : Call) (a : BarkAlerter) (url : Text)
    → (send_call c a).0.request ≡ some url
    → lookup (key_for c) (send_call c a).1.last_sent ≡ some c.now
unfolding send
request-send c a url =
    by_branch
      (λ (r : Alerted × BarkAlerter).
        r.0.request ≡ some url → lookup (key_for c) r.1.last_sent ≡ some c.now)
      (is_throttled a.throttle c.now (lookup (key_for c) a.last_sent)) _ _ (λ h e. cc)
      (λ h e. ground (
        arith,
        lookup-insert (key_for c) (key_for c) c.now a.last_sent,
        text_beq_iff (key_for c) (key_for c),
      ))

is_throttled-some :
    (t now : ℕ) (a : BarkAlerter) (key k : Text)
    → k ≡ key
    → lookup key a.last_sent ≡ some t
    → now < t + a.throttle
    → is_throttled a.throttle now (lookup k a.last_sent) ≡ true
unfolding is_throttled
is_throttled-some t now a key k same e soon =
    ap (λ x. is_throttled a.throttle now (lookup x a.last_sent)) same
    ∙ ap (is_throttled a.throttle now) e
    ∙ lt→ltb now (t + a.throttle) soon

silent-AllSilent :
    (key : Text) (t : ℕ) (cs : List Call) (a : BarkAlerter)
    → lookup key a.last_sent ≡ some t
    → AllBefore key (t + a.throttle) cs
    → AllSilent key cs a
silent-AllSilent key t [] a e b = tt
silent-AllSilent key t (c ∷ cs) a e (soon, later) = elim (Bool-cases (text_beq (key_for c) key)) [
  | inl same ↦
      let k = (text_beq_iff (key_for c) key).0 same in
      let now_soon : c.now < t + a.throttle =
        subst (λ b. if b then c.now < t + a.throttle else Unit) same soon in
      let hit = throttled-send c a (is_throttled-some t c.now a key (key_for c) k e now_soon) in
      subst
        (λ (r : Alerted × BarkAlerter).
          (if text_beq (key_for c) key then r.0.request ≡ none else Unit) × AllSilent key cs r.1)
        (sym hit)
        (
          by_branch (λ (T : Type 0). T) (text_beq (key_for c) key) _ _ (λ h. refl) (λ h. tt),
          silent-AllSilent key t cs a e later,
        )
  | inr other ↦ (
    subst (λ b. if b then (send_call c a).0.request ≡ none else Unit) (sym other) tt,
    silent-AllSilent key t cs (send_call c a).1 (lookup-send key c a other ∙ e)
        (subst (λ n. AllBefore key (t + n) cs) (sym (throttle-send c a)) later),
  )
]

-- After a call that made a request, no call with the same level and title makes one before the
-- throttle has passed since, whatever other calls are made between and whatever came of the request.
pub send-AllSilent :
    (c : Call) (cs : List Call) (a : BarkAlerter) (url : Text)
    → (send_call c a).0.request ≡ some url
    → AllBefore (key_for c) (c.now + a.throttle) cs
    → AllSilent (key_for c) cs (send_call c a).1
send-AllSilent c cs a url made before =
    silent-AllSilent (key_for c) c.now cs (send_call c a).1 (request-send c a url made)
      (subst (λ n. AllBefore (key_for c) (c.now + n) cs) (sym (throttle-send c a)) before)
