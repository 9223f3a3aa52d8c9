-- ===== src/Observability/Alert.antt =====
-- src/shared/observability/alert.py: `BarkAlerter`. The clock is `time.monotonic` in whole seconds; what
-- the request does is an argument.
pub mod Throttled
use news_project.Prelude.{
  ℕ, ◌+◌, ◌≡◌, Bool, true, false, Option, none, some, List, [], ◌∷◌, ◌++◌, ltb, nat_beq, take,
  if◌then◌else◌, map, Text, codes, text_eq, strip,
}
use news_project.Prelude.Dict.{Dict, lookup, insert}
use news_project.Push.Retry.{Outcome, returned, raised}
use news_project.Observability.Quote.{quote}

pub data AlertLevel : Type 0 where
  info warn urgent : AlertLevel

-- `level.value`
unfoldable pub level_value : AlertLevel → Text
level_value info = codes "info"
level_value warn = codes "warn"
level_value urgent = codes "urgent"

pub record BarkAlerter : Type 0 where
  pub base : Text
  pub throttle : ℕ
  pub last_sent : Dict Text ℕ

-- f"{level}:{title}"
unfoldable pub key_of : AlertLevel → Text → Text
unfolding level_value
key_of level title = level_value level ++ (codes ":" ++ title)

-- `text.replace("\n", " ").strip()[:n]`, quoted
unfoldable pub safe : ℕ → Text → Text
unfolding strip quote
safe n text = quote (take n (strip (map (λ c. if nat_beq c 10 then 32 else c) text)))

-- the URL of the request
unfoldable pub alert_url : Text → Text → Text → Text
unfolding safe
alert_url base title body = base ++ (codes "/" ++ (safe 100 title ++ (codes "/" ++ safe 500 body)))

-- `(now - last) < self._throttle`
unfoldable pub is_throttled : ℕ → ℕ → Option ℕ → Bool
is_throttled throttle now none = false
is_throttled throttle now (some last) = ltb now (last + throttle)

-- the value by the response: its status, or an exception
unfoldable pub accepted : Outcome Text ℕ → Bool
accepted (raised e) = false
accepted (returned status) = nat_beq status 200

-- What a call of `send` does: its value, and the URL that it requests, if it does.
pub record Alerted : Type 0 where
  pub ok : Bool
  pub request : Option Text

-- `BarkAlerter.send`, with the time and what a request of a URL does
unfoldable pub send :
    ℕ → (Text → Outcome Text ℕ) → Text → Text → AlertLevel → BarkAlerter → Alerted × BarkAlerter
unfolding key_of alert_url is_throttled accepted
send now http title body level a =
    let key = key_of level title in
    let url = alert_url a.base title body in
    if is_throttled a.throttle now (lookup key a.last_sent)
    then (record { ok = false; request = none }, a)
    else (
      record { ok = accepted (http url); request = some url },
      record a { last_sent = insert key now a.last_sent },
    )
