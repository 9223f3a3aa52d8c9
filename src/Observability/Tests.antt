-- ===== src/Observability/Tests.antt =====
-- The theorem on the alerter at three calls.
use news_project.Prelude.{
  ℕ, ◌+◌, ◌≡◌, refl, some, List, [], ◌∷◌, arith, Text, codes, text_beq, gather,
}
use news_project.Prelude.Dict.{lookup}
use news_project.Push.Retry.{raised}
use news_project.Observability.Quote.{quote}
use news_project.Observability.Alert.{BarkAlerter, warn, send, key_of, alert_url}
use news_project.Observability.Alert.Throttled.{
  Call, send_call, key_for, AllBefore, AllSilent, send-AllSilent,
}

-- a slash, a new line and a Chinese character
quoted : quote (47 ∷ 10 ∷ 21407 ∷ 97 ∷ []) ≡ codes "%2F%0A%E5%8E%9Fa"
unfolding quote gather
quoted = refl

abbrev sample_alerter : BarkAlerter
sample_alerter = record { base = codes "https://bark"; throttle = 900; last_sent = [] }

abbrev sample_call : ℕ → Text → Call
sample_call now title = record {
  now = now;
  http = λ url. raised (codes "timeout");
  title = title;
  body = codes "x";
  level = warn;
}

abbrev first_call : Call
first_call = sample_call 100 (codes "cost")

abbrev later_calls : List Call
later_calls = sample_call 500 (codes "cost") ∷ sample_call 600 (codes "push") ∷ []

abbrev first_url : Text
first_url = alert_url (codes "https://bark") (codes "cost") (codes "x")

requested : (send_call first_call sample_alerter).0.request ≡ some first_url
unfolding send lookup
requested = refl

later_soon : AllBefore (key_for first_call) (100 + 900) later_calls
unfolding text_beq key_of
later_soon = (omega arith, (tt, tt))

send-AllSilent_example :
    AllSilent (key_for first_call) later_calls (send_call first_call sample_alerter).1
send-AllSilent_example =
    send-AllSilent first_call later_calls sample_alerter first_url requested later_soon
