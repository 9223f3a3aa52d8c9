-- ===== src/Push/Tests.antt =====
-- The theorems on the push layer at small inputs.
use news_project.Prelude.{
  ℕ, ◌≡◌, ◌≤◌, ◌<◌, ◌↔◌, true, none, some, [], ◌∷◌, Text, codes, text_eq, text_beq, ◌+◌, any,
  length, In, elem, leb, arith, if◌then◌else◌, nat_beq,
}
use news_project.Prelude.Dict.{Dict, lookup}
use news_project.Common.Enums.{us}
use news_project.Common.Contracts.{MessageKind, CommonMessage}
use news_project.Push.Burst.{BurstSuppressor, bucket, should_send}
use news_project.Push.Burst.Limit.{IsValid, recent, should_send_iff, should_send-IsValid}
use news_project.Push.Burst.Rate.{Calls, sent_times, Schedule, new_suppressor, sent_times-limited}
use news_project.Push.Retry.{Outcome, returned, raised, Policy, wrapper, Run, wrapper_ends}
use news_project.Push.Dispatcher.{Pusher, dispatch, answer, lookup-dispatch}

abbrev busy : BurstSuppressor
busy = record { window = 300; threshold = 2; buckets = (codes "NVDA", 10 ∷ 350 ∷ []) ∷ [] }

-- a bucket of `busy`
bucket-busy :
    (t : Text) → bucket t busy.buckets ≡ (if text_beq (codes "NVDA") t then 10 ∷ 350 ∷ [] else [])
unfolding bucket lookup
bucket-busy t = ground arith

busy-IsValid : IsValid 400 busy
busy-IsValid = record {
  ordered = λ t. rw (bucket-busy t) (ground arith);
  past = λ t. rw (bucket-busy t) (ground arith);
  limited = λ t. rw (bucket-busy t) (ground arith);
}

should_send_iff_example : (should_send 400 (codes "NVDA" ∷ []) busy).0 ≡ true ↔ (
    (t : Text)
    → In t (codes "NVDA" ∷ [])
    → length (recent busy.window 400 (bucket t busy.buckets)) < busy.threshold)
should_send_iff_example = should_send_iff 400 (codes "NVDA" ∷ []) busy busy-IsValid

should_send-IsValid_example : IsValid 400 (should_send 400 (codes "NVDA" ∷ []) busy).1
unfolding elem any
should_send-IsValid_example =
    should_send-IsValid 400 (codes "NVDA" ∷ []) busy (ground arith) busy-IsValid

abbrev three_calls : Calls
three_calls =
    (10, codes "NVDA" ∷ []) ∷ (20, codes "NVDA" ∷ codes "AMD" ∷ []) ∷ (30, codes "NVDA" ∷ []) ∷ []

three_calls-Schedule : Schedule 0 three_calls
unfolding elem any text_beq
three_calls-Schedule = ground arith

sent_times-limited_example :
    length (recent 300 100 (sent_times (codes "NVDA") [] three_calls (new_suppressor 300 2)).0) ≤ 2
sent_times-limited_example =
    sent_times-limited (codes "NVDA") 300 2 0 100 three_calls three_calls-Schedule (ground arith)

-- retries every exception but 9
abbrev sample_policy : Policy ℕ
sample_policy = record {
  max_attempts = 3;
  backoff = 5;
  retry_on = λ e. true;
  exclude_on = λ e. nat_beq e 9;
}

-- fails twice, then returns
abbrev flaky : ℕ → Outcome ℕ Text × ℕ
flaky n = (if leb 2 n then returned (codes "sent") else raised 1, n + 1)

wrapper_ends_example : Run sample_policy flaky 0 0 (wrapper sample_policy flaky 4 0 0)
wrapper_ends_example = wrapper_ends sample_policy flaky 0

abbrev sample_message : CommonMessage
sample_message = record {
  title = codes "Title";
  summary = codes "Summary";
  source_label = codes "finnhub";
  source_url = codes "https://example.com";
  badges = [];
  chart_url = none;
  chart_image = none;
  deeplinks = [];
  market = us;
  digest_items = [];
  kind = MessageKind.news;
}

abbrev sample_registry : Dict Text Pusher
sample_registry =
    (codes "broken", λ msg. raised (codes "timeout"))
    ∷ (
      codes "feishu_us",
      λ msg.
          returned
            (record { ok = true; http_status = some 200; response_body = codes "ok"; retries = 0 }),
    )
    ∷ []

lookup-dispatch_example :
    lookup
      (codes "feishu_us")
      (dispatch sample_registry sample_message (codes "broken" ∷ codes "feishu_us" ∷ []))
    ≡ (if elem (codes "feishu_us") (codes "broken" ∷ codes "feishu_us" ∷ [])
        then answer sample_registry sample_message (codes "feishu_us")
        else none)
lookup-dispatch_example =
    lookup-dispatch sample_registry sample_message (codes "broken" ∷ codes "feishu_us" ∷ [])
      (codes "feishu_us")
