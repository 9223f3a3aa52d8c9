-- ===== src/Digest/Tests.antt =====
-- The theorems on the digest at a buffer of two rows.
use news_project.Prelude.{ℕ, ◌+◌, ◌≡◌, none, List, [], ◌∷◌, map, gather, length, Text, codes, arith}
use news_project.Prelude.Dict.{Dict}
use news_project.Common.Enums.{us}
use news_project.Common.Contracts.{MessageKind, CommonMessage}
use news_project.Push.Retry.{raised}
use news_project.Push.Dispatcher.{Pusher}
use news_project.Digest.{DigestBuffer, found_item, list_pending, send_digest}
use news_project.Digest.Drained.{consumed, OneRowPerId, send_digest-rows, list_pending-send_digest}

abbrev row : ℕ → Text → DigestBuffer
row id key = record {
  id = id;
  news_id = id + 10;
  market = codes "us";
  scheduled_digest = key;
  added_at = 5;
  consumed_at = none;
}

abbrev morning : Text
morning = codes "morning_us"

abbrev two_rows : List DigestBuffer
two_rows = row 1 morning ∷ row 2 (codes "evening_us") ∷ []

two_rows-OneRowPerId : OneRowPerId two_rows
two_rows-OneRowPerId a b i j e = ground arith

abbrev sample_procs : Dict ℕ Text
sample_procs = (11, codes "Summary") ∷ []

abbrev sample_build : List Text → CommonMessage
sample_build items = record {
  title = codes "Digest";
  summary = codes "";
  source_label = codes "digest";
  source_url = codes "https://example.com";
  badges = [];
  chart_url = none;
  chart_image = none;
  deeplinks = [];
  market = us;
  digest_items = [];
  kind = MessageKind.news;
}

-- its only channel fails
abbrev sample_registry : Dict Text Pusher
sample_registry = (codes "feishu_us", λ msg. raised (codes "timeout")) ∷ []

send_digest-rows_example :
    let result =
      send_digest sample_procs sample_build sample_registry
        (codes "feishu_us" ∷ [])
        9
        morning
        two_rows in
    (result.1 ≡ map (consumed 9 morning) two_rows)
    × (result.0.count ≡ length (gather (found_item sample_procs) (list_pending morning two_rows)))
send_digest-rows_example =
    send_digest-rows 9 morning two_rows sample_procs sample_build sample_registry
      (codes "feishu_us" ∷ []) two_rows-OneRowPerId

list_pending-send_digest_example :
    let after =
      (send_digest sample_procs sample_build sample_registry
        (codes "feishu_us" ∷ [])
        9
        morning
        two_rows).1 in
    (list_pending morning after ≡ [])
    × (send_digest sample_procs sample_build sample_registry
          (codes "feishu_us" ∷ [])
          12
          morning
          after
        ≡ (record { count = 0; sent = none }, after))
list_pending-send_digest_example =
    list_pending-send_digest 9 12 morning two_rows sample_procs sample_build sample_registry
      (codes "feishu_us" ∷ []) two_rows-OneRowPerId
