-- ===== src/Pending/Tests.antt =====
-- The theorems on the processing job in the rules-only mode, at a table of three rows.
use news_project.Prelude.{
  ℕ, ◌+◌, ◌≤◌, ◌≡◌, refl, Bool, true, false, none, some, [], ◌∷◌, List, map, length, elem, Text,
  codes, inl, In, text_beq, nat_eq, text_eq, keep, leb,
}
use news_project.Prelude.{any, gather, starts_with, Option, if◌then◌else◌}
use news_project.Prelude.Dict.{lookup}
use news_project.Prelude.Sorting.{sort_by}
use news_project.Classifier.Rules.{score, evaluate}
use news_project.Classifier.Importance.{score_news, add_verdict}
use news_project.Storage.Processed.{insert_processed}
use news_project.Digest.{enqueue}
use news_project.Router.{target_markets}
use news_project.Common.Enums.{us}
use news_project.Common.Contracts.{RawArticle, EnrichedNews, ScoredNews, CommonMessage}
use news_project.Push.Message.{build_from_rules, deeplinks_of}
use news_project.Rules.Patterns.{RulesVerdict, no_match, digest}
use news_project.Classifier.Importance.{ImportanceClassifier, raise, client_failed}
use news_project.Push.Retry.{returned, raised}
use news_project.Llm.Extractors.{Extractor}
use news_project.Router.{route}
use news_project.Dedup.Raw.{RawNews, list_pending, get_row}
use news_project.Pending.{
  Settings, JobState, not_scored, market_of, raw_to_article, is_refused, synth_enriched_from_rules,
}
use news_project.Pending.Row.{process_row, publish, markets_of}
use news_project.Pending.Batch.{process_pending}
use news_project.Pending.Marks.{IsDone}
use news_project.Pending.Drained.{process_pending-IsDone}
use news_project.Pending.Published.{Published, publish-Published}
use news_project.Pending.Stuck.{process_pending-not_scored}
use news_project.Prelude.{suc, arith, ◌≤◌}
use news_project.Storage.Processed.{NewsProcessed}
use news_project.Pending.Ready.{IsFresh, AllReady}
use news_project.Pending.Returns.{process_pending-Returns}

abbrev raw_row : ℕ → Text → Text → RawNews
raw_row id title status = record {
  id = id;
  source = codes "finnhub";
  market = codes "us";
  url = codes "https://example.com";
  url_hash = title;
  title = title;
  title_simhash = 0;
  body = none;
  raw_meta = [];
  fetched_at = 100;
  published_at = id;
  status = status;
  error = none;
}

abbrev about_nvda : RulesVerdict
about_nvda = record {
  matched = true;
  tickers = codes "NVDA" ∷ [];
  related_tickers = [];
  sectors = [];
  macros = [];
  generic_hits = [];
  markets = codes "us" ∷ [];
  score_boost = 50;
}

-- an item is about NVDA unless its title is short
abbrev sample_match : RawArticle → RulesVerdict
sample_match art = elim (leb 5 (length art.title)) [ true ↦ about_nvda | false ↦ no_match ]

-- every score is in the gray zone; the judge, if it is asked, fails
abbrev sample_classifier : Bool → ImportanceClassifier
sample_classifier llm_enabled = record {
  rules = record { sources_always_critical = []; sentiment_high_magnitude_critical = true };
  client = λ e watchlist. raise client_failed;
  lo = 40;
  hi = 70;
  watchlist_tickers = [];
  gray_zone_action = digest;
  llm_enabled = llm_enabled;
}

abbrev unused_extractor : Extractor ℕ
unused_extractor = record {
  client = λ req s. (raised (codes "timeout"), s);
  prompt = record {
    name = [];
    version = 1;
    model_target = [];
    description = [];
    cache_segments = [];
    system = [];
    output_schema_inline = none;
    user_template = [];
    few_shot_examples = [];
  };
  model_override = none;
  format = λ template vars. returned template;
}

-- an address of https is taken as it is
abbrev https_only : Text → Option Text
https_only url = if starts_with (codes "https://") url then some url else none

abbrev sample_settings : Bool → Settings ℕ
sample_settings judged = record {
  rules_match = some sample_match;
  llm_enabled = false;
  llm = record {
    classifier = unused_extractor;
    t1 = unused_extractor;
    t2 = unused_extractor;
    router_first_party = [];
    watchlist_us = [];
    watchlist_cn = [];
    first_party_sources = [];
  };
  importance = sample_classifier judged;
  source_labels = [];
  by_market = (codes "us", codes "feishu_us" ∷ []) ∷ [];
  registry = [];
  lower = λ s. s;
  http_url = https_only;
  isoformat = λ t. [];
  error_text = λ e. codes "error";
  clock =
      λ row. record { day = codes "2026-04-25"; now = 500; monotonic = 500; local_hour = λ m. 9 };
  processed_id = length;
  digest_id = length;
}

abbrev sample_state : JobState ℕ
sample_state = record {
  raw =
      raw_row 1 (codes "Nvidia leads") (codes "pending")
      ∷ raw_row 2 (codes "None") (codes "pending")
      ∷ raw_row 3 (codes "Nvidia again") (codes "processed")
      ∷ [];
  processed = [];
  push_log = [];
  digest = [];
  burst = record { window = 300; threshold = 3; buckets = [] };
  world = record {
    cost = record {
      ceiling = 1000;
      pricing = [];
      daily_total = [];
      has_bark = false;
      warn_num = 4;
      warn_den = 5;
      warned_today = [];
    };
    alerts = [];
    backend = 0;
  };
}

abbrev after : JobState ℕ
after = (process_pending (sample_settings false) 25 sample_state).1

one_processed : process_pending (sample_settings false) 25 sample_state ≡ (returned 1, after)
unfolding process_pending list_pending keep text_beq score_news add_verdict score evaluate elem any
    synth_enriched_from_rules insert_processed route gather target_markets lookup enqueue
    starts_with build_from_rules
one_processed = refl

abbrev first_row : RawNews
first_row = raw_row 1 (codes "Nvidia leads") (codes "pending")

first_listed : In first_row (list_pending 25 sample_state.raw)
unfolding list_pending keep text_beq sort_by
first_listed = inl refl

third_not_listed : elem 3 (map (λ (r : RawNews). r.id) (list_pending 25 sample_state.raw)) ≡ false
unfolding list_pending keep text_beq sort_by elem any
third_not_listed = refl

process_pending-IsDone_example :
    IsDone 1 after.raw
    × (get_row 3 after.raw ≡ get_row 3 sample_state.raw)
    × (length after.processed ≡ length sample_state.processed + 1)
    × (1 ≤ 25)
process_pending-IsDone_example =
    process_pending-IsDone (sample_settings false) 25 1 sample_state after first_row 3 one_processed
      first_listed third_not_listed

abbrev stuck : JobState ℕ
stuck = (process_row (sample_settings true) first_row sample_state).1

abbrev waiting : List RawNews
waiting = first_row ∷ raw_row 2 (codes "None") (codes "pending") ∷ []

two_listed : list_pending 25 sample_state.raw ≡ waiting
unfolding list_pending keep text_beq sort_by
two_listed = refl

first_raises :
    process_row (sample_settings true) first_row sample_state
    ≡ (raised (not_scored client_failed), stuck)
unfolding process_row list_pending keep text_beq score_news add_verdict score evaluate elem any
    synth_enriched_from_rules insert_processed route gather target_markets lookup enqueue
    starts_with
first_raises = refl

process_pending-not_scored_example :
    (process_pending (sample_settings true) 25 sample_state
      ≡ (raised (not_scored client_failed), stuck))
    × (stuck.raw ≡ sample_state.raw)
    × (list_pending 25 stuck.raw ≡ waiting)
process_pending-not_scored_example =
    process_pending-not_scored (sample_settings true) 25 sample_state stuck first_row
      (raw_row 2 (codes "None") (codes "pending") ∷ []) client_failed two_listed first_raises

abbrev sample_article : RawArticle
sample_article = record {
  source = codes "finnhub";
  market = us;
  fetched_at = 100;
  published_at = 1;
  url = codes "https://example.com";
  url_hash = codes "Nvidia leads";
  title = codes "Nvidia leads";
  title_simhash = 0;
  body = none;
  raw_meta = [];
}

abbrev sample_news : EnrichedNews
sample_news = synth_enriched_from_rules 500 sample_article about_nvda 1

abbrev sample_scored : ScoredNews
sample_scored = record {
  enriched = sample_news;
  score = 50;
  is_critical = false;
  rule_hits = [];
  llm_reason = none;
}

abbrev sample_message : CommonMessage
sample_message = build_from_rules [] sample_article sample_scored about_nvda none

publish-Published_example :
    Published
      (sample_settings false)
      first_row
      7
      us
      sample_news.related_tickers
      sample_state
      false
      (route
        (sample_settings false).by_market
        sample_scored
        sample_message
        (some (codes "us" ∷ [])))
      (publish
        (sample_settings false)
        first_row
        7
        sample_article
        sample_news
        sample_scored
        (some about_nvda)
        (returned sample_message)
        sample_state)
unfolding markets_of
publish-Published_example =
    publish-Published (sample_settings false) first_row 7 sample_article sample_news sample_scored
      (some about_nvda) sample_message sample_state

-- more than every id
abbrev next_id : List NewsProcessed → ℕ
next_id [] = 1
next_id (r ∷ rows) = suc (r.id + next_id rows)

elem-next_id :
    (rows : List NewsProcessed) (x : ℕ)
    → next_id rows ≤ x
    → elem x (map (λ (r : NewsProcessed). r.id) rows) ≡ false
unfolding elem any
elem-next_id [] x h = refl
elem-next_id (r ∷ rows) x h =
    ground (arith, elem-next_id rows x (omega (arith, h)), nat_eq.same_iff x r.id)

next_id-IsFresh : IsFresh next_id
next_id-IsFresh rows = elem-next_id rows (next_id rows) (omega arith)

abbrev fresh_settings : Settings ℕ
fresh_settings = record (sample_settings false) { processed_id = next_id }

both_ready :
    AllReady https_only sample_match (list_pending 25 sample_state.raw) sample_state.processed
unfolding list_pending keep text_beq sort_by elem any market_of raw_to_article starts_with
    is_refused deeplinks_of
both_ready = ((us, _, refl, refl, refl), refl, refl, ((us, _, refl, refl, refl), refl, refl, tt))

process_pending-Returns_example :
    (n : ℕ) × (st' : JobState ℕ) × (process_pending fresh_settings 25 sample_state
      ≡ (returned n, st'))
process_pending-Returns_example =
    process_pending-Returns fresh_settings sample_match 25 sample_state refl refl refl
      next_id-IsFresh tt both_ready
