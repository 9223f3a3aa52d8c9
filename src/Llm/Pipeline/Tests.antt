-- ===== src/Llm/Pipeline/Tests.antt =====
-- The theorems on the pipeline at a client that counts its calls.
use news_project.Prelude.{
  ℕ, suc, ◌≤◌, refl, true, none, some, Option, [], ◌∷◌, List, Text, codes, arith, text_beq,
}
use news_project.Prelude.Dict.{lookup}
use news_project.Common.Enums.{us}
use news_project.Common.Contracts.{RawArticle}
use news_project.Rules.Patterns.{RulesVerdict, no_match}
use news_project.Push.Retry.{returned}
use news_project.Llm.Cost.{CostTracker, today_cost, total_of, or_zero, cost_at}
use news_project.Llm.Client.{LlmClient, Payload}
use news_project.Llm.Prompts.{PromptFile}
use news_project.Llm.Extractors.{World, Extractor}
use news_project.Llm.Pipeline.{LlmPipeline, process, process_with_rules}
use news_project.Llm.Pipeline.Gate.{
  ConsistentIfAny, IsRefused, process-ConsistentIfAny, process-IsRefused,
}
use news_project.Llm.Pipeline.Budget.{IsBelow, AllCheap, calls, calls-IsBelow}

abbrev today : Text
today = codes "2026-04-25"

abbrev sample_tracker : ℕ → CostTracker
sample_tracker spent = record {
  ceiling = 1000;
  pricing = (codes "qwen", record { input_per_m = 2; output_per_m = 3 }) ∷ [];
  daily_total = (today, spent) ∷ [];
  has_bark = true;
  warn_num = 4;
  warn_den = 5;
  warned_today = [];
}

abbrev sample_payload : Payload
sample_payload = record {
  relevant = some true;
  tier_hint = some (codes "tier2");
  watchlist_hit = none;
  reason = none;
  summary = some (codes "Summary");
  related_tickers = none;
  sectors = none;
  event_type = some (codes "earnings");
  sentiment = none;
  magnitude = none;
  confidence = some 900;
  key_quotes = none;
  entities = some (
      record {
        type = none;
        name = some (codes "NVDA");
        ticker = none;
        market = none;
        aliases = none;
      }
      ∷ []);
  relations = some (
      record {
        subject_name = some (codes "NVDA");
        predicate = none;
        object_name = some (codes "AMD");
        confidence = none;
      }
      ∷ []);
}

-- each answer uses 100 tokens, 250 millionths
abbrev counting : LlmClient ℕ
counting req n = (
  returned (record {
    text = [];
    json_payload = some sample_payload;
    usage = record { input_tokens = 50; output_tokens = 50 };
    model = codes "qwen";
  }),
  suc n,
)

abbrev sample_prompt : PromptFile
sample_prompt = record {
  name = codes "tier";
  version = 1;
  model_target = codes "qwen";
  description = [];
  cache_segments = [];
  system = codes "System";
  output_schema_inline = none;
  user_template = codes "{title}";
  few_shot_examples = [];
}

abbrev sample_extractor : Extractor ℕ
sample_extractor = record {
  client = counting;
  prompt = sample_prompt;
  model_override = none;
  format = λ template vars. returned template;
}

abbrev sample_pipeline : LlmPipeline ℕ
sample_pipeline = record {
  classifier = sample_extractor;
  t1 = sample_extractor;
  t2 = sample_extractor;
  router_first_party = [];
  watchlist_us = codes "NVDA" ∷ [];
  watchlist_cn = [];
  first_party_sources = [];
}

abbrev sample_article : RawArticle
sample_article = record {
  source = codes "finnhub";
  market = us;
  fetched_at = 100;
  published_at = 90;
  url = codes "https://example.com/a";
  url_hash = codes "a";
  title = codes "Title";
  title_simhash = 0;
  body = none;
  raw_meta = [];
}

abbrev world : ℕ → World ℕ
world spent = record { cost = sample_tracker spent; alerts = []; backend = 0 }

abbrev same : Text → Text
same s = s

abbrev no_time : ℕ → Text
no_time t = codes "1970-01-01"

process-ConsistentIfAny_example :
    ConsistentIfAny (process same no_time today 100 sample_pipeline sample_article 1 (world 0)).0
    × ConsistentIfAny
        (process_with_rules same no_time today 100 sample_pipeline sample_article no_match 1
          (world 0)).0
process-ConsistentIfAny_example =
    process-ConsistentIfAny same no_time today 100 sample_pipeline sample_article 1 no_match
      (world 0)

reached : 1000 ≤ today_cost today (sample_tracker 1000)
unfolding today_cost total_of or_zero lookup text_beq
reached = omega arith

process-IsRefused_example :
    IsRefused same no_time today 100 sample_pipeline sample_article 1
      (world 1000)
      (process same no_time today 100 sample_pipeline sample_article 1 (world 1000))
    × IsRefused same no_time today 100 sample_pipeline sample_article 1 (world 1000) (
        process_with_rules same no_time today 100 sample_pipeline sample_article no_match 1
          (world 1000))
process-IsRefused_example =
    process-IsRefused same no_time today 100 sample_pipeline sample_article 1 no_match (world 1000)
      reached

sample_cheap : AllCheap (sample_tracker 0).pricing 250 sample_pipeline
unfolding cost_at lookup text_beq
sample_cheap = ((λ req s. omega arith), (λ req s. omega arith), (λ req s. omega arith))

abbrev sample_calls : List (RawArticle × Option RulesVerdict × ℕ)
sample_calls =
    (sample_article, none, 1) ∷ (sample_article, some no_match, 2) ∷ (sample_article, none, 3) ∷ []

within_budget : IsBelow today (sample_tracker 0).pricing 1000 1500 (sample_tracker 900)
unfolding today_cost total_of or_zero lookup text_beq
within_budget = (refl, refl, omega arith)

calls-IsBelow_example :
    IsBelow today
      (sample_tracker 0).pricing
      1000
      1500
      (calls same no_time today 100 sample_pipeline sample_calls (world 900)).cost
calls-IsBelow_example =
    calls-IsBelow today (sample_tracker 0).pricing 1000 250 same no_time 100 sample_pipeline
      sample_cheap sample_calls (world 900) within_budget
