-- ===== src/Lib.antt =====
-- News pipeline and quote watcher: a model of the logic of the program under `src/`, and theorems
-- on it.
--
-- The program watches news and quotes. Scraped articles are kept once (dedup) and wait as pending
-- rows. The processing job takes a batch of them: each is matched against a watchlist (rules
-- engine), enriched by an LLM within a daily budget (pipeline, extractors, cost tracker) or from
-- the rules alone, scored (importance classifier), stored, turned into a message and routed to the
-- channels of its markets (dispatch router). Critical news is pushed, unless a ticker has been
-- pushed too often of late (burst suppressor); a channel's call is retried (retry), one channel's
-- failure does not touch the others (dispatcher), and each result is logged, with an alert after
-- repeated failures (push log). Other news waits in the digest buffer for a digest of its market.
-- Quotes are ranked by the market scan and checked against alert rules, each of which alerts again
-- only after its cooldown (alert engine, state tracker).
--
--   Common: the enums and the data classes of `src/news_pipeline/common` and
--     `src/shared/common`; the coercions `safe_event_type` and the like of
--     `src/news_pipeline/common/enums.py`; sets of strings as sorted lists.
--   Rules/Patterns, Rules/Matcher, Rules/Engine: `src/news_pipeline/rules`. `rebuild`,
--     `find_all`, `rebuild_engine` and `match_article` are the methods of `AhoCorasickMatcher`
--     and `RulesEngine`; `compile_patterns`, `compile_sectors` and `compile_macros` are the
--     three results of `_compile`. Their children hold the proofs, and Rules/Watchlist the
--     statement on a whole watchlist.
--   Classifier: `src/news_pipeline/classifier`. `evaluate` and `score` of rules.py, `judge` of
--     llm_judge.py, `score_news` of importance.py.
--   Router: `route` of `src/news_pipeline/router/routes.py`.
--   Push: `src/shared/push`. `should_send` of common/burst.py on explicit buckets and clock,
--     `wrapper` of common/retry.py, `dispatch` of dispatcher.py; Push/Message the builder of
--     common/message_builder.py.
--   Llm/Cost: `src/news_pipeline/llm/cost_tracker.py`; a run is a list of uses and checks, each
--     with its day.
--   Llm/Tiers: `decide` of `src/news_pipeline/llm/router.py` and `pick_client_and_model` of
--     `src/news_pipeline/llm/client_selection.py`.
--   Llm/Client, Llm/Prompts: the request and response of
--     `src/news_pipeline/llm/clients/base.py`, and `render` of
--     `src/news_pipeline/llm/prompts/loader.py`.
--   Llm/Extractors, Llm/Pipeline: `src/news_pipeline/llm/extractors.py` (the tier-0 classifier,
--     the summariser, the deep extractor) and pipeline.py. A client is a function on a state of
--     its own, and the pipeline's world is that state with the cost tracker. Their children hold
--     the proofs: what the extractors accept, that nothing is called at the ceiling, and the
--     bound on what is spent.
--   Dedup: `check_and_register` of `src/news_pipeline/dedup/dedup.py`, and in Dedup/Raw
--     `RawNewsDAO` of `src/news_pipeline/storage/dao/raw_news.py` on the rows of its table.
--   Storage: the rows of processed news and of the push log with their DAOs of
--     `src/news_pipeline/storage/dao`, and the alert on a channel that keeps failing.
--   Scrape: `SourceStateDAO` of `src/news_pipeline/storage/dao/source_state.py` and
--     `scrape_one_source` of `src/news_pipeline/scheduler/jobs.py`; a fetch returns items or
--     raises one of three kinds of exception.
--   Pending: `process_pending` of `src/news_pipeline/scheduler/jobs.py`. Pending/Row is the body
--     of its loop, cut into one function per stage, each of which continues with the next;
--     Pending/Batch is the loop. The other children hold the proofs, by what they are about: the
--     statuses of one row and of a batch, what is published, how a batch is held up and when it
--     returns.
--   Digest: `DigestBufferDAO` of `src/news_pipeline/storage/dao/digest_buffer.py` and
--     `send_digest` of `src/news_pipeline/scheduler/jobs.py`.
--   Observability: the throttle of `src/shared/observability/alert.py` and the percent-encoding
--     of its address.
--   Config: the checks of the watchlist and of the quote watcher's files in
--     `src/news_pipeline/config/schema.py`.
--   Quotes: `src/quote_watcher`. Quotes/Rule is alerts/rule.py; Quotes/State the table of
--     storage/dao/alert_state.py as its rows and the tracker of state/tracker.py over a clock;
--     Quotes/Engine `evaluate_for_snapshot`, `evaluate_portfolio` and `_run_rules` of
--     alerts/engine.py. Quotes/Scan is alerts/scan_ranker.py, Quotes/Calendar feeds/calendar.py,
--     Quotes/Ring store/tick.py, Quotes/Indicator alerts/indicator.py, Quotes/Sector the sector
--     alerts of alerts/engine.py, Quotes/Emit and Quotes/ScanMessage the messages of emit,
--     Quotes/Jobs scheduler/jobs.py. Quotes/Context and Quotes/IndicatorContext are
--     alerts/context.py, whose contexts the engine's model takes as arguments.
--   Prelude: shared notation, lists, texts as lists of code points, dictionaries as association
--     lists, and a stable sort.
--
-- Numbers are unbounded, as Python's are. Scores are whole points and money is a whole number of
-- millionths, so their rounding is not modelled; the quote watcher's floats are a record of
-- operations and comparisons, a parameter, and a theorem names the laws of it that it uses. The
-- retry loop runs on fuel; one more than the attempt limit is enough. Every other loop is over a
-- list. Code outside the repository is a parameter: the Aho-Corasick automaton, about which the
-- theorems assume that it reports the occurrences of its words (a scanning automaton shows that
-- this can hold), the LLM clients, the channels' pushers, the asteval interpreter, the holidays of
-- `chinese_calendar`, the hour in a time zone, `isoformat` and `strftime`, the text of an
-- exception, the id of a new row, `str.lower`, `str.format`, and what pydantic's `HttpUrl` makes
-- of an address. A scraper's fetch, a feed's quotes and the text of a digest are arguments too.
--
-- Not modelled: the scrapers, the charts, the web hooks, the channels' pushers, the HTTP clients
-- of the LLMs and of the quote feeds, the database's sessions, the migrations, the scripts and the
-- processes that wire the parts, which are input and output; the plain records of the
-- configuration and its loader and reloader; the bars of the K-line cache; the commands; and the
-- tables of metrics, entities, relations, audit and dead letters.
pub mod Classifier
pub mod Common
pub mod Config
pub mod Dedup
pub mod Digest
pub mod Llm
pub mod Observability
pub mod Pending
pub mod Prelude
pub mod Push
pub mod Quotes
pub mod Router
pub mod Rules
pub mod Scrape
pub mod Storage
