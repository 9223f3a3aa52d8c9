-- ===== src/Rules/Engine.antt =====
-- rules/engine.py. `lower` is `str.lower`; a set of strings is a list without repetitions.
pub mod Verdicts
pub mod Compiled
pub mod Shape
pub mod Indexes
use news_project.Prelude.{
  ℕ, ◌+◌, ◌≡◌, Bool, true, false, Option, none, some, List, [], ◌∷◌, ◌++◌, map, leb, not,
  if◌then◌else◌, is_empty, gather, keep, elem, Text, codes, is_ascii, text_eq,
}
use news_project.Prelude.Dict.{Dict, lookup, insert}
use news_project.Common.Enums.{Market, us, cn, market_value}
use news_project.Common.Ordered.{add, update, sorted}
use news_project.Rules.Patterns.{
  PatternKind, Pattern, Match, RulesVerdict, no_match, TickerEntry, RulesSection, keywords_of,
  entries_of,
}
use news_project.Rules.Matcher.{AhoCorasick, rebuild, find_all}

-- An index from a lower-case keyword to tickers.
abbrev pub Index : Type 0
Index = Dict Text (List Text)

-- `index.get(key, [])`, and the set that `index.setdefault(key, set())` gives
unfoldable pub indexed : Index → Text → List Text
indexed index key = elim (lookup key index) [ none ↦ [] | some owners ↦ owners ]

module _ (lower : Text → Text) where
  unfoldable pub pattern_of : PatternKind → Market → Text → Text → Pattern
  pattern_of kind market owner text = record {
    text = lower text;
    is_english = is_ascii text;
    kind = kind;
    market = market;
    owner = owner;
  }

  unfoldable pub entry_patterns : Market → TickerEntry → List Pattern
  unfolding pattern_of
  entry_patterns market entry =
      pattern_of PatternKind.ticker market entry.ticker entry.ticker
      ∷ pattern_of PatternKind.alias market entry.ticker entry.name
      ∷ map (pattern_of PatternKind.alias market entry.ticker) entry.aliases

  unfoldable pub keyword_patterns : PatternKind → Market → List Text → List Pattern
  unfolding pattern_of
  keyword_patterns kind market = map (λ kw. pattern_of kind market kw kw)

  unfoldable pub market_patterns : RulesSection → Market → List Pattern
  unfolding entry_patterns keyword_patterns entries_of keywords_of
  market_patterns rules market =
      gather (entry_patterns market) (entries_of market rules)
      ++ (keyword_patterns PatternKind.sector market (keywords_of market rules.sector_keywords)
          ++ (keyword_patterns PatternKind.macro market (keywords_of market rules.macro_keywords)
              ++ keyword_patterns PatternKind.generic market
                  (keywords_of market rules.keyword_list)))

  -- the first result of `_compile`
  unfoldable pub compile_patterns : RulesSection → List Pattern
  unfolding market_patterns
  compile_patterns rules = market_patterns rules us ++ market_patterns rules cn

  -- `index.setdefault(kw.lower(), set()).add(owner)` for each keyword
  unfoldable pub index_keywords : Text → List Text → Index → Index
  unfolding add indexed
  index_keywords owner [] index = index
  index_keywords owner (kw ∷ kws) index =
      let owners = add owner (indexed index (lower kw)) in
      index_keywords owner kws (insert (lower kw) owners index)

  unfoldable pub index_entries : (TickerEntry → List Text) → List TickerEntry → Index → Index
  unfolding index_keywords
  index_entries keywords [] index = index
  index_entries keywords (entry ∷ entries) index =
      index_entries keywords entries (index_keywords entry.ticker (keywords entry) index)

  -- the second and the third result of `_compile`
  unfoldable pub compile_sectors : RulesSection → Index
  unfolding index_entries
  compile_sectors rules =
      index_entries (λ e. e.sectors) rules.cn (index_entries (λ e. e.sectors) rules.us [])

  unfoldable pub compile_macros : RulesSection → Index
  unfolding index_entries
  compile_macros rules =
      index_entries (λ e. e.macro_links) rules.cn (index_entries (λ e. e.macro_links) rules.us [])

-- `_compute_boost`
unfoldable pub compute_boost : List Text → List Text → List Text → ℕ
compute_boost tickers sectors macros =
    let boost =
      (if is_empty tickers then 0 else 50)
      + (if is_empty sectors then 0 else 20)
      + (if is_empty macros then 0 else 15) in
    if leb boost 100 then boost else 100

-- The sets that the loop of `match` fills.
pub record Hits : Type 0 where
  pub tickers : List Text
  pub sectors : List Text
  pub macros : List Text
  pub generics : List Text
  pub markets : List Text
  pub related : List Text

abbrev pub no_hits : Hits
no_hits = record {
  tickers = [];
  sectors = [];
  macros = [];
  generics = [];
  markets = [];
  related = [];
}

-- the branches of the loop body on `p.kind`
unfoldable pub collect_kind : Index → Index → PatternKind → Pattern → Hits → Hits
collect_kind sec mac PatternKind.ticker p h = record h { tickers = add p.owner h.tickers }
collect_kind sec mac PatternKind.alias p h = record h { tickers = add p.owner h.tickers }
collect_kind sec mac PatternKind.sector p h = record h {
  sectors = add p.text h.sectors;
  related = update h.related (indexed sec p.text);
}
collect_kind sec mac PatternKind.macro p h = record h {
  macros = add p.text h.macros;
  related = update h.related (indexed mac p.text);
}
collect_kind sec mac PatternKind.generic p h = record h { generics = h.generics ++ p.text ∷ [] }

unfoldable pub collect : Index → Index → Hits → List Match → Hits
unfolding collect_kind indexed
collect sec mac h [] = h
collect sec mac h (m ∷ ms) =
    let p = m.pattern in
    collect sec mac
      (collect_kind sec mac p.kind p (record h { markets = add (market_value p.market) h.markets }))
      ms

-- `RulesVerdict(matched=True, ...)` of the sets
unfoldable pub verdict_of : Hits → RulesVerdict
unfolding compute_boost
verdict_of h = record {
  matched = true;
  tickers = sorted h.tickers;
  related_tickers = sorted (keep (λ t. not (elem t h.tickers)) h.related);
  sectors = sorted h.sectors;
  macros = sorted h.macros;
  generic_hits = h.generics;
  markets = sorted h.markets;
  score_boost = compute_boost h.tickers h.sectors h.macros;
}

unfoldable pub verdict_for : Index → Index → List Match → RulesVerdict
unfolding collect verdict_of
verdict_for sec mac [] = no_match
verdict_for sec mac (m ∷ ms) = verdict_of (collect sec mac no_hits (m ∷ ms))

-- `RulesEngine`: the matcher's automaton and the two reverse indexes
pub record RulesEngine (ac : AhoCorasick) : Type 0 where
  pub auto : ac.Automaton
  pub sector_to_tickers : Index
  pub macro_to_tickers : Index

-- f"{art.title}  {art.body or ''}"
unfoldable pub article_text : Text → Option Text → Text
article_text title body = title ++ (codes "  " ++ elim body [ none ↦ [] | some text ↦ text ])

module _ (ac : AhoCorasick) (lower : Text → Text) where
  -- `RulesEngine.rebuild`, and `__init__`, which only calls it
  unfoldable pub rebuild_engine : RulesSection → RulesEngine ac
  rebuild_engine rules = record {
    auto = rebuild ac (compile_patterns lower rules);
    sector_to_tickers = compile_sectors lower rules;
    macro_to_tickers = compile_macros lower rules;
  }

  -- `RulesEngine.match`
  unfoldable pub match_article : RulesEngine ac → Text → Option Text → RulesVerdict
  unfolding article_text verdict_for
  match_article engine title body =
      verdict_for engine.sector_to_tickers engine.macro_to_tickers
        (find_all ac lower (some engine.auto) (article_text title body))
