-- ===== src/Rules/Engine/Compiled.antt =====
-- What `_compile` of rules/engine.py makes of the watch list.
use news_project.Prelude.{
  ◌≡◌, ◌⊎◌, inl, inr, refl, List, [], ◌∷◌, ◌++◌, arith, gather, In, In-append, In-append_left,
  In-append_right, In-map, map-In, In-gather, gather-In, Text, text_eq,
}
use news_project.Common.Enums.{Market, us, cn}
use news_project.Rules.Patterns.{
  PatternKind, Pattern, TickerEntry, RulesSection, keywords_of, entries_of,
}
use news_project.Rules.Engine.{
  pattern_of, entry_patterns, keyword_patterns, market_patterns, compile_patterns,
}

-- The words that name an entry's ticker.
abbrev pub names_of : TickerEntry → List Text
names_of entry = entry.ticker ∷ entry.name ∷ entry.aliases

abbrev pub IsName : PatternKind → Type 0
IsName k = (k ≡ PatternKind.ticker) ⊎ (k ≡ PatternKind.alias)

module _ (lower : Text → Text) where
  -- a name's pattern is there, as `ticker` or as `alias`
  pub entry_patterns_complete :
      (market : Market) (entry : TickerEntry) (word : Text)
      → In word (names_of entry)
      → (kind : PatternKind) × IsName kind
        × In (pattern_of lower kind market entry.ticker word) (entry_patterns lower market entry)
  unfolding entry_patterns
  entry_patterns_complete market entry word (inl e) =
      (PatternKind.ticker, inl refl, inl (ground arith))
  entry_patterns_complete market entry word (inr (inl e)) =
      (PatternKind.alias, inr refl, inr (inl (ground arith)))
  entry_patterns_complete market entry word (inr (inr m)) = (
    PatternKind.alias,
    inr refl,
    inr (
        inr (map-In (pattern_of lower PatternKind.alias market entry.ticker) word entry.aliases m)),
  )

  pub entry_patterns_sound :
      (market : Market) (entry : TickerEntry) (p : Pattern)
      → In p (entry_patterns lower market entry)
      → (kind : PatternKind) × (word : Text) × IsName kind
        × In word (names_of entry)
        × (p ≡ pattern_of lower kind market entry.ticker word)
  unfolding entry_patterns
  entry_patterns_sound market entry p (inl e) =
      (PatternKind.ticker, entry.ticker, inl refl, inl refl, e)
  entry_patterns_sound market entry p (inr (inl e)) =
      (PatternKind.alias, entry.name, inr refl, inr (inl refl), e)
  entry_patterns_sound market entry p (inr (inr m)) =
      let (word, i, e) =
        In-map (pattern_of lower PatternKind.alias market entry.ticker) p entry.aliases m in
      (PatternKind.alias, word, inr refl, inr (inr i), e)

  -- the three kinds of keyword lists
  abbrev pub keyword_list_of : PatternKind → RulesSection → Market → List Text
  keyword_list_of PatternKind.sector r market = keywords_of market r.sector_keywords
  keyword_list_of PatternKind.macro r market = keywords_of market r.macro_keywords
  keyword_list_of PatternKind.generic r market = keywords_of market r.keyword_list
  keyword_list_of _ r market = []

  -- `p` comes from the market's part of the watch list.
  pub data FromMarket (rules : RulesSection) (market : Market) (p : Pattern) : Type 0 where
    from_name :
        (entry : TickerEntry) (kind : PatternKind) (word : Text)
        → In entry (entries_of market rules)
        → IsName kind
        → In word (names_of entry)
        → p ≡ pattern_of lower kind market entry.ticker word
        → FromMarket rules market p
    from_keyword :
        (kind : PatternKind) (word : Text)
        → In word (keyword_list_of kind rules market)
        → p ≡ pattern_of lower kind market word word
        → FromMarket rules market p

  keyword_patterns_sound :
      (rules : RulesSection) (market : Market) (kind : PatternKind) (p : Pattern)
      → In p (keyword_patterns lower kind market (keyword_list_of kind rules market))
      → FromMarket rules market p
  unfolding keyword_patterns
  keyword_patterns_sound rules market kind p i =
      let (word, m, e) =
        In-map (λ kw. pattern_of lower kind market kw kw) p (keyword_list_of kind rules market) i in
      from_keyword kind word m e

  market_patterns_sound :
      (rules : RulesSection) (market : Market) (p : Pattern)
      → In p (market_patterns lower rules market)
      → FromMarket rules market p
  unfolding market_patterns
  market_patterns_sound rules market p i =
      elim (In-append p (gather (entry_patterns lower market) (entries_of market rules)) _ i) [
        | inl names ↦
            let (entry, m, j) =
              In-gather (entry_patterns lower market) p (entries_of market rules) names in
            let (kind, word, name, n, e) = entry_patterns_sound market entry p j in
            from_name entry kind word m name n e
        | inr rest ↦
            elim (In-append p
              (keyword_patterns lower PatternKind.sector market
                (keywords_of market rules.sector_keywords))
              _ rest) [
                | inl j ↦ keyword_patterns_sound rules market PatternKind.sector p j
                | inr rest' ↦
                    elim (In-append p
                      (keyword_patterns lower PatternKind.macro market
                        (keywords_of market rules.macro_keywords))
                      _ rest') [
                        | inl j ↦ keyword_patterns_sound rules market PatternKind.macro p j
                        | inr j ↦ keyword_patterns_sound rules market PatternKind.generic p j
                      ]
              ]
      ]

  -- `p` comes from the watch list.
  abbrev pub FromRules : RulesSection → Pattern → Type 0
  FromRules rules p = (market : Market) × FromMarket rules market p

  pub compile_patterns_sound :
      (rules : RulesSection) (p : Pattern) → In p (compile_patterns lower rules) → FromRules rules p
  unfolding compile_patterns
  compile_patterns_sound rules p i = elim (In-append p (market_patterns lower rules us) _ i) [
    | inl j ↦ (us, market_patterns_sound rules us p j)
    | inr j ↦ (cn, market_patterns_sound rules cn p j)
  ]

  market_of_compile :
      (rules : RulesSection) (market : Market) (p : Pattern)
      → In p (market_patterns lower rules market)
      → In p (compile_patterns lower rules)
  unfolding compile_patterns
  market_of_compile rules us p i = In-append_left p (market_patterns lower rules us) _ i
  market_of_compile rules cn p i = In-append_right p (market_patterns lower rules us) _ i

  pub compile_patterns_owner :
      (rules : RulesSection) (market : Market) (entry : TickerEntry) (word : Text)
      → In entry (entries_of market rules)
      → In word (names_of entry)
      → (kind : PatternKind) × IsName kind
        × In (pattern_of lower kind market entry.ticker word) (compile_patterns lower rules)
  unfolding market_patterns
  compile_patterns_owner rules market entry word m n =
      let (kind, name, i) = entry_patterns_complete market entry word n in
      (
        kind,
        name,
        market_of_compile rules market (pattern_of lower kind market entry.ticker word) (
            In-append_left _ (gather (entry_patterns lower market) (entries_of market rules)) _
              (gather-In (entry_patterns lower market) entry _ (entries_of market rules) m i)),
      )

  keyword_patterns-In :
      (kind : PatternKind) (market : Market) (word : Text) (kws : List Text)
      → In word kws
      → In (pattern_of lower kind market word word) (keyword_patterns lower kind market kws)
  unfolding keyword_patterns
  keyword_patterns-In kind market word kws m =
      map-In (λ kw. pattern_of lower kind market kw kw) word kws m

  keyword_of_market :
      (rules : RulesSection) (market : Market) (kind : PatternKind) (word : Text)
      → In word (keyword_list_of kind rules market)
      → In (pattern_of lower kind market word word) (market_patterns lower rules market)
  unfolding market_patterns
  keyword_of_market rules market kind word m =
      In-append_right _ (gather (entry_patterns lower market) (entries_of market rules)) _
        (go kind m (keyword_patterns-In kind market word _ m))
    where
      part : PatternKind → List Pattern
      part k = keyword_patterns lower k market (keyword_list_of k rules market)

      go :
          (k : PatternKind)
          → In word (keyword_list_of k rules market)
          → In (pattern_of lower k market word word) (part k)
          → In
              (pattern_of lower k market word word)
              (part PatternKind.sector ++ (part PatternKind.macro ++ part PatternKind.generic))
      go PatternKind.sector n i = In-append_left _ (part PatternKind.sector) _ i
      go PatternKind.macro n i =
          In-append_right _ (part PatternKind.sector) _
            (In-append_left _ (part PatternKind.macro) _ i)
      go PatternKind.generic n i =
          In-append_right _ (part PatternKind.sector) _
            (In-append_right _ (part PatternKind.macro) _ i)
      go PatternKind.ticker n i = absurd n.1
      go PatternKind.alias n i = absurd n.1

  pub compile_patterns-keyword :
      (rules : RulesSection) (market : Market) (kind : PatternKind) (word : Text)
      → In word (keyword_list_of kind rules market)
      → In (pattern_of lower kind market word word) (compile_patterns lower rules)
  compile_patterns-keyword rules market kind word m =
      market_of_compile rules market _ (keyword_of_market rules market kind word m)
