-- ===== src/Rules/Watchlist.antt =====
-- rules/engine.py and rules/matcher.py together: what a verdict says of the article, in terms of
-- the watch list alone.
use news_project.Prelude.{
  ◌≡◌, ◌↔◌, ◌⊎◌, inl, inr, sym, ap, subst, ◌∙◌, true, false, Option, some, List, ◌++◌, arith,
  is_empty, In, Text, is_ascii,
}
use news_project.Common.Enums.{Market}
use news_project.Rules.Patterns.{PatternKind, Pattern, Match, TickerEntry, RulesSection, entries_of}
use news_project.Rules.Matcher.{AhoCorasick, find_all, rebuild}
use news_project.Rules.Matcher.Boundary.{ends_with_word, starts_with_word}
use news_project.Rules.Matcher.Correct.{FindsWords, find_all_iff, match_occurrence}
use news_project.Rules.Engine.{
  pattern_of, compile_patterns, compile_sectors, compile_macros, indexed, rebuild_engine,
  match_article, article_text,
}
use news_project.Rules.Engine.Compiled.{
  names_of, IsName, FromMarket, from_name, from_keyword, keyword_list_of, compile_patterns_sound,
  compile_patterns_owner, compile_patterns-keyword,
}
use news_project.Rules.Engine.Indexes.{Tagged, compile_sectors_iff, compile_macros_iff}
use news_project.Rules.Engine.Verdicts.{
  NamesTicker, LeadsTo, Some, verdict-tickers, verdict-related,
}

-- `word` stands in `text`, both in lower case; an ASCII word stands between non-word characters.
pub record Mentions (lower : Text → Text) (text word : Text) : Type 0 where
  pub pre : Text
  pub post : Text
  pub nonempty : is_empty (lower word) ≡ false
  pub split : lower text ≡ pre ++ (lower word ++ post)
  pub alone : is_ascii word ≡ true → (ends_with_word pre ≡ false) × (starts_with_word post ≡ false)

module _ (lower : Text → Text) (rules : RulesSection) (text : Text) where
  -- An entry of a market's list has ticker `t`, and its code, name or alias stands in the text.
  abbrev pub MentionsTicker : Text → Type 0
  MentionsTicker t =
      (market : Market) × (entry : TickerEntry) × (word : Text) × In entry (entries_of market rules)
      × (t ≡ entry.ticker)
      × In word (names_of entry)
      × Mentions lower text word

  -- A keyword of this kind stands in the text, and `leads` holds of its lower-case form.
  abbrev pub MentionsKeyword : PatternKind → (Text → Type 0) → Type 0
  MentionsKeyword kind leads =
      (market : Market) × (word : Text) × In word (keyword_list_of lower kind rules market)
      × Mentions lower text word
      × leads (lower word)

  -- A sector keyword of either market stands in the text, and an entry of either market with ticker
  -- `t` lists that sector, up to case.
  abbrev pub LeadsBySector : Text → Type 0
  LeadsBySector t = MentionsKeyword PatternKind.sector (λ key.
      Tagged lower (λ e. e.sectors) rules.us t key ⊎ Tagged lower (λ e. e.sectors) rules.cn t key)

  -- The same with the macro keywords and the macro links.
  abbrev pub LeadsByMacro : Text → Type 0
  LeadsByMacro t = MentionsKeyword PatternKind.macro (λ key.
      Tagged lower (λ e. e.macro_links) rules.us t key
      ⊎ Tagged lower (λ e. e.macro_links) rules.cn t key)

module _ (ac : AhoCorasick) (fw : FindsWords ac) (lower : Text → Text) (rules : RulesSection)
    (text : Text) where
  abbrev hits : List Match
  hits = find_all ac lower (some (rebuild ac (compile_patterns lower rules))) text

  hit-Mentions :
      (m : Match) (kind : PatternKind) (market : Market) (owner word : Text)
      → In m hits
      → m.pattern ≡ pattern_of lower kind market owner word
      → Mentions lower text word
  unfolding pattern_of
  hit-Mentions m kind market owner word i e =
      let h = (find_all_iff ac fw lower (compile_patterns lower rules) text m).0 i in
      let lowered = ap (λ (p : Pattern). p.text) e in
      record {
        pre = h.pre;
        post = h.post;
        nonempty = subst (λ t. is_empty t ≡ false) lowered h.nonempty;
        split = subst (λ t. lower text ≡ h.pre ++ (t ++ h.post)) lowered h.split;
        alone = λ ascii. h.alone (ap (λ (p : Pattern). p.is_english) e ∙ ascii);
      }

  mention_hit :
      (kind : PatternKind) (market : Market) (owner word : Text)
      → In (pattern_of lower kind market owner word) (compile_patterns lower rules)
      → Mentions lower text word
      → (m : Match) × In m hits × (m.pattern ≡ pattern_of lower kind market owner word)
  unfolding pattern_of
  mention_hit kind market owner word i n =
      let p = pattern_of lower kind market owner word in
      let (m, h, e) =
        match_occurrence lower (compile_patterns lower rules) text p n.pre n.post i n.nonempty
          n.split n.alone in
      (m, (find_all_iff ac fw lower (compile_patterns lower rules) text m).1 h, e)

  name_from :
      (t : Text) (m : Match) (market : Market)
      → In m hits
      → FromMarket lower rules market m.pattern
      → NamesTicker m.pattern t
      → MentionsTicker lower rules text t
  unfolding pattern_of
  name_from t m market i (from_name entry kind word me name n eq) (k, e) = (
    market,
    entry,
    word,
    me,
    e ∙ ap (λ (p : Pattern). p.owner) eq,
    n,
    hit-Mentions m kind market entry.ticker word i eq,
  )
  name_from t m market i (from_keyword kind word kw eq) (k, e) =
      absurd (no_name kind kw (subst IsName (ap (λ (p : Pattern). p.kind) eq) k))
    where
      no_name :
          (kind : PatternKind) → In word (keyword_list_of lower kind rules market) → IsName kind → ⊥
      no_name PatternKind.ticker m n = m.1
      no_name PatternKind.alias m n = m.1
      no_name PatternKind.sector m n = ground arith
      no_name PatternKind.macro m n = ground arith
      no_name PatternKind.generic m n = ground arith

  names_sound : (t : Text) → Some NamesTicker hits t → MentionsTicker lower rules text t
  names_sound t (m, i, n) =
      let (market, from) =
        compile_patterns_sound lower rules m.pattern
          ((find_all_iff ac fw lower (compile_patterns lower rules) text m).0 i).known in
      name_from t m market i from n

  names_complete : (t : Text) → MentionsTicker lower rules text t → Some NamesTicker hits t
  unfolding pattern_of
  names_complete t (market, entry, word, m, e, n, mention) =
      let (kind, name, i) = compile_patterns_owner lower rules market entry word m n in
      let (hit, j, eq) = mention_hit kind market entry.ticker word i mention in
      (
        hit,
        j,
        (
          subst IsName (sym (ap (λ (p : Pattern). p.kind) eq)) name,
          e ∙ sym (ap (λ (p : Pattern). p.owner) eq),
        ),
      )

  keyword_from :
      (kind : PatternKind) (leads : Text → Type 0) (m : Match) (market : Market)
      → ¬ IsName kind
      → In m hits
      → FromMarket lower rules market m.pattern
      → m.pattern.kind ≡ kind
      → leads m.pattern.text
      → MentionsKeyword lower rules text kind leads
  unfolding pattern_of
  keyword_from kind leads m market no_name i (from_name entry k word me name n eq) e l =
      absurd (no_name (subst IsName (sym (ap (λ (p : Pattern). p.kind) eq) ∙ e) name))
  keyword_from kind leads m market no_name i (from_keyword k word kw eq) e l = (
    market,
    word,
    subst (λ x. In word (keyword_list_of lower x rules market))
        (sym (ap (λ (p : Pattern). p.kind) eq) ∙ e) kw,
    hit-Mentions m k market word word i eq,
    subst leads (ap (λ (p : Pattern). p.text) eq) l,
  )

  keyword_iff :
      (kind : PatternKind) (leads : Text → Type 0)
      → ¬ IsName kind
      → ((m : Match) × In m hits × (m.pattern.kind ≡ kind) × leads m.pattern.text)
        ↔ MentionsKeyword lower rules text kind leads
  unfolding pattern_of
  keyword_iff kind leads no_name = (
    λ (m, i, e, l).
        let (market, from) =
          compile_patterns_sound lower rules m.pattern
            ((find_all_iff ac fw lower (compile_patterns lower rules) text m).0 i).known in
        keyword_from kind leads m market no_name i from e l,
    λ (market, word, kw, mention, l).
        let (hit, j, eq) =
          mention_hit kind market word word
            (compile_patterns-keyword lower rules market kind word kw) mention in
        (
          hit,
          j,
          ap (λ (p : Pattern). p.kind) eq,
          subst leads (sym (ap (λ (p : Pattern). p.text) eq)) l,
        ),
  )

  leads_iff :
      (t : Text)
      → Some (LeadsTo (compile_sectors lower rules) (compile_macros lower rules)) hits t
        ↔ (LeadsBySector lower rules text t ⊎ LeadsByMacro lower rules text t)
  leads_iff t =
      let sectors = λ (key : Text). In t (indexed (compile_sectors lower rules) key) in
      let macros = λ (key : Text). In t (indexed (compile_macros lower rules) key) in
      let by_sector = keyword_iff PatternKind.sector sectors (λ n. ground arith) in
      let by_macro = keyword_iff PatternKind.macro macros (λ n. ground arith) in
      (
        λ (m, i, c). elim c [
          | inl (k, l) ↦
              let (market, word, kw, mention, j) = by_sector.0 (m, i, k, l) in
              inl (market, word, kw, mention, (compile_sectors_iff lower rules t (lower word)).0 j)
          | inr (k, l) ↦
              let (market, word, kw, mention, j) = by_macro.0 (m, i, k, l) in
              inr (market, word, kw, mention, (compile_macros_iff lower rules t (lower word)).0 j)
        ],
        λ s. elim s [
          | inl (market, word, kw, mention, j) ↦
              let (m, i, k, l) =
                by_sector.1 (
                  market,
                  word,
                  kw,
                  mention,
                  (compile_sectors_iff lower rules t (lower word)).1 j,
                ) in
              (m, i, inl (k, l))
          | inr (market, word, kw, mention, j) ↦
              let (m, i, k, l) =
                by_macro.1 (
                  market,
                  word,
                  kw,
                  mention,
                  (compile_macros_iff lower rules t (lower word)).1 j,
                ) in
              (m, i, inr (k, l))
        ],
      )

  names_iff : (t : Text) → Some NamesTicker hits t ↔ MentionsTicker lower rules text t
  names_iff t = (names_sound t, names_complete t)

module _ (ac : AhoCorasick) (fw : FindsWords ac) (lower : Text → Text) (rules : RulesSection)
    (title : Text) (body : Option Text) (t : Text) where
  -- With an automaton that finds the occurrences of its words, `match` reports the ticker `t` if and
  -- only if an entry of one of the two markets has that ticker and its code, its name or an alias
  -- stands in the title or the body, in lower case; an ASCII word between non-word characters.
  pub match_article-tickers :
      In t (match_article ac lower (rebuild_engine ac lower rules) title body).tickers
      ↔ MentionsTicker lower rules (article_text title body) t
  unfolding match_article rebuild_engine
  match_article-tickers =
      let text = article_text title body in
      let v =
        verdict-tickers (compile_sectors lower rules) (compile_macros lower rules)
          (hits ac fw lower rules text) t in
      let n = names_iff ac fw lower rules text t in (λ i. n.0 (v.0 i), λ s. v.1 (n.1 s))

  -- With such an automaton, `match` reports `t` as a related ticker if and only if a sector or macro
  -- keyword of either market stands in the text, an entry of either market with ticker `t` lists that
  -- keyword up to case, and `t` is not reported as a direct ticker.
  pub match_article-related :
      In t (match_article ac lower (rebuild_engine ac lower rules) title body).related_tickers ↔ (
        (LeadsBySector lower rules (article_text title body) t
          ⊎ LeadsByMacro lower rules (article_text title body) t)
        × ¬ MentionsTicker lower rules (article_text title body) t)
  unfolding match_article rebuild_engine
  match_article-related =
      let text = article_text title body in
      let v =
        verdict-related (compile_sectors lower rules) (compile_macros lower rules)
          (hits ac fw lower rules text) t in
      let n = names_iff ac fw lower rules text t in
      let l = leads_iff ac fw lower rules text t in
      (
        λ i. let (s, fresh) = v.0 i in (l.0 s, λ d. fresh (n.1 d)),
        λ (s, fresh). v.1 (l.1 s, λ d. fresh (n.0 d)),
      )
