-- ===== src/Rules/Engine/Verdicts.antt =====
-- What `RulesEngine.match` reports of a list of matches (rules/engine.py).
use news_project.Prelude.{
  ◌≡◌, ◌↔◌, ◌⊎◌, inl, inr, refl, subst, not, List, [], ◌∷◌, arith, keep, In, In-keep, keep-In, elem,
  elem→In, In→elem, Text, text_eq, Bool-cases,
}
use news_project.Common.Enums.{market_value}
use news_project.Common.Ordered.{add, sorted, In-add, In-update, In-sorted}
use news_project.Rules.Patterns.{PatternKind, Pattern, Match}
use news_project.Rules.Engine.{Index, Hits, no_hits, indexed, collect_kind, collect, verdict_for}

-- A hit of this pattern names the ticker `t`, by code or by alias.
abbrev pub NamesTicker : Pattern → Text → Type 0
NamesTicker p t = ((p.kind ≡ PatternKind.ticker) ⊎ (p.kind ≡ PatternKind.alias)) × (t ≡ p.owner)

abbrev pub NamesSector : Pattern → Text → Type 0
NamesSector p t = (p.kind ≡ PatternKind.sector) × (t ≡ p.text)

abbrev pub NamesMacro : Pattern → Text → Type 0
NamesMacro p t = (p.kind ≡ PatternKind.macro) × (t ≡ p.text)

-- A hit of this pattern leads to `t` by one of the reverse indexes.
abbrev pub LeadsTo : Index → Index → Pattern → Text → Type 0
LeadsTo sec mac p t =
    ((p.kind ≡ PatternKind.sector) × In t (indexed sec p.text))
    ⊎ ((p.kind ≡ PatternKind.macro) × In t (indexed mac p.text))

abbrev pub Some : (Pattern → Text → Type 0) → List Match → Text → Type 0
Some C ms t = (m : Match) × In m ms × C m.pattern t

module _ (sec mac : Index) where
  -- one round of the loop
  abbrev round : Pattern → Hits → Hits
  round p h =
      collect_kind sec mac p.kind p (record h { markets = add (market_value p.market) h.markets })

  module _ (field : Hits → List Text) (C : Pattern → Text → Type 0)
      (step : (p : Pattern) (h : Hits) (t : Text)
        → In t (field (round p h)) ↔ (In t (field h) ⊎ C p t)) where
    collect_iff :
        (h : Hits) (ms : List Match) (t : Text)
        → In t (field (collect sec mac h ms)) ↔ (In t (field h) ⊎ Some C ms t)
    unfolding collect
    collect_iff h [] t = (inl, λ x. elim x [ inl i ↦ i | inr (m, i, c) ↦ absurd i.1 ])
    collect_iff h (m ∷ ms) t =
        let ih = collect_iff (round m.pattern h) ms t in
        let st = step m.pattern h t in
        (
          λ i. elim (ih.0 i) [
            | inl j ↦ elim (st.0 j) [ inl k ↦ inl k | inr c ↦ inr (m, inl refl, c) ]
            | inr (n, j, c) ↦ inr (n, inr j, c)
          ],
          λ x. elim x [
            | inl k ↦ ih.1 (inl (st.1 (inl k)))
            | inr (n, inl e, c) ↦ ih.1 (inl (st.1 (inr (subst (λ (y : Match). C y.pattern t) e c))))
            | inr (n, inr j, c) ↦ ih.1 (inr (n, j, c))
          ],
        )

  tickers_step :
      (p : Pattern) (h : Hits) (t : Text)
      → In t (round p h).tickers ↔ (In t h.tickers ⊎ NamesTicker p t)
  unfolding collect_kind
  tickers_step p h t = ground (arith, In-add t p.owner h.tickers)

  sectors_step :
      (p : Pattern) (h : Hits) (t : Text)
      → In t (round p h).sectors ↔ (In t h.sectors ⊎ NamesSector p t)
  unfolding collect_kind
  sectors_step p h t = ground (arith, In-add t p.text h.sectors)

  macros_step :
      (p : Pattern) (h : Hits) (t : Text)
      → In t (round p h).macros ↔ (In t h.macros ⊎ NamesMacro p t)
  unfolding collect_kind
  macros_step p h t = ground (arith, In-add t p.text h.macros)

  related_step :
      (p : Pattern) (h : Hits) (t : Text)
      → In t (round p h).related ↔ (In t h.related ⊎ LeadsTo sec mac p t)
  unfolding collect_kind
  related_step p h t = ground (
    arith,
    In-update t h.related (indexed sec p.text),
    In-update t h.related (indexed mac p.text),
  )

  markets_step :
      (p : Pattern) (h : Hits) (t : Text)
      → In t (round p h).markets ↔ (In t h.markets ⊎ (t ≡ market_value p.market))
  unfolding collect_kind
  markets_step p h t = ground (arith, In-add t (market_value p.market) h.markets)

  module _ (field : Hits → List Text) (C : Pattern → Text → Type 0)
      (step : (p : Pattern) (h : Hits) (t : Text)
        → In t (field (round p h)) ↔ (In t (field h) ⊎ C p t))
      (start : field no_hits ≡ []) where
    collected_iff :
        (ms : List Match) (t : Text) → In t (field (collect sec mac no_hits ms)) ↔ Some C ms t
    collected_iff ms t =
        let e = collect_iff field C step no_hits ms t in
        (
          λ i. elim (e.0 i) [ inl j ↦ absurd (subst (In t) start j).1 | inr s ↦ s ],
          λ s. e.1 (inr s),
        )

    collected_sorted :
        (ms : List Match) (t : Text)
        → In t (sorted (field (collect sec mac no_hits ms))) ↔ Some C ms t
    collected_sorted ms t =
        let e = collected_iff ms t in
        let o = In-sorted t (field (collect sec mac no_hits ms)) in
        (λ i. e.0 (o.0 i), λ s. o.1 (e.1 s))

  none_left : (C : Pattern → Text → Type 0) (t : Text) → In t [] ↔ Some C [] t
  none_left C t = (λ i. absurd i.1, λ (m, i, c). absurd i.1)

  pub verdict-tickers :
      (ms : List Match) (t : Text) → In t (verdict_for sec mac ms).tickers ↔ Some NamesTicker ms t
  unfolding verdict_for
  verdict-tickers [] t = none_left NamesTicker t
  verdict-tickers (m ∷ ms) t =
      collected_sorted (λ h. h.tickers) NamesTicker tickers_step refl (m ∷ ms) t

  pub verdict-sectors :
      (ms : List Match) (t : Text) → In t (verdict_for sec mac ms).sectors ↔ Some NamesSector ms t
  unfolding verdict_for
  verdict-sectors [] t = none_left NamesSector t
  verdict-sectors (m ∷ ms) t =
      collected_sorted (λ h. h.sectors) NamesSector sectors_step refl (m ∷ ms) t

  pub verdict-macros :
      (ms : List Match) (t : Text) → In t (verdict_for sec mac ms).macros ↔ Some NamesMacro ms t
  unfolding verdict_for
  verdict-macros [] t = none_left NamesMacro t
  verdict-macros (m ∷ ms) t =
      collected_sorted (λ h. h.macros) NamesMacro macros_step refl (m ∷ ms) t

  pub verdict-markets :
      (ms : List Match) (t : Text)
      → In t (verdict_for sec mac ms).markets ↔ Some (λ p x. x ≡ market_value p.market) ms t
  unfolding verdict_for
  verdict-markets [] t = none_left (λ p x. x ≡ market_value p.market) t
  verdict-markets (m ∷ ms) t =
      collected_sorted (λ h. h.markets) (λ p x. x ≡ market_value p.market) markets_step refl
        (m ∷ ms) t

  -- what leads to a ticker, less what names one
  pub verdict-related :
      (ms : List Match) (t : Text)
      → In t (verdict_for sec mac ms).related_tickers
        ↔ (Some (LeadsTo sec mac) ms t × ¬ Some NamesTicker ms t)
  unfolding verdict_for
  verdict-related [] t = (λ i. absurd i.1, λ s. absurd s.0.1.1)
  verdict-related (m ∷ ms) t =
      let h = collect sec mac no_hits (m ∷ ms) in
      let direct = collected_iff (λ h. h.tickers) NamesTicker tickers_step refl (m ∷ ms) t in
      let leads = collected_iff (λ h. h.related) (LeadsTo sec mac) related_step refl (m ∷ ms) t in
      let new = λ (x : Text). not (elem x h.tickers) in
      let o = In-sorted t (keep new h.related) in
      (
        λ i.
            let (j, fresh) = In-keep new t h.related (o.0 i) in
            (leads.0 j, λ s. cc (fresh, In→elem t h.tickers (direct.1 s))),
        λ (s, fresh). o.1 (
            keep-In new t h.related (leads.1 s) (elim (Bool-cases (elem t h.tickers)) [
              | inl old ↦ absurd (fresh (direct.0 (elem→In t h.tickers old)))
              | inr e ↦ rw e
            ])),
      )
