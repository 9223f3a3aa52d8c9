-- ===== src/Rules/Engine/Indexes.antt =====
-- The reverse indexes that `_compile` of rules/engine.py makes.
use news_project.Prelude.{
  ◌≡◌, ◌↔◌, ◌⊎◌, inl, inr, refl, sym, ap, subst, ◌∙◌, List, [], ◌∷◌, arith, In, Text, text_eq,
  text_beq, text_beq_iff, if◌then◌else◌,
}
use news_project.Prelude.Dict.{lookup, insert, lookup-insert}
use news_project.Common.Ordered.{add, In-add}
use news_project.Rules.Patterns.{TickerEntry, RulesSection}
use news_project.Rules.Engine.{
  Index, index_keywords, index_entries, compile_sectors, compile_macros, indexed,
}

indexed-insert :
    (k key : Text) (owners : List Text) (index : Index)
    → indexed (insert k owners index) key ≡ (if text_beq k key then owners else indexed index key)
unfolding indexed
indexed-insert k key owners index = ground (arith, lookup-insert k key owners index)

In-indexed-insert :
    (t owner k key : Text) (index : Index)
    → In t (indexed (insert k (add owner (indexed index k)) index) key)
      ↔ (In t (indexed index key) ⊎ ((t ≡ owner) × (k ≡ key)))
In-indexed-insert t owner k key index = ground (
  arith,
  indexed-insert k key (add owner (indexed index k)) index,
  In-add t owner (indexed index k),
  text_beq_iff k key,
)

nothing_indexed : (t key : Text) → ¬ In t (indexed [] key)
unfolding indexed lookup
nothing_indexed t key i = i.1

module _ (lower : Text → Text) where
  -- `t` is `owner`, and one of the keywords is `key` in lower case.
  abbrev Adds : Text → List Text → Text → Text → Type 0
  Adds owner kws t key = (kw : Text) × (t ≡ owner) × In kw kws × (lower kw ≡ key)

  index_keywords_iff :
      (t owner key : Text) (kws : List Text) (index : Index)
      → In t (indexed (index_keywords lower owner kws index) key)
        ↔ (In t (indexed index key) ⊎ Adds owner kws t key)
  unfolding index_keywords
  index_keywords_iff t owner key [] index =
      (inl, λ s. elim s [ inl i ↦ i | inr (kw, e, m, l) ↦ absurd m.1 ])
  index_keywords_iff t owner key (kw ∷ kws) index =
      let next = insert (lower kw) (add owner (indexed index (lower kw))) index in
      let ih = index_keywords_iff t owner key kws next in
      let new = In-indexed-insert t owner (lower kw) key index in
      (
        λ i. elim (ih.0 i) [
          | inl j ↦ elim (new.0 j) [ inl k ↦ inl k | inr (e, l) ↦ inr (kw, e, inl refl, l) ]
          | inr (w, e, m, l) ↦ inr (w, e, inr m, l)
        ],
        λ s. elim s [
          | inl k ↦ ih.1 (inl (new.1 (inl k)))
          | inr (w, e, inl same, l) ↦ ih.1 (inl (new.1 (inr (e, ap lower (sym same) ∙ l))))
          | inr (w, e, inr m, l) ↦ ih.1 (inr (w, e, m, l))
        ],
      )

  module _ (keywords : TickerEntry → List Text) where
    -- An entry of the list owns `t` and has a keyword that is `key` in lower case.
    abbrev pub Tagged : List TickerEntry → Text → Text → Type 0
    Tagged entries t key =
        (entry : TickerEntry) × (kw : Text) × In entry entries
        × (t ≡ entry.ticker)
        × In kw (keywords entry)
        × (lower kw ≡ key)

    index_entries_iff :
        (t key : Text) (entries : List TickerEntry) (index : Index)
        → In t (indexed (index_entries lower keywords entries index) key)
          ↔ (In t (indexed index key) ⊎ Tagged entries t key)
    unfolding index_entries
    index_entries_iff t key [] index =
        (inl, λ s. elim s [ inl i ↦ i | inr (e, kw, m, o, n, l) ↦ absurd m.1 ])
    index_entries_iff t key (entry ∷ entries) index =
        let next = index_keywords lower entry.ticker (keywords entry) index in
        let ih = index_entries_iff t key entries next in
        let new = index_keywords_iff t entry.ticker key (keywords entry) index in
        (
          λ i. elim (ih.0 i) [
            | inl j ↦ elim (new.0 j) [
              | inl k ↦ inl k
              | inr (kw, e, m, l) ↦ inr (entry, kw, inl refl, e, m, l)
            ]
            | inr (x, kw, m, o, n, l) ↦ inr (x, kw, inr m, o, n, l)
          ],
          λ s. elim s [
            | inl k ↦ ih.1 (inl (new.1 (inl k)))
            | inr (x, kw, inl same, e, m, l) ↦ ih.1 (
                inl (
                  new.1 (
                    inr (
                      kw,
                      e ∙ ap (λ y. y.ticker) same,
                      subst (λ y. In kw (keywords y)) same m,
                      l,
                    ))))
            | inr (x, kw, inr m, o, n, l) ↦ ih.1 (inr (x, kw, m, o, n, l))
          ],
        )

    two_lists :
        (t key : Text) (a b : List TickerEntry)
        → In t (indexed (index_entries lower keywords b (index_entries lower keywords a [])) key)
          ↔ (Tagged a t key ⊎ Tagged b t key)
    two_lists t key a b =
        let second = index_entries_iff t key b (index_entries lower keywords a []) in
        let first = index_entries_iff t key a [] in
        (
          λ i. elim (second.0 i) [
            | inl j ↦ elim (first.0 j) [ inl k ↦ absurd (nothing_indexed t key k) | inr x ↦ inl x ]
            | inr x ↦ inr x
          ],
          λ s. elim s [ inl x ↦ second.1 (inl (first.1 (inr x))) | inr x ↦ second.1 (inr x) ],
        )

  -- The sector index leads from a lower-case keyword to the tickers that list it as a sector, in
  -- either market.
  pub compile_sectors_iff :
      (rules : RulesSection) (t key : Text)
      → In t (indexed (compile_sectors lower rules) key)
        ↔ (Tagged (λ e. e.sectors) rules.us t key ⊎ Tagged (λ e. e.sectors) rules.cn t key)
  unfolding compile_sectors
  compile_sectors_iff rules t key = two_lists (λ e. e.sectors) t key rules.us rules.cn

  -- The macro index leads from a lower-case keyword to the tickers that list it as a macro link, in
  -- either market.
  pub compile_macros_iff :
      (rules : RulesSection) (t key : Text)
      → In t (indexed (compile_macros lower rules) key)
        ↔ (Tagged (λ e. e.macro_links) rules.us t key ⊎ Tagged (λ e. e.macro_links) rules.cn t key)
  unfolding compile_macros
  compile_macros_iff rules t key = two_lists (λ e. e.macro_links) t key rules.us rules.cn
