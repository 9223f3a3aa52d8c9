-- ===== src/Config/Watchlist/Valid.antt =====
-- Which watchlists pass the checks of src/news_pipeline/config/schema.py.
use news_project.Prelude.{
  ◌≡◌, ◌↔◌, ◌⊎◌, inl, inr, refl, subst, true, not, none, some, List, [], ◌∷◌, arith, keep, is_empty,
  elem, Bool-cases, In, Text, text_eq,
}
use news_project.Common.Enums.{Market, us, cn}
use news_project.Common.Ordered.{update, sorted, Distinct, length-update_iff, In-sorted, In-update}
use news_project.Rules.Patterns.{TickerEntry, keywords_of, entries_of}
use news_project.Config.Watchlist.{
  WatchlistFile, Check, and_next, at_least_one_enabled, tickers_of, market_unique, ticker_unique,
  unknown, entry_valid, entries_valid, market_refs_valid, sector_macro_refs_valid, validate,
}

-- Each of these is known.
abbrev pub AllIn : List Text → List Text → Type 0
AllIn [] known = Unit
AllIn (x ∷ xs) known = (elem x known ≡ true) × AllIn xs known

-- Each entry refers to known sectors and macros only.
abbrev pub AllRefer : List Text → List Text → List TickerEntry → Type 0
AllRefer sectors macros [] = Unit
AllRefer sectors macros (e ∷ es) =
    AllIn e.sectors sectors × AllIn e.macro_links macros × AllRefer sectors macros es

and_next-none : (a b : Check) → (and_next a b ≡ none) ↔ ((a ≡ none) × (b ≡ none))
unfolding and_next
and_next-none none b = ground arith
and_next-none (some e) b = ground arith

keep-unknown : (known xs : List Text) → (keep (λ x. not (elem x known)) xs ≡ []) ↔ AllIn xs known
unfolding keep
keep-unknown known [] = ground arith
keep-unknown known (x ∷ xs) = elim (Bool-cases (elem x known)) [
  | inl e ↦ rw e (ground (arith, keep-unknown known xs))
  | inr e ↦ rw e (ground arith)
]

is_empty_iff : (xs : List Text) → (is_empty xs ≡ true) ↔ (xs ≡ [])
is_empty_iff [] = ground arith
is_empty_iff (x ∷ xs) = ((λ h. cc), (λ h. cc))

sorted-nil : (xs : List Text) → (sorted (update [] xs) ≡ []) ↔ (xs ≡ [])
unfolding sorted update
sorted-nil [] = ground arith
sorted-nil (x ∷ xs) = (
  (λ h.
      let there =
        (In-sorted x (update [] (x ∷ xs))).1 ((In-update x [] (x ∷ xs)).1 (inr (inl refl))) in
      absurd (subst (In x) h there).1),
  (λ h. cc),
)

unknown-nil : (known xs : List Text) → (is_empty (unknown known xs) ≡ true) ↔ AllIn xs known
unfolding unknown
unknown-nil known xs = ground (
  arith,
  sorted-nil (keep (λ x. not (elem x known)) xs),
  keep-unknown known xs,
  is_empty_iff (sorted (update [] (keep (λ x. not (elem x known)) xs))),
)

entry_valid-none :
    (market : Market) (sectors macros : List Text) (e : TickerEntry)
    → (entry_valid market sectors macros e ≡ none)
      ↔ (AllIn e.sectors sectors × AllIn e.macro_links macros)
unfolding entry_valid
entry_valid-none market sectors macros e =
    ground (arith, unknown-nil sectors e.sectors, unknown-nil macros e.macro_links)

entries_valid-none :
    (market : Market) (sectors macros : List Text) (es : List TickerEntry)
    → (entries_valid market sectors macros es ≡ none) ↔ AllRefer sectors macros es
unfolding entries_valid
entries_valid-none market sectors macros [] = ground arith
entries_valid-none market sectors macros (e ∷ es) = ground (
  arith,
  and_next-none (entry_valid market sectors macros e) (entries_valid market sectors macros es),
  entry_valid-none market sectors macros e,
  entries_valid-none market sectors macros es,
)

market_unique-none :
    (market : Market) (f : WatchlistFile)
    → (market_unique market f ≡ none) ↔ Distinct (tickers_of market f)
unfolding market_unique
market_unique-none market f = ground (arith, length-update_iff (tickers_of market f))

at_least_one_enabled-none :
    (f : WatchlistFile)
    → (at_least_one_enabled f ≡ none) ↔ ((f.rules.enable ≡ true) ⊎ (f.llm.enable ≡ true))
unfolding at_least_one_enabled
at_least_one_enabled-none f = ground arith

-- A watchlist passes the checks exactly when the rules or the LLM are enabled, no ticker is listed
-- twice in a market, and each entry refers only to sectors and macros that are keywords of its
-- market, spelled the same.
pub validate_iff :
    (f : WatchlistFile)
    → (validate f ≡ none) ↔ (
        ((f.rules.enable ≡ true) ⊎ (f.llm.enable ≡ true))
        × (Distinct (tickers_of us f) × Distinct (tickers_of cn f))
        × (AllRefer f.rules.sector_keywords.us f.rules.macro_keywords.us f.rules.us
            × AllRefer f.rules.sector_keywords.cn f.rules.macro_keywords.cn f.rules.cn))
unfolding validate ticker_unique sector_macro_refs_valid market_refs_valid keywords_of entries_of
validate_iff f = ground (
  arith,
  and_next-none (at_least_one_enabled f) (and_next (ticker_unique f) (sector_macro_refs_valid f)),
  and_next-none (ticker_unique f) (sector_macro_refs_valid f),
  and_next-none (market_unique us f) (market_unique cn f),
  and_next-none (market_refs_valid us f) (market_refs_valid cn f),
  at_least_one_enabled-none f,
  market_unique-none us f,
  market_unique-none cn f,
  entries_valid-none us f.rules.sector_keywords.us f.rules.macro_keywords.us f.rules.us,
  entries_valid-none cn f.rules.sector_keywords.cn f.rules.macro_keywords.cn f.rules.cn,
)
