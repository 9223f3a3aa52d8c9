-- ===== src/Quotes/Rule/Unique.antt =====
-- The ids of a rule file, after its validation by rule.py.
use news_project.Prelude.{◌≡◌, ◌↔◌, none, List, [], ◌∷◌, arith, Text, text_eq}
use news_project.Common.Ordered.{Distinct, Fresh, Fresh-cons, Fresh-none}
use news_project.Quotes.Rule.{AlertRule, unique_ids}

abbrev ids : List AlertRule → List Text
ids [] = []
ids (r ∷ rules) = r.id ∷ ids rules

unique_ids_seen :
    (seen : List Text) (rules : List AlertRule)
    → (unique_ids seen rules ≡ none) ↔ (Distinct (ids rules) × Fresh seen (ids rules))
unfolding unique_ids
unique_ids_seen seen [] = ground arith
unique_ids_seen seen (r ∷ rules) =
    ground (arith, unique_ids_seen (r.id ∷ seen) rules, Fresh-cons r.id seen (ids rules))

-- A file of rules passes the check exactly when no two of its rules have the same id.
unique_ids_iff : (rules : List AlertRule) → (unique_ids [] rules ≡ none) ↔ Distinct (ids rules)
unique_ids_iff rules =
    let seen = unique_ids_seen [] rules in
    (λ h. (seen.0 h).0, λ d. seen.1 (d, Fresh-none (ids rules)))
