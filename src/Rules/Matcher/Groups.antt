-- ===== src/Rules/Matcher/Groups.antt =====
-- What `rebuild` of rules/matcher.py adds to the automaton: every pattern under its own text.
use news_project.Prelude.{
  ◌≡◌, refl, ◌⊎◌, inl, inr, false, not, none, some, List, [], ◌∷◌, ◌++◌, arith, is_empty, In,
  In-append, In-append_left, In-append_right, In-keep, keep-In, Text, text_eq, text_beq,
  text_beq_iff, ap, Bool-cases, Option-cases,
}
use news_project.Prelude.Dict.{
  Dict, lookup, lookup-insert, lookup-In, In-insert, WellKeyed, insert-WellKeyed, keep-WellKeyed,
}
use news_project.Rules.Patterns.{Pattern}
use news_project.Rules.Matcher.{add_to_group, group_patterns, words_of}

abbrev Groups : Type 0
Groups = Dict Text (List Pattern)

-- Every group holds patterns of its key that come from `ps`.
abbrev IsGrouping : List Pattern → Groups → Type 0
IsGrouping ps d =
    (key : Text) (group : List Pattern) (p : Pattern)
    → In (key, group) d
    → In p group
    → (p.text ≡ key) × In p ps

abbrev Holds : Pattern → Groups → Type 0
Holds p d = (group : List Pattern) × (lookup p.text d ≡ some group) × In p group

add_to_group-Holds_self : (p : Pattern) (d : Groups) → Holds p (add_to_group p d)
unfolding add_to_group
add_to_group-Holds_self p d = elim (Option-cases (lookup p.text d)) [
  | inl e ↦ (
    p ∷ [],
    ground (arith, lookup-insert p.text p.text (p ∷ []) d, text_beq_iff p.text p.text),
    inl refl,
  )
  | inr (g, e) ↦ (
    g ++ p ∷ [],
    ground (arith, lookup-insert p.text p.text (g ++ p ∷ []) d, text_beq_iff p.text p.text),
    In-append_right p g (p ∷ []) (inl refl),
  )
]

add_to_group-Holds : (p q : Pattern) (d : Groups) → Holds q d → Holds q (add_to_group p d)
unfolding add_to_group
add_to_group-Holds p q d (g, e, m) = elim (Bool-cases (text_beq p.text q.text)) [
  | inl same ↦ (
    g ++ p ∷ [],
    ground (
      arith,
      lookup-insert p.text q.text (g ++ p ∷ []) d,
      ap (λ k. lookup k d) ((text_beq_iff p.text q.text).0 same),
    ),
    In-append_left q g (p ∷ []) m,
  )
  | inr other ↦ (g, rw (lookup-insert p.text q.text _ d) (rw other e), m)
]

group_patterns-Holds_old :
    (ps : List Pattern) (p : Pattern) (d : Groups) → Holds p d → Holds p (group_patterns d ps)
unfolding group_patterns
group_patterns-Holds_old [] p d h = h
group_patterns-Holds_old (q ∷ ps) p d h =
    group_patterns-Holds_old ps p (add_to_group q d) (add_to_group-Holds q p d h)

group_patterns-Holds :
    (ps : List Pattern) (p : Pattern) (d : Groups) → In p ps → Holds p (group_patterns d ps)
unfolding group_patterns
group_patterns-Holds [] p d m = absurd m.1
group_patterns-Holds (q ∷ ps) p d (inl e) =
    rw e (group_patterns-Holds_old ps q (add_to_group q d) (add_to_group-Holds_self q d))
group_patterns-Holds (q ∷ ps) p d (inr m) = group_patterns-Holds ps p (add_to_group q d) m

-- The patterns of a group: the old ones, and the new one.
In-new_group :
    (p q : Pattern) (d : Groups) (group : List Pattern)
    → In q (elim (lookup p.text d) [ none ↦ p ∷ [] | some old ↦ old ++ p ∷ [] ])
    → (q ≡ p) ⊎ ((old : List Pattern) × In (p.text, old) d × In q old)
In-new_group p q d group m = elim (Option-cases (lookup p.text d)) [
  | inl e ↦ inl (ground arith)
  | inr (g, e) ↦ elim (In-append q g (p ∷ []) (rw e at m)) [
    | inl l ↦ inr (g, lookup-In p.text g d e, l)
    | inr r ↦ inl (ground arith)
  ]
]

module _ (all : List Pattern) where
  add_to_group-IsGrouping :
      (p : Pattern) (d : Groups) → In p all → IsGrouping all d → IsGrouping all (add_to_group p d)
  unfolding add_to_group
  add_to_group-IsGrouping p d m h key group q i j = elim (In-insert p.text key _ group d i) [
    | inl (k, g) ↦ elim (In-new_group p q d group (rw g at j)) [
      | inl new ↦ rw (new, k) (refl, m)
      | inr (old, l, n) ↦ rw k (h p.text old q l n)
    ]
    | inr l ↦ h key group q l j
  ]

  group_patterns-IsGrouping :
      (ps : List Pattern) (d : Groups)
      → ((p : Pattern) → In p ps → In p all)
      → IsGrouping all d
      → IsGrouping all (group_patterns d ps)
  unfolding group_patterns
  group_patterns-IsGrouping [] d sub h = h
  group_patterns-IsGrouping (p ∷ ps) d sub h =
      group_patterns-IsGrouping ps (add_to_group p d) (λ q m. sub q (inr m))
        (add_to_group-IsGrouping p d (sub p (inl refl)) h)

group_patterns-WellKeyed :
    (ps : List Pattern) (d : Groups) → WellKeyed d → WellKeyed (group_patterns d ps)
unfolding group_patterns add_to_group
group_patterns-WellKeyed [] d h = h
group_patterns-WellKeyed (p ∷ ps) d h =
    group_patterns-WellKeyed ps (add_to_group p d) (insert-WellKeyed p.text _ d h)

module _ (ps : List Pattern) where
  pub words_of-WellKeyed : WellKeyed (words_of (group_patterns [] ps))
  unfolding words_of
  words_of-WellKeyed = keep-WellKeyed _ _ (group_patterns-WellKeyed ps [] tt)

  pub words_of-nonempty :
      (key : Text) (group : List Pattern)
      → In (key, group) (words_of (group_patterns [] ps))
      → is_empty key ≡ false
  unfolding words_of
  words_of-nonempty key group i = ground (
    arith,
    In-keep (λ (entry : Text × List Pattern). not (is_empty entry.0)) (key, group)
        (group_patterns [] ps),
  )

  -- A word is not empty, and its payload holds patterns of `ps` with that text.
  pub words_of_sound :
      (key : Text) (group : List Pattern) (p : Pattern)
      → In (key, group) (words_of (group_patterns [] ps))
      → In p group
      → (p.text ≡ key) × In p ps × (is_empty key ≡ false)
  unfolding words_of
  words_of_sound key group p i j =
      let (l, nonempty) = In-keep _ (key, group) (group_patterns [] ps) i in
      let (e, m) =
        group_patterns-IsGrouping ps ps [] (λ q n. n) (λ k g q n. absurd n.1) key group p l j in
      (e, m, ground arith)

  -- Every pattern with a text is in the payload of that text.
  pub words_of_complete :
      (p : Pattern)
      → In p ps
      → is_empty p.text ≡ false
      → (group : List Pattern) × In (p.text, group) (words_of (group_patterns [] ps)) × In p group
  unfolding words_of
  words_of_complete p m nonempty =
      let (g, e, j) = group_patterns-Holds ps p [] m in
      (g, keep-In _ (p.text, g) _ (lookup-In p.text g _ e) (rw nonempty), j)
