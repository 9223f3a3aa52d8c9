-- ===== src/Rules/Matcher/Naive.antt =====
-- An automaton that scans every position: it meets what the development asks of `pyahocorasick`.
use mathlib.Core.List.{append_assoc, append-nil}
use news_project.Prelude.{
  ℕ, ◌+◌, ◌-◌, ◌≤◌, ◌≡◌, ◌↔◌, inl, inr, refl, sym, ap, subst, ◌∙◌, false, some, List, [], ◌∷◌, ◌++◌,
  arith, if◌then◌else◌, length, is_empty, gather, In, In-append, In-append_left, In-append_right,
  In-gather, gather-In, Text, starts_with, starts_with_sound, starts_with_complete, Bool-cases,
}
use news_project.Prelude.Dict.{Dict}
use news_project.Rules.Patterns.{Pattern}
use news_project.Rules.Matcher.{AhoCorasick, EndsAt, add_words}
use news_project.Rules.Matcher.Correct.{FindsWords}

abbrev Words : Type 0
Words = Dict Text (List Pattern)

-- the words that stand at the head of `text`, whose head is character `n`
unfoldable pub at_head : ℕ → Text → Text × List Pattern → List (ℕ × List Pattern)
at_head n text (key, payload) =
    if starts_with key text then (n + length key - 1, payload) ∷ [] else []

unfoldable pub scan : Words → ℕ → Text → List (ℕ × List Pattern)
unfolding at_head
scan words n [] = []
scan words n (c ∷ text) = gather (at_head n (c ∷ text)) words ++ scan words (n + 1) text

abbrev pub naive : AhoCorasick
naive = record {
  Automaton = Words;
  new = [];
  add_word = λ words key payload. words ++ (key, payload) ∷ [];
  make_automaton = λ words. words;
  iter = λ words text. some (scan words 0 text);
}

add_words-naive : (old words : Words) → add_words naive old words ≡ old ++ words
unfolding add_words
add_words-naive old [] = sym (append-nil old)
add_words-naive old ((key, payload) ∷ words) =
    add_words-naive (old ++ (key, payload) ∷ []) words
    ∙ append_assoc old ((key, payload) ∷ []) words

-- `EndsAt`, with the text's head at character `n`
abbrev EndsFrom : Words → ℕ → Text → ℕ → List Pattern → Type 0
EndsFrom words n text e payload =
    (key : Text) × (pre : Text) × (post : Text) × In (key, payload) words
    × (text ≡ pre ++ (key ++ post))
    × (n + length pre + length key ≡ e + 1)

only_one :
    (e f : ℕ) (p q : List Pattern)
    → In {A = ℕ × List Pattern} (e, p) ((f, q) ∷ [])
    → (e ≡ f) × (p ≡ q)
only_one e f p q i = ground arith

length_pos : (key : Text) → is_empty key ≡ false → 1 ≤ length key
length_pos [] h = cc
length_pos (c ∷ s) h = omega arith

module _ (words : Words)
    (nonempty : (key : Text) (p : List Pattern) → In (key, p) words → is_empty key ≡ false) where
  long : (key : Text) (p : List Pattern) → In (key, p) words → 1 ≤ length key
  long key p m = length_pos key (nonempty key p m)

  head_sound :
      (n : ℕ) (text : Text) (e : ℕ) (payload : List Pattern)
      → In (e, payload) (gather (at_head n text) words)
      → EndsFrom words n text e payload
  unfolding at_head
  head_sound n text e payload i =
      let ((key, p), m, j) = In-gather (at_head n text) (e, payload) words i in
      elim (Bool-cases (starts_with key text)) [
        | inl stands ↦
            let (post, split) = starts_with_sound key text stands in
            let fits = long key p m in
            let (same_end, same) = only_one e (n + length key - 1) payload p (rw stands at j) in
            (
              key,
              [],
              post,
              subst (λ q. In (key, q) words) (sym same) m,
              split,
              omega (arith, same_end),
            )
        | inr other ↦ absurd (rw other at j).1
      ]

  head_complete :
      (n : ℕ) (key post : Text) (e : ℕ) (payload : List Pattern)
      → In (key, payload) words
      → n + length key ≡ e + 1
      → In (e, payload) (gather (at_head n (key ++ post)) words)
  unfolding at_head
  head_complete n key post e payload i len =
      gather-In (at_head n (key ++ post)) (key, payload) (e, payload) words i
        (rw (starts_with_complete key post) (inl (ground arith)))

  scan_sound :
      (n : ℕ) (text : Text) (e : ℕ) (payload : List Pattern)
      → In (e, payload) (scan words n text)
      → EndsFrom words n text e payload
  unfolding scan
  scan_sound n [] e payload i = absurd i.1
  scan_sound n (c ∷ text) e payload i =
      elim (In-append (e, payload) (gather (at_head n (c ∷ text)) words) (scan words (n + 1) text)
        i) [
          | inl j ↦ head_sound n (c ∷ text) e payload j
          | inr j ↦
              let (key, pre, post, m, split, len) = scan_sound (n + 1) text e payload j in
              (key, c ∷ pre, post, m, ap (◌∷◌ c) split, omega (arith, len))
        ]

  scan_complete :
      (n : ℕ) (key pre post : Text) (e : ℕ) (payload : List Pattern)
      → In (key, payload) words
      → n + length pre + length key ≡ e + 1
      → In (e, payload) (scan words n (pre ++ (key ++ post)))
  unfolding scan
  scan_complete n [] [] post e payload m len = absurd (omega (arith, long [] payload m))
  scan_complete n (c ∷ key) [] post e payload m len =
      In-append_left (e, payload) _ _
        (head_complete n (c ∷ key) post e payload m (omega (arith, len)))
  scan_complete n key (c ∷ pre) post e payload m len =
      In-append_right (e, payload) (gather (at_head n (c ∷ (pre ++ (key ++ post)))) words) _
        (scan_complete (n + 1) key pre post e payload m (omega (arith, len)))

scan_nothing : (n : ℕ) (text : Text) → scan [] n text ≡ []
unfolding scan gather
scan_nothing n [] = refl
scan_nothing n (c ∷ text) = scan_nothing (n + 1) text

naive-finds :
    (words : Words) (text : Text) (e : ℕ) (payload : List Pattern)
    → ((key : Text) (p : List Pattern) → In (key, p) words → is_empty key ≡ false)
    → In (e, payload) (scan words 0 text) ↔ EndsAt words text e payload
naive-finds words text e payload nonempty = (
  λ i.
      let (key, pre, post, m, split, len) = scan_sound words nonempty 0 text e payload i in
      (key, pre, post, m, split, omega (arith, len)),
  λ (key, pre, post, m, split, len).
      subst (λ t. In (e, payload) (scan words 0 t)) (sym split)
        (scan_complete words nonempty 0 key pre post e payload m (omega (arith, len))),
)

-- The scan finds the words.
pub naive-FindsWords : FindsWords naive
naive-FindsWords = record {
  nothing_added = nothing;
  finds = λ words text e payload wk nonempty.
      subst (λ ws. In (e, payload) (scan ws 0 text) ↔ EndsAt words text e payload)
        (sym (add_words-naive [] words)) (naive-finds words text e payload nonempty);
}
  where
    nothing : (text : Text) → scan [] 0 text ≡ []
    nothing text = scan_nothing 0 text
