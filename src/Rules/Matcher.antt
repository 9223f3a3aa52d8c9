-- ===== src/Rules/Matcher.antt =====
-- rules/matcher.py. The automaton of `pyahocorasick` is a parameter: its calls that the code makes,
-- and the documented result of `iter`.
pub mod Boundary
pub mod Groups
pub mod Correct
pub mod Naive
use news_project.Prelude.{
  ℕ, suc, ◌+◌, ◌-◌, ◌≡◌, ◌↔◌, Bool, true, false, not, ◌&&◌, ◌||◌, Option, none, some, List, [], ◌∷◌,
  ◌++◌, map, leb, nat_beq, if◌then◌else◌, length, take, drop, get_elem?, In, keep, gather, is_empty,
  Text, text_eq,
}
use news_project.Prelude.Dict.{Dict, lookup, insert}
use news_project.Rules.Patterns.{Pattern, Match}

-- `payload` ends at `e` in `text`: an added word stands there.
abbrev pub EndsAt : Dict Text (List Pattern) → Text → ℕ → List Pattern → Type 0
EndsAt words text e payload =
    (key : Text) × (pre : Text) × (post : Text) × In (key, payload) words
    × (text ≡ pre ++ (key ++ post))
    × (length pre + length key ≡ e + 1)

-- `ahocorasick.Automaton`. `iter` is `none` where it raises.
pub record AhoCorasick : Type 1 where
  pub Automaton : Type 0
  pub new : Automaton
  pub add_word : Automaton → Text → List Pattern → Automaton
  pub make_automaton : Automaton → Automaton
  pub iter : Automaton → Text → Option (List (ℕ × List Pattern))

-- `c.isascii() and c.isalnum()`
unfoldable pub is_word_char : ℕ → Bool
is_word_char c =
    (leb b'0' c && leb c b'9') || ((leb b'A' c && leb c b'Z') || (leb b'a' c && leb c b'z'))

-- `_is_word_char(text[i])`; the code makes no call with `i` out of range
unfoldable pub word_char_at : Text → ℕ → Bool
unfolding is_word_char
word_char_at text i = elim (get_elem? text i) [ none ↦ false | some c ↦ is_word_char c ]

unfoldable pub word_boundary_ok : Text → ℕ → ℕ → Bool
unfolding word_char_at
word_boundary_ok text start end =
    let left_ok = nat_beq start 0 || not (word_char_at text (start - 1)) in
    let right_ok = nat_beq (end + 1) (length text) || not (word_char_at text (end + 1)) in
    left_ok && right_ok

-- `grouped.setdefault(p.text, []).append(p)`
unfoldable pub add_to_group : Pattern → Dict Text (List Pattern) → Dict Text (List Pattern)
add_to_group p d =
    insert p.text (elim (lookup p.text d) [ none ↦ p ∷ [] | some group ↦ group ++ p ∷ [] ]) d

unfoldable pub group_patterns : Dict Text (List Pattern) → List Pattern → Dict Text (List Pattern)
group_patterns d [] = d
group_patterns d (p ∷ ps) = group_patterns (add_to_group p d) ps

-- `if text:` drops the empty key
unfoldable pub words_of : Dict Text (List Pattern) → Dict Text (List Pattern)
words_of = keep (λ entry. not (is_empty entry.0))

module _ (ac : AhoCorasick) where
  open ac use {Automaton, new, add_word, make_automaton, iter}

  unfoldable pub add_words : Automaton → Dict Text (List Pattern) → Automaton
  add_words a [] = a
  add_words a ((key, group) ∷ words) = add_words (add_word a key group) words

  -- `AhoCorasickMatcher.rebuild`: the new value of `self._auto`
  unfoldable pub rebuild : List Pattern → Automaton
  unfolding words_of
  rebuild patterns =
      let auto = add_words new (words_of (group_patterns [] patterns)) in
      if is_empty patterns then auto else make_automaton auto

  module _ (lower : Text → Text) where
    -- one end position with its payload
    unfoldable pub matches_at : Text → ℕ × List Pattern → List Match
    matches_at text_lc (end_idx, payloads) =
        map
          (λ (p : Pattern).
            let start_idx = end_idx + 1 - length p.text in
            record {
              pattern = p;
              start = start_idx;
              end = end_idx;
              matched_text = take (end_idx + 1 - start_idx) (drop start_idx text_lc);
            })
          (keep
            (λ (p : Pattern). not (
              p.is_english && not (word_boundary_ok text_lc (end_idx + 1 - length p.text) end_idx)))
            payloads)

    -- `AhoCorasickMatcher.find_all`; the first argument is `self._auto`
    unfoldable pub find_all : Option Automaton → Text → List Match
    unfolding matches_at
    find_all none text = []
    find_all (some auto) text =
        let text_lc = lower text in
        elim (iter auto text_lc) [ none ↦ [] | some results ↦ gather (matches_at text_lc) results ]
