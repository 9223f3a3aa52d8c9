-- ===== src/Rules/Matcher/Boundary.antt =====
-- What stands around an occurrence: the word test of rules/matcher.py in terms of the text before
-- and the text after.
use mathlib.Core.List.{append_assoc}
use news_project.Prelude.{
  ℕ, suc, ◌+◌, ◌-◌, ◌≡◌, refl, Bool, false, not, ◌&&◌, ◌||◌, List, [], ◌∷◌, ◌++◌, arith, length,
  take, drop, length-append, Text, nat_beq,
}
use news_project.Rules.Matcher.{is_word_char, word_char_at, word_boundary_ok}

-- The last character of `s` is a word character.
unfoldable pub ends_with_word : Text → Bool
unfolding is_word_char
ends_with_word [] = false
ends_with_word (c ∷ []) = is_word_char c
ends_with_word (c ∷ d ∷ s) = ends_with_word (d ∷ s)

-- The first character of `s` is a word character.
unfoldable pub starts_with_word : Text → Bool
unfolding is_word_char
starts_with_word [] = false
starts_with_word (c ∷ s) = is_word_char c

pub drop-append {ℓ} : {A : Type ℓ} (xs ys : List A) → drop (length xs) (xs ++ ys) ≡ ys
drop-append [] ys = refl
drop-append (x ∷ xs) ys = drop-append xs ys

pub take-append {ℓ} : {A : Type ℓ} (xs ys : List A) → take (length xs) (xs ++ ys) ≡ xs
take-append [] ys = refl
take-append (x ∷ xs) ys = cc (take-append xs ys)

word_at_after : (pre post : Text) → word_char_at (pre ++ post) (length pre) ≡ starts_with_word post
unfolding word_char_at starts_with_word
word_at_after [] [] = refl
word_at_after [] (c ∷ post) = refl
word_at_after (c ∷ pre) post = word_at_after pre post

word_at_before :
    (c : ℕ) (pre rest : Text)
    → word_char_at ((c ∷ pre) ++ rest) (length pre) ≡ ends_with_word (c ∷ pre)
unfolding word_char_at ends_with_word
word_at_before c [] rest = refl
word_at_before c (d ∷ pre) rest = word_at_before d pre rest

-- At the end of a text there is no word character.
starts_with_word_at_end : (post : Text) → length post ≡ 0 → starts_with_word post ≡ false
unfolding starts_with_word
starts_with_word_at_end [] h = refl
starts_with_word_at_end (c ∷ post) h = absurd (omega arith)

left_test :
    (pre rest : Text)
    → (nat_beq (length pre) 0 || not (word_char_at (pre ++ rest) (length pre - 1)))
      ≡ not (ends_with_word pre)
left_test [] rest = unfold ends_with_word in refl
left_test (c ∷ pre) rest =
    let e : suc (length pre) - 1 ≡ length pre = omega arith in
    rw (e, word_at_before c pre rest) (ground arith)

right_test :
    (pre key post : Text) (end : ℕ)
    → length pre + length key ≡ end + 1
    → let text = pre ++ (key ++ post) in
      (nat_beq (end + 1) (length text) || not (word_char_at text (end + 1)))
      ≡ not (starts_with_word post)
right_test pre key post end h =
    rw (← h, ← append_assoc pre key post, ← length-append pre key, word_at_after (pre ++ key) post)
      (ground (arith, length-append (pre ++ key) post, starts_with_word_at_end post))

-- The code's test at the place of `key` in `pre ++ key ++ post`.
pub word_boundary_ok_lem :
    (pre key post : Text) (end : ℕ)
    → length pre + length key ≡ end + 1
    → word_boundary_ok (pre ++ (key ++ post)) (length pre) end
      ≡ not (ends_with_word pre) && not (starts_with_word post)
unfolding word_boundary_ok
word_boundary_ok_lem pre key post end h =
    rw (left_test pre (key ++ post), right_test pre key post end h)
