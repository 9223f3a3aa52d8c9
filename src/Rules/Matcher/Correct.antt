-- ===== src/Rules/Matcher/Correct.antt =====
-- `find_all` of rules/matcher.py, after `rebuild`, against the occurrences of the patterns.
use news_project.Prelude.{
  ℕ, ◌+◌, ◌-◌, ◌≤◌, ◌≡◌, ◌↔◌, refl, sym, inl, inr, Bool, true, false, not, ◌&&◌, Option, none, some,
  List, [], ◌∷◌, ◌++◌, arith, is_empty, length, take, drop, In, In-map, map-In, In-keep, keep-In,
  In-gather, gather-In, gather, keep, map, ap, Text, text_eq, Bool-cases, subst,
}
use news_project.Prelude.Dict.{Dict, WellKeyed}
use news_project.Rules.Patterns.{Pattern, Match}
use news_project.Rules.Matcher.{
  AhoCorasick, EndsAt, group_patterns, words_of, add_words, rebuild, matches_at, find_all,
}
use news_project.Rules.Matcher.Boundary.{
  ends_with_word, starts_with_word, drop-append, take-append, word_boundary_ok_lem,
}
use news_project.Rules.Matcher.Groups.{
  words_of-WellKeyed, words_of-nonempty, words_of_sound, words_of_complete,
}

-- What `iter` gave, with the `except` that turns a raise into no result.
abbrev pub found : Option (List (ℕ × List Pattern)) → List (ℕ × List Pattern)
found none = []
found (some results) = results

-- What pyahocorasick documents of `iter`: after `make_automaton` it yields, for each end position
-- of an added word, the word's payload, and nothing else. A new automaton yields nothing.
pub record FindsWords (ac : AhoCorasick) : Type 0 where
  pub nothing_added : (text : Text) → found (ac.iter ac.new text) ≡ []
  pub finds :
      (words : Dict Text (List Pattern)) (text : Text) (e : ℕ) (payload : List Pattern)
      → WellKeyed words
      → ((key : Text) (p : List Pattern) → In (key, p) words → is_empty key ≡ false)
      → In (e, payload) (found (ac.iter (ac.make_automaton (add_words ac ac.new words)) text))
        ↔ EndsAt words text e payload

-- `m` is an occurrence of one of the patterns in the lower-case text; an English one stands alone.
pub record Hit (lower : Text → Text) (patterns : List Pattern) (text : Text) (m : Match)
    : Type 0 where
  pub pre : Text
  pub post : Text
  pub known : In m.pattern patterns
  pub nonempty : is_empty m.pattern.text ≡ false
  pub split : lower text ≡ pre ++ (m.pattern.text ++ post)
  pub starts : m.start ≡ length pre
  pub ends : m.end + 1 ≡ length pre + length m.pattern.text
  pub matched : m.matched_text ≡ m.pattern.text
  pub alone :
      m.pattern.is_english ≡ true → (ends_with_word pre ≡ false) × (starts_with_word post ≡ false)

module _ (ac : AhoCorasick) (lower : Text → Text) where
  find_all-eq :
      (auto : ac.Automaton) (text : Text)
      → find_all ac lower (some auto) text
        ≡ gather (matches_at ac lower (lower text)) (found (ac.iter auto (lower text)))
  unfolding find_all gather
  find_all-eq auto text = ground arith

module _ (ac : AhoCorasick) (fw : FindsWords ac) where
  -- the automaton reports an end position exactly where a word ends
  reports :
      (patterns : List Pattern) (text : Text) (e : ℕ) (payload : List Pattern)
      → In (e, payload) (found (ac.iter (rebuild ac patterns) text))
        ↔ EndsAt (words_of (group_patterns [] patterns)) text e payload
  unfolding rebuild add_words words_of keep group_patterns
  reports [] text e payload = (
    λ i. absurd (subst (In (e, payload)) (fw.nothing_added text) i).1,
    λ (key, pre, post, i, at, len). absurd i.1,
  )
  reports (p ∷ ps) text e payload =
      fw.finds (words_of (group_patterns [] (p ∷ ps))) text e payload (words_of-WellKeyed (p ∷ ps))
        (words_of-nonempty (p ∷ ps))

-- The match that `find_all` builds for a pattern at its place.
placed : Pattern → Text → Text → Match
placed p pre post = record {
  pattern = p;
  start = length pre;
  end = length pre + length p.text - 1;
  matched_text = p.text;
}

-- The code's filter, in terms of what stands around.
stands : Text → Text → Pattern → Bool
stands pre post p =
    not (p.is_english && not (not (ends_with_word pre) && not (starts_with_word post)))

module _ (ac : AhoCorasick) (lower : Text → Text) (pre key post : Text) (e : ℕ)
    (at_end : length pre + length key ≡ e + 1) where
  start_eq : (p : Pattern) → p.text ≡ key → e + 1 - length p.text ≡ length pre
  start_eq p h = omega (arith, at_end, ap {B = ℕ} length h)

  slice_eq : take (e + 1 - length pre) (drop (length pre) (pre ++ (key ++ post))) ≡ key
  slice_eq =
      let n : e + 1 - length pre ≡ length key = omega arith in
      rw (drop-append pre (key ++ post), n) (take-append key post)

  built_eq :
      (p : Pattern)
      → p.text ≡ key
      → let start = e + 1 - length p.text in
        ◌≡◌ {A = Match}
          (record {
            pattern = p;
            start = start;
            end = e;
            matched_text = take (e + 1 - start) (drop start (pre ++ (key ++ post)));
          })
          (placed p pre post)
  unfolding placed
  built_eq p h = ground (arith, start_eq p h, slice_eq, ap {B = ℕ} length h)

  matches_at_place :
      (payload : List Pattern)
      → ((p : Pattern) → In p payload → p.text ≡ key)
      → matches_at ac lower (pre ++ (key ++ post)) (e, payload)
        ≡ map (λ p. placed p pre post) (keep (stands pre post) payload)
  unfolding matches_at keep stands
  matches_at_place [] h = refl
  matches_at_place (p ∷ ps) h =
      let built = built_eq p (h p (inl refl)) in
      let rest = matches_at_place ps (λ q m. h q (inr m)) in
      rw (start_eq p (h p (inl refl)), word_boundary_ok_lem pre key post e at_end)
        (elim (Bool-cases (stands pre post p)) [
          | inl s ↦ rw s (λ i. built i ∷ rest i)
          | inr s ↦ rw s rest
        ])

length_pos : (s : Text) → is_empty s ≡ false → 1 ≤ length s
length_pos [] h = cc
length_pos (c ∷ s) h = omega arith

module _ (lower : Text → Text) (patterns : List Pattern) (text : Text) where
  placed-Hit :
      (p : Pattern) (pre post : Text)
      → In p patterns
      → is_empty p.text ≡ false
      → lower text ≡ pre ++ (p.text ++ post)
      → stands pre post p ≡ true
      → Hit lower patterns text (placed p pre post)
  unfolding placed stands
  placed-Hit p pre post known nonempty split alone = record {
    pre = pre;
    post = post;
    known = known;
    nonempty = nonempty;
    split = split;
    starts = refl;
    ends = omega (arith, length_pos p.text nonempty);
    matched = refl;
    alone = λ english. ground arith;
  }

  -- every place where a pattern stands is a hit
  pub match_occurrence :
      (p : Pattern) (pre post : Text)
      → In p patterns
      → is_empty p.text ≡ false
      → lower text ≡ pre ++ (p.text ++ post)
      → (p.is_english ≡ true → (ends_with_word pre ≡ false) × (starts_with_word post ≡ false))
      → (m : Match) × Hit lower patterns text m × (m.pattern ≡ p)
  match_occurrence p pre post known nonempty split alone = (
    placed p pre post,
    placed-Hit p pre post known nonempty split (elim (Bool-cases p.is_english) [
      | inl english ↦ unfold stands in ground (arith, alone english)
      | inr other ↦ unfold stands in ground arith
    ]),
    unfold placed in refl,
  )

  Hit-stands : (m : Match) (h : Hit lower patterns text m) → stands h.pre h.post m.pattern ≡ true
  unfolding stands
  Hit-stands m h = elim (Bool-cases m.pattern.is_english) [
    | inl english ↦ ground (arith, h.alone english)
    | inr other ↦ ground arith
  ]

  Hit-placed : (m : Match) (h : Hit lower patterns text m) → m ≡ placed m.pattern h.pre h.post
  unfolding placed
  Hit-placed m h = ground (arith, h.starts, h.ends, h.matched)

module _ (ac : AhoCorasick) (fw : FindsWords ac) (lower : Text → Text) (patterns : List Pattern)
    (text : Text) where
  sound_at :
      (m : Match) (e : ℕ) (payload : List Pattern)
      → EndsAt (words_of (group_patterns [] patterns)) (lower text) e payload
      → In m (matches_at ac lower (lower text) (e, payload))
      → Hit lower patterns text m
  sound_at m e payload (key, pre, post, w, split, len) i =
      let from = words_of_sound patterns key payload in
      let (p, j, built) =
        In-map (λ p. placed p pre post) m (keep (stands pre post) payload)
          (subst (In m)
            (matches_at_place ac lower pre key post e len payload (λ p q. (from p w q).0))
            (subst (λ t. In m (matches_at ac lower t (e, payload))) split i)) in
      let (q, alone) = In-keep (stands pre post) p payload j in
      let (same, known, nonempty) = from p w q in
      rw built
        (placed-Hit lower patterns text p pre post known (rw same nonempty) (rw same split) alone)

  sound :
      (m : Match)
      → In m (find_all ac lower (some (rebuild ac patterns)) text)
      → Hit lower patterns text m
  sound m i =
      let ((e, payload), j, k) =
        In-gather (matches_at ac lower (lower text)) m _
          (subst (In m) (find_all-eq ac lower (rebuild ac patterns) text) i) in
      sound_at m e payload ((reports ac fw patterns (lower text) e payload).0 j) k

  complete :
      (m : Match)
      → Hit lower patterns text m
      → In m (find_all ac lower (some (rebuild ac patterns)) text)
  complete m h =
      let p = m.pattern in
      let (group, w, j) = words_of_complete patterns p h.known h.nonempty in
      let at : In m (matches_at ac lower (h.pre ++ (p.text ++ h.post)) (m.end, group)) =
        subst (In m)
          (sym (
            matches_at_place ac lower h.pre p.text h.post m.end (sym h.ends) group
              (λ q n. (words_of_sound patterns p.text group q w n).0)))
          (subst
            (λ (x : Match).
              In x (map (λ q. placed q h.pre h.post) (keep (stands h.pre h.post) group)))
            (sym (Hit-placed lower patterns text m h))
            (map-In (λ q. placed q h.pre h.post) p (keep (stands h.pre h.post) group)
              (keep-In (stands h.pre h.post) p group j (Hit-stands lower patterns text m h)))) in
      subst (In m) (sym (find_all-eq ac lower (rebuild ac patterns) text)) (
        gather-In (matches_at ac lower (lower text)) (m.end, group) m _
          ((reports ac fw patterns (lower text) m.end group).1
            (p.text, h.pre, h.post, w, h.split, sym h.ends))
          (subst (λ t. In m (matches_at ac lower t (m.end, group))) (sym h.split) at))

  -- With an automaton that finds the occurrences of its words, after `rebuild` a match is in the result
  -- of `find_all` if and only if it is a hit: an occurrence of a non-empty pattern in the lower-case
  -- text, with its bounds and text, and standing alone if the pattern is English.
  pub find_all_iff :
      (m : Match)
      → In m (find_all ac lower (some (rebuild ac patterns)) text) ↔ Hit lower patterns text m
  find_all_iff m = (sound m, complete m)
