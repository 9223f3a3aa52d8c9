-- ===== src/Quotes/Ring/History.antt =====
-- What a ring of src/quote_watcher/store/tick.py remembers.
use mathlib.Core.List.{append_assoc, append-nil}
use news_project.Prelude.{
  ℕ, zero, suc, ◌+◌, ◌-◌, ◌≤◌, ◌≡◌, refl, ap, ◌∙◌, sym, subst, some, List, [], ◌∷◌, ◌++◌, drop,
  length, length-append, arith, if◌then◌else◌, Text, text_eq, text_beq, text_beq_iff, Bool-cases,
  by_branch, inl, inr,
}
use news_project.Prelude.Dict.{lookup, lookup-insert}
use news_project.Quotes.Ring.{TickRing, last, elements, append, history}

module _ {A : Type 0} where
  pub length-drop : (k : ℕ) (xs : List A) → length (drop k xs) ≡ length xs - k
  length-drop zero xs = omega arith
  length-drop (suc k) [] = omega arith
  length-drop (suc k) (x ∷ xs) = omega (arith, length-drop k xs)

  drop-append : (k : ℕ) (xs ys : List A) → k ≤ length xs → drop k xs ++ ys ≡ drop k (xs ++ ys)
  drop-append zero xs ys h = refl
  drop-append (suc k) [] ys h = absurd (omega arith)
  drop-append (suc k) (x ∷ xs) ys h = drop-append k xs ys (omega arith)

  drop-nil : (k : ℕ) → drop {A = A} k [] ≡ []
  drop-nil zero = refl
  drop-nil (suc k) = refl

  drop-same : (j k : ℕ) (xs : List A) → j ≡ k → drop j xs ≡ drop k xs
  drop-same j k xs e = ap (λ n. drop n xs) e

  drop-drop : (a b : ℕ) (xs : List A) → drop a (drop b xs) ≡ drop (b + a) xs
  drop-drop a zero xs = drop-same a (0 + a) xs (omega arith)
  drop-drop a (suc b) [] = drop-nil a ∙ sym (drop-nil (suc b + a))
  drop-drop a (suc b) (x ∷ xs) =
      drop-drop a b xs ∙ sym (drop-same (suc b + a) (suc (b + a)) (x ∷ xs) (omega arith))

  last-short : (n : ℕ) (xs : List A) → length xs ≤ n → last n xs ≡ xs
  unfolding last
  last-short n xs h = drop-same (length xs - n) 0 xs (omega arith)

  length-last-le : (n : ℕ) (xs : List A) → length (last n xs) ≤ n
  unfolding last
  length-last-le n xs = omega (arith, length-drop (length xs - n) xs)

  -- what is forgotten first does not matter later
  last-last : (n : ℕ) (xs ys : List A) → last n (last n xs ++ ys) ≡ last n (xs ++ ys)
  unfolding last
  last-last n xs ys =
      let k = length xs - n in
      let kept = drop-append k xs ys (omega arith) in
      let size = length-drop k (xs ++ ys) in
      let whole = length-append xs ys in
      ap (λ zs. drop (length zs - n) zs) kept
      ∙ drop-drop (length (drop k (xs ++ ys)) - n) k (xs ++ ys)
      ∙ drop-same (k + (length (drop k (xs ++ ys)) - n)) (length (xs ++ ys) - n) (xs ++ ys)
          (omega (arith, size, whole))

elements-some : {A : Type 0} (xs : List A) → elements (some xs) ≡ xs
unfolding elements
elements-some xs = refl

module _ {A : Type 0} (ticker_of : A → Text) where
  -- The ring after any snapshots, the first one first.
  abbrev pub after : List A → TickRing A → TickRing A
  after [] ring = ring
  after (s ∷ snaps) ring = after snaps (append ticker_of s ring)

  -- The snapshots of a ticker.
  abbrev pub snaps_of : Text → List A → List A
  snaps_of ticker [] = []
  snaps_of ticker (s ∷ snaps) =
      if text_beq (ticker_of s) ticker then s ∷ snaps_of ticker snaps else snaps_of ticker snaps

  history-append :
      (ticker : Text) (s : A) (ring : TickRing A)
      → history ticker (append ticker_of s ring) ≡ (
          if text_beq (ticker_of s) ticker
          then last ring.max (history ticker ring ++ s ∷ [])
          else history ticker ring)
  unfolding history append
  history-append ticker s ring =
      let d = ring.data_of in
      let v = last ring.max (elements (lookup (ticker_of s) d) ++ s ∷ []) in
      let kept = last ring.max (elements (lookup ticker d) ++ s ∷ []) in
      ap elements (lookup-insert (ticker_of s) ticker v d)
      ∙ elim (Bool-cases (text_beq (ticker_of s) ticker)) [
        | inl e ↦
            ap (λ b. elements (if b then some v else lookup ticker d)) e
            ∙ elements-some v
            ∙ ap (λ t. last ring.max (elements (lookup t d) ++ s ∷ []))
                ((text_beq_iff (ticker_of s) ticker).0 e)
            ∙ sym (ap (λ b. if b then kept else elements (lookup ticker d)) e)
        | inr e ↦
            ap (λ b. elements (if b then some v else lookup ticker d)) e
            ∙ sym (ap (λ b. if b then kept else elements (lookup ticker d)) e)
      ]

  length-history-append :
      (ticker : Text) (s : A) (ring : TickRing A)
      → length (history ticker ring) ≤ ring.max
      → length (history ticker (append ticker_of s ring)) ≤ ring.max
  length-history-append ticker s ring h =
      subst (λ xs. length xs ≤ ring.max) (sym (history-append ticker s ring))
        (by_branch (λ xs. length xs ≤ ring.max) (text_beq (ticker_of s) ticker)
          (last ring.max (history ticker ring ++ s ∷ [])) (history ticker ring)
          (λ e. length-last-le ring.max (history ticker ring ++ s ∷ [])) (λ e. h))

  history-after :
      (ticker : Text) (snaps : List A) (ring : TickRing A)
      → length (history ticker ring) ≤ ring.max
      → history ticker (after snaps ring)
        ≡ last ring.max (history ticker ring ++ snaps_of ticker snaps)
  unfolding append
  history-after ticker [] ring h =
      sym (last-short ring.max (history ticker ring) h)
      ∙ ap (last ring.max) (sym (append-nil (history ticker ring)))
  history-after ticker (s ∷ snaps) ring h =
      let old = history ticker ring in
      let rest = snaps_of ticker snaps in
      history-after ticker snaps (append ticker_of s ring) (length-history-append ticker s ring h)
      ∙ ap (λ xs. last ring.max (xs ++ rest)) (history-append ticker s ring)
      ∙ elim (Bool-cases (text_beq (ticker_of s) ticker)) [
        | inl e ↦
            ap (λ b. last ring.max ((if b then last ring.max (old ++ s ∷ []) else old) ++ rest)) e
            ∙ last-last ring.max (old ++ s ∷ []) rest
            ∙ ap (last ring.max) (append_assoc old (s ∷ []) rest)
            ∙ sym (ap (λ b. last ring.max (old ++ (if b then s ∷ rest else rest))) e)
        | inr e ↦
            ap (λ b. last ring.max ((if b then last ring.max (old ++ s ∷ []) else old) ++ rest)) e
            ∙ sym (ap (λ b. last ring.max (old ++ (if b then s ∷ rest else rest))) e)
      ]

  -- After any snapshots on a new ring, the history of a ticker is the last `max` of its snapshots, in
  -- their order.
  pub history-after_new :
      (ticker : Text) (snaps : List A) (max : ℕ)
      → history ticker (after snaps (record { max = max; data_of = [] }))
        ≡ last max (snaps_of ticker snaps)
  unfolding history elements lookup
  history-after_new ticker snaps max =
      history-after ticker snaps (record { max = max; data_of = [] }) (omega arith)
