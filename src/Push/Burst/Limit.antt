-- ===== src/Push/Burst/Limit.antt =====
-- The promise of burst.py: how often a ticker is sent.
use news_project.Prelude.{
  ℕ, ◌+◌, ◌≤◌, ◌<◌, ◌≡◌, ◌↔◌, inl, inr, refl, sym, ◌∙◌, Bool, true, List, [], ◌∷◌, ◌++◌, arith, leb,
  if◌then◌else◌, length, length-append, In, keep, all, elem, elem→In, Text, text_eq,
}
use news_project.Common.Ordered.{Distinct}
use news_project.Push.Burst.{BurstSuppressor, bucket, expire, check, should_send}
use news_project.Push.Burst.Buckets.{has_room, bucket-check, check-answer, bucket-record_all}

-- Entries not older than the window.
abbrev pub is_recent : ℕ → ℕ → ℕ → Bool
is_recent window now t = leb now (t + window)

abbrev pub recent : ℕ → ℕ → List ℕ → List ℕ
recent window now = keep (is_recent window now)

abbrev pub Ascending : List ℕ → Type 0
Ascending [] = Unit
Ascending (x ∷ []) = Unit
Ascending (x ∷ y ∷ xs) = (x ≤ y) × Ascending (y ∷ xs)

abbrev pub AllAtMost : ℕ → List ℕ → Type 0
AllAtMost n [] = Unit
AllAtMost n (x ∷ xs) = (x ≤ n) × AllAtMost n xs

AllAtMost-mono : (m n : ℕ) (xs : List ℕ) → m ≤ n → AllAtMost m xs → AllAtMost n xs
AllAtMost-mono m n [] h a = tt
AllAtMost-mono m n (x ∷ xs) h a = (omega arith, AllAtMost-mono m n xs h a.1)

AllAtMost-append : (n : ℕ) (xs : List ℕ) → AllAtMost n xs → AllAtMost n (xs ++ n ∷ [])
AllAtMost-append n [] a = (omega arith, tt)
AllAtMost-append n (x ∷ xs) a = (a.0, AllAtMost-append n xs a.1)

Ascending-append : (n : ℕ) (xs : List ℕ) → Ascending xs → AllAtMost n xs → Ascending (xs ++ n ∷ [])
Ascending-append n [] s a = tt
Ascending-append n (x ∷ []) s a = (a.0, tt)
Ascending-append n (x ∷ y ∷ xs) s a = (s.0, Ascending-append n (y ∷ xs) s.1 a.1)

module _ (window now : ℕ) where
  -- everything after a recent entry is recent
  all_recent :
      (x : ℕ) (xs : List ℕ) → Ascending (x ∷ xs) → now ≤ x + window → recent window now xs ≡ xs
  unfolding keep
  all_recent x [] s h = refl
  all_recent x (y ∷ xs) s h = ground (arith, all_recent y xs)

  pub expire-eq-recent : (xs : List ℕ) → Ascending xs → expire window now xs ≡ recent window now xs
  unfolding expire keep
  expire-eq-recent [] s = refl
  expire-eq-recent (x ∷ []) s = ground arith
  expire-eq-recent (x ∷ y ∷ xs) s =
      ground (arith, expire-eq-recent (y ∷ xs) s.1, all_recent x (y ∷ xs) s)

  expire-Ascending : (xs : List ℕ) → Ascending xs → Ascending (expire window now xs)
  unfolding expire
  expire-Ascending [] s = tt
  expire-Ascending (x ∷ []) s = ground arith
  expire-Ascending (x ∷ y ∷ xs) s = ground (arith, expire-Ascending (y ∷ xs) s.1)

  expire-AllAtMost : (n : ℕ) (xs : List ℕ) → AllAtMost n xs → AllAtMost n (expire window now xs)
  unfolding expire
  expire-AllAtMost n [] a = tt
  expire-AllAtMost n (x ∷ xs) a = ground (arith, expire-AllAtMost n xs a.1)

  length-expire-le : (xs : List ℕ) → length (expire window now xs) ≤ length xs
  unfolding expire
  length-expire-le [] = omega arith
  length-expire-le (x ∷ xs) = ground (arith, length-expire-le xs)

-- Every bucket is in order, lies in the past and is within the threshold.
pub record IsValid (now : ℕ) (s : BurstSuppressor) : Type 0 where
  pub ordered : (t : Text) → Ascending (bucket t s.buckets)
  pub past : (t : Text) → AllAtMost now (bucket t s.buckets)
  pub limited : (t : Text) → length (bucket t s.buckets) ≤ s.threshold

pub IsValid-later : (m n : ℕ) (s : BurstSuppressor) → m ≤ n → IsValid m s → IsValid n s
IsValid-later m n s h v = record {
  ordered = v.ordered;
  past = λ t. AllAtMost-mono m n (bucket t s.buckets) h (v.past t);
  limited = v.limited;
}

all→each : (p : Text → Bool) (ts : List Text) → all p ts ≡ true → (t : Text) → In t ts → p t ≡ true
unfolding all
all→each p [] h t i = absurd i.1
all→each p (x ∷ ts) h t i = ground (arith, all→each p ts (ground arith) t)

each→all :
    (p : Text → Bool) (ts : List Text) → ((t : Text) → In t ts → p t ≡ true) → all p ts ≡ true
unfolding all
each→all p [] h = refl
each→all p (x ∷ ts) h = ground (arith, h x (inl refl), each→all p ts (λ t i. h t (inr i)))

module _ (now : ℕ) (ts : List Text) (s : BurstSuppressor) where
  answer_eq : (should_send now ts s).0 ≡ all (has_room s.window s.threshold now s.buckets) ts
  unfolding should_send
  answer_eq = ground (arith, check-answer s.window s.threshold now ts true s.buckets)

  -- In a valid state a message is sent exactly when each of its tickers was sent less often than the
  -- threshold within the window.
  pub should_send_iff :
      IsValid now s
      → ((should_send now ts s).0 ≡ true)
        ↔ ((t : Text) → In t ts → length (recent s.window now (bucket t s.buckets)) < s.threshold)
  unfolding has_room
  should_send_iff v = (
    λ h t i.
        let room =
          all→each (has_room s.window s.threshold now s.buckets) ts (sym answer_eq ∙ h) t i in
        ground (arith, expire-eq-recent s.window now (bucket t s.buckets) (v.ordered t)),
    λ h.
        answer_eq
        ∙ each→all (has_room s.window s.threshold now s.buckets) ts (λ t i.
          ground (arith, h t i, expire-eq-recent s.window now (bucket t s.buckets) (v.ordered t))),
  )

  -- what a call does to one bucket
  pub bucket-should_send :
      (t : Text)
      → Distinct ts
      → bucket t (should_send now ts s).1.buckets ≡ (
          if elem t ts
          then (if (should_send now ts s).0
              then expire s.window now (bucket t s.buckets) ++ now ∷ []
              else expire s.window now (bucket t s.buckets))
          else bucket t s.buckets)
  unfolding should_send
  bucket-should_send t d = ground (
    arith,
    bucket-check s.window s.threshold now ts true s.buckets t,
    bucket-record_all now ts (check s.window s.threshold now ts true s.buckets).1 t d,
  )

  pub same_threshold : (should_send now ts s).1.threshold ≡ s.threshold
  unfolding should_send
  same_threshold = refl

  pub same_window : (should_send now ts s).1.window ≡ s.window
  unfolding should_send
  same_window = refl

  -- a sent ticker had room
  room :
      (t : Text)
      → (should_send now ts s).0 ≡ true
      → elem t ts ≡ true
      → length (expire s.window now (bucket t s.buckets)) < s.threshold
  unfolding has_room
  room t sent there =
      let free =
        all→each (has_room s.window s.threshold now s.buckets) ts (sym answer_eq ∙ sent) t
          (elem→In t ts there) in
      ground arith

  module _ (d : Distinct ts) (v : IsValid now s) where
    -- The three parts of `IsValid` for one ticker after the call.
    bucket_after :
        (t : Text)
        → let buf = bucket t (should_send now ts s).1.buckets in
          Ascending buf × AllAtMost now buf × (length buf ≤ s.threshold)
    bucket_after t =
        let old = bucket t s.buckets in
        let live = expire s.window now old in
        let o = expire-Ascending s.window now old (v.ordered t) in
        let p = expire-AllAtMost s.window now now old (v.past t) in
        rw (bucket-should_send t d) (
          ground (
            arith,
            v.ordered t,
            v.past t,
            v.limited t,
            o,
            p,
            length-expire-le s.window now old,
            room t,
            Ascending-append now live o p,
            AllAtMost-append now live p,
            length-append live (now ∷ []),
          ))

    -- A call for distinct tickers keeps a valid state valid.
    pub should_send-IsValid : IsValid now (should_send now ts s).1
    should_send-IsValid = record {
      ordered = λ t. (bucket_after t).0;
      past = λ t. (bucket_after t).1;
      limited = λ t. rw same_threshold (bucket_after t).2;
    }
