-- ===== src/Push/Burst/Rate.antt =====
-- burst.py over a sequence of calls: the rate at which one ticker is sent.
use news_project.Prelude.{
  ℕ, ◌≤◌, ◌≡◌, refl, sym, ap, ◌∙◌, ◌&&◌, List, [], ◌∷◌, ◌++◌, arith, if◌then◌else◌, length, keep,
  elem, Text, text_eq,
}
use news_project.Prelude.Dict.{lookup}
use news_project.Common.Ordered.{Distinct}
use news_project.Push.Burst.{BurstSuppressor, bucket, should_send}
use news_project.Push.Burst.Limit.{
  recent, IsValid, IsValid-later, should_send-IsValid, bucket-should_send, same_threshold,
  same_window, expire-eq-recent,
}

-- A call: the clock's reading and the tickers.
abbrev pub Calls : Type 0
Calls = List (ℕ × List Text)

-- The times at which a message with ticker `t` was sent, after those in `sent`.
unfoldable pub sent_times : Text → List ℕ → Calls → BurstSuppressor → List ℕ × BurstSuppressor
unfolding should_send
sent_times t sent [] s = (sent, s)
sent_times t sent ((now, ts) ∷ calls) s =
    let (send, s') = should_send now ts s in
    sent_times t (if send && elem t ts then sent ++ now ∷ [] else sent) calls s'

-- The clock does not go back after `start`, and no call repeats a ticker.
abbrev pub Schedule : ℕ → Calls → Type 0
Schedule start [] = Unit
Schedule start ((now, ts) ∷ calls) = (start ≤ now) × Distinct ts × Schedule now calls

-- The time of the last call.
abbrev pub last_time : ℕ → Calls → ℕ
last_time start [] = start
last_time start ((now, ts) ∷ calls) = last_time now calls

-- `BurstSuppressor(window_seconds=window, threshold=threshold)`
abbrev pub new_suppressor : ℕ → ℕ → BurstSuppressor
new_suppressor window threshold = record { window = window; threshold = threshold; buckets = [] }

recent-recent : (w m n : ℕ) (xs : List ℕ) → m ≤ n → recent w n (recent w m xs) ≡ recent w n xs
unfolding keep
recent-recent w m n [] h = refl
recent-recent w m n (x ∷ xs) h = ground (arith, recent-recent w m n xs)

recent-append : (w n : ℕ) (xs : List ℕ) → recent w n (xs ++ n ∷ []) ≡ recent w n xs ++ n ∷ []
unfolding keep
recent-append w n [] = ground arith
recent-append w n (x ∷ xs) = ground (arith, recent-append w n xs)

length-recent-le : (w n : ℕ) (xs : List ℕ) → length (recent w n xs) ≤ length xs
unfolding keep
length-recent-le w n [] = omega arith
length-recent-le w n (x ∷ xs) = ground (arith, length-recent-le w n xs)

module _ (t : Text) where
  -- The bucket has the sends that still count.
  record Tracks (w threshold now : ℕ) (sent : List ℕ) (s : BurstSuppressor) : Type 0 where
    window : s.window ≡ w
    limit : s.threshold ≡ threshold
    valid : IsValid now s
    same : recent w now sent ≡ recent w now (bucket t s.buckets)

  step-same :
      (w threshold m now : ℕ) (ts : List Text) (sent : List ℕ) (s : BurstSuppressor)
      → m ≤ now
      → Distinct ts
      → Tracks w threshold m sent s
      → recent w now (if (should_send now ts s).0 && elem t ts then sent ++ now ∷ [] else sent)
        ≡ recent w now (bucket t (should_send now ts s).1.buckets)
  step-same w threshold m now ts sent s h d k =
      let old = bucket t s.buckets in
      let later : recent w now sent ≡ recent w now old =
        sym (recent-recent w m now sent h)
        ∙ ap (recent w now) k.same
        ∙ recent-recent w m now old h in
      rw
        (
          bucket-should_send now ts s t d,
          expire-eq-recent s.window now old (k.valid.ordered t),
          k.window,
        )
        (ground (
          arith,
          later,
          recent-append w now sent,
          recent-append w now (recent w now old),
          recent-recent w now now old,
        ))

  step-Tracks :
      (w threshold m now : ℕ) (ts : List Text) (sent : List ℕ) (s : BurstSuppressor)
      → m ≤ now
      → Distinct ts
      → Tracks w threshold m sent s
      → Tracks w threshold now
          (if (should_send now ts s).0 && elem t ts then sent ++ now ∷ [] else sent)
          (should_send now ts s).1
  step-Tracks w threshold m now ts sent s h d k = record {
    window = same_window now ts s ∙ k.window;
    limit = same_threshold now ts s ∙ k.limit;
    valid = should_send-IsValid now ts s d (IsValid-later m now s h k.valid);
    same = step-same w threshold m now ts sent s h d k;
  }

  sent_times-Tracks :
      (w threshold m : ℕ) (calls : Calls) (sent : List ℕ) (s : BurstSuppressor)
      → Schedule m calls
      → Tracks w threshold m sent s
      → Tracks w threshold
          (last_time m calls)
          (sent_times t sent calls s).0
          (sent_times t sent calls s).1
  sent_times-Tracks w threshold m [] sent s ok k = unfold sent_times in k
  sent_times-Tracks w threshold m ((now, ts) ∷ calls) sent s (later, d, rest) k = go (
      sent_times-Tracks w threshold now calls _ _ rest
        (step-Tracks w threshold m now ts sent s later d k))
    where
      go :
          let sent' = if (should_send now ts s).0 && elem t ts then sent ++ now ∷ [] else sent in
          let (r, s') = sent_times t sent' calls (should_send now ts s).1 in
          Tracks w threshold (last_time now calls) r s'
          → Tracks w threshold
              (last_time now calls)
              (sent_times t sent ((now, ts) ∷ calls) s).0
              (sent_times t sent ((now, ts) ∷ calls) s).1
      go r = unfold sent_times in r

new-Tracks :
    (t : Text) (w threshold start : ℕ) → Tracks t w threshold start [] (new_suppressor w threshold)
new-Tracks t w threshold start = record {
  window = refl;
  limit = refl;
  valid = record {
    ordered = λ k. unfold bucket lookup in tt;
    past = λ k. unfold bucket lookup in tt;
    limited = λ k. unfold bucket lookup in omega arith;
  };
  same = unfold bucket lookup in refl;
}

-- Over any calls to a new suppressor, with a clock that does not go back and no ticker twice in one
-- call, a ticker is sent at most `threshold` times within the window that ends at any time from the
-- last call on.
pub sent_times-limited :
    (t : Text) (window threshold start now : ℕ) (calls : Calls)
    → Schedule start calls
    → last_time start calls ≤ now
    → length (recent window now (sent_times t [] calls (new_suppressor window threshold)).0)
      ≤ threshold
sent_times-limited t window threshold start now calls ok h =
    let r = sent_times t [] calls (new_suppressor window threshold) in
    let k =
      sent_times-Tracks t window threshold start calls [] (new_suppressor window threshold) ok
        (new-Tracks t window threshold start) in
    let last = last_time start calls in
    rw (← recent-recent window last now r.0 h, k.same)
      (omega (
        arith,
        length-recent-le window now (recent window last (bucket t r.1.buckets)),
        length-recent-le window last (bucket t r.1.buckets),
        k.valid.limited t,
        k.limit,
      ))
