-- ===== src/Storage/PushLog/Failures.antt =====
-- The alerts of `alert_on_push_failures` of scheduler/jobs.py.
use news_project.Prelude.{
  ℕ, zero, suc, ◌+◌, ◌*◌, ◌≤◌, ◌<◌, ◌≡◌, ◌↔◌, inl, inr, refl, ap, ◌∙◌, subst, sym, true, false,
  ◌&&◌, Option, none, some, List, [], ◌∷◌, arith, keep, In, In-gather, gather-In, if◌then◌else◌,
  leb, codes, Text, text_eq, text_beq, text_beq_iff, Bool-cases,
}
use news_project.Prelude.Dict.{
  Dict, lookup, insert, lookup-insert, lookup-In, In-lookup, WellKeyed, insert-WellKeyed,
}
use news_project.Storage.PushLog.{
  PushLog, is_failure, tally, count_by_channel, failure_counts_by_channel, over_threshold,
  alert_on_push_failures,
}

-- How many of the rows are those of a channel.
abbrev rows_of : Text → List PushLog → ℕ
rows_of channel [] = 0
rows_of channel (r ∷ rows) =
    if text_beq r.channel channel then suc (rows_of channel rows) else rows_of channel rows

-- a count that there may be, and more rows
abbrev grown : Option ℕ → ℕ → Option ℕ
grown none zero = none
grown none (suc k) = some (suc k)
grown (some n) k = some (n + k)

grown-tally : (o : Option ℕ) (k : ℕ) → grown (some (tally o)) k ≡ grown o (suc k)
unfolding tally
grown-tally none k = ap some (omega arith)
grown-tally (some n) k = ap some (omega arith)

grown-zero : (o : Option ℕ) → grown o 0 ≡ o
grown-zero none = refl
grown-zero (some n) = ap some (omega arith)

lookup-count_by_channel :
    (channel : Text) (rows : List PushLog) (counts : Dict Text ℕ)
    → lookup channel (count_by_channel rows counts)
      ≡ grown (lookup channel counts) (rows_of channel rows)
unfolding count_by_channel
lookup-count_by_channel channel [] counts = sym (grown-zero (lookup channel counts))
lookup-count_by_channel channel (r ∷ rows) counts =
    let n = tally (lookup r.channel counts) in
    lookup-count_by_channel channel rows (insert r.channel n counts)
    ∙ ap (λ o. grown o (rows_of channel rows)) (lookup-insert r.channel channel n counts)
    ∙ elim (Bool-cases (text_beq r.channel channel)) [
      | inl e ↦
          let same = (text_beq_iff r.channel channel).0 e in
          ap (λ b. grown (if b then some n else lookup channel counts) (rows_of channel rows)) e
          ∙ ap (λ c. grown (some (tally (lookup c counts))) (rows_of channel rows)) same
          ∙ grown-tally (lookup channel counts) (rows_of channel rows)
          ∙ sym (
              ap
                (λ b.
                  grown (lookup channel counts)
                    (if b then suc (rows_of channel rows) else rows_of channel rows))
                e)
      | inr e ↦
          ap (λ b. grown (if b then some n else lookup channel counts) (rows_of channel rows)) e
          ∙ sym (
              ap
                (λ b.
                  grown (lookup channel counts)
                    (if b then suc (rows_of channel rows) else rows_of channel rows))
                e)
    ]

count_by_channel-WellKeyed :
    (rows : List PushLog) (counts : Dict Text ℕ)
    → WellKeyed counts
    → WellKeyed (count_by_channel rows counts)
unfolding count_by_channel
count_by_channel-WellKeyed [] counts wk = wk
count_by_channel-WellKeyed (r ∷ rows) counts wk =
    count_by_channel-WellKeyed rows (insert r.channel (tally (lookup r.channel counts)) counts)
      (insert-WellKeyed r.channel (tally (lookup r.channel counts)) counts wk)

failure_counts_by_channel-WellKeyed :
    (now window : ℕ) (rows : List PushLog) → WellKeyed (failure_counts_by_channel now window rows)
unfolding failure_counts_by_channel
failure_counts_by_channel-WellKeyed now window rows =
    count_by_channel-WellKeyed (keep (is_failure now (window * 60)) rows) [] tt

-- How many rows of the log have the channel, the status "failed", and a time that is at most the window
-- before now.
abbrev pub failures : ℕ → ℕ → Text → List PushLog → ℕ
failures now window channel [] = 0
failures now window channel (r ∷ rows) =
    if text_beq r.channel channel
      && (text_beq r.status (codes "failed") && leb now (r.sent_at + window))
    then suc (failures now window channel rows)
    else failures now window channel rows

rows_of-keep :
    (now window : ℕ) (channel : Text) (rows : List PushLog)
    → rows_of channel (keep (is_failure now window) rows) ≡ failures now window channel rows
unfolding keep is_failure
rows_of-keep now window channel [] = refl
rows_of-keep now window channel (r ∷ rows) = ground (arith, rows_of-keep now window channel rows)

grown-some : (k n : ℕ) → (grown none k ≡ some n) ↔ ((n ≡ k) × (0 < n))
grown-some zero n = ground arith
grown-some (suc k) n = ground arith

lookup-failure_counts_by_channel :
    (now window : ℕ) (channel : Text) (rows : List PushLog)
    → lookup channel (failure_counts_by_channel now window rows)
      ≡ grown none (failures now (window * 60) channel rows)
unfolding failure_counts_by_channel lookup
lookup-failure_counts_by_channel now window channel rows =
    lookup-count_by_channel channel (keep (is_failure now (window * 60)) rows) []
    ∙ ap (grown none) (rows_of-keep now (window * 60) channel rows)

below_lt : (a b : ℕ) → leb a b ≡ false → b < a
below_lt a b h = ground arith

In-over_threshold :
    (threshold n : ℕ) (channel : Text) (entry : Text × ℕ)
    → In (channel, n) (over_threshold threshold entry) ↔ (((channel, n) ≡ entry) × (threshold ≤ n))
unfolding over_threshold
In-over_threshold threshold n channel (c, m) = elim (Bool-cases (leb threshold m)) [
  | inl reached ↦ rw reached (
    (λ i. elim i [
      | inl e ↦ (e, subst (λ k. threshold ≤ k) (sym (ap (λ (p : Text × ℕ). p.1) e)) (ground arith))
      | inr none_left ↦ absurd none_left.1
    ]),
    (λ h. inl h.0),
  )
  | inr below ↦ rw below (
    (λ i. absurd i.1),
    (λ h. absurd (omega (arith, ap (λ (p : Text × ℕ). p.1) h.0, h.1, below_lt threshold m below))),
  )
]

-- With an alerter, an alert with a count is sent for a channel exactly when the count is that of the
-- channel's rows with the status "failed" that were sent at most the window before now, is at least the threshold, and is not 0.
pub alert_on_push_failures_iff :
    (threshold now window n : ℕ) (channel : Text) (rows : List PushLog)
    → In (channel, n) (alert_on_push_failures true threshold now window rows)
      ↔ ((n ≡ failures now (window * 60) channel rows) × (threshold ≤ n) × (0 < n))
unfolding alert_on_push_failures
alert_on_push_failures_iff threshold now window n channel rows =
    let counts = failure_counts_by_channel now window rows in
    let found = lookup-failure_counts_by_channel now window channel rows in
    let some_iff = grown-some (failures now (window * 60) channel rows) n in
    (
      (λ i.
          let (entry, j, k) = In-gather (over_threshold threshold) (channel, n) counts i in
          let (same, reached) = (In-over_threshold threshold n channel entry).0 k in
          let there = subst (λ (p : Text × ℕ). In p counts) (sym same) j in
          let value =
            In-lookup channel n counts (failure_counts_by_channel-WellKeyed now window rows)
              there in
          let (e, positive) = some_iff.0 (sym found ∙ value) in (e, reached, positive)),
      (λ (e, reached, positive).
          let value = found ∙ some_iff.1 (e, positive) in
          gather-In (over_threshold threshold) (channel, n) (channel, n) counts
            (lookup-In channel n counts value)
            ((In-over_threshold threshold n channel (channel, n)).1 (refl, reached))),
    )
