-- ===== src/Digest/Drained.antt =====
-- What `send_digest` leaves in the digest buffer.
use news_project.Prelude.{
  ℕ, ◌≡◌, ◌↔◌, refl, sym, ap, ◌∙◌, true, false, none, some, List, [], ◌∷◌, arith, map, keep, elem,
  any, nat_beq, nat_eq, if◌then◌else◌, In, In-keep, keep-In, In→elem, elem→In, In-map, map-In, inl,
  inr, gather, length, Text, Bool-cases,
}
use news_project.Prelude.Dict.{Dict}
use news_project.Common.Contracts.{CommonMessage}
use news_project.Push.Dispatcher.{Pusher}
use news_project.Digest.{
  DigestBuffer, is_open, is_pending, put_by_time, order_by_time, list_pending, mark_row,
  mark_consumed, found_item, send_items, send_pending, send_digest,
}

put_by_time-In :
    (row x : DigestBuffer) (rows : List DigestBuffer)
    → In x (row ∷ rows)
    → In x (put_by_time row rows)
unfolding put_by_time
put_by_time-In row x [] i = i
put_by_time-In row x (r ∷ rows) i = ground (arith, put_by_time-In row x rows)

order_by_time-In :
    (x : DigestBuffer) (rows : List DigestBuffer) → In x rows → In x (order_by_time rows)
unfolding order_by_time
order_by_time-In x [] i = i
order_by_time-In x (r ∷ rows) (inl e) = put_by_time-In r x (order_by_time rows) (inl e)
order_by_time-In x (r ∷ rows) (inr i) =
    put_by_time-In r x (order_by_time rows) (inr (order_by_time-In x rows i))

put_by_time_only :
    (row x : DigestBuffer) (rows : List DigestBuffer)
    → In x (put_by_time row rows)
    → In x (row ∷ rows)
unfolding put_by_time
put_by_time_only row x [] i = i
put_by_time_only row x (r ∷ rows) i = ground (arith, put_by_time_only row x rows)

order_by_time_only :
    (x : DigestBuffer) (rows : List DigestBuffer) → In x (order_by_time rows) → In x rows
unfolding order_by_time
order_by_time_only x [] i = i
order_by_time_only x (r ∷ rows) i = elim (put_by_time_only r x (order_by_time rows) i) [
  | inl e ↦ inl e
  | inr k ↦ inr (order_by_time_only x rows k)
]

-- the row after all the marks
abbrev marked : ℕ → List ℕ → DigestBuffer → DigestBuffer
marked now ids row = if elem row.id ids then record row { consumed_at = some now } else row

marked-mark_row :
    (now id : ℕ) (ids : List ℕ) (row : DigestBuffer)
    → marked now ids (mark_row now id row) ≡ marked now (id ∷ ids) row
unfolding mark_row elem any
marked-mark_row now id ids row = elim (Bool-cases (nat_beq row.id id)) [
  | inl here ↦ rw here (ground arith)
  | inr other ↦ rw other refl
]

map-marked :
    (now id : ℕ) (ids : List ℕ) (rows : List DigestBuffer)
    → map (marked now ids) (map (mark_row now id) rows) ≡ map (marked now (id ∷ ids)) rows
map-marked now id ids [] = refl
map-marked now id ids (row ∷ rows) =
    ap (λ r. r ∷ map (marked now ids) (map (mark_row now id) rows)) (marked-mark_row now id ids row)
    ∙ ap (◌∷◌ (marked now (id ∷ ids) row)) (map-marked now id ids rows)

map-same :
    (f g : DigestBuffer → DigestBuffer) (rows : List DigestBuffer)
    → ((row : DigestBuffer) → In row rows → f row ≡ g row)
    → map f rows ≡ map g rows
map-same f g [] h = refl
map-same f g (row ∷ rows) h =
    ap (λ r. r ∷ map f rows) (h row (inl refl))
    ∙ ap (◌∷◌ (g row)) (map-same f g rows (λ r i. h r (inr i)))

mark_consumed-eq-map :
    (now : ℕ) (ids : List ℕ) (rows : List DigestBuffer)
    → mark_consumed now ids rows ≡ map (marked now ids) rows
unfolding mark_consumed elem any
mark_consumed-eq-map now [] [] = refl
mark_consumed-eq-map now [] (row ∷ rows) = ap (◌∷◌ row) (mark_consumed-eq-map now [] rows)
mark_consumed-eq-map now (id ∷ ids) rows =
    mark_consumed-eq-map now ids (map (mark_row now id) rows) ∙ map-marked now id ids rows

-- A pending row of the digest, consumed; any other row as it is.
abbrev pub consumed : ℕ → Text → DigestBuffer → DigestBuffer
consumed now key row = if is_pending key row then record row { consumed_at = some now } else row

-- The id is the primary key.
abbrev pub OneRowPerId : List DigestBuffer → Type 0
OneRowPerId rows = (a b : DigestBuffer) → In a rows → In b rows → a.id ≡ b.id → a ≡ b

module _ (now : ℕ) (key : Text) (rows : List DigestBuffer) where
  list_pending-In :
      (row : DigestBuffer)
      → In row (list_pending key rows) ↔ (In row rows × (is_pending key row ≡ true))
  unfolding list_pending
  list_pending-In row = (
    λ i. In-keep (is_pending key) row rows (order_by_time_only row (keep (is_pending key) rows) i),
    λ (i, p).
        order_by_time-In row (keep (is_pending key) rows) (keep-In (is_pending key) row rows i p),
  )

  abbrev pending_ids : List ℕ
  pending_ids = map (λ (r : DigestBuffer). r.id) (list_pending key rows)

  -- exactly the ids of the pending rows are marked
  elem-pending_ids :
      OneRowPerId rows
      → (row : DigestBuffer) → In row rows
      → elem row.id pending_ids ≡ is_pending key row
  elem-pending_ids unique row i = elim (Bool-cases (is_pending key row)) [
    | inl waits ↦
        In→elem row.id pending_ids (
          map-In (λ (r : DigestBuffer). r.id) row (list_pending key rows)
            ((list_pending-In row).1 (i, waits)))
        ∙ sym waits
    | inr closed ↦ elim (Bool-cases (elem row.id pending_ids)) [
      | inr missing ↦ missing ∙ sym closed
      | inl there ↦
          let (p, j, e) =
            In-map (λ (r : DigestBuffer). r.id) row.id (list_pending key rows)
              (elem→In row.id pending_ids there) in
          let (k, waits) = (list_pending-In p).0 j in
          there ∙ sym (ap (is_pending key) (unique row p i k e) ∙ waits)
    ]
  ]

  consumed_all : OneRowPerId rows → mark_consumed now pending_ids rows ≡ map (consumed now key) rows
  consumed_all unique =
      mark_consumed-eq-map now pending_ids rows
      ∙ map-same (marked now pending_ids) (consumed now key) rows (λ row i.
        ap (λ b. if b then record row { consumed_at = some now } else row)
          (elem-pending_ids unique row i))

  module _ {P : Type 0} (procs : Dict ℕ P) (build_digest : List P → CommonMessage)
      (registry : Dict Text Pusher) (channels : List Text) where
    send_pending-rows :
        (pending : List DigestBuffer)
        → (send_pending procs build_digest registry channels now pending rows).1
          ≡ mark_consumed now (map (λ (r : DigestBuffer). r.id) pending) rows
    unfolding send_pending send_items
    send_pending-rows [] = unfold mark_consumed in refl
    send_pending-rows (r ∷ pending) = go (gather (found_item procs) (r ∷ pending))
      where
        go :
            (items : List P)
            → (send_items procs build_digest registry channels now (r ∷ pending) items rows).1
              ≡ mark_consumed now (map (λ (r : DigestBuffer). r.id) (r ∷ pending)) rows
        go [] = refl
        go (x ∷ items) = refl

    send_pending-count :
        (pending : List DigestBuffer)
        → (send_pending procs build_digest registry channels now pending rows).0.count
          ≡ length (gather (found_item procs) pending)
    unfolding send_pending send_items
    send_pending-count [] = unfold gather in refl
    send_pending-count (r ∷ pending) = go (gather (found_item procs) (r ∷ pending))
      where
        go :
            (items : List P)
            → (send_items procs build_digest registry channels now (r ∷ pending) items rows).0.count
              ≡ length items
        go [] = refl
        go (x ∷ items) = refl

    -- Where ids are those of one row, `send_digest` marks the pending rows of its digest as consumed at
    -- the time, whatever the channels answer, and leaves every other row as it is; it returns the number
    -- of the pending rows whose news is found.
    pub send_digest-rows :
        OneRowPerId rows
        → let result = send_digest procs build_digest registry channels now key rows in
          (result.1 ≡ map (consumed now key) rows)
          × (result.0.count ≡ length (gather (found_item procs) (list_pending key rows)))
    unfolding send_digest
    send_digest-rows unique = (
      send_pending-rows (list_pending key rows) ∙ consumed_all unique,
      send_pending-count (list_pending key rows),
    )

closed_row :
    (now : ℕ) (key : Text) (row : DigestBuffer)
    → is_pending key (record row { consumed_at = some now }) ≡ false
unfolding is_pending is_open
closed_row now key row = ground arith

-- nothing is pending among consumed rows
keep-consumed :
    (now : ℕ) (key : Text) (rows : List DigestBuffer)
    → keep (is_pending key) (map (consumed now key) rows) ≡ []
unfolding keep
keep-consumed now key [] = refl
keep-consumed now key (row ∷ rows) = elim (Bool-cases (is_pending key row)) [
  | inl waits ↦ rw waits (rw (closed_row now key row) (keep-consumed now key rows))
  | inr closed ↦ rw (closed, closed) (keep-consumed now key rows)
]

-- Where ids are those of one row, after `send_digest` nothing is pending for its digest, so that a
-- second run sends nothing and returns 0.
pub list_pending-send_digest :
    {P : Type 0} (now later : ℕ) (key : Text) (rows : List DigestBuffer) (procs : Dict ℕ P)
    (build_digest : List P → CommonMessage) (registry : Dict Text Pusher) (channels : List Text)
    → OneRowPerId rows
    → let after = (send_digest procs build_digest registry channels now key rows).1 in
      (list_pending key after ≡ [])
      × (send_digest procs build_digest registry channels later key after
          ≡ (record { count = 0; sent = none }, after))
list_pending-send_digest now later key rows procs build_digest registry channels unique =
    let after = (send_digest procs build_digest registry channels now key rows).1 in
    let drained : list_pending key after ≡ [] =
      ap (list_pending key)
        (send_digest-rows now key rows procs build_digest registry channels unique).0
      ∙ (unfold list_pending order_by_time in ap order_by_time (keep-consumed now key rows)) in
    (
      drained,
      unfold send_digest send_pending in
          ap (λ pending. send_pending procs build_digest registry channels later pending after)
            drained,
    )
