-- ===== src/Pending/Drained.antt =====
-- What a batch of `process_pending` of src/news_pipeline/scheduler/jobs.py leaves in the tables of raw
-- and processed news.
use news_project.Prelude.{
  ℕ, zero, suc, ◌+◌, ◌≤◌, ◌≡◌, refl, ap, ◌∙◌, sym, subst, Bool, false, Option, some, List, [], ◌∷◌,
  nat_beq, nat_eq, if◌then◌else◌, arith, length, take, In, map, elem, any, Text, codes, text_beq,
  inl, inr, keep, In-keep, length-take-le,
}
use news_project.Prelude.Sorting.{sort_by, In-sort_by}
use news_project.Push.Retry.{Outcome, returned, raised}
use news_project.Dedup.Raw.{
  RawNews, get_row, mark_status, is_waiting, list_pending, published_first,
}
use news_project.Pending.{JobError, Settings, JobState}
use news_project.Pending.Row.{process_row}
use news_project.Pending.Settled.{ticks, Settles, process_row-Settles}
use news_project.Pending.Marks.{
  IsDone, remark, get_row-mark_status, In-get_row, mark_status-IsDone, mark_status-IsDone_still,
  remark-some,
}
use news_project.Pending.Batch.{counted, and_then, process_rows, process_pending}

module _ {S : Type 0} where
  -- What a batch does from a state on, unless it raises: done rows stay done, the rows of the batch
  -- that the table has are done, other rows are as before, and the count is that of the new
  -- processed news.
  record Drains (batch : List RawNews) (st : JobState S) (n : ℕ) (st' : JobState S) : Type 0 where
    pub stays : (id : ℕ) → IsDone id st.raw → IsDone id st'.raw
    pub done :
        (row : RawNews) (found : RawNews)
        → In row batch
        → get_row row.id st.raw ≡ some found
        → IsDone row.id st'.raw
    pub others :
        (id : ℕ)
        → elem id (map (λ (r : RawNews). r.id) batch) ≡ false
        → get_row id st'.raw ≡ get_row id st.raw
    pub grown : length st'.processed ≡ length st.processed + n
    pub bounded : n ≤ length batch

  abbrev DrainsIf : List RawNews → JobState S → Outcome JobError ℕ × JobState S → Type 0
  DrainsIf batch st (raised e, st') = Unit
  DrainsIf batch st (returned n, st') = Drains batch st n st'

  module _ (row : RawNews) (batch : List RawNews) (st st1 : JobState S) (status : Text)
      (error : Option Text) (h : text_beq status (codes "pending") ≡ false)
      (marked : st1.raw ≡ mark_status row.id status error st.raw) where
    IsDone-here : (found : RawNews) → get_row row.id st.raw ≡ some found → IsDone row.id st1.raw
    IsDone-here found e =
        subst (IsDone row.id) (sym marked) (mark_status-IsDone row.id status error st.raw found h e)

    IsDone-still : (id : ℕ) → IsDone id st.raw → IsDone id st1.raw
    IsDone-still id d =
        subst (IsDone id) (sym marked) (mark_status-IsDone_still row.id id status error st.raw h d)

    still_found :
        (id : ℕ) (found : RawNews)
        → get_row id st.raw ≡ some found
        → (x : RawNews) × (get_row id st1.raw ≡ some x)
    still_found id found e =
        subst (λ rows. (x : RawNews) × (get_row id rows ≡ some x)) (sym marked)
          (subst (λ o. (x : RawNews) × (o ≡ some x))
            (sym (get_row-mark_status row.id id status error st.raw))
            (remark-some status error (get_row id st.raw) (nat_beq row.id id) found e))

    other_row : (id : ℕ) → nat_beq row.id id ≡ false → get_row id st1.raw ≡ get_row id st.raw
    other_row id other =
        ap (get_row id) marked
        ∙ get_row-mark_status row.id id status error st.raw
        ∙ ap (λ b. if b then remark status error (get_row id st.raw) else get_row id st.raw) other

    drain_step :
        (b : Bool) (n : ℕ) (st' : JobState S)
        → length st1.processed ≡ length st.processed + ticks b
        → Drains batch st1 n st'
        → Drains (row ∷ batch) st (if b then suc n else n) st'
    unfolding elem any
    drain_step b n st' len d = record {
      stays = λ id e. d.stays id (IsDone-still id e);
      done = λ r found i e. elim i [
        | inl same ↦ d.stays r.id (
            subst (λ id. IsDone id st1.raw) (sym (ap (λ (x : RawNews). x.id) same))
              (IsDone-here found
                (subst (λ id. get_row id st.raw ≡ some found) (ap (λ (x : RawNews). x.id) same) e)))
        | inr later ↦ let (x, f) = still_found r.id found e in d.done r x later f
      ];
      others = λ id e.
          d.others id (ground (arith, nat_eq.same_iff id row.id))
          ∙ other_row id (ground (arith, nat_eq.same_iff id row.id));
      grown = ground (arith, d.grown, len);
      bounded = ground (arith, d.bounded);
    }

take-In : {A : Type 0} (n : ℕ) (a : A) (xs : List A) → In a (take n xs) → In a xs
take-In zero a xs i = absurd i.1
take-In (suc n) a [] i = i
take-In (suc n) a (x ∷ xs) (inl e) = inl e
take-In (suc n) a (x ∷ xs) (inr i) = inr (take-In n a xs i)

length-list_pending : (limit : ℕ) (rows : List RawNews) → length (list_pending limit rows) ≤ limit
unfolding list_pending
length-list_pending limit rows =
    length-take-le limit (sort_by published_first (keep is_waiting rows))

module _ {S : Type 0} (cfg : Settings S) where
  counted-DrainsIf :
      (row : RawNews) (rows : List RawNews) (b : Bool) (st st1 : JobState S)
      (o : Outcome JobError ℕ × JobState S)
      → Settles cfg row st (returned b, st1)
      → DrainsIf rows st1 o
      → DrainsIf (row ∷ rows) st (counted b o)
  unfolding counted
  counted-DrainsIf row rows b st st1 (raised e, st') settled d = tt
  counted-DrainsIf row rows b st st1 (returned n, st') (status, error, h, marked, len) d =
      drain_step row rows st st1 status error h marked b n st' len d

  and_then-DrainsIf :
      (row : RawNews) (rows : List RawNews) (st : JobState S)
      (o : Outcome JobError Bool × JobState S)
      → Settles cfg row st o
      → ((st1 : JobState S) → DrainsIf rows st1 (process_rows cfg rows st1))
      → DrainsIf (row ∷ rows) st (and_then o (process_rows cfg rows))
  unfolding and_then
  and_then-DrainsIf row rows st (raised e, st') settled later = tt
  and_then-DrainsIf row rows st (returned b, st1) settled later =
      counted-DrainsIf row rows b st st1 (process_rows cfg rows st1) settled (later st1)

  process_rows-DrainsIf :
      (rows : List RawNews) (st : JobState S) → DrainsIf rows st (process_rows cfg rows st)
  unfolding process_rows
  process_rows-DrainsIf [] st = record {
    stays = λ id d. d;
    done = λ row found i e. absurd i.1;
    others = λ id e. refl;
    grown = omega arith;
    bounded = omega arith;
  }
  process_rows-DrainsIf (row ∷ rows) st =
      and_then-DrainsIf row rows st (process_row cfg row st) (process_row-Settles cfg row st)
        (λ st1. process_rows-DrainsIf rows st1)

  list_pending-In :
      (limit : ℕ) (row : RawNews) (rows : List RawNews)
      → In row (list_pending limit rows)
      → In row rows
  unfolding list_pending
  list_pending-In limit row rows i =
      (In-keep is_waiting row rows (
        (In-sort_by published_first row (keep is_waiting rows)).0
          (take-In limit row (sort_by published_first (keep is_waiting rows)) i))).0

  -- If a batch ends without an exception, then each row that it has taken has a status other than
  -- "pending", each row whose id is none of theirs is as before, the number returned is that of the
  -- rows of processed news that the batch has added, and it is at most the batch's size.
  pub process_pending-IsDone :
      (batch_size n : ℕ) (st st' : JobState S) (row : RawNews) (id : ℕ)
      → process_pending cfg batch_size st ≡ (returned n, st')
      → In row (list_pending batch_size st.raw)
      → elem id (map (λ (r : RawNews). r.id) (list_pending batch_size st.raw)) ≡ false
      → IsDone row.id st'.raw
        × (get_row id st'.raw ≡ get_row id st.raw)
        × (length st'.processed ≡ length st.processed + n)
        × (n ≤ batch_size)
  unfolding process_pending
  process_pending-IsDone batch_size n st st' row id e i other =
      let batch = list_pending batch_size st.raw in
      let d = subst (DrainsIf batch st) e (process_rows-DrainsIf batch st) in
      let (found, f) = In-get_row row st.raw (list_pending-In batch_size row st.raw i) in
      (
        d.done row found i f,
        d.others id other,
        d.grown,
        omega (arith, d.bounded, length-list_pending batch_size st.raw),
      )
