-- ===== src/Pending/Marks.antt =====
-- What `mark_status` does to the row of an id.
use news_project.Prelude.{
  ℕ, ◌≡◌, refl, ap, ◌∙◌, sym, subst, Bool, true, false, Option, none, some, List, [], ◌∷◌, nat_beq,
  nat_eq, if◌then◌else◌, arith, In, Text, codes, text_beq, Bool-cases, by_branch, inl, inr,
}
use news_project.Dedup.Raw.{RawNews, get_row, mark_status, is_waiting}

-- There is a row, and it does not wait.
abbrev pub DoneIf : Option RawNews → Type 0
DoneIf none = ⊥
DoneIf (some row) = is_waiting row ≡ false

-- The row with this id does not wait any more.
abbrev pub IsDone : ℕ → List RawNews → Type 0
IsDone id rows = DoneIf (get_row id rows)

-- the mark on the row that is found
abbrev pub remark : Text → Option Text → Option RawNews → Option RawNews
remark status error none = none
remark status error (some row) = some (record row { status = status; error = error })

pub get_row-mark_status :
    (id j : ℕ) (status : Text) (error : Option Text) (rows : List RawNews)
    → get_row j (mark_status id status error rows)
      ≡ (if nat_beq id j then remark status error (get_row j rows) else get_row j rows)
unfolding get_row mark_status
get_row-mark_status id j status error [] = ground arith
get_row-mark_status id j status error (row ∷ rows) =
    ground (arith, get_row-mark_status id j status error rows)

pub In-get_row :
    (row : RawNews) (rows : List RawNews)
    → In row rows
    → (found : RawNews) × (get_row row.id rows ≡ some found)
unfolding get_row
In-get_row row [] i = absurd i.1
In-get_row row (r ∷ rows) i = elim (Bool-cases (nat_beq r.id row.id)) [
  | inl same ↦ rw same (r, refl)
  | inr other ↦ elim i [
    | inl e ↦ absurd (ground (arith, ap (λ (x : RawNews). x.id) e))
    | inr later ↦ rw other (In-get_row row rows later)
  ]
]

remark-DoneIf :
    (status : Text) (error : Option Text) (o : Option RawNews) (found : RawNews)
    → text_beq status (codes "pending") ≡ false
    → o ≡ some found
    → DoneIf (remark status error o)
unfolding is_waiting
remark-DoneIf status error none found h e = cc
remark-DoneIf status error (some row) found h e = h

remark-DoneIf_still :
    (status : Text) (error : Option Text) (o : Option RawNews)
    → text_beq status (codes "pending") ≡ false
    → DoneIf o
    → DoneIf (remark status error o)
unfolding is_waiting
remark-DoneIf_still status error none h d = d
remark-DoneIf_still status error (some row) h d = h

pub mark_status-IsDone :
    (id : ℕ) (status : Text) (error : Option Text) (rows : List RawNews) (found : RawNews)
    → text_beq status (codes "pending") ≡ false
    → get_row id rows ≡ some found
    → IsDone id (mark_status id status error rows)
mark_status-IsDone id status error rows found h e =
    let same : nat_beq id id ≡ true = ground arith in
    subst DoneIf
      (sym (
        get_row-mark_status id id status error rows
        ∙ ap (λ b. if b then remark status error (get_row id rows) else get_row id rows) same))
      (remark-DoneIf status error (get_row id rows) found h e)

pub mark_status-IsDone_still :
    (id j : ℕ) (status : Text) (error : Option Text) (rows : List RawNews)
    → text_beq status (codes "pending") ≡ false
    → IsDone j rows
    → IsDone j (mark_status id status error rows)
mark_status-IsDone_still id j status error rows h d =
    subst DoneIf (sym (get_row-mark_status id j status error rows)) (
      by_branch DoneIf (nat_beq id j) (remark status error (get_row j rows)) (get_row j rows)
        (λ e. remark-DoneIf_still status error (get_row j rows) h d) (λ e. d))

-- a row that is found is still found
pub remark-some :
    (status : Text) (error : Option Text) (o : Option RawNews) (b : Bool) (found : RawNews)
    → o ≡ some found
    → (x : RawNews) × ((if b then remark status error o else o) ≡ some x)
remark-some status error none b found e = cc
remark-some status error (some r) true found e = (record r { status = status; error = error }, refl)
remark-some status error (some r) false found e = (r, refl)
