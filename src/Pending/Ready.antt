-- ===== src/Pending/Ready.antt =====
-- What holds between batches of `process_pending` of src/news_pipeline/scheduler/jobs.py, and what its
-- rounds keep of it.
use news_project.Prelude.{
  ℕ, ◌≡◌, refl, subst, inl, inr, Bool, true, false, some, List, [], ◌∷◌, ◌++◌, any, elem, map,
  nat_beq, nat_eq, arith, Bool-cases, Text, Option,
}
use news_project.Common.Enums.{Market}
use news_project.Dedup.Raw.{RawNews}
use news_project.Digest.{DigestBuffer}
use news_project.Storage.Processed.{NewsProcessed}
use news_project.Common.Contracts.{RawArticle, Deeplink}
use news_project.Rules.Patterns.{RulesVerdict}
use news_project.Push.Message.{deeplinks_of}
use news_project.Pending.{market_of, raw_to_article, is_refused}

-- Each queued item is a processed one.
abbrev pub Linked : List DigestBuffer → List NewsProcessed → Type 0
Linked [] rows = Unit
Linked (d ∷ ds) rows =
    (elem d.news_id (map (λ (r : NewsProcessed). r.id) rows) ≡ true) × Linked ds rows

-- The item has not been processed yet.
abbrev pub IsNew : ℕ → List NewsProcessed → Type 0
IsNew raw_id rows = any (λ (r : NewsProcessed). nat_beq r.raw_id raw_id) rows ≡ false

-- The database gives a new row an id that no row has.
abbrev pub IsFresh : (List NewsProcessed → ℕ) → Type 0
IsFresh new_id =
    (rows : List NewsProcessed)
    → elem (new_id rows) (map (λ (r : NewsProcessed). r.id) rows) ≡ false

-- The addresses of a message on an article and what the rules report are accepted: the article's, and
-- those of its links.
abbrev pub AreAccepted : (Text → Option Text) → RawArticle → RulesVerdict → Type 0
AreAccepted http_url art v =
    any (is_refused http_url)
      (art.url ∷ map (λ (l : Deeplink). l.url) (deeplinks_of art (v.tickers ++ v.related_tickers)))
    ≡ false

-- The row is an article, as its market is known and its address is one, and so are the addresses of a
-- message on it: the article's, and the quote pages of the first tickers that the rules report.
abbrev pub IsReadable : (Text → Option Text) → (RawArticle → RulesVerdict) → RawNews → Type 0
IsReadable http_url f r =
    (m : Market) × (art : RawArticle) × (market_of r.market ≡ some m)
    × (raw_to_article http_url r m ≡ some art)
    × AreAccepted http_url art (f art)

-- Readable rows with different ids that have not been processed yet.
abbrev pub AllReady :
    (Text → Option Text) → (RawArticle → RulesVerdict) → List RawNews → List NewsProcessed → Type 0
AllReady http_url f [] rows = Unit
AllReady http_url f (r ∷ batch) rows =
    IsReadable http_url f r
    × IsNew r.id rows
    × (elem r.id (map (λ (x : RawNews). x.id) batch) ≡ false)
    × AllReady http_url f batch rows

pub clash : {b : Bool} → b ≡ false → b ≡ true → ⊥
clash f t = cc

pub any-append :
    {A : Type 0} (p : A → Bool) (xs : List A) (y : A)
    → any p xs ≡ false
    → p y ≡ false
    → any p (xs ++ y ∷ []) ≡ false
unfolding any
any-append p [] y h k = ground arith
any-append p (x ∷ xs) y h k = ground (arith, any-append p xs y)

pub elem-append :
    (x : ℕ) (rows : List NewsProcessed) (y : NewsProcessed)
    → elem x (map (λ (r : NewsProcessed). r.id) rows) ≡ true
    → elem x (map (λ (r : NewsProcessed). r.id) (rows ++ y ∷ [])) ≡ true
unfolding elem any
elem-append x [] y h = ground arith
elem-append x (r ∷ rows) y h = ground (arith, elem-append x rows y)

pub elem-last :
    (rows : List NewsProcessed) (y : NewsProcessed)
    → elem y.id (map (λ (r : NewsProcessed). r.id) (rows ++ y ∷ [])) ≡ true
unfolding elem any
elem-last [] y = ground (arith, nat_eq.same_iff y.id y.id)
elem-last (r ∷ rows) y = ground (arith, elem-last rows y)

pub Linked-append :
    (ds : List DigestBuffer) (rows : List NewsProcessed) (y : NewsProcessed)
    → Linked ds rows
    → Linked ds (rows ++ y ∷ [])
Linked-append [] rows y l = tt
Linked-append (d ∷ ds) rows y (e, l) = (elem-append d.news_id rows y e, Linked-append ds rows y l)

pub Linked-queue :
    (ds : List DigestBuffer) (d : DigestBuffer) (rows : List NewsProcessed)
    → Linked ds rows
    → elem d.news_id (map (λ (r : NewsProcessed). r.id) rows) ≡ true
    → Linked (ds ++ d ∷ []) rows
Linked-queue [] d rows l e = (e, tt)
Linked-queue (x ∷ ds) d rows (h, l) e = (h, Linked-queue ds d rows l e)

-- a fresh id is not queued
pub Linked-fresh :
    (id : ℕ) (ds : List DigestBuffer) (rows : List NewsProcessed)
    → Linked ds rows
    → elem id (map (λ (r : NewsProcessed). r.id) rows) ≡ false
    → any (λ (d : DigestBuffer). nat_beq d.news_id id) ds ≡ false
unfolding any
Linked-fresh id [] rows l f = refl
Linked-fresh id (d ∷ ds) rows (e, l) f = elim (Bool-cases (nat_beq d.news_id id)) [
  | inl same ↦ absurd (
      clash f (
        subst (λ i. elem i (map (λ (r : NewsProcessed). r.id) rows) ≡ true)
          ((nat_eq.same_iff d.news_id id).0 same) e))
  | inr other ↦ ground (arith, Linked-fresh id ds rows l f)
]

-- the rows that are left are ready after a row of another item
pub AllReady-append :
    (http_url : Text → Option Text) (f : RawArticle → RulesVerdict) (batch : List RawNews)
    (rows : List NewsProcessed) (new : NewsProcessed)
    → elem new.raw_id (map (λ (x : RawNews). x.id) batch) ≡ false
    → AllReady http_url f batch rows
    → AllReady http_url f batch (rows ++ new ∷ [])
unfolding elem any
AllReady-append http_url f [] rows new other ready = tt
AllReady-append http_url f (r ∷ batch) rows new other (known, free, apart, ready) = (
  known,
  any-append (λ (x : NewsProcessed). nat_beq x.raw_id r.id) rows new free (ground (arith, other)),
  apart,
  AllReady-append http_url f batch rows new (ground (arith, other)) ready,
)
