-- ===== src/Push/Burst.antt =====
-- src/shared/push/common/burst.py. `now` is the reading of `time.monotonic`, in whole ticks; a test
-- `t < now - window` is written `t + window < now`, which is the same on unbounded numbers.
pub mod Buckets
pub mod Limit
pub mod Rate
use news_project.Prelude.{
  ℕ, ◌+◌, Bool, true, false, ◌&&◌, Option, none, some, List, [], ◌∷◌, ◌++◌, ltb, leb, if◌then◌else◌,
  length, Text, text_eq,
}
use news_project.Prelude.Dict.{Dict, lookup, insert}

-- `BurstSuppressor`
pub record BurstSuppressor : Type 0 where
  pub window : ℕ
  pub threshold : ℕ
  pub buckets : Dict Text (List ℕ)

-- `self._buckets[t]` of a `defaultdict(deque)`
unfoldable pub bucket : Text → Dict Text (List ℕ) → List ℕ
bucket t buckets = elim (lookup t buckets) [ none ↦ [] | some buf ↦ buf ]

-- `while buf and buf[0] < cutoff: buf.popleft()`
unfoldable pub expire : ℕ → ℕ → List ℕ → List ℕ
expire window now [] = []
expire window now (x ∷ buf) =
    let rest = expire window now buf in if ltb (x + window) now then rest else x ∷ buf

-- the first loop of `should_send`: the value of `send`, and the buckets
unfoldable pub check : ℕ → ℕ → ℕ → List Text → Bool → Dict Text (List ℕ) → Bool × Dict Text (List ℕ)
unfolding bucket expire
check window threshold now [] send buckets = (send, buckets)
check window threshold now (t ∷ ts) send buckets =
    let buf = expire window now (bucket t buckets) in
    check window threshold now ts (if leb threshold (length buf) then false else send)
      (insert t buf buckets)

-- the second loop: `self._buckets[t].append(now)`
unfoldable pub record_all : ℕ → List Text → Dict Text (List ℕ) → Dict Text (List ℕ)
unfolding bucket
record_all now [] buckets = buckets
record_all now (t ∷ ts) buckets =
    record_all now ts (insert t (bucket t buckets ++ now ∷ []) buckets)

-- `BurstSuppressor.should_send`
unfoldable pub should_send : ℕ → List Text → BurstSuppressor → Bool × BurstSuppressor
unfolding check record_all
should_send now tickers s =
    let (send, buckets) = check s.window s.threshold now tickers true s.buckets in
    (send, record s { buckets = if send then record_all now tickers buckets else buckets })
