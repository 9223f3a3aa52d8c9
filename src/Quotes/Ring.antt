-- ===== src/Quotes/Ring.antt =====
-- src/quote_watcher/store/tick.py: `TickRing`, over any kind of snapshot. A `deque(maxlen=n)` is the
-- list of its elements, of which the oldest go when it is full.
pub mod History
use news_project.Prelude.{
  ℕ, ◌-◌, Option, none, some, List, [], ◌∷◌, ◌++◌, drop, length, Text, text_eq,
}
use news_project.Prelude.Dict.{Dict, lookup, insert}

pub record TickRing (A : Type 0) : Type 0 where
  pub max : ℕ
  pub data_of : Dict Text (List A)

-- the last `n` of a list
unfoldable pub last : {A : Type 0} → ℕ → List A → List A
last n xs = drop (length xs - n) xs

-- `self._data.get(ticker)`, or no elements
unfoldable pub elements : {A : Type 0} → Option (List A) → List A
elements none = []
elements (some xs) = xs

module _ {A : Type 0} (ticker_of : A → Text) where
  -- `TickRing.append`
  unfoldable pub append : A → TickRing A → TickRing A
  unfolding last elements
  append snap ring =
      let dq = elements (lookup (ticker_of snap) ring.data_of) in
      record ring {
        data_of = insert (ticker_of snap) (last ring.max (dq ++ snap ∷ [])) ring.data_of;
      }

-- `TickRing.history`
unfoldable pub history : {A : Type 0} → Text → TickRing A → List A
unfolding elements
history ticker ring = elements (lookup ticker ring.data_of)

-- `dq[-1] if dq else None`
unfoldable pub last_of : {A : Type 0} → List A → Option A
last_of [] = none
last_of (x ∷ []) = some x
last_of (x ∷ y ∷ xs) = last_of (y ∷ xs)

-- `TickRing.latest`
unfoldable pub latest : {A : Type 0} → Text → TickRing A → Option A
unfolding history last_of
latest ticker ring = last_of (history ticker ring)

-- `TickRing.size`
unfoldable pub size : {A : Type 0} → Text → TickRing A → ℕ
unfolding history
size ticker ring = length (history ticker ring)
