-- ===== src/Quotes/State.antt =====
-- src/quote_watcher/storage/dao/alert_state.py and src/quote_watcher/state/tracker.py. The table is
-- the list of its rows; `F` is the type of a float, which is only stored. `clock` gives the readings
-- of `now_fn` in turn, and the tracker counts them.
pub mod Rows
use news_project.Prelude.{
  ℕ, ◌+◌, ◌*◌, Bool, true, false, ◌&&◌, Option, none, some, List, [], ◌∷◌, ltb, if◌then◌else◌, Text,
  text_beq,
}

-- a row of `alert_state`
pub record AlertState (F : Type 0) : Type 0 where
  pub rule_id : Text
  pub ticker : Text
  pub last_triggered_at : ℕ
  pub last_value : Option F
  pub trigger_count_today : ℕ

module _ {F : Type 0} where
  -- the `where` clause of the queries
  unfoldable pub is_row : Text → Text → AlertState F → Bool
  is_row rule_id ticker row = text_beq row.rule_id rule_id && text_beq row.ticker ticker

  -- `AlertStateDAO.get`
  unfoldable pub get : Text → Text → List (AlertState F) → Option (AlertState F)
  unfolding is_row
  get rule_id ticker [] = none
  get rule_id ticker (row ∷ rows) =
      let rest = get rule_id ticker rows in if is_row rule_id ticker row then some row else rest

  -- the row that `upsert` leaves
  unfoldable pub upserted : Text → Text → ℕ → Option F → Option (AlertState F) → AlertState F
  upserted rule_id ticker at value none = record {
    rule_id = rule_id;
    ticker = ticker;
    last_triggered_at = at;
    last_value = value;
    trigger_count_today = 1;
  }
  upserted rule_id ticker at value (some row) = record row {
    last_triggered_at = at;
    last_value = value;
    trigger_count_today = row.trigger_count_today + 1;
  }

  -- `AlertStateDAO.upsert`
  unfoldable pub upsert : Text → Text → ℕ → Option F → List (AlertState F) → List (AlertState F)
  unfolding is_row upserted
  upsert rule_id ticker at value [] = upserted rule_id ticker at value none ∷ []
  upsert rule_id ticker at value (row ∷ rows) =
      let rest = upsert rule_id ticker at value rows in
      if is_row rule_id ticker row
      then upserted rule_id ticker at value (some row) ∷ rows
      else row ∷ rest

  -- `AlertStateDAO.bump`
  unfoldable pub bump : Text → Text → List (AlertState F) → List (AlertState F)
  unfolding is_row
  bump rule_id ticker [] = []
  bump rule_id ticker (row ∷ rows) =
      let rest = bump rule_id ticker rows in
      if is_row rule_id ticker row
      then record row { trigger_count_today = row.trigger_count_today + 1 } ∷ rows
      else row ∷ rest

-- The tracker with its table, and the number of clock readings so far.
pub record StateTracker (F : Type 0) : Type 0 where
  pub rows : List (AlertState F)
  pub reads : ℕ

module _ {F : Type 0} (clock : ℕ → ℕ) where
  -- `is_in_cooldown` on the row; `now - last < w` is written `now < last + w`
  unfoldable pub cooling : Option (AlertState F) → ℕ → StateTracker F → Bool × StateTracker F
  cooling none cooldown_min s = (false, s)
  cooling (some row) cooldown_min s = (
    ltb (clock s.reads) (row.last_triggered_at + cooldown_min * 60),
    record s { reads = s.reads + 1 },
  )

  -- `StateTracker.is_in_cooldown`
  unfoldable pub is_in_cooldown : Text → Text → ℕ → StateTracker F → Bool × StateTracker F
  unfolding cooling get
  is_in_cooldown rule_id ticker cooldown_min s = cooling (get rule_id ticker s.rows) cooldown_min s

  -- `StateTracker.mark_triggered`
  unfoldable pub mark_triggered : Text → Text → Option F → StateTracker F → StateTracker F
  unfolding upsert
  mark_triggered rule_id ticker value s = record s {
    rows = upsert rule_id ticker (clock s.reads) value s.rows;
    reads = s.reads + 1;
  }

-- `StateTracker.bump_count`
unfoldable pub bump_count : {F : Type 0} → Text → Text → StateTracker F → StateTracker F
unfolding bump
bump_count rule_id ticker s = record s { rows = bump rule_id ticker s.rows }
