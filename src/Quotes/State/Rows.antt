-- ===== src/Quotes/State/Rows.antt =====
-- The rows of `alert_state` after its operations.
use news_project.Prelude.{
  ℕ, ◌+◌, ◌≡◌, Bool, ◌&&◌, Option, none, some, List, [], ◌∷◌, arith, if◌then◌else◌, Text, text_beq,
  text_beq_iff,
}
use news_project.Quotes.State.{AlertState, is_row, get, upserted, upsert, bump}

-- The same rule and ticker.
abbrev pub same_row : Text → Text → Text → Text → Bool
same_row i t j u = text_beq i j && text_beq t u

module _ {F : Type 0} (i t : Text) where
  -- the row that `bump` leaves
  abbrev pub bumped : Option (AlertState F) → Option (AlertState F)
  bumped none = none
  bumped (some row) = some (record row { trigger_count_today = row.trigger_count_today + 1 })

  -- What `get` finds after `upsert`: the row written for the same rule and ticker, and for others what
  -- it found before.
  pub get-upsert :
      (at : ℕ) (value : Option F) (rows : List (AlertState F)) (j u : Text)
      → get j u (upsert i t at value rows)
        ≡ (if same_row i t j u then some (upserted i t at value (get i t rows)) else get j u rows)
  unfolding get upsert is_row upserted
  get-upsert at value [] j u = ground arith
  get-upsert at value (row ∷ rows) j u = ground (
    arith,
    get-upsert at value rows j u,
    text_beq_iff i j,
    text_beq_iff t u,
    text_beq_iff row.rule_id i,
    text_beq_iff row.rule_id j,
    text_beq_iff row.ticker t,
    text_beq_iff row.ticker u,
  )

  -- The same for `bump`.
  pub get-bump :
      (rows : List (AlertState F)) (j u : Text)
      → get j u (bump i t rows) ≡ (if same_row i t j u then bumped (get i t rows) else get j u rows)
  unfolding get bump is_row
  get-bump [] j u = ground arith
  get-bump (row ∷ rows) j u = ground (
    arith,
    get-bump rows j u,
    text_beq_iff i j,
    text_beq_iff t u,
    text_beq_iff row.rule_id i,
    text_beq_iff row.rule_id j,
    text_beq_iff row.ticker t,
    text_beq_iff row.ticker u,
  )
