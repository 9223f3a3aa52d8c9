-- ===== src/Quotes/Engine/Cooldown.antt =====
-- The cooldown of alerts/engine.py: when a rule fires for a key, and how far apart.
use news_project.Prelude.{
  ℕ, ◌+◌, ◌*◌, ◌≤◌, ◌≡◌, ◌↔◌, refl, Bool, true, false, Option, none, some, List, arith, ltb,
  if◌then◌else◌, Text, text_beq_iff, Bool-cases, inl, inr,
}
use news_project.Quotes.Rule.{AlertRule}
use news_project.Quotes.State.{
  AlertState, StateTracker, get, upserted, upsert, bump, cooling, is_in_cooldown, mark_triggered,
  bump_count,
}
use news_project.Quotes.State.Rows.{same_row, bumped, get-upsert, get-bump}
use news_project.Quotes.Engine.{Interpreted, eval_expr, settle, consider}

-- The time of the last firing in a row.
abbrev pub last_of : {F : Type 0} → Option (AlertState F) → Option ℕ
last_of none = none
last_of (some row) = some row.last_triggered_at

-- The time of the last firing of the rule for the key, as the table has it.
abbrev pub last_at : {F : Type 0} → Text → Text → StateTracker F → Option ℕ
last_at i t s = last_of (get i t s.rows)

last_of-bumped :
    {F : Type 0} (i t : Text) (found : Option (AlertState F))
    → last_of (bumped i t found) ≡ last_of found
last_of-bumped i t none = refl
last_of-bumped i t (some row) = refl

last_of-upserted :
    {F : Type 0} (i t : Text) (at : ℕ) (value : Option F) (found : Option (AlertState F))
    → last_of (some (upserted i t at value found)) ≡ some at
unfolding upserted
last_of-upserted i t at value none = refl
last_of-upserted i t at value (some row) = refl

-- a bump moves no firing time
last_at-bump :
    {F : Type 0} (i t j u : Text) (rows : List (AlertState F))
    → last_of (get j u (bump i t rows)) ≡ last_of (get j u rows)
last_at-bump i t j u rows =
    rw (get-bump i t rows j u)
      (ground (arith, text_beq_iff i j, text_beq_iff t u, last_of-bumped i t (get i t rows)))

last_at-upsert :
    {F : Type 0} (i t j u : Text) (at : ℕ) (value : Option F) (rows : List (AlertState F))
    → last_of (get j u (upsert i t at value rows))
      ≡ (if same_row i t j u then some at else last_of (get j u rows))
last_at-upsert i t j u at value rows =
    rw (get-upsert i t at value rows j u)
      (ground (arith, last_of-upserted i t at value (get i t rows)))

not_yet : (m n : ℕ) → ltb m n ≡ true → n ≤ m → ⊥
not_yet m n cool h = ground arith

module _ {F Ctx : Type 0} (clock : ℕ → ℕ) (interp : Text → Ctx → Interpreted) where
  -- What one round of a loop does: it fires or not, and the table changes accordingly.
  pub data Step (i key : Text) (cooldown_min : ℕ) (s : StateTracker F)
      : Bool × StateTracker F → Type 0 where
    quiet :
        {s' : StateTracker F}
        → s.reads ≤ s'.reads
        → ((j u : Text) → last_at j u s' ≡ last_at j u s)
        → Step i key cooldown_min s (false, s')
    fires :
        {s' : StateTracker F}
        → (now : ℕ) → s.reads ≤ now
        → s'.reads ≡ now + 1
        → ((j u : Text)
            → last_at j u s' ≡ (if same_row i key j u then some (clock now) else last_at j u s))
        → ((p : ℕ) → last_at i key s ≡ some p → p + cooldown_min * 60 ≤ clock s.reads)
        → Step i key cooldown_min s (true, s')

  module _ (key : Text) (value : Option F) (rule : AlertRule) (s : StateTracker F) where
    settle-Step :
        (found : Option (AlertState F))
        → get rule.id key s.rows ≡ found
        → Step rule.id key rule.cooldown_min s
            (settle clock interp key value rule (cooling clock found rule.cooldown_min s))
    unfolding settle cooling mark_triggered bump_count
    settle-Step none e =
        fires s.reads (ground arith) refl
          (λ j u. last_at-upsert rule.id key j u (clock s.reads) value s.rows) (λ p h. ground arith)
    settle-Step (some row) e =
        elim (Bool-cases (ltb (clock s.reads) (row.last_triggered_at + rule.cooldown_min * 60))) [
          | inl cool ↦ rw cool (quiet (ground arith) (λ j u. last_at-bump rule.id key j u s.rows))
          | inr over ↦ rw over (
              fires (s.reads + 1) (ground arith) refl
                (λ j u. last_at-upsert rule.id key j u (clock (s.reads + 1)) value s.rows)
                (λ p h. ground arith))
        ]

    pub consider-Step :
        (ctx : Ctx)
        → Step rule.id key rule.cooldown_min s (consider clock interp key value ctx rule s)
    unfolding consider is_in_cooldown
    consider-Step ctx = elim (Bool-cases (eval_expr interp rule ctx)) [
      | inl holds ↦ rw holds (settle-Step (get rule.id key s.rows) refl)
      | inr fails ↦ rw fails (quiet (ground arith) (λ j u. refl))
    ]

    settle_iff :
        (found : Option (AlertState F))
        → ((settle clock interp key value rule (cooling clock found rule.cooldown_min s)).0 ≡ true)
          ↔ ((p : ℕ) → last_of found ≡ some p → p + rule.cooldown_min * 60 ≤ clock s.reads)
    unfolding settle cooling
    settle_iff none = (λ h p e. ground arith, λ h. refl)
    settle_iff (some row) =
        elim (Bool-cases (ltb (clock s.reads) (row.last_triggered_at + rule.cooldown_min * 60))) [
          | inl cool ↦
              rw cool
                (λ h. ground arith, λ h. absurd (not_yet _ _ cool (h row.last_triggered_at refl)))
          | inr over ↦ rw over (λ h p e. ground arith, λ h. refl)
        ]

    -- A rule fires exactly when its expression holds and the last firing for the key, if the table has
    -- one, is at least its cooldown in minutes before the clock's reading.
    pub consider_iff :
        (ctx : Ctx)
        → ((consider clock interp key value ctx rule s).0 ≡ true) ↔ (
            (eval_expr interp rule ctx ≡ true)
            × ((p : ℕ)
                → last_at rule.id key s ≡ some p
                → p + rule.cooldown_min * 60 ≤ clock s.reads))
    unfolding consider is_in_cooldown
    consider_iff ctx = elim (Bool-cases (eval_expr interp rule ctx)) [
      | inl holds ↦
          let fires = settle_iff (get rule.id key s.rows) in
          rw holds (λ h. (refl, fires.0 h), λ h. fires.1 h.1)
      | inr fails ↦ rw fails (λ h. cc, λ h. cc)
    ]
