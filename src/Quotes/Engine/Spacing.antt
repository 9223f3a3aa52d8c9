-- ===== src/Quotes/Engine/Spacing.antt =====
-- One round of alerts/engine.py, and the time of the last firing of a rule for a key.
use news_project.Prelude.{
  ℕ, ◌+◌, ◌*◌, ◌≤◌, ◌≡◌, refl, sym, ◌∙◌, subst, Bool, true, false, ◌&&◌, ◌||◌, Option, some, arith,
  Text, text_beq_iff, Bool-cases, inl, inr,
}
use news_project.Quotes.State.{StateTracker}
use news_project.Quotes.State.Rows.{same_row}
use news_project.Quotes.Engine.{Interpreted}
use news_project.Quotes.Engine.Cooldown.{last_at, Step, quiet, fires}

-- The time moves, by `w` or more where there was one, or stays as it was.
pub data Moves (w : ℕ) (before after : Option ℕ) : Bool → Type 0 where
  still : after ≡ before → Moves w before after false
  moved :
      (n : ℕ) → after ≡ some n → ((p : ℕ) → before ≡ some p → p + w ≤ n) → Moves w before after true

pub Moves-trans :
    (w : ℕ) (a b c : Option ℕ) (f g : Bool) → Moves w a b f → Moves w b c g → Moves w a c (f || g)
Moves-trans w a b c false g (still e) k = subst (λ x. Moves w x c g) e k
Moves-trans w a b c true false (moved n e h) (still e') = moved n (e' ∙ e) h
Moves-trans w a b c true true (moved n e h) (moved m e' h') =
    moved m e' (λ p q. omega (arith, h p q, h' n e))

module _ {F Ctx : Type 0} (clock : ℕ → ℕ) (interp : Text → Ctx → Interpreted)
    (monotone : (m n : ℕ) → m ≤ n → clock m ≤ clock n) (i key : Text) (cooldown_min : ℕ) where
  -- what a round for the rule `j` and the key `u` does to the time for `i` and `key`
  pub round-Moves :
      (j u : Text) (cd : ℕ) (s : StateTracker F) (result : Bool × StateTracker F)
      → (j ≡ i → cooldown_min ≤ cd)
      → Step clock interp j u cd s result
      → Moves
          (cooldown_min * 60)
          (last_at i key s)
          (last_at i key result.1)
          (result.0 && same_row j u i key)
  round-Moves j u cd s (false, s') long (quiet h same) = still (same i key)
  round-Moves j u cd s (true, s') long (fires now h after same free) =
      elim (Bool-cases (same_row j u i key)) [
        | inl here ↦
            let ids : (j ≡ i) × (u ≡ key) = ground (arith, text_beq_iff j i, text_beq_iff u key) in
            let late : (q : ℕ) → last_at i key s ≡ some q → q + cooldown_min * 60 ≤ clock now =
              λ q e.
                let ready : q + cd * 60 ≤ clock s.reads = free q (
                  subst (λ x. last_at x u s ≡ some q) (sym ids.0)
                    (subst (λ x. last_at i x s ≡ some q) (sym ids.1) e)) in
                omega (arith, ready, long ids.0, monotone s.reads now h) in
            rw here (moved (clock now) (same i key ∙ (rw here refl)) late)
        | inr other ↦ rw other (still (same i key ∙ (rw other refl)))
      ]
