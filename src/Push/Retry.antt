-- ===== src/Push/Retry.antt =====
-- src/shared/push/common/retry.py: `async_retry`. The wrapped function acts on a state `S`, and
-- returns or raises; a sleep is recorded by its length.
use news_project.Prelude.{
  ℕ, zero, suc, ◌+◌, ◌*◌, ◌^◌, ◌≤◌, ◌<◌, ◌≡◌, refl, subst, ap, ◌∙◌, ◌⊎◌, inl, inr, Bool, true,
  false, not, Option, none, some, List, [], ◌∷◌, arith, leb, if◌then◌else◌, Bool-cases,
}

pub data Outcome (E A : Type 0) : Type 0 where
  returned : A → Outcome E A
  raised : E → Outcome E A

-- The arguments of the decorator; `retry_on` and `exclude_on` are tests on the exception.
pub record Policy (E : Type 0) : Type 0 where
  pub max_attempts : ℕ
  pub backoff : ℕ
  pub retry_on : E → Bool
  pub exclude_on : E → Bool

-- The end of a call of the wrapper: its outcome, the state, and the sleeps.
pub record Ended (E A S : Type 0) : Type 0 where
  pub outcome : Outcome E A
  pub state : S
  pub sleeps : List ℕ

module _ {E A S : Type 0} (p : Policy E) (fn : S → Outcome E A × S) where
  -- one sleep before the rest
  unfoldable pub slept : ℕ → Option (Ended E A S) → Option (Ended E A S)
  slept delay none = none
  slept delay (some r) = some (record r { sleeps = delay ∷ r.sleeps })

  -- one round: the `return`, or the tests of the `except` clause; `again` is the next round
  unfoldable pub handle : ℕ → Outcome E A → S → Option (Ended E A S) → Option (Ended E A S)
  handle attempt (returned a) s again =
      some (record { outcome = returned a; state = s; sleeps = [] })
  handle attempt (raised exc) s again =
      let stop = some (record { outcome = raised exc; state = s; sleeps = [] }) in
      if p.exclude_on exc
      then stop
      else if not (p.retry_on exc)
      then stop
      else if leb p.max_attempts (attempt + 1)
      then stop
      else again

  -- the `while True` loop, with fuel, from the number of failed attempts; `none` is no fuel
  unfoldable pub wrapper : ℕ → ℕ → S → Option (Ended E A S)
  unfolding slept handle
  wrapper zero attempt s = none
  wrapper (suc fuel) attempt s =
      let (outcome, s') = fn s in
      let again = slept (p.backoff * 2 ^ attempt) (wrapper fuel (attempt + 1) s') in
      handle attempt outcome s' again

  -- `k` calls in a row, from `s` to `s'`, that each raise something to be retried.
  abbrev pub Failures : ℕ → S → S → Type 0
  Failures zero s s' = s ≡ s'
  Failures (suc k) s s' =
      (exc : E) × (m : S) × (fn s ≡ (raised exc, m))
      × (p.exclude_on exc ≡ false)
      × (p.retry_on exc ≡ true)
      × Failures k m s'

  -- the sleeps of `k` failures from the given number of failed attempts on
  abbrev pub doubling : ℕ → ℕ → List ℕ
  doubling zero attempt = []
  doubling (suc k) attempt = (p.backoff * 2 ^ attempt) ∷ doubling k (attempt + 1)

  -- A call of the wrapper ends with this outcome, after `failed` failed attempts.
  abbrev pub Stops : ℕ → Outcome E A → Type 0
  Stops failed (returned a) = Unit
  Stops failed (raised exc) =
      (p.exclude_on exc ≡ true) ⊎ (p.retry_on exc ≡ false) ⊎ (p.max_attempts ≤ failed + 1)

  -- What a run of the wrapper from `s` does: `k` retried failures, then a call that stops.
  pub record Run (attempt : ℕ) (s : S) (result : Option (Ended E A S)) : Type 0 where
    pub k : ℕ
    pub last : S
    pub outcome : Outcome E A
    pub state : S
    pub failures : Failures k s last
    pub call : fn last ≡ (outcome, state)
    pub stops : Stops (attempt + k) outcome
    pub in_limit : (k ≡ 0) ⊎ (attempt + k < p.max_attempts)
    pub ends :
        result ≡ some (record { outcome = outcome; state = state; sleeps = doubling k attempt })

  wrapper-suc :
      (fuel attempt : ℕ) (s m : S) (outcome : Outcome E A)
      → fn s ≡ (outcome, m)
      → wrapper (suc fuel) attempt s
        ≡ handle attempt outcome m (slept (p.backoff * 2 ^ attempt) (wrapper fuel (attempt + 1) m))
  unfolding wrapper
  wrapper-suc fuel attempt s m outcome e =
      ap
        (λ (r : Outcome E A × S).
          handle attempt r.0 r.1 (slept (p.backoff * 2 ^ attempt) (wrapper fuel (attempt + 1) r.1)))
        e

  handle-Stops :
      (attempt : ℕ) (outcome : Outcome E A) (m : S) (again : Option (Ended E A S))
      → Stops attempt outcome
      → handle attempt outcome m again ≡ some (record { outcome = outcome; state = m; sleeps = [] })
  unfolding handle
  handle-Stops attempt (returned a) m again h = refl
  handle-Stops attempt (raised exc) m again h = ground arith

  stop_now :
      (fuel attempt : ℕ) (s m : S) (outcome : Outcome E A)
      → fn s ≡ (outcome, m)
      → Stops attempt outcome
      → Run attempt s (wrapper (suc fuel) attempt s)
  stop_now fuel attempt s m outcome e h = record {
    k = 0;
    last = s;
    outcome = outcome;
    state = m;
    failures = refl;
    call = e;
    stops = subst (λ n. Stops n outcome) (let q : attempt ≡ attempt + 0 = omega arith in q) h;
    in_limit = inl refl;
    ends = wrapper-suc fuel attempt s m outcome e ∙ handle-Stops attempt outcome m _ h;
  }

  again_later :
      (fuel attempt : ℕ) (s m : S) (exc : E)
      → fn s ≡ (raised exc, m)
      → p.exclude_on exc ≡ false
      → p.retry_on exc ≡ true
      → attempt + 1 < p.max_attempts
      → Run (attempt + 1) m (wrapper fuel (attempt + 1) m)
      → Run attempt s (wrapper (suc fuel) attempt s)
  again_later fuel attempt s m exc e x r h run = record {
    k = suc run.k;
    last = run.last;
    outcome = run.outcome;
    state = run.state;
    failures = (exc, m, e, x, r, run.failures);
    call = run.call;
    stops =
        subst (λ n. Stops n run.outcome)
          (let q : attempt + 1 + run.k ≡ attempt + suc run.k = omega arith in q) run.stops;
    in_limit = inr (elim run.in_limit [ inl z ↦ omega arith | inr l ↦ omega arith ]);
    ends =
        wrapper-suc fuel attempt s m (raised exc) e
        ∙ (unfold handle slept in ground (arith, run.ends));
  }

  cases_of_outcome :
      (fuel attempt : ℕ) (s m : S) (outcome : Outcome E A)
      → fn s ≡ (outcome, m)
      → p.max_attempts ≤ attempt + suc fuel
      → (p.max_attempts ≤ attempt + 1 + fuel
          → 1 ≤ fuel
          → Run (attempt + 1) m (wrapper fuel (attempt + 1) m))
      → Run attempt s (wrapper (suc fuel) attempt s)
  cases_of_outcome fuel attempt s m (returned a) e h ih =
      stop_now fuel attempt s m (returned a) e tt
  cases_of_outcome fuel attempt s m (raised exc) e h ih = elim (Bool-cases (p.exclude_on exc)) [
    | inl x ↦ stop_now fuel attempt s m (raised exc) e (inl x)
    | inr x ↦ elim (Bool-cases (p.retry_on exc)) [
      | inr r ↦ stop_now fuel attempt s m (raised exc) e (inr (inl r))
      | inl r ↦ elim (Bool-cases (leb p.max_attempts (attempt + 1))) [
        | inl l ↦ stop_now fuel attempt s m (raised exc) e (inr (inr (ground arith)))
        | inr l ↦
            again_later fuel attempt s m exc e x r (ground arith) (ih (omega arith) (ground arith))
      ]
    ]
  ]

  wrapper-Run :
      (fuel attempt : ℕ) (s : S)
      → p.max_attempts ≤ attempt + fuel
      → 1 ≤ fuel
      → Run attempt s (wrapper fuel attempt s)
  wrapper-Run zero attempt s h f = absurd (omega arith)
  wrapper-Run (suc fuel) attempt s h f =
      cases_of_outcome fuel attempt s (fn s).1 (fn s).0 refl h
        (wrapper-Run fuel (attempt + 1) (fn s).1)

  -- With fuel for `max_attempts` and one more, the wrapper always ends. It makes `k` calls that raise
  -- something to be retried, sleeping `backoff`, twice that and so on after them, and then one call
  -- whose result or exception it passes on: a result, an excluded or other exception, or the last
  -- attempt. It makes more than one call only within `max_attempts`.
  pub wrapper_ends : (s : S) → Run 0 s (wrapper (suc p.max_attempts) 0 s)
  wrapper_ends s = wrapper-Run (suc p.max_attempts) 0 s (omega arith) (omega arith)
