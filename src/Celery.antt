-- ===== src/Celery.antt =====
-- Celery's retries: a task that raises runs again until its retries are used up.
use django_saas_kit.Base.{ℕ, zero, suc, ◌≡◌, ◌⊎◌, ◌≤◌, ◌<◌, inl, inr, refl, arith}
use native.Mathlib.Decide.{dec_lt}
use mathlib.Core.Path.{subst}
use django_saas_kit.Orm.{Result, ok, err}

-- A count of what happens from one state to another.
pub record Counted {S : Type 0} (P : ℕ → S → S → Type 0) : Type 0 where
  pub add : (n : ℕ) (s s' s'' : S) → P 1 s s' → P n s' s'' → P (suc n) s s''
  pub widen : (n : ℕ) (s s' : S) → P 1 s s' → P (suc n) s s'

module _ {E A S : Type 0} where
  abbrev pub retry_on : Result E A × S → (S → Result E A × S) → Result E A × S
  retry_on (ok a, s) again = (ok a, s)
  retry_on (err e, s) again = again s

  -- The runs of a task, for the number of retries that are left: a run that raises calls
  -- `self.retry`, and the next one starts on the state that it left.
  unfoldable pub retrying : (run : ℕ → S → Result E A × S) → (left : ℕ) → S → Result E A × S
  retrying run zero s = run zero s
  retrying run (suc left) s = retry_on (run (suc left) s) (retrying run left)

  -- A first run that returns is the only one.
  pub retrying-ok :
      (run : ℕ → S → Result E A × S) (left : ℕ) (s s' : S) (a : A)
      → run left s ≡ (ok a, s')
      → retrying run left s ≡ (ok a, s')
  unfolding retrying
  retrying-ok run zero s s' a e = e
  retrying-ok run (suc left) s s' a e = rw e refl

  -- Where a run that raises leaves the state as it was, and one that returns ends in a state with a
  -- property, so does the task with all its runs.
  pub retrying_cases :
      (P : S → Type 0) (run : ℕ → S → Result E A × S) (s : S)
      → ((k : ℕ)
          → ((e : E) × (run k s ≡ (err e, s)))
            ⊎ ((a : A) × (s' : S) × (run k s ≡ (ok a, s')) × P s'))
      → (left : ℕ)
      → ((e : E) × (retrying run left s ≡ (err e, s)))
        ⊎ ((a : A) × (s' : S) × (retrying run left s ≡ (ok a, s')) × P s')
  unfolding retrying
  retrying_cases P run s h zero = h zero
  retrying_cases P run s h (suc left) =
      let rest = retrying_cases P run s h left in
      elim (h (suc left)) [
        | inl (e, refused) ↦ rw refused rest
        | inr (a, s', e, p) ↦ inr (a, s', rw e refl, p)
      ]

  -- A task whose runs raise and change nothing until one returns has the result of that one.
  pub retrying_recovers :
      (run : ℕ → S → Result E A × S) (left k : ℕ) (s s' : S) (a : A)
      → k ≤ left
      → ((j : ℕ) → k < j → j ≤ left → (e : E) × (run j s ≡ (err e, s)))
      → run k s ≡ (ok a, s')
      → retrying run left s ≡ (ok a, s')
  unfolding retrying
  retrying_recovers run zero zero s s' a le h e = e
  retrying_recovers run zero (suc k) s s' a le h e = absurd (omega arith)
  retrying_recovers run (suc left) k s s' a le h e = elim (dec_lt left k) [
    | yes last ↦
        let same : k ≡ suc left = omega arith in
        retrying-ok run (suc left) s s' a (subst (λ j. run j s ≡ (ok a, s')) same e)
    | no earlier ↦
        let refused = h (suc left) (omega arith) (omega arith) in
        rw (refused.1) (
          retrying_recovers run left k s s' a (omega arith)
            (λ j below within. h j below (omega arith)) e)
  ]

  retry_on_counts :
      (P : ℕ → S → S → Type 0) (m : Result E A × S) (again : S → Result E A × S)
      → Counted P
      → (n : ℕ) (s : S) → P 1 s m.1
      → ((s' : S) → P n s' (again s').1)
      → P (suc n) s (retry_on m again).1
  retry_on_counts P (ok a, s') again counted n s once rest = counted.widen n s s' once
  retry_on_counts P (err e, s') again counted n s once rest =
      counted.add n s s' (again s').1 once (rest s')

  -- What every run does at most once, all runs do at most once more than there are retries.
  pub retrying_counts :
      (P : ℕ → S → S → Type 0) (run : ℕ → S → Result E A × S)
      → Counted P
      → ((k : ℕ) (s : S) → P 1 s (run k s).1)
      → (left : ℕ) (s : S) → P (suc left) s (retrying run left s).1
  unfolding retrying
  retrying_counts P run counted once zero s = once zero s
  retrying_counts P run counted once (suc left) s =
      let rest = retrying_counts P run counted once left in
      retry_on_counts P (run (suc left) s) (retrying run left) counted (suc left) s
        (once (suc left) s) rest
