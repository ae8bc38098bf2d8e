-- ===== src/Reconciler/Retry.antt =====
-- internal/reconciler, retry.go: the function's error at each attempt and whether the context ends
-- during the wait after it are parameters.
pub mod Attempts
use gitlab_geo_sync.Prelude.{ℕ, suc, zero, Bool, Option, none, some, List, [], ◌∷◌, if◌then◌else◌}
use gitlab_geo_sync.Go.Int64.{ℤ, double, ltb_ℤ}
use gitlab_geo_sync.Go.Fmt.{Error, cancelled}

-- The error that is returned, how often the function was called, and the waits in order.
pub record Retried : Type 0 where
  pub error : Option Error
  pub attempts : ℕ
  pub waits : List ℤ

-- `delay *= 2`, and the cap.
unfoldable pub next_delay : ℤ → ℤ → ℤ
next_delay max_delay delay = let d = double delay in if ltb_ℤ max_delay d then max_delay else d

abbrev pub waited : ℤ → Retried → Retried
waited d r = record { error = r.error; attempts = suc r.attempts; waits = d ∷ r.waits }

module _ (fn : ℕ → Option Error) (is_done : ℕ → Bool) (max_delay : ℤ) where
  -- After an attempt with an error: the attempts left, what comes after the wait, the attempt, the delay.
  abbrev pub after_failure : ℕ → (ℕ → ℤ → Retried) → ℕ → ℤ → Error → Retried
  after_failure zero rest attempt delay e = record { error = some e; attempts = 1; waits = [] }
  after_failure (suc n) rest attempt delay e =
      if is_done attempt
      then record { error = some cancelled; attempts = 1; waits = delay ∷ [] }
      else waited delay (rest (suc attempt) (next_delay max_delay delay))

  abbrev pub after_attempt : ℕ → (ℕ → ℤ → Retried) → ℕ → ℤ → Option Error → Retried
  after_attempt n rest attempt delay none = record { error = none; attempts = 1; waits = [] }
  after_attempt n rest attempt delay (some e) = after_failure n rest attempt delay e

  -- The loop with a number of attempts left.
  unfoldable pub loop : ℕ → ℕ → ℤ → Retried
  loop zero attempt delay = record { error = none; attempts = 0; waits = [] }
  loop (suc n) attempt delay = after_attempt n (loop n) attempt delay (fn attempt)

unfoldable pub retry : (ℕ → Option Error) → (ℕ → Bool) → ℕ → ℤ → ℤ → Retried
retry fn is_done max_attempts initial_delay max_delay =
    loop fn is_done max_delay max_attempts 1 initial_delay
