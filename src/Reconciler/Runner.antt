-- ===== src/Reconciler/Runner.antt =====
-- internal/reconciler, runner.go: a sweep over the reconcilers, and the sweeps of `Run`. A tick of
-- the interval's ticker is one more sweep; what a sweep logs is its level.
pub mod Sweeps
use gitlab_geo_sync.Prelude.{
  ℕ, zero, suc, String, Bool, true, false, ◌&&◌, List, [], ◌∷◌, eqb, if◌then◌else◌,
}
use gitlab_geo_sync.Go.Int64.{ℤ}
use gitlab_geo_sync.Go.Exec.{Exec, Env, pure, context_error, ◌>>=◌, ◌>>◌}
use gitlab_geo_sync.Reconciler.{Outcome}

-- The interface `Reconciler`.
pub record Reconciler : Type 0 where
  pub name : String
  pub reconcile : Exec Outcome

pub record Runner : Type 0 where
  pub interval : ℤ
  pub reconcilers : List Reconciler

unfoldable pub new_runner : ℤ → List Reconciler → Runner
new_runner interval recs = record { interval = interval; reconcilers = recs }

pub data Level : Type 0 where
  debug : Level
  info : Level
  warn : Level

unfoldable pub level_of : Outcome → Level
level_of o = if o.ok && eqb o.remaining 0 then debug else (if o.ok then info else warn)

-- The level at which each reconciler's result was logged, in order.
abbrev pub Log : Type 0
Log = List (String × Level)

abbrev pub logged : Reconciler → Outcome → Log → Exec Log
logged r o log = pure ((r.name, level_of o) ∷ log)

unfoldable pub sweep : Env → List Reconciler → Exec Log
sweep env [] = pure []
sweep env (r ∷ rs) =
    let rest = sweep env rs in
    do
      done ← context_error env
      if done then pure [] else (do o ← r.reconcile; log ← rest; logged r o log)

-- `Run`: a sweep at the start, and one for each tick before the context ends.
unfoldable pub run : Env → Runner → ℕ → Exec (List Log)
run env r zero = do log ← sweep env r.reconcilers; pure (log ∷ [])
run env r (suc ticks) =
    let rest = run env r ticks in do log ← sweep env r.reconcilers; logs ← rest; pure (log ∷ logs)
