-- ===== src/Go/Exec.antt =====
-- Commands run on other machines and on this one. The environment is a parameter: its reply to a
-- call may depend on every call made before.
pub mod Calm
pub mod Records
use gitlab_geo_sync.Prelude.{String, Bool, Option, List, [], ◌∷◌, ◌++◌}
use gitlab_geo_sync.Go.Int64.{ℤ}
use gitlab_geo_sync.Go.Fmt.{Error, Result, ok, err, panic}

-- A program, its arguments and what is added to its environment.
pub data Call : Type 0 where
  command : String → List String → List String → Call

pub data Metric : Type 0 where
  drift : String → String → Metric
  duration : String → String → Metric
  last_sync : String → Metric
  replay_lag : String → ℤ → Metric

-- A command, an update of a metric, or the use of a database pool, known by its connection string.
pub data Event : Type 0 where
  call : Call → Event
  metric : Metric → Event
  pool_opened : String → Event
  pool_closed : String → Event

pub record Reply : Type 0 where
  pub output : String
  pub failure : Option Error

pub record Env : Type 0 where
  pub reply : List Event → Call → Reply
  pub is_done : List Event → Bool

-- An action that may fail: what was called before the failure stays called.
abbrev pub Exec {ℓ} : Type ℓ → Type ℓ
Exec A = List Event → Result A × List Event

module _ {ℓ κ} {A : Type ℓ} {B : Type κ} where
  abbrev pub continue : Result A → (A → Exec B) → Exec B
  continue (ok a) f h = f a h
  continue (err e) f h = (err e, h)
  continue (panic m) f h = (panic m, h)

  infixl 10 ◌>>=◌ ◌>>◌
  abbrev pub ◌>>=◌ : Exec A → (A → Exec B) → Exec B
  ◌>>=◌ m f h = let (r, h') = m h in continue r f h'

  abbrev pub ◌>>◌ : Exec A → Exec B → Exec B
  m >> n = m >>= λ _. n

module _ {ℓ} {A : Type ℓ} where
  abbrev pub pure : A → Exec A
  pure a h = (ok a, h)

  abbrev pub fail : Error → Exec A
  fail e h = (err e, h)

  abbrev pub panics : String → Exec A
  panics m h = (panic m, h)

abbrev pub emit : Metric → Exec (Unit {0})
emit m h = (ok tt, h ++ metric m ∷ [])

-- Run a command and hand over its output and its error.
abbrev pub run : Env → Call → Exec Reply
run env c h = (ok (env.reply h c), h ++ call c ∷ [])

-- A failure that the caller handles; a panic is not handled.
abbrev pub settle {ℓ} : {A : Type ℓ} → Result A × List Event → Result (Result A) × List Event
settle (ok a, h) = (ok (ok a), h)
settle (err e, h) = (ok (err e), h)
settle (panic m, h) = (panic m, h)

abbrev pub attempt {ℓ} : {A : Type ℓ} → Exec A → Exec (Result A)
attempt m h = settle (m h)

-- The context's error, or nothing.
abbrev pub context_error : Env → Exec Bool
context_error env h = (ok (env.is_done h), h)
