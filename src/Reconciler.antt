-- ===== src/Reconciler.antt =====
-- internal/reconciler: the result that every reconciler returns, and their tests on numbers.
pub mod Runner
pub mod Retry
pub mod ObjectStorage
pub mod Postgres
pub mod FsStorage
pub mod GitRsync
pub mod GitFetch
pub mod Consistency
pub mod ApiValidator
pub mod Registry
use gitlab_geo_sync.Prelude.{ℕ, suc, Bool, false, true, List}
use gitlab_geo_sync.Go.Int64.{ℤ, pos}
use gitlab_geo_sync.Go.Fmt.{Text}

-- `Result`, renamed for the sum of the same name; the lag in nanoseconds.
pub record Outcome : Type 0 where
  pub ok : Bool
  pub lag : ℤ
  pub detail : Text
  pub repaired : ℕ
  pub remaining : ℕ

-- A result with the fields that a struct literal leaves out.
abbrev pub outcome : Bool → Text → ℕ → ℕ → Outcome
outcome ok detail repaired remaining = record {
  ok = ok;
  lag = pos 0;
  detail = detail;
  repaired = repaired;
  remaining = remaining;
}
