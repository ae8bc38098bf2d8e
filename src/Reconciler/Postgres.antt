-- ===== src/Reconciler/Postgres.antt =====
-- internal/reconciler/postgres: the connection pools and the check of each secondary. The pool factory
-- is a parameter that answers a connection string, given what was opened and closed before; so are
-- the rows that the databases answer.
pub mod Pools
pub mod Lag
use gitlab_geo_sync.Prelude.{
  ℕ, zero, suc, String, Bool, true, false, Option, none, some, List, [], ◌∷◌, ◌++◌, if◌then◌else◌,
  ◌==◌,
}
use gitlab_geo_sync.Go.Int64.{ℤ, pos, negsuc, ltb_ℤ}
use gitlab_geo_sync.Go.Fmt.{
  Error, errorf, Text, lit, sprintf, end, str, int, text, cause, Result, ok, err, panic,
}
use gitlab_geo_sync.Go.Exec.{Exec, emit, pure, panics, ◌>>=◌, ◌>>◌, replay_lag}
use gitlab_geo_sync.Config.{Config, SiteConfig}
use gitlab_geo_sync.Config.Dsn.{dsn}
use gitlab_geo_sync.Reconciler.{Outcome}

-- A pool is known by its place among all that were opened.
pub data PoolEvent : Type 0 where
  opened : ℕ → PoolEvent
  closed : ℕ → PoolEvent

-- How many pools were opened, and every opening and closing in order.
pub record Journal : Type 0 where
  pub next : ℕ
  pub events : List PoolEvent

abbrev pub start : Journal
start = record { next = 0; events = [] }

abbrev pub PoolFactory : Type 0
PoolFactory = Journal → String → Option Error

unfoldable pub close : ℕ → Journal → Journal
close p j = record j { events = j.events ++ closed p ∷ [] }

abbrev pub open_next : Journal → Journal
open_next j = record { next = suc j.next; events = j.events ++ opened j.next ∷ [] }

pub record SecondaryConn : Type 0 where
  pub name : String
  pub pool : ℕ

pub record Postgres : Type 0 where
  pub primary : ℕ
  pub secondaries : List SecondaryConn

unfoldable pub close_all : List SecondaryConn → Journal → Journal
close_all [] j = j
close_all (s ∷ ss) j = close_all ss (close s.pool j)

-- The loop over the configured secondaries; the connections made so far, in order.
module _ (pf : PoolFactory) where
  abbrev pub connected :
      (List SecondaryConn → Journal → Result Postgres × Journal)
      → ℕ
      → List SecondaryConn
      → SiteConfig
      → Journal
      → Option Error
      → Result Postgres × Journal
  connected rest p conns sc j none =
      rest (conns ++ record { name = sc.name; pool = j.next } ∷ []) (open_next j)
  connected rest p conns sc j (some e) = (
    err (errorf "connect secondary %s pg: %w" (str sc.name (cause e end))),
    close_all conns (close p j),
  )

  unfoldable pub connect_secondaries :
      ℕ → List SiteConfig → List SecondaryConn → Journal → Result Postgres × Journal
  connect_secondaries p [] conns j = (ok (record { primary = p; secondaries = conns }), j)
  connect_secondaries p (sc ∷ scs) conns j =
      connected (connect_secondaries p scs) p conns sc j (pf j (dsn sc.postgres))

  abbrev pub with_primary : List SiteConfig → Journal → Option Error → Result Postgres × Journal
  with_primary scs j none = connect_secondaries j.next scs [] (open_next j)
  with_primary scs j (some e) = (err (errorf "connect primary pg: %w" (cause e end)), j)

  -- `New` and `NewWithFactory`.
  unfoldable pub new : Config → Journal → Result Postgres × Journal
  new cfg j = with_primary cfg.secondaries j (pf j (dsn cfg.primary.postgres))

unfoldable pub close_pools : Postgres → Journal → Journal
close_pools r j = close_all r.secondaries (close r.primary j)

unfoldable pub secondary_pool : String → List SecondaryConn → Option ℕ
secondary_pool name [] = none
secondary_pool name (s ∷ ss) = if s.name == name then some s.pool else secondary_pool name ss

-- What the databases answer: `SELECT pg_is_in_recovery()` of a pool, and the replay lag, in
-- nanoseconds, that the primary has for an application name.
pub record Rows : Type 0 where
  pub in_recovery : ℕ → Result Bool
  pub lag_of : ℕ → String → Result ℤ

abbrev pub lag_row : String → Result ℤ → Result ℤ
lag_row name (ok lag) = ok lag
lag_row name (err e) =
    err (errorf "primary has no replication row for %s: %w" (str name (cause e end)))
lag_row name (panic m) = panic m

abbrev pub recovery_row : Rows → Postgres → SecondaryConn → Result Bool → Result ℤ
recovery_row rows r sc (ok standby) =
    if standby
    then lag_row sc.name (rows.lag_of r.primary sc.name)
    else err (errorf "secondary %s is not in recovery mode (already promoted?)" (str sc.name end))
recovery_row rows r sc (err e) = err (errorf "query pg_is_in_recovery: %w" (cause e end))
recovery_row rows r sc (panic m) = panic m

unfoldable pub check_secondary : Rows → Postgres → SecondaryConn → Result ℤ
check_secondary rows r sc = recovery_row rows r sc (rows.in_recovery sc.pool)

-- `Set(-1)`: a lag of minus one second.
abbrev pub minus_one : ℤ
minus_one = negsuc 999999999

abbrev pub max : ℤ → ℤ → ℤ
max a b = if ltb_ℤ a b then b else a

abbrev pub with_lag : SecondaryConn → ℤ → Outcome → Outcome
with_lag sc lag o =
    if ltb_ℤ (pos 0) lag
    then record o {
      lag = max o.lag lag;
      detail = sprintf "%s; %s lag=%s" (text o.detail (str sc.name (int lag end)));
    }
    else o

abbrev pub with_error : SecondaryConn → Error → Outcome → Outcome
with_error sc e o = record o {
  ok = false;
  remaining = suc o.remaining;
  detail = sprintf "%s; %s error: %v" (text o.detail (str sc.name (cause e end)));
}

abbrev pub checked : (Outcome → Exec Outcome) → SecondaryConn → Outcome → Result ℤ → Exec Outcome
checked rest sc o (ok lag) = do emit (replay_lag sc.name lag); rest (with_lag sc lag o)
checked rest sc o (err e) = do emit (replay_lag sc.name minus_one); rest (with_error sc e o)
checked rest sc o (panic m) = panics m

-- The loop over the secondaries; the result is OK until one fails.
unfoldable pub check_all : Rows → Postgres → List SecondaryConn → Outcome → Exec Outcome
check_all rows r [] o = pure o
check_all rows r (sc ∷ scs) o = checked (check_all rows r scs) sc o (check_secondary rows r sc)

unfoldable pub reconcile : Rows → Postgres → Exec Outcome
reconcile rows r =
    check_all rows r r.secondaries
      (record { ok = true; lag = pos 0; detail = lit "ok"; repaired = 0; remaining = 0 })
