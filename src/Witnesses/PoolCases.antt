-- ===== src/Witnesses/PoolCases.antt =====
-- Pools of the sample configuration, where the second connection is refused, and one secondary's lag.
use gitlab_geo_sync.Prelude.{◌≡◌, true, none, some, [], ◌∷◌, eqb, if◌then◌else◌}
use gitlab_geo_sync.Go.Int64.{pos}
use gitlab_geo_sync.Go.Fmt.{ok, foreign}
use gitlab_geo_sync.Reconciler.{Outcome}
use gitlab_geo_sync.Reconciler.Postgres.{
  Journal, start, PoolFactory, Postgres, Rows, new, reconcile,
}
use gitlab_geo_sync.Reconciler.Postgres.Pools.{Settled, new-Settled}
use gitlab_geo_sync.Reconciler.Postgres.Lag.{Reports, reconcile-Reports}
use gitlab_geo_sync.Witnesses.Sample.{sample_config}

-- The second pool cannot be opened.
abbrev pub one_pool : PoolFactory
one_pool j dsn = if eqb j.next 1 then some (foreign "connection refused") else none

new-Settled_example : Settled (new one_pool (sample_config (pos 1)) start)
new-Settled_example = new-Settled one_pool (sample_config (pos 1))

abbrev two_pools : Postgres
two_pools = record { primary = 0; secondaries = record { name = "oslo"; pool = 1 } ∷ [] }

abbrev pub lagging : Rows
lagging = record { in_recovery = λ p. ok true; lag_of = λ p name. ok (pos 2000000000) }

reconcile-Reports_example :
    (o : Outcome) × (((reconcile lagging two_pools []).0 ≡ ok o) × Reports lagging two_pools o)
unfolding gitlab_geo_sync.Reconciler.Postgres.check_secondary
reconcile-Reports_example = reconcile-Reports lagging two_pools [] (tt, tt)
