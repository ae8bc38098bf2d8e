-- ===== src/Geoctl/Commands/Status.antt =====
-- What the command pg status leaves.
use gitlab_geo_sync.Prelude.{◌≡◌, some, List, []}
use gitlab_geo_sync.Go.Fmt.{Result, ok, err, panic}
use gitlab_geo_sync.Go.Exec.{Event}
use gitlab_geo_sync.Config.{Config}
use gitlab_geo_sync.Reconciler.Postgres
use gitlab_geo_sync.Reconciler.Postgres.{Postgres, Journal, start, PoolFactory, Rows}
use gitlab_geo_sync.Reconciler.Postgres.Pools.{open_pools, Settled, new-Settled}
use gitlab_geo_sync.Geoctl.Commands.{status_of, pg_status_cmd}

Settled-status_of :
    (rows : Rows) (x : Result Postgres × Journal) (h : List Event)
    → Settled x
    → open_pools (status_of rows x h).0.1 ≡ some []
Settled-status_of rows (ok r, j) h s = s.1
Settled-status_of rows (err e, j) h s = s
Settled-status_of rows (panic m, j) h s = absurd s

-- However the connections and the queries end, no pool is open after the command pg status.
pub pg_status_cmd-open_pools :
    (pf : PoolFactory) (rows : Rows) (cfg : Config) (h : List Event)
    → open_pools (pg_status_cmd pf rows cfg start h).0.1 ≡ some []
unfolding pg_status_cmd
pg_status_cmd-open_pools pf rows cfg h =
    Settled-status_of rows (Postgres.new pf cfg start) h (new-Settled pf cfg)
