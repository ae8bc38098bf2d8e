-- ===== src/Geoctl/Commands.antt =====
-- cmd/geoctl: the commands failover, adopt-as-secondary, dbkey, sync, pg setup and pg status, from the loaded
-- configuration on. A printed line is kept as what it reports.
pub mod Gates
pub mod Status
use gitlab_geo_sync.Prelude.{
  String, Bool, true, false, not, ◌&&◌, Option, none, some, List, [], ◌∷◌, if◌then◌else◌, ◌==◌,
}
use gitlab_geo_sync.Go.Fmt.{Error, errorf, end, str, cause, Result, ok, err, panic}
use gitlab_geo_sync.Go.Exec.{Exec, Env, Event, pure, fail, panics, attempt, ◌>>=◌, ◌>>◌}
use gitlab_geo_sync.Config.{Config, SiteConfig}
use gitlab_geo_sync.Config.Dsn.{replication_dsn}
use gitlab_geo_sync.DbKey
use gitlab_geo_sync.PgSetup
use gitlab_geo_sync.PgSetup.{Machine, Act}
use gitlab_geo_sync.Reconciler.Postgres
use gitlab_geo_sync.Reconciler.Postgres.{Postgres, Journal, PoolFactory, Rows, close_pools}
use gitlab_geo_sync.Failover
use gitlab_geo_sync.Reconciler.{Outcome}
use gitlab_geo_sync.Reconciler.Runner.{Reconciler}

unfoldable pub find_secondary : String → List SiteConfig → Result SiteConfig
find_secondary name [] = err (errorf "secondary %q not found in config" (str name end))
find_secondary name (s ∷ ss) = if s.name == name then ok s else find_secondary name ss

-- The flag, or the name of the first secondary.
abbrev pub secondary_or_first : String → List SiteConfig → String
secondary_or_first name [] = name
secondary_or_first name (s ∷ ss) = if name == "" then s.name else name

-- The command failover: `force` is --yes.
unfoldable pub failover_cmd : Env → Config → Bool → Bool → String → Exec (Unit {0})
failover_cmd env cfg dry_run force flag =
    let name = secondary_or_first flag cfg.secondaries in
    if name == ""
    then fail (errorf "--secondary is required (no secondaries in config)" end)
    else (if not force && not dry_run
        then fail (errorf "failover requires --yes or --dry-run" end)
        else Failover.promote env (Failover.new cfg dry_run) name)

-- The command adopt-as-secondary.
unfoldable pub adopt_cmd : Env → Config → Bool → String → Exec (Unit {0})
adopt_cmd env cfg dry_run flag =
    let old_primary_ssh = if flag == "" then cfg.primary.ssh_host else flag in
    if old_primary_ssh == ""
    then fail (errorf "--old-primary-ssh is required (or set primary.ssh_host in config)" end)
    else Failover.adopt_as_secondary env (Failover.new cfg dry_run) old_primary_ssh

-- The loop of the command dbkey: the verdict that is printed of each secondary.
unfoldable pub check_each :
    Env → String → List SiteConfig → Exec (List (String × Result (Unit {0})))
check_each env primary_ssh [] = pure []
check_each env primary_ssh (s ∷ ss) =
    let rest = check_each env primary_ssh ss in
    do r ← attempt (DbKey.check env primary_ssh s.ssh_host); rs ← rest; pure ((s.name, r) ∷ rs)

abbrev pub dbkey_on : Env → Config → List SiteConfig → Exec (List (String × Result (Unit {0})))
dbkey_on env cfg [] = fail (errorf "no secondaries configured" end)
dbkey_on env cfg (s ∷ ss) = check_each env cfg.primary.ssh_host (s ∷ ss)

unfoldable pub dbkey_cmd : Env → Config → Exec (List (String × Result (Unit {0})))
dbkey_cmd env cfg = dbkey_on env cfg cfg.secondaries

-- The loop of the command sync: the name and the result that are printed of each reconciler.
unfoldable pub sync_each : List Reconciler → Exec (List (String × Outcome))
sync_each [] = pure []
sync_each (r ∷ rs) =
    let rest = sync_each rs in do o ← r.reconcile; os ← rest; pure ((r.name, o) ∷ os)

abbrev pub setup_of :
    Machine → Config → Bool → String → Result SiteConfig → Result (Unit {0}) × List Act
setup_of mc cfg dry_run data_dir (ok sc) =
    if data_dir == ""
    then (err (errorf "--data-dir is required" end), [])
    else PgSetup.run mc (record {
      primary_dsn = replication_dsn cfg.primary.postgres;
      data_dir = data_dir;
      slot_name = sc.postgres.slot_name;
      dry_run = dry_run;
    })
setup_of mc cfg dry_run data_dir (err e) = (err e, [])
setup_of mc cfg dry_run data_dir (panic m) = (panic m, [])

-- The command pg setup.
unfoldable pub pg_setup_cmd :
    Machine → Config → Bool → String → String → Result (Unit {0}) × List Act
pg_setup_cmd mc cfg dry_run secondary_name data_dir =
    setup_of mc cfg dry_run data_dir (find_secondary secondary_name cfg.secondaries)

abbrev pub status_of :
    Rows → Result Postgres × Journal → List Event → (Result Outcome × Journal) × List Event
status_of rows (ok r, j) h = let (o, h') = Postgres.reconcile rows r h in ((o, close_pools r j), h')
status_of rows (err e, j) h = ((err e, j), h)
status_of rows (panic m, j) h = ((panic m, j), h)

-- The command pg status: the pools are closed when it ends.
unfoldable pub pg_status_cmd :
    PoolFactory → Rows → Config → Journal → List Event → (Result Outcome × Journal) × List Event
pg_status_cmd pf rows cfg j h = status_of rows (Postgres.new pf cfg j) h
