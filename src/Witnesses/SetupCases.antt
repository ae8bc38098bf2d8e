-- ===== src/Witnesses/SetupCases.antt =====
-- A bootstrap into an empty directory, and the rewriting of the file that it leaves.
use gitlab_geo_sync.Prelude.{String, ◌≡◌, refl, false, none, some, []}
use gitlab_geo_sync.Go.Int64.{pos}
use gitlab_geo_sync.Go.Fmt.{ok}
use gitlab_geo_sync.Go.Strings.{◌<>◌, any_char}
use gitlab_geo_sync.PgSetup.{Options, Machine, conf_text, run}
use gitlab_geo_sync.PgSetup.Gates.{Ran, run-Ran}
use gitlab_geo_sync.PgSetup.Rewrite.{IsRewritten, conf_text_idem}
use gitlab_geo_sync.Reconciler.Postgres.{start}
use gitlab_geo_sync.Reconciler.Postgres.Pools.{open_pools}
use gitlab_geo_sync.Geoctl.Commands.{pg_status_cmd}
use gitlab_geo_sync.Geoctl.Commands.Status.{pg_status_cmd-open_pools}
use gitlab_geo_sync.Witnesses.PoolCases.{one_pool, lagging}
use gitlab_geo_sync.Witnesses.Sample.{sample_config}

abbrev left_by_backup : String
left_by_backup = "# Do not edit\nprimary_conninfo = 'user=repl host=10.0.0.10'\n"

abbrev standby : Machine
standby = record {
  join = λ a b. a <> ("/" <> b);
  read_dir = λ d. ok 0;
  run_basebackup = λ args. none;
  read_file = λ p. ok left_by_backup;
  write_file = λ p t. none;
}

abbrev setup : Options
setup = record {
  primary_dsn = "host=10.0.0.10";
  data_dir = "/data";
  slot_name = "oslo";
  dry_run = false;
}

run-Ran_example : Ran standby setup (run standby setup)
run-Ran_example = run-Ran standby setup

conf_text_idem_example :
    IsRewritten (conf_text "oslo" left_by_backup)
    × (conf_text "oslo" (conf_text "oslo" left_by_backup) ≡ conf_text "oslo" left_by_backup)
unfolding any_char
conf_text_idem_example = conf_text_idem "oslo" left_by_backup refl

pg_status_cmd-open_pools_example :
    open_pools (pg_status_cmd one_pool lagging (sample_config (pos 1)) start []).0.1 ≡ some []
pg_status_cmd-open_pools_example =
    pg_status_cmd-open_pools one_pool lagging (sample_config (pos 1)) []
