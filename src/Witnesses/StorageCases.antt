-- ===== src/Witnesses/StorageCases.antt =====
-- Two paths copied from one host.
use gitlab_geo_sync.Prelude.{false, [], ◌∷◌}
use gitlab_geo_sync.Go.Int64.{pos}
use gitlab_geo_sync.SshExec.{default_options}
use gitlab_geo_sync.Reconciler.FsStorage.{FsStorage, reconcile}
use gitlab_geo_sync.Reconciler.FsStorage.Counts.{Accounted, reconcile-Accounts}
use gitlab_geo_sync.Witnesses.Sample.{sample_env}

abbrev uploads : FsStorage
uploads = record {
  ssh_host = "geo@primary";
  ssh_cfg = default_options;
  path_pairs =
      record { src = "/uploads"; dst = "/uploads" }
      ∷ record { src = "/lfs"; dst = "/data/lfs" }
      ∷ [];
  dry_run = false;
}

reconcile-Accounts_example :
    Accounted sample_env uploads [] (reconcile sample_env uploads (pos 1) []).0
reconcile-Accounts_example = reconcile-Accounts sample_env uploads (pos 1) []
