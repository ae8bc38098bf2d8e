-- ===== src/Witnesses/KeyCases.antt =====
-- Two hosts that answer the same key.
use gitlab_geo_sync.Prelude.{String, ◌≡◌, ◌↔◌, none, []}
use gitlab_geo_sync.Go.Fmt.{ok}
use gitlab_geo_sync.Go.Exec.{pure}
use gitlab_geo_sync.SshExec.{Runner}
use gitlab_geo_sync.DbKey.{fetch_key, check_with_runner}
use gitlab_geo_sync.DbKey.Parity.{check_with_runner-parity}
use gitlab_geo_sync.Witnesses.Sample.{sample_env}

abbrev one_key : Runner
one_key host cmd = pure (record { output = "  db_key_base: 0a1b2c"; failure = none })

check_with_runner-parity_example :
    ((check_with_runner sample_env "paris" "oslo" one_key []).0 ≡ ok tt) ↔ (
      (key : String) × (((fetch_key sample_env "paris" one_key []).0 ≡ ok key)
        × ((fetch_key sample_env "oslo" one_key (fetch_key sample_env "paris" one_key []).1).0
            ≡ ok key)))
check_with_runner-parity_example = check_with_runner-parity sample_env "paris" "oslo" one_key []
