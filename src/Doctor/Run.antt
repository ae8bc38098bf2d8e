-- ===== src/Doctor/Run.antt =====
-- internal/doctor: the run of all checks and its summary, and the command doctor of cmd/geoctl.
use gitlab_geo_sync.Prelude.{
  ℕ, suc, String, Bool, not, ◌&&◌, Option, none, some, List, [], ◌∷◌, ◌++◌, ltb, if◌then◌else◌,
  ◌==◌,
}
use gitlab_geo_sync.Go.Fmt.{errorf, end, nat}
use gitlab_geo_sync.Go.Strings.{◌<>◌}
use gitlab_geo_sync.Go.Exec.{Exec, Env, pure, fail, ◌>>=◌}
use gitlab_geo_sync.SshExec.{Runner, combined_output, default_options}
use gitlab_geo_sync.Config.{Config, SiteConfig, S3Config}
use gitlab_geo_sync.Doctor.{
  Check, PoolFactory, ssh_check, pg_control_check, pg_replication_role_check, pg_wal_level_check,
  pg_wal_senders_check, pg_in_recovery_check, db_key_present_check, db_key_parity_check,
  rsync_check, git_check, path_exists_check, s3_bucket_check,
}

-- The checks in the order in which their results are added.
unfoldable pub run_checks : List (Exec Check) → Exec (List Check)
run_checks [] = pure []
run_checks (c ∷ cs) = let rest = run_checks cs in do x ← c; xs ← rest; pure (x ∷ xs)

unfoldable pub primary_checks : SiteConfig → Runner → PoolFactory → List (Exec Check)
primary_checks p runner pf =
    ssh_check "primary" p.ssh_host runner
    ∷ pg_control_check "primary" p.postgres pf
    ∷ pg_replication_role_check "primary" p.postgres pf
    ∷ pg_wal_level_check "primary" p.postgres pf
    ∷ pg_wal_senders_check "primary" p.postgres pf
    ∷ db_key_present_check "primary" p.ssh_host runner
    ∷ rsync_check "primary" p.ssh_host runner
    ∷ git_check "primary" p.ssh_host runner
    ∷ []

-- One round of the loop over the secondaries.
unfoldable pub site_checks : Env → String → Runner → PoolFactory → SiteConfig → List (Exec Check)
site_checks env primary_ssh runner pf s =
    (ssh_check ("secondary:" <> s.name) s.ssh_host runner
      ∷ pg_control_check ("secondary:" <> s.name) s.postgres pf
      ∷ pg_in_recovery_check ("secondary:" <> s.name) s.postgres pf
      ∷ db_key_present_check ("secondary:" <> s.name) s.ssh_host runner
      ∷ [])
    ++ ((if not (primary_ssh == "") && not (s.ssh_host == "")
          then db_key_parity_check env primary_ssh s.ssh_host s.name runner ∷ []
          else [])
        ++ ((rsync_check ("secondary:" <> s.name) s.ssh_host runner
              ∷ git_check ("secondary:" <> s.name) s.ssh_host runner
              ∷ [])
            ++ (if not (s.git.repos_path == "")
                then path_exists_check ("secondary:" <> s.name) s.ssh_host s.git.repos_path
                    "repos_path" runner
                  ∷ []
                else [])))

unfoldable pub sites_checks :
    Env → String → Runner → PoolFactory → List SiteConfig → List (Exec Check)
sites_checks env primary_ssh runner pf [] = []
sites_checks env primary_ssh runner pf (s ∷ ss) =
    site_checks env primary_ssh runner pf s ++ sites_checks env primary_ssh runner pf ss

abbrev pub s3_checks : Bool → Option S3Config → List (Exec Check)
s3_checks is_s3 none = []
s3_checks is_s3 (some s3) = if is_s3 then pure (s3_bucket_check "primary" s3) ∷ [] else []

unfoldable pub all_checks : Env → Config → Runner → PoolFactory → List (Exec Check)
all_checks env cfg runner pf =
    primary_checks cfg.primary runner pf
    ++ (sites_checks env cfg.primary.ssh_host runner pf cfg.secondaries
        ++ s3_checks (cfg.primary.object_store.backend == "s3") cfg.primary.object_store.s3)

pub record Summary : Type 0 where
  pub checks : List Check
  pub pass : ℕ
  pub fail : ℕ
  pub warn : ℕ

abbrev pub counted : Check → Summary → Summary
counted c r =
    if c.status == "PASS"
    then record r { pass = suc r.pass }
    else (if c.status == "FAIL"
        then record r { fail = suc r.fail }
        else (if c.status == "WARN" then record r { warn = suc r.warn } else r))

-- The loop over the results.
unfoldable pub tally : List Check → Summary → Summary
tally [] r = r
tally (c ∷ cs) r = tally cs (counted c r)

unfoldable pub run_with : Env → Config → Runner → PoolFactory → Exec Summary
run_with env cfg runner pf = do
  cs ← run_checks (all_checks env cfg runner pf)
  pure (tally cs (record { checks = cs; pass = 0; fail = 0; warn = 0 }))

-- `Run`: the default ssh options.
unfoldable pub run : Env → Config → PoolFactory → Exec Summary
run env cfg pf = run_with env cfg (combined_output env default_options) pf

-- The command doctor.
unfoldable pub doctor_cmd : Env → Config → PoolFactory → Exec (Unit {0})
doctor_cmd env cfg pf = do
  r ← run env cfg pf
  if ltb 0 r.fail then fail (errorf "doctor: %d checks failed" (nat r.fail end)) else pure tt
