-- ===== src/Failover.antt =====
-- internal/failover: the health checks, the promotion of a secondary and the role swap. The state
-- of a `Controller` is what its methods write; the ticker is a list of rounds, each the answers of
-- the health URLs in that round. What is logged or printed is not modelled.
pub mod Calm
pub mod Health
pub mod Script
pub mod Gates
pub mod Promotion
use gitlab_geo_sync.Prelude.{
  ℕ, zero, suc, String, Bool, true, false, not, ◌&&◌, Option, none, some, List, [], ◌∷◌, ◌++◌,
  count_if, leb, eqb, if◌then◌else◌, ◌==◌,
}
use gitlab_geo_sync.Go.Int64.{ℤ, pos, ◌+ℤ◌, leb_ℤ}
use gitlab_geo_sync.Go.Fmt.{Error, errorf, end, str, cause, Result, ok, err, panic}
use gitlab_geo_sync.Go.Strings.{◌<>◌}
use gitlab_geo_sync.Go.Exec.{Exec, Env, Reply, pure, fail, panics, attempt, ◌>>=◌, ◌>>◌}
use gitlab_geo_sync.SshExec.{SshOptions, combined_output, check_host}
use gitlab_geo_sync.ReadOnly
use gitlab_geo_sync.ReadOnly.{ssh_outcome}
use gitlab_geo_sync.DbKey
use gitlab_geo_sync.Config.{Config, SiteConfig, FailoverConfig, SshConfig}

-- `SSHExecConfig` of internal/config.
unfoldable pub ssh_exec_config : Config → SshOptions
ssh_exec_config c = record {
  known_hosts_file = c.ssh.known_hosts_file;
  strict_host_key_checking = c.ssh.strict_host_key_checking;
}

pub record Controller : Type 0 where
  pub cfg : Config
  pub ssh_cfg : SshOptions
  pub primary_url : String
  pub health_urls : List String
  pub quorum : ℤ
  pub check_interval : ℤ
  pub auto_failover : Bool
  pub dry_run : Bool
  pub primary_down : Bool
  pub consecutive_fails : ℤ

abbrev pub configured : Option FailoverConfig → Controller → Controller
configured none c = record c { quorum = pos 1 }
configured (some f) c = record c {
  health_urls = c.health_urls ++ f.health_check_urls;
  quorum = f.quorum_required;
  check_interval = f.health_check_interval;
  auto_failover = f.auto_failover;
}

unfoldable pub new : Config → Bool → Controller
new cfg dry_run = configured cfg.failover (record {
  cfg = cfg;
  ssh_cfg = ssh_exec_config cfg;
  primary_url = cfg.primary.external_url;
  health_urls = cfg.primary.external_url ∷ [];
  quorum = pos 0;
  check_interval = pos 10000000000;
  auto_failover = false;
  dry_run = dry_run;
  primary_down = false;
  consecutive_fails = pos 0;
})

-- What a GET of a health URL comes to.
pub data HttpAnswer : Type 0 where
  bad_request : HttpAnswer
  no_response : HttpAnswer
  status : ℕ → HttpAnswer

unfoldable pub poll_url : (String → HttpAnswer) → String → Bool
poll_url http url = elim (http url) [
  | bad_request ↦ false
  | no_response ↦ false
  | status code ↦ eqb code 200
]

unfoldable pub find_secondary : String → List SiteConfig → Result SiteConfig
find_secondary name [] = err (errorf "secondary %q not found" (str name end))
find_secondary name (s ∷ ss) = if s.name == name then ok s else find_secondary name ss

unfoldable pub verify_primary_down : Controller → Exec (Unit {0})
verify_primary_down c =
    if c.primary_down
    then pure tt
    else fail
        (errorf "primary is not declared down; refusing to promote (use --force to override)" end)

unfoldable pub ssh_secondary : Env → Controller → String → String → Exec (Unit {0})
ssh_secondary env c host cmd = do
  check_host host
  r ← combined_output env c.ssh_cfg host cmd
  ssh_outcome host r

pub record PromotionStep : Type 0 where
  pub name : String
  pub fn : Exec (Unit {0})

abbrev pub step_outcome : String → String → Result (Unit {0}) → Exec (Unit {0})
step_outcome format name (ok u) = pure u
step_outcome format name (err e) = fail (errorf format (str name (cause e end)))
step_outcome format name (panic m) = panics m

-- The loop over the steps: a dry run only names them, and the first error ends it.
unfoldable pub run_steps : String → Bool → List PromotionStep → Exec (Unit {0})
run_steps format dry_run [] = pure tt
run_steps format dry_run (s ∷ steps) =
    let rest = run_steps format dry_run steps in
    if dry_run then rest else do r ← attempt s.fn; step_outcome format s.name r; rest

abbrev pub stop_command : String
stop_command = "sudo gitlab-ctl stop"

abbrev pub start_command : String
start_command = "sudo gitlab-ctl start"

abbrev pub promote_command : String
promote_command =
    "sudo -u gitlab-psql /opt/gitlab/embedded/bin/pg_ctl promote -D /var/opt/gitlab/postgresql/data"

unfoldable pub promotion_steps : Env → Controller → SiteConfig → List PromotionStep
promotion_steps env c secondary =
    record { name = "verify primary down"; fn = verify_primary_down c }
    ∷ record {
      name = "stop gitlab services on secondary";
      fn = ssh_secondary env c secondary.ssh_host stop_command;
    }
    ∷ record {
      name = "promote postgres";
      fn = ssh_secondary env c secondary.ssh_host promote_command;
    }
    ∷ record {
      name = "disable read-only mode";
      fn = ReadOnly.disable_with_config env secondary.ssh_host c.dry_run c.ssh_cfg;
    }
    ∷ record {
      name = "start gitlab services on secondary";
      fn = ssh_secondary env c secondary.ssh_host start_command;
    }
    ∷ record {
      name = "verify db_key_base parity";
      fn = DbKey.check_with_config env c.cfg.primary.ssh_host secondary.ssh_host c.ssh_cfg;
    }
    ∷ []

abbrev pub lift : {A : Type 0} → Result A → Exec A
lift r h = (r, h)

-- `Promote`, once its secondary is found.
unfoldable pub promote_site : Env → Controller → SiteConfig → Exec (Unit {0})
promote_site env c secondary =
    if not c.dry_run && not c.cfg.sync.failover_enabled
    then fail (errorf "failover is disabled in config (sync.failover_enabled=false)" end)
    else run_steps "step %q: %w" c.dry_run (promotion_steps env c secondary)

unfoldable pub promote : Env → Controller → String → Exec (Unit {0})
promote env c secondary_name = do
  secondary ← lift (find_secondary secondary_name c.cfg.secondaries)
  promote_site env c secondary

-- `c.cfg.Secondaries[0]`, which panics where there is none.
abbrev pub first_secondary : List SiteConfig → Exec SiteConfig
first_secondary [] = panics "index out of range"
first_secondary (s ∷ ss) = pure s

unfoldable pub base_backup_command : SiteConfig → String
base_backup_command s =
    "sudo -u gitlab-psql /opt/gitlab/embedded/bin/pg_basebackup -h "
    <> (s.postgres.host
        <> (" -U "
            <> (s.postgres.replication_user
                <> " -D /var/opt/gitlab/postgresql/data -X stream -c fast -R -P")))

unfoldable pub adopt_steps : Env → Controller → String → List PromotionStep
adopt_steps env c old_primary_ssh =
    record {
      name = "stop gitlab on old primary";
      fn = ssh_secondary env c old_primary_ssh stop_command;
    }
    ∷ record {
      name = "pg_basebackup from new primary";
      fn = do
        new_primary ← first_secondary c.cfg.secondaries
        ssh_secondary env c old_primary_ssh (base_backup_command new_primary);
    }
    ∷ record {
      name = "enable read-only mode on old primary";
      fn = ReadOnly.enable_with_config env old_primary_ssh c.dry_run c.ssh_cfg;
    }
    ∷ record {
      name = "start gitlab on old primary as secondary";
      fn = ssh_secondary env c old_primary_ssh start_command;
    }
    ∷ []

unfoldable pub adopt_as_secondary : Env → Controller → String → Exec (Unit {0})
adopt_as_secondary env c old_primary_ssh =
    if not c.dry_run && not c.cfg.sync.failover_enabled
    then fail (errorf "failover is disabled in config" end)
    else run_steps "role-swap step %q: %w" c.dry_run (adopt_steps env c old_primary_ssh)

-- The automatic promotion, whose error is only logged.
pub auto_promote : Env → Controller → Exec (Unit {0})
auto_promote env c = do
  s ← first_secondary c.cfg.secondaries
  r ← attempt (promote env c s.name)
  pure tt

-- The failing branch of `check`, once the count of rounds in a row is raised.
pub declare_down : Env → Controller → Exec Controller
declare_down env c =
    if leb_ℤ (pos 3) c.consecutive_fails
    then (let down = record c { primary_down = true } in
        if c.auto_failover then (do auto_promote env down; pure down) else pure down)
    else pure c

unfoldable pub failing_urls : (String → HttpAnswer) → List String → ℕ
failing_urls http urls = count_if (λ url. not (poll_url http url)) urls

unfoldable pub check : Env → (String → HttpAnswer) → Controller → Exec Controller
check env http c =
    if leb_ℤ c.quorum (pos (failing_urls http c.health_urls))
    then declare_down env (record c { consecutive_fails = c.consecutive_fails +ℤ pos 1 })
    else pure (record c { consecutive_fails = pos 0; primary_down = false })

-- `Run`: one check for each tick.
unfoldable pub run : Env → List (String → HttpAnswer) → Controller → Exec Controller
run env [] c = pure c
run env (http ∷ rounds) c = do c' ← check env http c; run env rounds c'

unfoldable pub is_primary_down : Controller → Bool
is_primary_down c = c.primary_down
