-- ===== src/ReadOnly.antt =====
-- internal/readonly: read-only mode of a secondary, by ssh commands. The line that a dry run prints
-- is not modelled.
pub mod Calm
use gitlab_geo_sync.Prelude.{String, Bool, Option, none, some, List, [], ◌∷◌, if◌then◌else◌}
use gitlab_geo_sync.Go.Fmt.{Error, errorf, end, str, cause}
use gitlab_geo_sync.Go.Exec.{Exec, Env, Reply, pure, fail, ◌>>=◌, ◌>>◌}
use gitlab_geo_sync.SshExec.{SshOptions, combined_output, check_host, default_options}

-- `fmt.Errorf("ssh %s: %w: %s", host, err, out)` where the command failed.
abbrev pub ssh_failure : String → String → Option Error → Exec (Unit {0})
ssh_failure host out none = pure tt
ssh_failure host out (some e) = fail (errorf "ssh %s: %w: %s" (str host (cause e (str out end))))

abbrev pub ssh_outcome : String → Reply → Exec (Unit {0})
ssh_outcome host r = ssh_failure host r.output r.failure

unfoldable pub run_ssh : Env → String → Bool → SshOptions → String → Exec (Unit {0})
run_ssh env host dry_run cfg cmd = do
  check_host host
  if dry_run then pure tt else do r ← combined_output env cfg host cmd; ssh_outcome host r

-- The loop over the commands, which ends at the first error.
unfoldable pub run_all : Env → String → Bool → SshOptions → List String → Exec (Unit {0})
run_all env host dry_run cfg [] = pure tt
run_all env host dry_run cfg (cmd ∷ cmds) =
    let rest = run_all env host dry_run cfg cmds in do run_ssh env host dry_run cfg cmd; rest

abbrev pub enable_commands : List String
enable_commands =
    "sudo gitlab-ctl deploy-registry-readonly start" ∷ "sudo gitlab-ctl sidekiq pause"
    ∷ "sudo gitlab-rails runner 'ApplicationSetting.current.update!(repository_storages: [])' 2>/dev/null || true"
    ∷ []

abbrev pub disable_commands : List String
disable_commands =
    "sudo gitlab-ctl deploy-registry-readonly stop" ∷ "sudo gitlab-ctl sidekiq resume"
    ∷ "sudo gitlab-rails runner 'ApplicationSetting.current.update!(repository_storages: nil)' 2>/dev/null || true"
    ∷ []

unfoldable pub enable_with_config : Env → String → Bool → SshOptions → Exec (Unit {0})
enable_with_config env host dry_run cfg = run_all env host dry_run cfg enable_commands

unfoldable pub disable_with_config : Env → String → Bool → SshOptions → Exec (Unit {0})
disable_with_config env host dry_run cfg = run_all env host dry_run cfg disable_commands

unfoldable pub enable : Env → String → Bool → Exec (Unit {0})
enable env host dry_run = enable_with_config env host dry_run default_options

unfoldable pub disable : Env → String → Bool → Exec (Unit {0})
disable env host dry_run = disable_with_config env host dry_run default_options
