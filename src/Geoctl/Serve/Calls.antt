-- ===== src/Geoctl/Serve/Calls.antt =====
-- What setting the secondaries read-only calls.
use gitlab_geo_sync.Prelude.{
  String, sym, Bool, true, false, Option, none, some, List, [], ◌∷◌, ◌++◌, append-nil,
  if◌then◌else◌, ◌==◌,
}
use gitlab_geo_sync.Go.Fmt.{Error, errorf, end, Result, ok, err, panic}
use gitlab_geo_sync.Go.Exec.{Env, Event, call, run, pure, fail, ◌>>◌}
use gitlab_geo_sync.Config.{SiteConfig}
use gitlab_geo_sync.Go.Exec.Calm.{Calm, IsCalm, bind-Calm, attempt_bind-Calm}
use gitlab_geo_sync.Go.Exec.Records.{Records, Recorded, bind-Records, attempt-Records, run-Records}
use gitlab_geo_sync.SshExec.{default_options, ssh_command, combined_output, check_host}
use gitlab_geo_sync.ReadOnly
use gitlab_geo_sync.ReadOnly.{enable_commands, run_ssh, run_all, ssh_failure, ssh_outcome}
use gitlab_geo_sync.ReadOnly.Calm.{run_all-Calm}
use gitlab_geo_sync.Geoctl.Serve.{enable_all, enabled_on}

-- The commands of some texts on a host, as they are recorded.
abbrev pub commands_on : String → List String → List Event
commands_on host [] = []
commands_on host (cmd ∷ cmds) = call (ssh_command default_options host cmd) ∷ commands_on host cmds

-- The read-only commands on every secondary, in order.
abbrev pub read_only_calls : List SiteConfig → List Event
read_only_calls [] = []
read_only_calls (s ∷ ss) = commands_on s.ssh_host enable_commands ++ read_only_calls ss

pub done-Records : Records [] (pure {0} {A = Unit {0}} tt)
done-Records h = sym (append-nil h)

guard_host-Recorded :
    (b : Bool) (h : List Event)
    → Recorded {0} {A = Unit {0}} h []
        ((if b then fail (errorf "ssh_host not configured" end) else pure tt) h)
guard_host-Recorded true h = tt
guard_host-Recorded false h = sym (append-nil h)

check_host-Records : (host : String) → Records [] (check_host host)
unfolding check_host
check_host-Records host h = guard_host-Recorded (host == "") h

failure-Records : (host out : String) (o : Option Error) → Records [] (ssh_failure host out o)
failure-Records host out none h = sym (append-nil h)
failure-Records host out (some e) h = tt

run_ssh-Records :
    (env : Env) (host cmd : String)
    → Records
        (call (ssh_command default_options host cmd) ∷ [])
        (run_ssh env host false default_options cmd)
unfolding run_ssh combined_output
run_ssh-Records env host cmd =
    bind-Records [] (call (ssh_command default_options host cmd) ∷ []) (check_host host) _
      (check_host-Records host)
      λ _.
        bind-Records (call (ssh_command default_options host cmd) ∷ []) []
          (run env (ssh_command default_options host cmd)) (ssh_outcome host)
          (run-Records env (ssh_command default_options host cmd))
          (λ r. failure-Records host r.output r.failure)

run_ssh-dry :
    (env : Env) (host cmd : String) → Records [] (run_ssh env host true default_options cmd)
unfolding run_ssh
run_ssh-dry env host cmd =
    bind-Records [] [] (check_host host) _ (check_host-Records host) λ _. done-Records

-- The commands of some texts on a host, or none in a dry run.
abbrev pub unless_dry : Bool → List Event → List Event
unless_dry dry es = if dry then [] else es

run_all-Records :
    (env : Env) (host : String) (dry : Bool) (cmds : List String)
    → Records (unless_dry dry (commands_on host cmds)) (run_all env host dry default_options cmds)
unfolding run_all
run_all-Records env host true [] = done-Records
run_all-Records env host false [] = done-Records
run_all-Records env host true (cmd ∷ cmds) =
    bind-Records [] [] (run_ssh env host true default_options cmd) _ (run_ssh-dry env host cmd)
      λ _. run_all-Records env host true cmds
run_all-Records env host false (cmd ∷ cmds) =
    bind-Records _ _ (run_ssh env host false default_options cmd) _ (run_ssh-Records env host cmd)
      λ _. run_all-Records env host false cmds

enable-Records :
    (env : Env) (host : String) (dry : Bool)
    → Records (unless_dry dry (commands_on host enable_commands)) (ReadOnly.enable env host dry)
unfolding ReadOnly.enable ReadOnly.enable_with_config
enable-Records env host dry = run_all-Records env host dry enable_commands

pub enable_all-Records :
    (env : Env) (dry : Bool) (ss : List SiteConfig)
    → Records (unless_dry dry (read_only_calls ss)) (enable_all env dry ss)
unfolding enable_all
enable_all-Records env true [] = done-Records
enable_all-Records env false [] = done-Records
enable_all-Records env true (s ∷ ss) =
    attempt-Records [] [] (ReadOnly.enable env s.ssh_host true)
      (λ r. enabled_on s.name r >> enable_all env true ss) (enable-Records env s.ssh_host true)
      (λ x.
        bind-Records [] [] (pure x) (λ _. enable_all env true ss) (λ h. sym (append-nil h))
          λ _. enable_all-Records env true ss)
      (λ e h. tt)
enable_all-Records env false (s ∷ ss) =
    attempt-Records (commands_on s.ssh_host enable_commands) (read_only_calls ss)
      (ReadOnly.enable env s.ssh_host false) (λ r. enabled_on s.name r >> enable_all env false ss)
      (enable-Records env s.ssh_host false)
      (λ x.
        bind-Records [] (read_only_calls ss) (pure x) (λ _. enable_all env false ss)
          (λ h. sym (append-nil h)) λ _. enable_all-Records env false ss)
      (λ e h. tt)

pub enable_all-Calm : (env : Env) (dry : Bool) (ss : List SiteConfig) → Calm (enable_all env dry ss)
unfolding enable_all ReadOnly.enable ReadOnly.enable_with_config
enable_all-Calm env dry [] = λ h. tt
enable_all-Calm env dry (s ∷ ss) =
    attempt_bind-Calm (run_all env s.ssh_host dry default_options enable_commands)
      (λ r. enabled_on s.name r >> enable_all env dry ss)
      (run_all-Calm env s.ssh_host dry default_options enable_commands)
      λ r c.
        bind-Calm (enabled_on s.name r) (λ _. enable_all env dry ss) (enabled r c)
          λ _. enable_all-Calm env dry ss
  where
    enabled : (r : Result (Unit {0})) → IsCalm r → Calm (enabled_on s.name r)
    enabled (ok u) c h = tt
    enabled (err e) c h = tt
    enabled (panic m) c h = absurd c
