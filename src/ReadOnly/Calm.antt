-- ===== src/ReadOnly/Calm.antt =====
-- The ssh commands of internal/readonly never panic.
use gitlab_geo_sync.Prelude.{String, Bool, Option, none, some, List, [], ◌∷◌, ◌==◌}
use gitlab_geo_sync.Go.Exec.{Env, Reply}
use gitlab_geo_sync.Go.Exec.Calm.{Calm, bind-Calm, if-Calm}
use gitlab_geo_sync.Go.Fmt.{Error}
use gitlab_geo_sync.SshExec.{SshOptions, combined_output, check_host}
use gitlab_geo_sync.ReadOnly.{ssh_failure, ssh_outcome, run_ssh, run_all}

pub check_host-Calm : (host : String) → Calm (check_host host)
unfolding check_host
check_host-Calm host = if-Calm (host == "") _ _ (λ h. tt) (λ h. tt)

pub combined_output-Calm :
    (env : Env) (cfg : SshOptions) (host cmd : String) → Calm (combined_output env cfg host cmd)
unfolding combined_output
combined_output-Calm env cfg host cmd h = tt

ssh_failure-Calm : (host out : String) (o : Option Error) → Calm (ssh_failure host out o)
ssh_failure-Calm host out none h = tt
ssh_failure-Calm host out (some e) h = tt

pub ssh_outcome-Calm : (host : String) (r : Reply) → Calm (ssh_outcome host r)
ssh_outcome-Calm host r = ssh_failure-Calm host r.output r.failure

pub run_ssh-Calm :
    (env : Env) (host : String) (dry_run : Bool) (cfg : SshOptions) (cmd : String)
    → Calm (run_ssh env host dry_run cfg cmd)
unfolding run_ssh
run_ssh-Calm env host dry_run cfg cmd = bind-Calm (check_host host) _ (check_host-Calm host) λ u.
    if-Calm dry_run _ _ (λ h. tt)
      (bind-Calm (combined_output env cfg host cmd) _ (combined_output-Calm env cfg host cmd)
        (ssh_outcome-Calm host))

pub run_all-Calm :
    (env : Env) (host : String) (dry_run : Bool) (cfg : SshOptions) (cmds : List String)
    → Calm (run_all env host dry_run cfg cmds)
unfolding run_all
run_all-Calm env host dry_run cfg [] h = tt
run_all-Calm env host dry_run cfg (cmd ∷ cmds) h =
    bind-Calm (run_ssh env host dry_run cfg cmd) (λ u. run_all env host dry_run cfg cmds)
      (run_ssh-Calm env host dry_run cfg cmd) (λ u. run_all-Calm env host dry_run cfg cmds) h
