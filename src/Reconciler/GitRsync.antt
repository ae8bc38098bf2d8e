-- ===== src/Reconciler/GitRsync.antt =====
-- internal/reconciler/gitrsync: the rsync of the git repositories.
use gitlab_geo_sync.Prelude.{
  String, Bool, true, false, Option, none, some, List, [], ◌∷◌, ◌++◌, if◌then◌else◌,
}
use gitlab_geo_sync.Go.Int64.{ℤ}
use gitlab_geo_sync.Go.Fmt.{Error, Text, sprintf, end, str, int, text, cause}
use gitlab_geo_sync.Go.Strings.{◌<>◌, trim_space}
use gitlab_geo_sync.Go.Exec.{
  Exec, Env, command, run, emit, pure, ◌>>=◌, ◌>>◌, drift, duration, last_sync,
}
use gitlab_geo_sync.Config.{SiteConfig}
use gitlab_geo_sync.SshExec.{SshOptions, ssh_string}
use gitlab_geo_sync.Reconciler.{Outcome, outcome}

pub record GitRsync : Type 0 where
  pub ssh_host : String
  pub src_path : String
  pub dst_path : String
  pub ssh_cfg : SshOptions
  pub dry_run : Bool

unfoldable pub new : SiteConfig → SiteConfig → Bool → SshOptions → GitRsync
new primary secondary dry_run ssh_cfg = record {
  ssh_host = primary.ssh_host;
  src_path = primary.git.repos_path;
  dst_path = secondary.git.repos_path;
  ssh_cfg = ssh_cfg;
  dry_run = dry_run;
}

unfoldable pub rsync_args : GitRsync → List String
rsync_args r =
    ("-az"
      ∷ "--delete"
      ∷ "--checksum"
      ∷ "-e"
      ∷ ssh_string r.ssh_cfg
      ∷ "--rsync-path"
      ∷ "sudo rsync"
      ∷ [])
    ++ ((if r.dry_run then "--dry-run" ∷ [] else [])
        ++ ((r.ssh_host <> (":" <> (r.src_path <> "/"))) ∷ (r.dst_path <> "/") ∷ []))

abbrev pub detail : Bool → ℤ → Text
detail dry_run elapsed =
    let t = sprintf "rsync ok in %s" (int elapsed end) in
    if dry_run then sprintf "%s (dry-run)" (text t end) else t

-- The end of `Reconcile`, given what rsync answered.
abbrev pub finished : GitRsync → ℤ → String → Option Error → Exec Outcome
finished r elapsed out none = do
  emit (duration "git_rsync" "ok")
  emit (last_sync "git_rsync")
  pure (outcome true (detail r.dry_run elapsed) 0 0)
finished r elapsed out (some e) = do
  emit (duration "git_rsync" "error")
  emit (drift "git_rsync" "critical")
  pure (outcome false (sprintf "rsync failed: %s: %s" (cause e (str (trim_space out) end))) 0 1)

unfoldable pub reconcile : Env → GitRsync → ℤ → Exec Outcome
reconcile env r elapsed = do
  reply ← run env (command "rsync" (rsync_args r) [])
  finished r elapsed reply.output reply.failure
