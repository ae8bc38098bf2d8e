-- ===== src/Reconciler/FsStorage.antt =====
-- internal/reconciler/fsstorage: the rsync of file system paths. The time of a run is a parameter.
pub mod Synced
pub mod Counts
use gitlab_geo_sync.Prelude.{
  ℕ, suc, String, Bool, true, false, ◌||◌, Option, none, some, List, [], ◌∷◌, ◌++◌, length, ltb,
  eqb, ◌&&◌, not, if◌then◌else◌, ◌==◌,
}
use gitlab_geo_sync.Go.Int64.{ℤ}
use gitlab_geo_sync.Go.Fmt.{
  Error, errorf, lit, sprintf, end, str, nat, int, cause, Result, ok, err, panic,
}
use gitlab_geo_sync.Go.Strings.{◌<>◌, contains, trim_space}
use gitlab_geo_sync.Go.Exec.{
  Exec, Env, command, run, emit, pure, context_error, ◌>>=◌, ◌>>◌, drift, duration, last_sync,
}
use gitlab_geo_sync.Config.{SiteConfig, RegistryConfig}
use gitlab_geo_sync.SshExec.{SshOptions, ssh_string}
use gitlab_geo_sync.Reconciler.{Outcome, outcome}

pub record PathPair : Type 0 where
  pub src : String
  pub dst : String

pub record FsStorage : Type 0 where
  pub ssh_host : String
  pub ssh_cfg : SshOptions
  pub path_pairs : List PathPair
  pub dry_run : Bool

abbrev pub same_paths : List String → List PathPair
same_paths [] = []
same_paths (p ∷ ps) = record { src = p; dst = p } ∷ same_paths ps

-- The destination of the registry's path.
abbrev pub registry_dst : String → Option RegistryConfig → String
registry_dst path none = path
registry_dst path (some r) = if r.fs_path == "" then path else r.fs_path

abbrev pub registry_pair : Option RegistryConfig → Option RegistryConfig → List PathPair
registry_pair none s = []
registry_pair (some p) s =
    if p.mode == "fs" && not (p.fs_path == "")
    then record { src = p.fs_path; dst = registry_dst p.fs_path s } ∷ []
    else []

unfoldable pub new : SiteConfig → SiteConfig → Bool → SshOptions → FsStorage
new primary secondary dry_run ssh_cfg = record {
  ssh_host = primary.ssh_host;
  ssh_cfg = ssh_cfg;
  path_pairs =
      same_paths primary.object_store.fs_paths ++ registry_pair primary.registry secondary.registry;
  dry_run = dry_run;
}

unfoldable pub rsync_args : FsStorage → PathPair → List String
rsync_args r pair =
    ("-az"
      ∷ "--delete"
      ∷ "--checksum"
      ∷ "-e"
      ∷ ssh_string r.ssh_cfg
      ∷ "--rsync-path"
      ∷ "sudo rsync"
      ∷ [])
    ++ ((if r.dry_run then "--dry-run" ∷ [] else [])
        ++ ((r.ssh_host <> (":" <> (pair.src <> "/"))) ∷ (pair.dst <> "/") ∷ []))

-- The end of `rsyncPath`, given what rsync answered.
abbrev pub rsync_result : PathPair → String → Option Error → Option Error
rsync_result pair out none = none
rsync_result pair out (some e) =
    if contains out "No such file or directory" || contains out "change_dir"
    then none
    else some (errorf "rsync %s: %w: %s" (str pair.src (cause e (str out end))))

unfoldable pub rsync_path : Env → FsStorage → PathPair → Exec (Option Error)
rsync_path env r pair = do
  reply ← run env (command "rsync" (rsync_args r pair) [])
  pure (rsync_result pair (trim_space reply.output) reply.failure)

abbrev pub Counts : Type 0
Counts = ℕ × ℕ

-- How the loop goes on after a path: failed and repaired.
abbrev pub counted :
    (ℕ → ℕ → Exec (Option Counts)) → PathPair → ℕ → ℕ → Option Error → Exec (Option Counts)
counted rest pair failed repaired none = rest failed (suc repaired)
counted rest pair failed repaired (some e) = do
  emit (drift ("fs_storage:" <> pair.src) "critical")
  rest (suc failed) repaired

-- The loop over the pairs: nothing when the context is done.
unfoldable pub sync_pairs : Env → FsStorage → List PathPair → ℕ → ℕ → Exec (Option Counts)
sync_pairs env r [] failed repaired = pure (some (failed, repaired))
sync_pairs env r (pair ∷ pairs) failed repaired =
    let rest = sync_pairs env r pairs in
    do
      done ← context_error env
      if done
          then pure none
          else (do res ← rsync_path env r pair; counted rest pair failed repaired res)

abbrev pub partly_synced : FsStorage → ℤ → ℕ → ℕ → Outcome
partly_synced r elapsed failed repaired =
    outcome false
      (sprintf "rsynced %d/%d paths in %s (%d failed)"
        (nat repaired (nat (length r.path_pairs) (int elapsed (nat failed end)))))
      repaired failed

abbrev pub finished : FsStorage → ℤ → Option Counts → Exec Outcome
finished r elapsed none = pure (outcome false (lit "cancelled") 0 (length r.path_pairs))
finished r elapsed (some (failed, repaired)) =
    if ltb 0 failed
    then (do emit (duration "fs_storage" "error"); pure (partly_synced r elapsed failed repaired))
    else (do
      emit (duration "fs_storage" "ok")
      emit (last_sync "fs_storage")
      pure (
          outcome true
            (sprintf "rsynced %d paths in %s" (nat (length r.path_pairs) (int elapsed end)))
            repaired 0))

unfoldable pub reconcile : Env → FsStorage → ℤ → Exec Outcome
reconcile env r elapsed =
    if eqb (length r.path_pairs) 0
    then pure (outcome true (lit "no fs paths configured") 0 0)
    else (do counts ← sync_pairs env r r.path_pairs 0 0; finished r elapsed counts)
