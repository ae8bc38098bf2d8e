-- ===== src/Reconciler/GitFetch.antt =====
-- internal/reconciler/gitfetch: the fetch of each project's repository. The rows that the database
-- answers, `sha1_hex` (the hexadecimal SHA-1, 40 characters) and `join` (filepath.Join) are
-- parameters. The fetches of a run are concurrent: which one ends next is a parameter too, and the
-- error of a command is that of the command, whenever it runs.
pub mod Pool
pub mod Counts
use Prim.Native.String.{[], ◌∷◌}
use mathlib.Core.List
use gitlab_geo_sync.Prelude.{
  ℕ, zero, suc, ◌+◌, String, Bool, true, false, Option, none, some, List, map, length, count_if,
  ltb, eqb, not, if◌then◌else◌, ◌==◌,
}
use gitlab_geo_sync.Go.Int64.{ℤ, pos, pos_part, ltb_ℤ}
use gitlab_geo_sync.Go.Fmt.{
  Error, errorf, Text, lit, sprintf, end, str, nat, int, cause, Result, ok, err, panic, ◌>>=◌,
}
use gitlab_geo_sync.Go.Strings.{◌<>◌, itoa}
use gitlab_geo_sync.Go.Exec.{Call, command, Metric, drift, duration, last_sync}
use gitlab_geo_sync.ProjectPath
use gitlab_geo_sync.SshExec.{SshOptions, ssh_string}
use gitlab_geo_sync.Reconciler.{Outcome, outcome}

pub record GitFetch : Type 0 where
  pub primary_ssh_host : String
  pub repos_path : String
  pub secondary_name : String
  pub ssh_cfg : SshOptions
  pub dry_run : Bool
  pub max_parallel : ℤ

unfoldable pub new : String → String → String → Bool → SshOptions → GitFetch
new primary_ssh_host repos_path secondary_name dry_run ssh_cfg = record {
  primary_ssh_host = primary_ssh_host;
  repos_path = repos_path;
  secondary_name = secondary_name;
  ssh_cfg = ssh_cfg;
  dry_run = dry_run;
  max_parallel = pos 8;
}

unfoldable pub set_max_parallel : GitFetch → ℤ → GitFetch
set_max_parallel r n = record r { max_parallel = n }

pub record ProjectRow : Type 0 where
  pub id : ℤ
  pub repo_path : String

-- The errgroup and the two counters of a run.
pub record FetchPool : Type 0 where
  pub running : List ProjectRow
  pub repaired : ℕ
  pub failed : ℕ

-- The project at an index of a list that is not empty, or the last, and the others.
unfoldable pub take_out : ℕ → ProjectRow → List ProjectRow → ProjectRow × List ProjectRow
take_out n p List.[] = (p, List.[])
take_out zero p (List.◌∷◌ q ps) = (p, List.◌∷◌ q ps)
take_out (suc n) p (List.◌∷◌ q ps) = let (x, rest) = take_out n q ps in (x, List.◌∷◌ p rest)

-- A row of the query.
pub record DbRow : Type 0 where
  pub id : ℤ
  pub storage : String
  pub hashed : Bool
  pub route_path : Option String

-- `h[:2]`
abbrev pub first_two : String → String
first_two [] = []
first_two (c ∷ []) = c ∷ []
first_two (c ∷ d ∷ s) = c ∷ d ∷ []

-- The `String` field of a sql.NullString.
abbrev pub null_string : Option String → String
null_string none = ""
null_string (some s) = s

module _ (sha1_hex : String → String) where
  unfoldable pub repo_disk_path : String → Bool → String → ℤ → String
  repo_disk_path storage hashed route_path project_id =
      let h = sha1_hex (itoa project_id) in
      if hashed
      then "@hashed/" <> (first_two h <> ("/" <> (h <> ".git")))
      else (if route_path == "" then "" else route_path <> ".git")

  abbrev pub project_row : DbRow → ProjectRow
  project_row row = record {
    id = row.id;
    repo_path = repo_disk_path row.storage row.hashed (null_string row.route_path) row.id;
  }

  unfoldable pub list_projects : Result (List DbRow) → Result (List ProjectRow)
  list_projects rows = do rs ← rows; ok (map project_row rs)

module _ (join : String → String → String) where
  unfoldable pub fetch_args : GitFetch → ProjectRow → List String
  fetch_args r p = List.◌∷◌ "-C" (
      List.◌∷◌ (join r.repos_path p.repo_path) (
        List.◌∷◌ "fetch" (
          List.◌∷◌ "--prune" (
            List.◌∷◌ "--no-tags" (
              List.◌∷◌
                ("ssh://"
                  <> (r.primary_ssh_host
                      <> ("/var/opt/gitlab/git-data/repositories/" <> p.repo_path)))
                (List.◌∷◌ "+refs/*:refs/*" (List.◌∷◌ "+refs/tags/*:refs/tags/*" List.[])))))))

  unfoldable pub fetch_call : GitFetch → ProjectRow → Call
  fetch_call r p =
      command "git" (fetch_args r p) (List.◌∷◌ ("GIT_SSH_COMMAND=" <> ssh_string r.ssh_cfg) List.[])

  abbrev pub succeeded : Option Error → Bool
  succeeded none = true
  succeeded (some e) = false

  -- The command that a fetch runs, or nothing.
  unfoldable pub fetch_calls : GitFetch → ProjectRow → List Call
  fetch_calls r p =
      if p.repo_path == ""
      then List.[]
      else (if r.dry_run then List.[] else List.◌∷◌ (fetch_call r p) List.[])

  -- Its result, given the error of a command.
  unfoldable pub fetch_one : (Call → Option Error) → GitFetch → ProjectRow → Bool
  fetch_one failure r p =
      if p.repo_path == ""
      then false
      else (if r.dry_run then true else succeeded (failure (fetch_call r p)))

  -- `FetchProject` from the check of the path on.
  abbrev pub checked_path :
      (Call → Option Error) → GitFetch → String → Result (Unit {0}) → Result (Unit {0})
  checked_path failure r path (ok u) =
      if fetch_one failure r (record { id = pos 0; repo_path = path <> ".git" })
      then ok tt
      else err (errorf "git fetch failed for %s" (str path end))
  checked_path failure r path (err e) = err (errorf "invalid project path: %w" (cause e end))
  checked_path failure r path (panic m) = panic m

  unfoldable pub fetch_project : (Call → Option Error) → GitFetch → String → Result (Unit {0})
  fetch_project failure r path = checked_path failure r path (ProjectPath.validate path)

  unfoldable pub parallel : GitFetch → ℕ → ℤ
  parallel r n =
      let p = if ltb_ℤ r.max_parallel (pos 1) then pos 1 else r.max_parallel in
      if ltb_ℤ (pos n) p then pos n else p

  -- The fetches: `pick` says which of the running ones ends next.
  module _ (pick : List ProjectRow → ℕ) (failure : Call → Option Error) (r : GitFetch) where
    abbrev pub added : Bool → List ProjectRow → FetchPool → FetchPool
    added true running pool = record pool { running = running; repaired = suc pool.repaired }
    added false running pool = record pool { running = running; failed = suc pool.failed }

    abbrev pub end_fetch : FetchPool → List ProjectRow → FetchPool
    end_fetch pool List.[] = pool
    end_fetch pool (List.◌∷◌ p ps) =
        let (q, rest) = take_out (pick (List.◌∷◌ p ps)) p ps in
        added (fetch_one failure r q) rest pool

    -- `g.Go` waits for the end of a fetch when as many run as the limit allows.
    unfoldable pub start_fetch : ℕ → ProjectRow → FetchPool → FetchPool
    start_fetch limit p pool =
        let free = if ltb (length pool.running) limit then pool else end_fetch pool pool.running in
        record free { running = List.◌∷◌ p free.running }

    -- The loop, where the context may end after some were started.
    unfoldable pub start_all : ℕ → Option ℕ → List ProjectRow → FetchPool → FetchPool
    start_all limit ended List.[] pool = pool
    start_all limit none (List.◌∷◌ p ps) pool = start_all limit none ps (start_fetch limit p pool)
    start_all limit (some zero) (List.◌∷◌ p ps) pool = pool
    start_all limit (some (suc n)) (List.◌∷◌ p ps) pool =
        start_all limit (some n) ps (start_fetch limit p pool)

    -- `g.Wait` on so many fetches.
    unfoldable pub wait_all : ℕ → FetchPool → FetchPool
    wait_all zero pool = pool
    wait_all (suc n) pool = wait_all n (end_fetch pool pool.running)

    unfoldable pub fetch_all : ℕ → Option ℕ → List ProjectRow → FetchPool
    fetch_all limit ended ps =
        let started =
          start_all limit ended ps (record { running = List.[]; repaired = 0; failed = 0 }) in
        wait_all (length started.running) started

  -- The end of `Reconcile`: repaired and failed.
  abbrev pub finished : GitFetch → ℤ → ℕ → ℕ → ℕ → Outcome × List Metric
  finished r elapsed n repaired failed =
      if ltb 0 failed
      then (
        outcome false
            (sprintf "fetched %d/%d projects in %s (%d failed, parallel=%d)"
              (nat repaired (nat n (int elapsed (nat failed (int (parallel r n) end))))))
            repaired failed,
        List.◌∷◌ (duration "git_fetch" "error") (List.◌∷◌ (drift "git_fetch" "warning") List.[]),
      )
      else (
        outcome true
            (sprintf "fetched %d projects in %s (parallel=%d)"
              (nat n (int elapsed (int (parallel r n) end))))
            repaired 0,
        List.◌∷◌ (duration "git_fetch" "ok") (List.◌∷◌ (last_sync "git_fetch") List.[]),
      )

  -- `Reconcile` on the listed projects.
  unfoldable pub reconcile_projects :
      (List ProjectRow → ℕ)
      → (Call → Option Error)
      → GitFetch
      → ℤ
      → Option ℕ
      → List ProjectRow
      → Outcome × List Metric
  reconcile_projects pick failure r elapsed ended projects =
      if eqb (length projects) 0
      then (outcome true (lit "no projects to sync") 0 0, List.[])
      else (let n = length projects in
          let done = fetch_all pick failure r (pos_part (parallel r n)) ended projects in
          finished r elapsed n done.repaired done.failed)

module _ (sha1_hex : String → String) (join : String → String → String) where
  unfoldable pub reconcile :
      (List ProjectRow → ℕ)
      → (Call → Option Error)
      → GitFetch
      → ℤ
      → Option ℕ
      → Result (List DbRow)
      → Result (Outcome × List Metric)
  reconcile pick failure r elapsed ended rows = elim (list_projects sha1_hex rows) [
    | ok ps ↦ ok (reconcile_projects join pick failure r elapsed ended ps)
    | err e ↦ ok (
      outcome false (sprintf "list projects: %v" (cause e end)) 0 1,
      List.◌∷◌ (drift "git_fetch" "critical") List.[],
    )
    | panic m ↦ panic m
  ]
