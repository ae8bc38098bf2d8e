-- ===== src/Witnesses/ReconcilerCases.antt =====
-- Two projects of which one has no repository path, and two estimates.
use gitlab_geo_sync.Prelude.{
  ℕ, ◌<◌, ◌+◌, ◌/◌, ◌≤◌, ◌⊎◌, ◌↔◌, String, ◌≡◌, refl, Bool, eqb, if◌then◌else◌, true, false, not,
  ltb, length, count_if, Option, none, some, List, [], ◌∷◌, arith,
}
use gitlab_geo_sync.Go.Int64.{pos}
use gitlab_geo_sync.Go.Fmt.{Error, foreign, cancelled}
use gitlab_geo_sync.Reconciler.Retry.{retry}
use gitlab_geo_sync.Reconciler.Retry.Attempts.{Reports, backoffs, retry-Reports}
use gitlab_geo_sync.Go.Strings.{◌<>◌}
use gitlab_geo_sync.Go.Exec.{Call}
use gitlab_geo_sync.SshExec.{default_options}
use gitlab_geo_sync.Reconciler.GitFetch.{GitFetch, ProjectRow, fetch_one, reconcile_projects}
use gitlab_geo_sync.Reconciler.GitFetch.Pool.{dispatched}
use gitlab_geo_sync.Reconciler.GitFetch.Counts.{
  reconcile_projects-counts, reconcile_projects-cancelled,
}
use gitlab_geo_sync.Reconciler.Registry.{mem, to_set, equal_set}
use gitlab_geo_sync.Reconciler.Registry.Sets.{equal_set-to_set}
use gitlab_geo_sync.Reconciler.Consistency.{is_approx_equal}
use gitlab_geo_sync.Reconciler.Consistency.Tolerance.{is_approx_equal-lem}

abbrev fetcher : GitFetch
fetcher = record {
  primary_ssh_host = "git@primary";
  repos_path = "/repos";
  secondary_name = "eu";
  ssh_cfg = default_options;
  dry_run = false;
  max_parallel = pos 8;
}

abbrev joined : String → String → String
joined a b = a <> ("/" <> b)

abbrev all_good : Call → Option Error
all_good c = none

abbrev app_row : ProjectRow
app_row = record { id = pos 7; repo_path = "group/app.git" }

abbrev lost_row : ProjectRow
lost_row = record { id = pos 8; repo_path = "" }

abbrev rows : List ProjectRow
rows = List.◌∷◌ app_row (List.◌∷◌ lost_row List.[])

-- The fetch that was started second ends first.
abbrev second : List ProjectRow → ℕ
second ps = 1

reconcile_projects-counts_example :
    let o = (reconcile_projects joined second all_good fetcher (pos 1) none rows).0 in
    let started = dispatched none rows in
    (o.repaired ≡ count_if (fetch_one joined all_good fetcher) started)
    × ((o.remaining ≡ count_if (λ p. not (fetch_one joined all_good fetcher p)) started)
        × ((o.repaired + o.remaining ≡ length started) × (o.ok ≡ not (ltb 0 o.remaining))))
reconcile_projects-counts_example =
    reconcile_projects-counts joined second all_good fetcher (pos 1) none rows (omega arith)

reconcile_projects-cancelled_example :
    let o = (reconcile_projects joined second all_good fetcher (pos 1) (some 0) rows).0 in
    (o.ok ≡ true) × ((o.repaired ≡ 0) × (o.remaining ≡ 0))
reconcile_projects-cancelled_example =
    reconcile_projects-cancelled joined second all_good fetcher (pos 1) app_row
      (List.◌∷◌ lost_row List.[])

is_approx_equal-lem_example :
    (is_approx_equal (pos 100) (pos 109) ≡ true)
    ↔ (((100 ≤ 109 + 5) × (109 ≤ 100 + 5)) ⊎ ((100 ≤ 109 + 100 / 10) × (109 ≤ 100 + 109 / 10)))
is_approx_equal-lem_example = is_approx_equal-lem 100 109 (omega arith) (omega arith)

equal_set-to_set_example :
    (equal_set (to_set ("v1" ∷ "v2" ∷ "v1" ∷ [])) (to_set ("v2" ∷ "v1" ∷ [])) ≡ true)
    ↔ ((k : String) → mem k ("v1" ∷ "v2" ∷ "v1" ∷ []) ≡ mem k ("v2" ∷ "v1" ∷ []))
equal_set-to_set_example = equal_set-to_set ("v1" ∷ "v2" ∷ "v1" ∷ []) ("v2" ∷ "v1" ∷ [])

-- The first attempt fails, the others succeed.
abbrev flaky : ℕ → Option Error
flaky n = if eqb n 1 then some (foreign "timeout") else none

abbrev lasting : ℕ → Bool
lasting n = false

retry-Reports_example :
    let r = retry flaky lasting 3 (pos 2000000000) (pos 10000000000) in
    (flaky 2 ≡ none → Reports r none 2 (backoffs 10000000000 2000000000 1))
    × (((x : Error)
          → flaky 2 ≡ some x
          → ◌≡◌ {A = ℕ} 1 0
          → Reports r (some x) 2 (backoffs 10000000000 2000000000 1))
        × ((x : Error)
            → flaky 2 ≡ some x
            → lasting 2 ≡ true
            → 0 < 1
            → Reports r (some cancelled) 2 (backoffs 10000000000 2000000000 2)))
retry-Reports_example =
    retry-Reports flaky lasting 10000000000 2000000000 1 1 (omega arith) (omega arith)
      ((foreign "timeout", refl), (refl, tt))
