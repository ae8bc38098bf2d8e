-- ===== src/Reconciler/GitFetch/Counts.antt =====
-- What the counters of a fetch run say.
use mathlib.Core.Path.{subst}
use gitlab_geo_sync.Prelude.{
  ℕ, zero, suc, ◌+◌, ◌≡◌, refl, ap, ◌∙◌, sym, String, Bool, true, false, Option, some, List, length,
  count_if, ltb, eqb, not, arith, lt→ltb, ◌<◌,
}
use gitlab_geo_sync.Go.Int64.{ℤ, pos_part}
use gitlab_geo_sync.Go.Fmt.{Error}
use gitlab_geo_sync.Go.Exec.{Call, Metric}
use gitlab_geo_sync.Reconciler.{Outcome}
use gitlab_geo_sync.Reconciler.GitFetch.{
  GitFetch, ProjectRow, fetch_one, fetch_all, finished, reconcile_projects, parallel,
}
use gitlab_geo_sync.Reconciler.GitFetch.Pool.{dispatched, good, bad, fetch_all-counts}

eqb_zero : (n : ℕ) → 0 < n → eqb n 0 ≡ false
eqb_zero n h = ground arith

module _ (join : String → String → String) (pick : List ProjectRow → ℕ)
    (failure : Call → Option Error) (r : GitFetch) where
  split_count :
      (p : ProjectRow → Bool) (ps : List ProjectRow)
      → count_if p ps + count_if (λ x. not (p x)) ps ≡ length ps
  unfolding count_if
  split_count p List.[] = refl
  split_count p (List.◌∷◌ x ps) = ground (arith, split_count p ps)

  -- What the end of the run reports.
  abbrev Reports : Outcome → ℕ → ℕ → Type 0
  Reports o a b = (o.repaired ≡ a) × ((o.remaining ≡ b) × (o.ok ≡ not (ltb 0 b)))

  finished_case : (elapsed : ℤ) (n a b : ℕ) → Reports (finished join r elapsed n a b).0 a b
  finished_case elapsed n a zero = (refl, (refl, refl))
  finished_case elapsed n a (suc b) = let e = lt→ltb 0 (suc b) (omega arith) in (rw e, (rw e, rw e))

  run_finished :
      (elapsed : ℤ) (ended : Option ℕ) (projects : List ProjectRow)
      → 0 < length projects
      → let done =
          fetch_all join pick failure r
            (pos_part (parallel join r (length projects)))
            ended
            projects in
        reconcile_projects join pick failure r elapsed ended projects
        ≡ finished join r elapsed (length projects) done.repaired done.failed
  unfolding reconcile_projects
  run_finished elapsed ended projects h = rw (eqb_zero (length projects) h)

  run_case :
      (elapsed : ℤ) (ended : Option ℕ) (projects : List ProjectRow)
      → 0 < length projects
      → Reports
          (reconcile_projects join pick failure r elapsed ended projects).0
          (count_if (good join pick failure r) (dispatched ended projects))
          (count_if (bad join pick failure r) (dispatched ended projects))
  run_case elapsed ended projects h =
      let (u, v) =
        fetch_all-counts join pick failure r (pos_part (parallel join r (length projects))) ended
          projects in
      subst
        (λ (o : Outcome × List Metric).
          Reports o.0 (count_if (good join pick failure r) (dispatched ended projects))
            (count_if (bad join pick failure r) (dispatched ended projects)))
        (sym (
          run_finished elapsed ended projects h
          ∙ ap
              (λ n.
                finished join r elapsed (length projects) n
                  (fetch_all join pick failure r (pos_part (parallel join r (length projects)))
                    ended projects).failed)
              u
          ∙ ap
              (λ n.
                finished join r elapsed (length projects)
                  (count_if (good join pick failure r) (dispatched ended projects)) n)
              v))
        (finished_case elapsed (length projects) _ _)

-- A run over listed projects, with its limit on the fetches that run at once, in whatever order they
-- end, and whether or not the context ends before all are started: it reports as repaired the started
-- fetches that succeeded and as remaining those that failed, which together are all that were started,
-- and it is OK exactly when none of those failed.
pub reconcile_projects-counts :
    (join : String → String → String) (pick : List ProjectRow → ℕ) (failure : Call → Option Error)
    (r : GitFetch) (elapsed : ℤ) (ended : Option ℕ) (projects : List ProjectRow)
    → 0 < length projects
    → let o = (reconcile_projects join pick failure r elapsed ended projects).0 in
      let started = dispatched ended projects in
      (o.repaired ≡ count_if (fetch_one join failure r) started)
      × ((o.remaining ≡ count_if (λ p. not (fetch_one join failure r p)) started)
          × ((o.repaired + o.remaining ≡ length started) × (o.ok ≡ not (ltb 0 o.remaining))))
reconcile_projects-counts join pick failure r elapsed ended projects h =
    let (a, (b, c)) = run_case join pick failure r elapsed ended projects h in
    (
      a,
      (
        b,
        (
          omega (
            arith,
            a,
            b,
            split_count join pick failure r (fetch_one join failure r) (dispatched ended projects),
          ),
          c ∙ ap (λ n. not (ltb 0 n)) (sym b),
        ),
      ),
    )

-- A run whose context has ended before the first fetch is OK, with nothing fetched and nothing
-- remaining, whatever the projects are.
pub reconcile_projects-cancelled :
    (join : String → String → String) (pick : List ProjectRow → ℕ) (failure : Call → Option Error)
    (r : GitFetch) (elapsed : ℤ) (p : ProjectRow) (ps : List ProjectRow)
    → let o = (reconcile_projects join pick failure r elapsed (some 0) (List.◌∷◌ p ps)).0 in
      (o.ok ≡ true) × ((o.repaired ≡ 0) × (o.remaining ≡ 0))
unfolding count_if
reconcile_projects-cancelled join pick failure r elapsed p ps =
    let (a, (b, c)) = run_case join pick failure r elapsed (some 0) (List.◌∷◌ p ps) (omega arith) in
    (c, (a, b))
