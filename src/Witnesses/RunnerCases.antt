-- ===== src/Witnesses/RunnerCases.antt =====
-- A sweep of two reconcilers, and listings of two buckets.
use gitlab_geo_sync.Prelude.{
  ℕ, zero, suc, ◌≡◌, ◌↔◌, refl, Bool, true, false, Option, none, some, List, [], ◌∷◌, ◌++◌, inl,
  arith,
}
use gitlab_geo_sync.Go.Int64.{pos}
use gitlab_geo_sync.Go.Fmt.{Result, ok, err, lit, foreign}
use gitlab_geo_sync.Go.Exec.{emit, last_sync, pure, ◌>>◌}
use gitlab_geo_sync.Reconciler.{Outcome}
use gitlab_geo_sync.Reconciler.Runner.{Reconciler, Log, sweep}
use gitlab_geo_sync.Reconciler.Runner.Sweeps.{in_turn, LogFits, sweep-in_turn}
use gitlab_geo_sync.Reconciler.ObjectStorage.{ObjectStorage, Stats, bucket_stats, listed, reconcile}
use gitlab_geo_sync.Reconciler.ObjectStorage.Buckets.{
  objects_in, bytes_in, pages_of, reconcile-Agree, bucket_stats-pages_of, listed-first,
}
use gitlab_geo_sync.Witnesses.Sample.{sample_env}

abbrev fine : Outcome
fine = record { ok = true; lag = pos 0; detail = lit "ok"; repaired = 0; remaining = 0 }

abbrev both : List Reconciler
both =
    record { name = "postgres"; reconcile = pure fine }
    ∷ record { name = "registry"; reconcile = (do emit (last_sync "registry"); pure fine) }
    ∷ []

sweep-in_turn_example :
    (log : Log) × ((sweep sample_env (both ++ []) [] ≡ (ok log, in_turn both []))
      × LogFits both [] log)
sweep-in_turn_example =
    sweep-in_turn sample_env both [] [] ((λ h. (fine, refl)), ((λ h. (fine, refl)), tt))
      (refl, (refl, tt)) (inl refl)

-- Three objects in one bucket, and a listing that fails once.
abbrev three : Stats
three = (pos 3, pos 300)

abbrev second_try : ℕ → Result Stats
second_try (suc zero) = err (foreign "timeout")
second_try n = ok three

abbrev buckets : ObjectStorage
buckets = record { primary = second_try; replica = second_try; lag_threshold = pos 0 }

abbrev lasting : ℕ → Bool
lasting n = false

reconcile-Agree_example :
    ((o : Outcome) × (((reconcile lasting lasting buckets []).0 ≡ ok o) × (o.ok ≡ true))) ↔ (
      (s : Stats) × ((listed buckets.primary lasting ≡ ok s)
        × (listed buckets.replica lasting ≡ ok s)))
reconcile-Agree_example = reconcile-Agree lasting lasting buckets []

listed-first_example : listed second_try lasting ≡ ok three
listed-first_example =
    listed-first second_try lasting 1 1 three refl ((foreign "timeout", refl), (refl, tt)) refl

abbrev sizes : List (List (Option ℕ))
sizes = (some 100 ∷ none ∷ []) ∷ (some 50 ∷ []) ∷ []

bucket_stats-pages_of_example :
    bucket_stats (pages_of sizes) ≡ ok (pos (objects_in sizes), pos (bytes_in sizes))
bucket_stats-pages_of_example = bucket_stats-pages_of sizes (omega arith) (omega arith)
