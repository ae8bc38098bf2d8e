-- ===== src/Reconciler/ObjectStorage.antt =====
-- internal/reconciler/objectstorage: the comparison of two buckets. What the listing of a bucket
-- answers at each attempt, whether the context ends in a wait, and the construction of an S3 client
-- are parameters.
pub mod Buckets
use gitlab_geo_sync.Prelude.{
  ℕ, suc, String, Bool, true, false, ◌&&◌, Option, none, some, List, [], ◌∷◌, if◌then◌else◌,
}
use gitlab_geo_sync.Go.Int64.{ℤ, pos, pos_part, neg_part, ◌+ℤ◌, ◌-ℤ◌, neg, ltb_ℤ, eqb_ℤ}
use gitlab_geo_sync.Go.Fmt.{
  Error, errorf, Text, sprintf, end, str, int, cause, Result, ok, err, panic,
}
use gitlab_geo_sync.Go.Exec.{Exec, emit, pure, panics, ◌>>=◌, ◌>>◌, drift, duration, last_sync}
use gitlab_geo_sync.Config.{S3Config}
use gitlab_geo_sync.Reconciler.{Outcome}
use gitlab_geo_sync.Reconciler.Retry.{retry}

-- The number of objects and their total size.
abbrev pub Stats : Type 0
Stats = ℤ × ℤ

-- A `bucketLister`: what `stats` answers at each attempt.
abbrev pub Lister : Type 0
Lister = ℕ → Result Stats

pub record ObjectStorage : Type 0 where
  pub primary : Lister
  pub replica : Lister
  pub lag_threshold : ℤ

-- A page of a listing: the size of each object, where it has one.
abbrev pub Page : Type 0
Page = List (Option ℤ)

abbrev pub add_size : ℤ → Option ℤ → ℤ
add_size total none = total
add_size total (some n) = total +ℤ n

unfoldable pub add_page : Page → Stats → Stats
add_page [] s = s
add_page (o ∷ os) (count, total) = add_page os (count +ℤ pos 1, add_size total o)

-- The loop over the paginator, whose pages are the results of `NextPage`.
unfoldable pub add_pages : List (Result Page) → Stats → Result Stats
add_pages [] s = ok s
add_pages (ok page ∷ pages) s = add_pages pages (add_page page s)
add_pages (err e ∷ pages) s = err e
add_pages (panic m ∷ pages) s = panic m

unfoldable pub bucket_stats : List (Result Page) → Result Stats
bucket_stats pages = add_pages pages (pos 0, pos 0)

-- `client` builds an S3 client of a configuration, with the lister of a bucket.
abbrev pub Client : Type 0
Client = S3Config → String → Result Lister

abbrev pub or_primary : Option S3Config → S3Config → S3Config
or_primary none primary = primary
or_primary (some s) primary = s

-- `New` from the replica's client on, and from the primary's on.
abbrev pub with_replica : S3Config → Lister → Result Lister → Result ObjectStorage
with_replica primary p (ok r) =
    ok (record { primary = p; replica = r; lag_threshold = primary.replication_lag })
with_replica primary p (err e) = err (errorf "replica s3 client: %w" (cause e end))
with_replica primary p (panic m) = panic m

abbrev pub with_primary : Client → S3Config → S3Config → Result Lister → Result ObjectStorage
with_primary client primary rep (ok p) = with_replica primary p (client rep rep.replica_bucket)
with_primary client primary rep (err e) = err (errorf "primary s3 client: %w" (cause e end))
with_primary client primary rep (panic m) = panic m

unfoldable pub new : Client → Option S3Config → Option S3Config → Result ObjectStorage
new client none secondary = err (errorf "primary.object_storage.s3 is required for s3 backend" end)
new client (some primary) secondary =
    with_primary client primary (or_primary secondary primary)
      (client primary primary.primary_bucket)

abbrev pub failure : Result Stats → Option Error
failure (ok s) = none
failure (err e) = some e
failure (panic m) = none

-- The variables that the closure has set when it returned no error.
abbrev pub captured : Option Error → Result Stats → Result Stats
captured (some e) r = err e
captured none r = r

abbrev pub two_seconds : ℤ
two_seconds = pos 2000000000

abbrev pub ten_seconds : ℤ
ten_seconds = pos 10000000000

-- A listing with its retries.
unfoldable pub listed : Lister → (ℕ → Bool) → Result Stats
listed l is_done =
    let r = retry (λ n. failure (l n)) is_done 3 two_seconds ten_seconds in
    captured r.error (l r.attempts)

abbrev pub abs : ℤ → ℤ
abs d = if ltb_ℤ d (pos 0) then neg d else d

-- A count of objects is not negative, so neither is a difference of two, made positive.
abbrev pub result : Bool → Text → ℤ → Outcome
result good detail remaining = record {
  ok = good;
  lag = pos 0;
  detail = detail;
  repaired = 0;
  remaining = pos_part remaining;
}

abbrev pub buckets_match : Stats → Exec Outcome
buckets_match (p_count, p_size) = do
  emit (last_sync "object_storage")
  pure (
      result true (sprintf "buckets match: %d objects, %d bytes" (int p_count (int p_size end)))
        (pos 0))

abbrev pub buckets_differ : Stats → Stats → Exec Outcome
buckets_differ (p_count, p_size) (r_count, r_size) = do
  emit (drift "object_storage" "warning")
  pure (
      result false
        (sprintf "drift: primary=%d/%d replica=%d/%d (delta=%d)"
          (int p_count (int p_size (int r_count (int r_size (int (p_count -ℤ r_count) end))))))
        (abs (p_count -ℤ r_count)))

abbrev pub same_stats : Stats → Stats → Bool
same_stats (p_count, p_size) (r_count, r_size) = eqb_ℤ p_count r_count && eqb_ℤ p_size r_size

-- The comparison of the two listings.
unfoldable pub compare_stats : Stats → Stats → Exec Outcome
compare_stats p r = if same_stats p r then buckets_match p else buckets_differ p r

abbrev pub list_failed : String → Error → Exec Outcome
list_failed format e = do
  emit (drift "object_storage" "critical")
  pure (result false (sprintf format (cause e end)) (pos 1))

abbrev pub with_replica_stats : Stats → Result Stats → Exec Outcome
with_replica_stats p (ok r) = do emit (duration "object_storage" "ok"); compare_stats p r
with_replica_stats p (err e) = list_failed "replica list: %v" e
with_replica_stats p (panic m) = panics m

abbrev pub with_primary_stats : Result Stats → Result Stats → Exec Outcome
with_primary_stats (ok p) replica = with_replica_stats p replica
with_primary_stats (err e) replica = list_failed "primary list: %v" e
with_primary_stats (panic m) replica = panics m

-- `primary_done` and `replica_done` say whether the context ends in the wait after an attempt.
unfoldable pub reconcile : (ℕ → Bool) → (ℕ → Bool) → ObjectStorage → Exec Outcome
reconcile primary_done replica_done r =
    with_primary_stats (listed r.primary primary_done) (listed r.replica replica_done)
