-- ===== src/Reconciler/Consistency.antt =====
-- internal/reconciler/consistency: the comparison of row estimates and the sample of git fsck.
-- What a database answers for a table, the repositories that the walk finds, the random picks and
-- the product of their number and the sample share are parameters.
pub mod Tolerance
use gitlab_geo_sync.Prelude.{
  ℕ, zero, suc, ◌+◌, ◌||◌, String, Bool, true, false, Option, none, some, List, [], ◌∷◌, length,
  eqb, ltb, if◌then◌else◌, ◌==◌,
}
use gitlab_geo_sync.Go.Int64.{ℤ, pos, ◌-ℤ◌, neg, tenth, ltb_ℤ, leb_ℤ, eqb_ℤ}
use gitlab_geo_sync.Go.Fmt.{
  Error, no_rows, Text, lit, sprintf, end, str, int, text, cause, Result, ok, err, panic,
}
use gitlab_geo_sync.Go.Strings.{◌<>◌}
use gitlab_geo_sync.Go.Exec.{
  Exec, Env, Reply, Call, command, run, emit, pure, panics, ◌>>=◌, ◌>>◌, drift,
}
use gitlab_geo_sync.Reconciler.{Outcome}

abbrev pub tables_to_count : List String
tables_to_count =
    "projects" ∷ "namespaces" ∷ "users" ∷ "merge_requests" ∷ "issues" ∷ "notes" ∷ "ci_builds"
    ∷ "ci_pipelines" ∷ "labels" ∷ "milestones" ∷ []

-- A pool: what it answers to the query of a table's estimate.
abbrev pub RowQuerier : Type 0
RowQuerier = String → Result ℤ

pub record Consistency : Type 0 where
  pub primary : RowQuerier
  pub secondary : RowQuerier
  pub secondary_name : String
  pub repos_path : String
  pub samples : Bool

abbrev pub no_rows_zero : Error → Result ℤ
no_rows_zero no_rows = ok (pos 0)
no_rows_zero e = err e

abbrev pub row_answer : Result ℤ → Result ℤ
row_answer (ok n) = ok n
row_answer (err e) = no_rows_zero e
row_answer (panic m) = panic m

unfoldable pub row_count : RowQuerier → String → Result ℤ
row_count pool table = row_answer (pool table)

unfoldable pub is_approx_equal : ℤ → ℤ → Bool
is_approx_equal a b =
    let d = a -ℤ b in
    let diff = if ltb_ℤ d (pos 0) then neg d else d in
    let t = if ltb_ℤ a b then tenth b else tenth a in
    let tolerance = if ltb_ℤ t (pos 5) then pos 5 else t in leb_ℤ diff tolerance

-- The drifts counted so far, and the result.
pub record Audit : Type 0 where
  pub drifts : ℕ
  pub remaining : ℕ
  pub detail : Text

abbrev pub count_error : String → String → Error → Audit → Audit
count_error format table e s = record {
  drifts = s.drifts;
  remaining = suc s.remaining;
  detail = sprintf format (text s.detail (str table (cause e end)));
}

abbrev pub table_drift : String → ℤ → ℤ → Audit → Audit
table_drift table p q s = record {
  drifts = suc s.drifts;
  remaining = suc s.remaining;
  detail =
      sprintf "%s; %s drift: primary=%d secondary=%d"
        (text s.detail (str table (int p (int q end))));
}

-- The comparison of two counts.
unfoldable pub compare_counts : String → ℤ → ℤ → Audit → Exec Audit
compare_counts table p q s =
    if eqb_ℤ p q || is_approx_equal p q
    then pure s
    else (do emit (drift ("db:" <> table) "warning"); pure (table_drift table p q s))

abbrev pub with_secondary : String → ℤ → Result ℤ → Audit → Exec Audit
with_secondary table p (ok q) s = compare_counts table p q s
with_secondary table p (err e) s = pure (count_error "%s; %s secondary count error: %v" table e s)
with_secondary table p (panic m) s = panics m

abbrev pub with_primary : Consistency → String → Result ℤ → Audit → Exec Audit
with_primary r table (ok p) s = with_secondary table p (row_count r.secondary table) s
with_primary r table (err e) s = pure (count_error "%s; %s primary count error: %v" table e s)
with_primary r table (panic m) s = panics m

-- The loop over the tables.
unfoldable pub audit_tables : Consistency → List String → Audit → Exec Audit
audit_tables r [] s = pure s
audit_tables r (table ∷ tables) s =
    let rest = audit_tables r tables in
    do s' ← with_primary r table (row_count r.primary table) s; rest s'

abbrev pub is_failure : Option Error → Bool
is_failure none = false
is_failure (some e) = true

unfoldable pub git_fsck : Env → String → Exec Bool
git_fsck env repo = do
  reply ← run env (command "git" ("-C" ∷ repo ∷ "fsck" ∷ "--no-dangling" ∷ []) [])
  pure (if is_failure reply.failure then false else true)

-- The loop over the picked repositories.
unfoldable pub fsck_all : Env → List String → ℕ → Exec ℕ
fsck_all env [] failed = pure failed
fsck_all env (repo ∷ repos) failed =
    let rest = fsck_all env repos in
    do
      good ← git_fsck env repo
      if good then rest failed else (do emit (drift "git_fsck" "critical"); rest (suc failed))

-- The repository at a random index.
abbrev pub at : List String → String → ℕ → String
at [] d i = d
at (r ∷ rs) d zero = r
at (r ∷ rs) d (suc i) = at rs d i

abbrev pub pick : List String → (ℕ → ℕ) → ℕ → List String
pick repos rng zero = []
pick repos rng (suc n) = at repos "" (rng n) ∷ pick repos rng n

unfoldable pub sample_git_fsck : Env → Consistency → List String → (ℕ → ℕ) → ℕ → Exec ℕ
sample_git_fsck env r repos rng share =
    if (if r.samples then false else true) || r.repos_path == ""
    then pure 0
    else (if eqb (length repos) 0
        then pure 0
        else fsck_all env (pick repos rng (if ltb share 1 then 1 else share)) 0)

unfoldable pub reconcile : Env → Consistency → List String → (ℕ → ℕ) → ℕ → Exec Outcome
reconcile env r repos rng share = do
  s ←
      audit_tables r tables_to_count
        (record { drifts = 0; remaining = 0; detail = lit "sweep complete" })
  fsck_drifts ← if r.repos_path == "" then pure 0 else sample_git_fsck env r repos rng share
  pure (record {
    ok = eqb (s.drifts + fsck_drifts) 0;
    lag = pos 0;
    detail = s.detail;
    repaired = 0;
    remaining = s.remaining;
  })
