-- ===== src/Doctor.antt =====
-- internal/doctor: the checks of both sites. The databases are a parameter, with the answer to each
-- query; a pool that a check opens is closed by it, which is left out, and so is the printed table.
pub mod Run
pub mod Tally
pub mod Names
pub mod Expected
pub mod Complete
pub mod Verdict
use Prim.Native.Char.{Char}
use Prim.Native.String.{[], ◌∷◌}
use mathlib.Core.List
use gitlab_geo_sync.Prelude.{
  ℕ, suc, String, Bool, true, false, not, ◌&&◌, ◌||◌, Option, none, some, List, ◌++◌, ltb,
  if◌then◌else◌, ◌==◌,
}
use gitlab_geo_sync.Go.Fmt.{
  Error, errorf, Text, lit, sprintf, end, str, nat, cause, Result, ok, err, panic,
}
use gitlab_geo_sync.Go.Strings.{◌<>◌, same, any_char, has_prefix, trim_space}
use gitlab_geo_sync.Go.Exec.{
  pool_opened, pool_closed, Exec, Env, pure, fail, panics, attempt, ◌>>=◌, ◌>>◌,
}
use gitlab_geo_sync.SshExec.{Runner}
use gitlab_geo_sync.DbKey
use gitlab_geo_sync.Config.{Config, SiteConfig, PostgresConfig, S3Config}
use gitlab_geo_sync.Config.Dsn.{dsn}

pub record Check : Type 0 where
  pub name : String
  pub category : String
  pub status : String
  pub detail : Text

abbrev pub check_of : String → String → String → Text → Check
check_of name category status detail = record {
  name = name;
  category = category;
  status = status;
  detail = detail;
}

-- The error of a query or a connection, or its value.
pub data Row {ℓ} (A : Type ℓ) : Type ℓ where
  failed : Error → Row A
  row : A → Row A

-- `SELECT version()`, `rolreplication` of a role, `SHOW` of a setting and `pg_is_in_recovery()`.
pub record Pool : Type 0 where
  pub version : Row String
  pub rolreplication : String → Row Bool
  pub show_setting : String → Row String
  pub in_recovery : Row Bool

abbrev pub PoolFactory : Type 0
PoolFactory = String → Row Pool

-- What comes before the first occurrence of a text.
abbrev pub cons_some : Char → Option String → Option String
cons_some c none = none
cons_some c (some t) = some (c ∷ t)

unfoldable pub before : String → String → Option String
before sub [] = if sub == "" then some "" else none
before sub (c ∷ s) =
    let rest = before sub s in if has_prefix (c ∷ s) sub then some "" else cons_some c rest

-- `if i := strings.Index(s, sub); i > 0 { s = s[:i] }`
abbrev pub cut_found : String → Option String → String
cut_found s none = s
cut_found s (some t) = if t == "" then s else t

unfoldable pub cut_at : String → String → String
cut_at sub s = cut_found s (before sub s)

abbrev pub ssh_replied : String → String → String → Option Error → Check
ssh_replied label host out none = check_of ("ssh:" <> label) "connectivity" "PASS" (lit host)
ssh_replied label host out (some e) =
    check_of ("ssh:" <> label) "connectivity" "FAIL"
      (sprintf "ssh %s: %v: %s" (str host (cause e (str (trim_space out) end))))

unfoldable pub ssh_check : String → String → Runner → Exec Check
ssh_check label host runner =
    if host == ""
    then pure (
        check_of ("ssh:" <> label) "connectivity" "WARN"
          (lit "ssh_host not configured (needed for rsync/fetch/failover)"))
    else (do r ← runner host "echo ok"; pure (ssh_replied label host r.output r.failure))

-- A check that opens a pool, queries it and closes it, and one whose pool cannot be opened.
abbrev pub query_pool : String → (Row Pool → Check) → Row Pool → Exec Check
query_pool d k (failed e) h = (ok (k (failed e)), h)
query_pool d k (row p) h =
    (ok (k (row p)), h ++ List.◌∷◌ (pool_opened d) (List.◌∷◌ (pool_closed d) List.[]))

abbrev pub version_row : String → Row String → Check
version_row label (failed e) =
    check_of ("pg:" <> (label <> ":control")) "postgres" "FAIL"
      (sprintf "query version: %v" (cause e end))
version_row label (row version) =
    check_of ("pg:" <> (label <> ":control")) "postgres" "PASS" (lit (cut_at " (" version))

abbrev pub control_pool : String → Row Pool → Check
control_pool label (failed e) =
    check_of ("pg:" <> (label <> ":control")) "postgres" "FAIL"
      (sprintf "connect: %v" (cause e end))
control_pool label (row p) = version_row label p.version

unfoldable pub pg_control_check : String → PostgresConfig → PoolFactory → Exec Check
pg_control_check label pg pf =
    if pg.host == ""
    then pure (
        check_of ("pg:" <> (label <> ":control")) "postgres" "FAIL"
          (lit "postgres.host not configured"))
    else query_pool (dsn pg) (control_pool label) (pf (dsn pg))

abbrev pub role_row : String → String → Row Bool → Check
role_row label user (failed e) =
    check_of ("pg:" <> (label <> ":repl-role")) "postgres" "FAIL"
      (sprintf "role %s not found: %v" (str user (cause e end)))
role_row label user (row has_repl) =
    if not has_repl
    then check_of ("pg:" <> (label <> ":repl-role")) "postgres" "FAIL"
        (sprintf "role %s exists but lacks REPLICATION privilege" (str user end))
    else check_of ("pg:" <> (label <> ":repl-role")) "postgres" "PASS"
        (sprintf "role %s has REPLICATION" (str user end))

abbrev pub role_pool : String → String → Row Pool → Check
role_pool label user (failed e) =
    check_of ("pg:" <> (label <> ":repl-role")) "postgres" "FAIL"
      (sprintf "connect: %v" (cause e end))
role_pool label user (row p) = role_row label user (p.rolreplication user)

unfoldable pub pg_replication_role_check : String → PostgresConfig → PoolFactory → Exec Check
pg_replication_role_check label pg pf =
    query_pool (dsn pg) (role_pool label pg.replication_user) (pf (dsn pg))

abbrev pub wal_level_row : String → Row String → Check
wal_level_row label (failed e) =
    check_of ("pg:" <> (label <> ":wal_level")) "postgres" "FAIL"
      (sprintf "query: %v" (cause e end))
wal_level_row label (row level) =
    if not (level == "replica") && not (level == "logical")
    then check_of ("pg:" <> (label <> ":wal_level")) "postgres" "FAIL"
        (sprintf "wal_level=%s, need replica or logical" (str level end))
    else check_of ("pg:" <> (label <> ":wal_level")) "postgres" "PASS" (lit ("wal_level=" <> level))

abbrev pub wal_level_pool : String → Row Pool → Check
wal_level_pool label (failed e) =
    check_of ("pg:" <> (label <> ":wal_level")) "postgres" "FAIL"
      (sprintf "connect: %v" (cause e end))
wal_level_pool label (row p) = wal_level_row label (p.show_setting "wal_level")

unfoldable pub pg_wal_level_check : String → PostgresConfig → PoolFactory → Exec Check
pg_wal_level_check label pg pf = query_pool (dsn pg) (wal_level_pool label) (pf (dsn pg))

abbrev pub wal_senders_row : String → Row String → Check
wal_senders_row label (failed e) =
    check_of ("pg:" <> (label <> ":max_wal_senders")) "postgres" "FAIL"
      (sprintf "query: %v" (cause e end))
wal_senders_row label (row level) =
    if level == "0"
    then check_of ("pg:" <> (label <> ":max_wal_senders")) "postgres" "FAIL"
        (lit "max_wal_senders=0, must be > 0")
    else check_of ("pg:" <> (label <> ":max_wal_senders")) "postgres" "PASS"
        (lit ("max_wal_senders=" <> level))

abbrev pub wal_senders_pool : String → Row Pool → Check
wal_senders_pool label (failed e) =
    check_of ("pg:" <> (label <> ":max_wal_senders")) "postgres" "FAIL"
      (sprintf "connect: %v" (cause e end))
wal_senders_pool label (row p) = wal_senders_row label (p.show_setting "max_wal_senders")

unfoldable pub pg_wal_senders_check : String → PostgresConfig → PoolFactory → Exec Check
pg_wal_senders_check label pg pf = query_pool (dsn pg) (wal_senders_pool label) (pf (dsn pg))

abbrev pub in_recovery_row : String → Row Bool → Check
in_recovery_row label (failed e) =
    check_of ("pg:" <> (label <> ":in_recovery")) "postgres" "WARN"
      (sprintf "query: %v (expected if not yet bootstrapped)" (cause e end))
in_recovery_row label (row in_recovery) =
    if not in_recovery
    then check_of ("pg:" <> (label <> ":in_recovery")) "postgres" "WARN"
        (lit "secondary PG is NOT in recovery mode (run `geoctl pg setup` first)")
    else check_of ("pg:" <> (label <> ":in_recovery")) "postgres" "PASS"
        (lit "in recovery (standby)")

abbrev pub in_recovery_pool : String → Row Pool → Check
in_recovery_pool label (failed e) =
    check_of ("pg:" <> (label <> ":in_recovery")) "postgres" "WARN"
      (sprintf "connect: %v (expected if not yet bootstrapped)" (cause e end))
in_recovery_pool label (row p) = in_recovery_row label p.in_recovery

unfoldable pub pg_in_recovery_check : String → PostgresConfig → PoolFactory → Exec Check
pg_in_recovery_check label pg pf = query_pool (dsn pg) (in_recovery_pool label) (pf (dsn pg))

-- The last of the lines that `strings.Split` makes.
unfoldable pub last_line : String → String
last_line [] = ""
last_line (c ∷ s) =
    let rest = last_line s in if same c 10 || any_char (λ d. same d 10) s then rest else c ∷ s

abbrev pub key_count : String → String → Check
key_count label out =
    if trim_space (last_line (trim_space out)) == "0"
    then check_of ("dbkey:" <> label) "dbkey" "FAIL"
        (lit "db_key_base not found in secrets.yml or gitlab.rb")
    else check_of ("dbkey:" <> label) "dbkey" "PASS" (lit "present in secrets.yml")

abbrev pub key_replied : String → String → Option Error → Check
key_replied label out none = key_count label out
key_replied label out (some e) =
    check_of ("dbkey:" <> label) "dbkey" "FAIL" (sprintf "ssh: %v" (cause e end))

abbrev pub count_command : String
count_command =
    "sudo grep -c 'db_key_base' /var/opt/gitlab/gitlab-rails/etc/secrets.yml 2>/dev/null || grep -c 'db_key_base' /var/opt/gitlab/gitlab-rails/etc/secrets.yml 2>/dev/null || echo 0"

unfoldable pub db_key_present_check : String → String → Runner → Exec Check
db_key_present_check label host runner =
    if host == ""
    then pure (check_of ("dbkey:" <> label) "dbkey" "WARN" (lit "ssh_host not configured"))
    else (do r ← runner host count_command; pure (key_replied label r.output r.failure))

abbrev pub parity_checked : String → Result (Unit {0}) → Exec Check
parity_checked name (ok u) =
    pure (check_of ("dbkey:parity:" <> name) "dbkey" "PASS" (lit "primary and secondary match"))
parity_checked name (err e) =
    pure (check_of ("dbkey:parity:" <> name) "dbkey" "FAIL" (sprintf "%v" (cause e end)))
parity_checked name (panic m) = panics m

unfoldable pub db_key_parity_check : Env → String → String → String → Runner → Exec Check
db_key_parity_check env primary_ssh secondary_ssh name runner = do
  r ← attempt (DbKey.check_with_runner env primary_ssh secondary_ssh runner)
  parity_checked name r

abbrev pub binary_replied : String → String → String → Option Error → Check
binary_replied label bin out none =
    check_of (bin <> (":" <> label)) "tools" "PASS" (lit (cut_at "\n" (trim_space out)))
binary_replied label bin out (some e) =
    check_of (bin <> (":" <> label)) "tools" "FAIL"
      (sprintf "%s not found: %v" (str bin (cause e end)))

unfoldable pub remote_binary_check : String → String → String → String → Runner → Exec Check
remote_binary_check label bin host cmd runner =
    if host == ""
    then pure (check_of (bin <> (":" <> label)) "tools" "WARN" (lit "ssh_host not configured"))
    else (do r ← runner host cmd; pure (binary_replied label bin r.output r.failure))

abbrev pub rsync_check : String → String → Runner → Exec Check
rsync_check label host runner = remote_binary_check label "rsync" host "rsync --version" runner

abbrev pub git_check : String → String → Runner → Exec Check
git_check label host runner = remote_binary_check label "git" host "git --version" runner

abbrev pub path_replied : String → String → String → Option Error → Check
path_replied label path path_name none =
    check_of ("path:" <> (label <> (":" <> path_name))) "filesystem" "PASS" (lit path)
path_replied label path path_name (some e) =
    check_of ("path:" <> (label <> (":" <> path_name))) "filesystem" "WARN"
      (sprintf "%s does not exist yet (will be created on first sync)" (str path end))

unfoldable pub path_exists_check : String → String → String → String → Runner → Exec Check
path_exists_check label host path path_name runner =
    if host == ""
    then pure (
        check_of ("path:" <> (label <> (":" <> path_name))) "filesystem" "WARN"
          (lit "ssh_host not configured"))
    else (do
      r ← runner host ("test -d " <> path)
      pure (path_replied label path path_name r.failure))

unfoldable pub s3_bucket_check : String → S3Config → Check
s3_bucket_check label s3 =
    if s3.primary_bucket == ""
    then check_of ("s3:" <> label) "storage" "FAIL" (lit "primary_bucket not set")
    else (if s3.replica_bucket == ""
        then check_of ("s3:" <> label) "storage" "FAIL" (lit "replica_bucket not set")
        else (if s3.access_key == "" || s3.secret_key == ""
            then check_of ("s3:" <> label) "storage" "FAIL"
                (lit "access_key/secret_key empty (check env vars)")
            else check_of ("s3:" <> label) "storage" "PASS" (
                sprintf "primary=%s replica=%s"
                  (str s3.primary_bucket (str s3.replica_bucket end)))))
