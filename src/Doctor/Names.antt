-- ===== src/Doctor/Names.antt =====
-- Each check yields a result under its own name, with one of the three statuses, whatever is answered.
use gitlab_geo_sync.Prelude.{
  String, ◌≡◌, refl, Bool, true, false, not, ◌&&◌, ◌||◌, Option, none, some, List, if◌then◌else◌,
  ◌==◌, inl, inr,
}
use gitlab_geo_sync.Go.Fmt.{Error, Result, ok, err, panic}
use gitlab_geo_sync.Go.Strings.{◌<>◌, trim_space}
use gitlab_geo_sync.Go.Exec.{Exec, Env, Event, Reply, pure, continue, settle, ◌>>=◌}
use gitlab_geo_sync.Go.Exec.Calm.{Calm, IsCalm}
use gitlab_geo_sync.SshExec.{Runner}
use gitlab_geo_sync.DbKey
use gitlab_geo_sync.DbKey.Calm.{check_with_runner-Calm}
use gitlab_geo_sync.Config.{PostgresConfig, S3Config}
use gitlab_geo_sync.Config.Dsn.{dsn}
use gitlab_geo_sync.Doctor.Tally.{IsStatus}
use gitlab_geo_sync.Doctor.{
  Check, Row, failed, row, Pool, PoolFactory, ssh_replied, ssh_check, version_row, control_pool,
  query_pool, pg_control_check, role_row, role_pool, pg_replication_role_check, wal_level_row,
  wal_level_pool, pg_wal_level_check, wal_senders_row, wal_senders_pool, pg_wal_senders_check,
  in_recovery_row, in_recovery_pool, pg_in_recovery_check, last_line, key_replied, count_command,
  db_key_present_check, parity_checked, db_key_parity_check, binary_replied, remote_binary_check,
  path_replied, path_exists_check, s3_bucket_check,
}

abbrev pub Named : String → Check → Type 0
Named name c = (c.name ≡ name) × IsStatus c

-- The action ends with a result under a name.
abbrev pub Reported : String → Result Check × List Event → Type 0
Reported name (ok c, h) = Named name c
Reported name (err e, h) = ⊥
Reported name (panic m, h) = ⊥

abbrev pub Reports : String → Exec Check → Type 0
Reports name m = (h : List Event) → Reported name (m h)

abbrev pub Replied : Result Reply × List Event → Type 0
Replied (ok r, h) = Unit
Replied (err e, h) = ⊥
Replied (panic m, h) = ⊥

-- The runner hands over a reply, with an error in it or not.
abbrev pub Replies : Runner → Type 0
Replies runner = (host cmd : String) (h : List Event) → Replied (runner host cmd h)

Replied-Reported :
    (name : String) (f : Reply → Check) (r : Result Reply × List Event)
    → Replied r
    → ((x : Reply) → Named name (f x))
    → Reported name (continue r.0 (λ x. pure (f x)) r.1)
Replied-Reported name f (ok x, h) c k = k x
Replied-Reported name f (err x, h) c k = c
Replied-Reported name f (panic x, h) c k = c

reply-Reports :
    (name : String) (f : Reply → Check) (runner : Runner) (host cmd : String)
    → Replies runner
    → ((x : Reply) → Named name (f x))
    → Reports name (runner host cmd >>= λ x. pure (f x))
reply-Reports name f runner host cmd c k h =
    Replied-Reported name f (runner host cmd h) (c host cmd h) k

if-Reports :
    (name : String) (b : Bool) (m n : Exec Check)
    → Reports name m
    → Reports name n
    → Reports name (if b then m else n)
if-Reports name true m n p q = p
if-Reports name false m n p q = q

if-Named :
    (name : String) (b : Bool) (c d : Check)
    → Named name c
    → Named name d
    → Named name (if b then c else d)
if-Named name true c d p q = p
if-Named name false c d p q = q

query-Reports :
    (name d : String) (k : Row Pool → Check) (r : Row Pool)
    → Named name (k r)
    → Reports name (query_pool d k r)
query-Reports name d k (failed e) n h = n
query-Reports name d k (row p) n h = n

ssh_replied-Named :
    (label host out : String) (o : Option Error)
    → Named ("ssh:" <> label) (ssh_replied label host out o)
ssh_replied-Named label host out none = (refl, inl refl)
ssh_replied-Named label host out (some e) = (refl, inr (inl refl))

pub ssh_check-Reports :
    (label host : String) (runner : Runner)
    → Replies runner
    → Reports ("ssh:" <> label) (ssh_check label host runner)
unfolding ssh_check
ssh_check-Reports label host runner c =
    if-Reports ("ssh:" <> label) (host == "") _ _ (λ h. (refl, inr (inr refl)))
      (reply-Reports ("ssh:" <> label) (λ r. ssh_replied label host r.output r.failure) runner host
        "echo ok" c λ r. ssh_replied-Named label host r.output r.failure)

version_row-Named :
    (label : String) (r : Row String) → Named ("pg:" <> (label <> ":control")) (version_row label r)
version_row-Named label (failed e) = (refl, inr (inl refl))
version_row-Named label (row v) = (refl, inl refl)

control_pool-Named :
    (label : String) (r : Row Pool) → Named ("pg:" <> (label <> ":control")) (control_pool label r)
control_pool-Named label (failed e) = (refl, inr (inl refl))
control_pool-Named label (row p) = version_row-Named label p.version

pub pg_control_check-Reports :
    (label : String) (pg : PostgresConfig) (pf : PoolFactory)
    → Reports ("pg:" <> (label <> ":control")) (pg_control_check label pg pf)
unfolding pg_control_check
pg_control_check-Reports label pg pf =
    if-Reports ("pg:" <> (label <> ":control")) (pg.host == "") _
      (query_pool (dsn pg) (control_pool label) (pf (dsn pg))) (λ h. (refl, inr (inl refl)))
      (query-Reports ("pg:" <> (label <> ":control")) (dsn pg) (control_pool label) (pf (dsn pg))
        (control_pool-Named label (pf (dsn pg))))

role_row-Named :
    (label user : String) (r : Row Bool)
    → Named ("pg:" <> (label <> ":repl-role")) (role_row label user r)
role_row-Named label user (failed e) = (refl, inr (inl refl))
role_row-Named label user (row true) = (refl, inl refl)
role_row-Named label user (row false) = (refl, inr (inl refl))

role_pool-Named :
    (label user : String) (r : Row Pool)
    → Named ("pg:" <> (label <> ":repl-role")) (role_pool label user r)
role_pool-Named label user (failed e) = (refl, inr (inl refl))
role_pool-Named label user (row p) = role_row-Named label user (p.rolreplication user)

pub pg_replication_role_check-Reports :
    (label : String) (pg : PostgresConfig) (pf : PoolFactory)
    → Reports ("pg:" <> (label <> ":repl-role")) (pg_replication_role_check label pg pf)
unfolding pg_replication_role_check
pg_replication_role_check-Reports label pg pf =
    query-Reports ("pg:" <> (label <> ":repl-role")) (dsn pg) (role_pool label pg.replication_user)
      (pf (dsn pg)) (role_pool-Named label pg.replication_user (pf (dsn pg)))

wal_level_row-Named :
    (label : String) (r : Row String)
    → Named ("pg:" <> (label <> ":wal_level")) (wal_level_row label r)
wal_level_row-Named label (failed e) = (refl, inr (inl refl))
wal_level_row-Named label (row v) =
    if-Named ("pg:" <> (label <> ":wal_level")) (not (v == "replica") && not (v == "logical")) _ _
      (refl, inr (inl refl)) (refl, inl refl)

wal_level_pool-Named :
    (label : String) (r : Row Pool)
    → Named ("pg:" <> (label <> ":wal_level")) (wal_level_pool label r)
wal_level_pool-Named label (failed e) = (refl, inr (inl refl))
wal_level_pool-Named label (row p) = wal_level_row-Named label (p.show_setting "wal_level")

pub pg_wal_level_check-Reports :
    (label : String) (pg : PostgresConfig) (pf : PoolFactory)
    → Reports ("pg:" <> (label <> ":wal_level")) (pg_wal_level_check label pg pf)
unfolding pg_wal_level_check
pg_wal_level_check-Reports label pg pf =
    query-Reports ("pg:" <> (label <> ":wal_level")) (dsn pg) (wal_level_pool label) (pf (dsn pg))
      (wal_level_pool-Named label (pf (dsn pg)))

wal_senders_row-Named :
    (label : String) (r : Row String)
    → Named ("pg:" <> (label <> ":max_wal_senders")) (wal_senders_row label r)
wal_senders_row-Named label (failed e) = (refl, inr (inl refl))
wal_senders_row-Named label (row v) =
    if-Named ("pg:" <> (label <> ":max_wal_senders")) (v == "0") _ _ (refl, inr (inl refl))
      (refl, inl refl)

wal_senders_pool-Named :
    (label : String) (r : Row Pool)
    → Named ("pg:" <> (label <> ":max_wal_senders")) (wal_senders_pool label r)
wal_senders_pool-Named label (failed e) = (refl, inr (inl refl))
wal_senders_pool-Named label (row p) =
    wal_senders_row-Named label (p.show_setting "max_wal_senders")

pub pg_wal_senders_check-Reports :
    (label : String) (pg : PostgresConfig) (pf : PoolFactory)
    → Reports ("pg:" <> (label <> ":max_wal_senders")) (pg_wal_senders_check label pg pf)
unfolding pg_wal_senders_check
pg_wal_senders_check-Reports label pg pf =
    query-Reports ("pg:" <> (label <> ":max_wal_senders")) (dsn pg) (wal_senders_pool label)
      (pf (dsn pg)) (wal_senders_pool-Named label (pf (dsn pg)))

in_recovery_row-Named :
    (label : String) (r : Row Bool)
    → Named ("pg:" <> (label <> ":in_recovery")) (in_recovery_row label r)
in_recovery_row-Named label (failed e) = (refl, inr (inr refl))
in_recovery_row-Named label (row true) = (refl, inl refl)
in_recovery_row-Named label (row false) = (refl, inr (inr refl))

in_recovery_pool-Named :
    (label : String) (r : Row Pool)
    → Named ("pg:" <> (label <> ":in_recovery")) (in_recovery_pool label r)
in_recovery_pool-Named label (failed e) = (refl, inr (inr refl))
in_recovery_pool-Named label (row p) = in_recovery_row-Named label p.in_recovery

pub pg_in_recovery_check-Reports :
    (label : String) (pg : PostgresConfig) (pf : PoolFactory)
    → Reports ("pg:" <> (label <> ":in_recovery")) (pg_in_recovery_check label pg pf)
unfolding pg_in_recovery_check
pg_in_recovery_check-Reports label pg pf =
    query-Reports ("pg:" <> (label <> ":in_recovery")) (dsn pg) (in_recovery_pool label)
      (pf (dsn pg)) (in_recovery_pool-Named label (pf (dsn pg)))

key_replied-Named :
    (label out : String) (o : Option Error) → Named ("dbkey:" <> label) (key_replied label out o)
key_replied-Named label out none =
    if-Named ("dbkey:" <> label) (trim_space (last_line (trim_space out)) == "0") _ _
      (refl, inr (inl refl)) (refl, inl refl)
key_replied-Named label out (some e) = (refl, inr (inl refl))

pub db_key_present_check-Reports :
    (label host : String) (runner : Runner)
    → Replies runner
    → Reports ("dbkey:" <> label) (db_key_present_check label host runner)
unfolding db_key_present_check
db_key_present_check-Reports label host runner c =
    if-Reports ("dbkey:" <> label) (host == "") _
      (runner host count_command >>= λ r. pure (key_replied label r.output r.failure))
      (λ h. (refl, inr (inr refl)))
      (reply-Reports ("dbkey:" <> label) (λ r. key_replied label r.output r.failure) runner host
        count_command c λ r. key_replied-Named label r.output r.failure)

parity_checked-Reported :
    (name : String) (r : Result (Unit {0}) × List Event)
    → IsCalm r.0
    → Reported ("dbkey:parity:" <> name) (continue (settle r).0 (parity_checked name) (settle r).1)
parity_checked-Reported name (ok u, h) c = (refl, inl refl)
parity_checked-Reported name (err e, h) c = (refl, inr (inl refl))
parity_checked-Reported name (panic m, h) c = absurd c

pub db_key_parity_check-Reports :
    (env : Env) (p s name : String) (runner : Runner)
    → ((host cmd : String) → Calm (runner host cmd))
    → Reports ("dbkey:parity:" <> name) (db_key_parity_check env p s name runner)
unfolding db_key_parity_check
db_key_parity_check-Reports env p s name runner c h =
    parity_checked-Reported name (DbKey.check_with_runner env p s runner h)
      (check_with_runner-Calm env runner c p s h)

binary_replied-Named :
    (label bin out : String) (o : Option Error)
    → Named (bin <> (":" <> label)) (binary_replied label bin out o)
binary_replied-Named label bin out none = (refl, inl refl)
binary_replied-Named label bin out (some e) = (refl, inr (inl refl))

pub remote_binary_check-Reports :
    (label bin host cmd : String) (runner : Runner)
    → Replies runner
    → Reports (bin <> (":" <> label)) (remote_binary_check label bin host cmd runner)
unfolding remote_binary_check
remote_binary_check-Reports label bin host cmd runner c =
    if-Reports (bin <> (":" <> label)) (host == "") _
      (runner host cmd >>= λ r. pure (binary_replied label bin r.output r.failure))
      (λ h. (refl, inr (inr refl)))
      (reply-Reports (bin <> (":" <> label)) (λ r. binary_replied label bin r.output r.failure)
        runner host cmd c λ r. binary_replied-Named label bin r.output r.failure)

path_replied-Named :
    (label path path_name : String) (o : Option Error)
    → Named ("path:" <> (label <> (":" <> path_name))) (path_replied label path path_name o)
path_replied-Named label path path_name none = (refl, inl refl)
path_replied-Named label path path_name (some e) = (refl, inr (inr refl))

pub path_exists_check-Reports :
    (label host path path_name : String) (runner : Runner)
    → Replies runner
    → Reports
        ("path:" <> (label <> (":" <> path_name)))
        (path_exists_check label host path path_name runner)
unfolding path_exists_check
path_exists_check-Reports label host path path_name runner c =
    if-Reports ("path:" <> (label <> (":" <> path_name))) (host == "") _
      (runner host ("test -d " <> path) >>= λ r. pure (path_replied label path path_name r.failure))
      (λ h. (refl, inr (inr refl)))
      (reply-Reports ("path:" <> (label <> (":" <> path_name)))
        (λ r. path_replied label path path_name r.failure) runner host ("test -d " <> path) c
        λ r. path_replied-Named label path path_name r.failure)

pub s3_bucket_check-Named :
    (label : String) (s3 : S3Config) → Named ("s3:" <> label) (s3_bucket_check label s3)
unfolding s3_bucket_check
s3_bucket_check-Named label s3 =
    if-Named ("s3:" <> label) (s3.primary_bucket == "") _ _ (refl, inr (inl refl))
      (if-Named ("s3:" <> label) (s3.replica_bucket == "") _ _ (refl, inr (inl refl))
        (if-Named ("s3:" <> label) (s3.access_key == "" || s3.secret_key == "") _ _
          (refl, inr (inl refl)) (refl, inl refl)))
