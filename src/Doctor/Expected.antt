-- ===== src/Doctor/Expected.antt =====
-- The checks that a configuration calls for, and their results in order.
use gitlab_geo_sync.Prelude.{
  String, ◌≡◌, refl, ap, ◌∙◌, Bool, true, false, not, ◌&&◌, Option, none, some, List, [], ◌∷◌, ◌++◌,
  map, All, if◌then◌else◌, ◌==◌,
}
use gitlab_geo_sync.Go.Fmt.{Result, ok, err, panic}
use gitlab_geo_sync.Go.Strings.{◌<>◌}
use gitlab_geo_sync.Go.Exec.{Exec, Env, Event, pure, continue, ◌>>=◌}
use gitlab_geo_sync.SshExec.{Runner}
use gitlab_geo_sync.Go.Exec.Calm.{Calm}
use gitlab_geo_sync.Config.{Config, SiteConfig, S3Config}
use gitlab_geo_sync.Doctor.{
  Check, PoolFactory, db_key_parity_check, path_exists_check, rsync_check, git_check,
}
use gitlab_geo_sync.Doctor.Run.{
  run_checks, primary_checks, site_checks, sites_checks, s3_checks, all_checks,
}
use gitlab_geo_sync.Doctor.Tally.{IsStatus}
use gitlab_geo_sync.Doctor.Names.{
  Named, Reported, Reports, Replies, ssh_check-Reports, pg_control_check-Reports,
  pg_replication_role_check-Reports, pg_wal_level_check-Reports, pg_wal_senders_check-Reports,
  pg_in_recovery_check-Reports, db_key_present_check-Reports, db_key_parity_check-Reports,
  remote_binary_check-Reports, path_exists_check-Reports, s3_bucket_check-Named,
}

-- The names of the checks of a secondary, and of all.
unfoldable pub site_names : String → SiteConfig → List String
site_names primary_ssh s =
    (("ssh:" <> ("secondary:" <> s.name))
      ∷ ("pg:" <> (("secondary:" <> s.name) <> ":control"))
      ∷ ("pg:" <> (("secondary:" <> s.name) <> ":in_recovery"))
      ∷ ("dbkey:" <> ("secondary:" <> s.name))
      ∷ [])
    ++ ((if not (primary_ssh == "") && not (s.ssh_host == "")
          then ("dbkey:parity:" <> s.name) ∷ []
          else [])
        ++ ((("rsync" <> (":" <> ("secondary:" <> s.name)))
              ∷ ("git" <> (":" <> ("secondary:" <> s.name)))
              ∷ [])
            ++ (if not (s.git.repos_path == "")
                then ("path:" <> (("secondary:" <> s.name) <> (":" <> "repos_path"))) ∷ []
                else [])))

unfoldable pub sites_names : String → List SiteConfig → List String
sites_names primary_ssh [] = []
sites_names primary_ssh (s ∷ ss) = site_names primary_ssh s ++ sites_names primary_ssh ss

abbrev pub s3_names : Bool → Option S3Config → List String
s3_names is_s3 none = []
s3_names is_s3 (some s3) = if is_s3 then "s3:primary" ∷ [] else []

unfoldable pub expected_names : Config → List String
expected_names cfg =
    ("ssh:primary" ∷ "pg:primary:control" ∷ "pg:primary:repl-role" ∷ "pg:primary:wal_level"
      ∷ "pg:primary:max_wal_senders" ∷ "dbkey:primary" ∷ "rsync:primary" ∷ "git:primary" ∷ [])
    ++ (sites_names cfg.primary.ssh_host cfg.secondaries
        ++ s3_names (cfg.primary.object_store.backend == "s3") cfg.primary.object_store.s3)

-- Actions that report under the names of a list, one each.
abbrev pub AllReport : List String → List (Exec Check) → Type 0
AllReport [] [] = Unit
AllReport (n ∷ ns) (m ∷ ms) = Reports n m × AllReport ns ms
AllReport _ _ = ⊥

append-AllReport :
    (ns : List String) (ms : List (Exec Check)) (ns' : List String) (ms' : List (Exec Check))
    → AllReport ns ms
    → AllReport ns' ms'
    → AllReport (ns ++ ns') (ms ++ ms')
append-AllReport [] [] ns' ms' h k = k
append-AllReport (n ∷ ns) (m ∷ ms) ns' ms' h k = (h.0, append-AllReport ns ms ns' ms' h.1 k)
append-AllReport [] (m ∷ ms) ns' ms' h k = absurd h
append-AllReport (n ∷ ns) [] ns' ms' h k = absurd h

-- All results, under their names.
abbrev pub Results : List String → Result (List Check) × List Event → Type 0
Results ns (ok cs, h) = (map (λ c. c.name) cs ≡ ns) × All IsStatus cs
Results ns (err e, h) = ⊥
Results ns (panic m, h) = ⊥

rest-Results :
    (n : String) (ns : List String) (c : Check) (r : Result (List Check) × List Event)
    → Named n c
    → Results ns r
    → Results (n ∷ ns) (continue r.0 (λ xs. pure (c ∷ xs)) r.1)
rest-Results n ns c (ok cs, h) e k =
    (ap (λ x. x ∷ map (λ c. c.name) cs) e.0 ∙ ap (◌∷◌ n) k.0, (e.1, k.1))
rest-Results n ns c (err x, h) e k = k
rest-Results n ns c (panic x, h) e k = k

first-Results :
    (n : String) (ns : List String) (r : Result Check × List Event) (rest : Exec (List Check))
    → Reported n r
    → ((h : List Event) → Results ns (rest h))
    → Results (n ∷ ns) (continue r.0 (λ x. rest >>= λ xs. pure (x ∷ xs)) r.1)
first-Results n ns (ok c, h) rest e k = rest-Results n ns c (rest h) e (k h)
first-Results n ns (err x, h) rest e k = absurd e
first-Results n ns (panic x, h) rest e k = absurd e

pub run_checks-Results :
    (ns : List String) (ms : List (Exec Check)) (h : List Event)
    → AllReport ns ms
    → Results ns (run_checks ms h)
unfolding run_checks
run_checks-Results [] [] h a = (refl, tt)
run_checks-Results (n ∷ ns) (m ∷ ms) h a =
    first-Results n ns (m h) (run_checks ms) (a.0 h) (λ k. run_checks-Results ns ms k a.1)
run_checks-Results [] (m ∷ ms) h a = absurd a
run_checks-Results (n ∷ ns) [] h a = absurd a

-- A runner whose commands give a reply.
pub record IsRunner (runner : Runner) : Type 0 where
  pub replies : Replies runner
  pub calm : (host cmd : String) → Calm (runner host cmd)

-- The checks of a secondary after the parity check, and their names.
abbrev late_names : SiteConfig → Bool → List String
late_names s b =
    ("rsync" <> (":" <> ("secondary:" <> s.name)))
    ∷ ("git" <> (":" <> ("secondary:" <> s.name)))
    ∷ (if b then ("path:" <> (("secondary:" <> s.name) <> (":" <> "repos_path"))) ∷ [] else [])

abbrev late_checks : Runner → SiteConfig → Bool → List (Exec Check)
late_checks runner s b =
    rsync_check ("secondary:" <> s.name) s.ssh_host runner
    ∷ git_check ("secondary:" <> s.name) s.ssh_host runner
    ∷ (if b
        then path_exists_check ("secondary:" <> s.name) s.ssh_host s.git.repos_path "repos_path"
            runner
          ∷ []
        else [])

late-AllReport :
    (runner : Runner) (s : SiteConfig) (b : Bool)
    → IsRunner runner
    → AllReport (late_names s b) (late_checks runner s b)
late-AllReport runner s true c = (
  remote_binary_check-Reports ("secondary:" <> s.name) "rsync" s.ssh_host "rsync --version" runner
      c.replies,
  (
    remote_binary_check-Reports ("secondary:" <> s.name) "git" s.ssh_host "git --version" runner
        c.replies,
    (
      path_exists_check-Reports ("secondary:" <> s.name) s.ssh_host s.git.repos_path "repos_path"
          runner c.replies,
      tt,
    ),
  ),
)
late-AllReport runner s false c = (
  remote_binary_check-Reports ("secondary:" <> s.name) "rsync" s.ssh_host "rsync --version" runner
      c.replies,
  (
    remote_binary_check-Reports ("secondary:" <> s.name) "git" s.ssh_host "git --version" runner
        c.replies,
    tt,
  ),
)

parity-AllReport :
    (b : Bool) (env : Env) (p host name : String) (runner : Runner) (ns : List String)
    (ms : List (Exec Check))
    → IsRunner runner
    → AllReport ns ms
    → AllReport
        ((if b then ("dbkey:parity:" <> name) ∷ [] else []) ++ ns)
        ((if b then db_key_parity_check env p host name runner ∷ [] else []) ++ ms)
parity-AllReport true env p host name runner ns ms c a =
    (db_key_parity_check-Reports env p host name runner c.calm, a)
parity-AllReport false env p host name runner ns ms c a = a

site-AllReport :
    (env : Env) (primary_ssh : String) (runner : Runner) (pf : PoolFactory) (s : SiteConfig)
    → IsRunner runner
    → AllReport (site_names primary_ssh s) (site_checks env primary_ssh runner pf s)
unfolding site_names site_checks
site-AllReport env primary_ssh runner pf s c = (
  ssh_check-Reports ("secondary:" <> s.name) s.ssh_host runner c.replies,
  (
    (pg_control_check-Reports ("secondary:" <> s.name) s.postgres pf),
    (
      (pg_in_recovery_check-Reports ("secondary:" <> s.name) s.postgres pf),
      (
        db_key_present_check-Reports ("secondary:" <> s.name) s.ssh_host runner c.replies,
        parity-AllReport (not (primary_ssh == "") && not (s.ssh_host == "")) env primary_ssh
            s.ssh_host s.name runner (late_names s (not (s.git.repos_path == "")))
            (late_checks runner s (not (s.git.repos_path == ""))) c
            (late-AllReport runner s (not (s.git.repos_path == "")) c),
      ),
    ),
  ),
)

sites-AllReport :
    (env : Env) (primary_ssh : String) (runner : Runner) (pf : PoolFactory) (ss : List SiteConfig)
    → IsRunner runner
    → AllReport (sites_names primary_ssh ss) (sites_checks env primary_ssh runner pf ss)
unfolding sites_names sites_checks
sites-AllReport env primary_ssh runner pf [] c = tt
sites-AllReport env primary_ssh runner pf (s ∷ ss) c =
    append-AllReport (site_names primary_ssh s) (site_checks env primary_ssh runner pf s) _ _
      (site-AllReport env primary_ssh runner pf s c)
      (sites-AllReport env primary_ssh runner pf ss c)

s3-AllReport : (b : Bool) (o : Option S3Config) → AllReport (s3_names b o) (s3_checks b o)
s3-AllReport b none = tt
s3-AllReport true (some s3) = ((λ h. s3_bucket_check-Named "primary" s3), tt)
s3-AllReport false (some s3) = tt

pub all-AllReport :
    (env : Env) (cfg : Config) (runner : Runner) (pf : PoolFactory)
    → IsRunner runner
    → AllReport (expected_names cfg) (all_checks env cfg runner pf)
unfolding expected_names all_checks primary_checks
all-AllReport env cfg runner pf c =
    let p : SiteConfig = cfg.primary in
    (
      ssh_check-Reports "primary" p.ssh_host runner c.replies,
      (
        (pg_control_check-Reports "primary" p.postgres pf),
        (
          (pg_replication_role_check-Reports "primary" p.postgres pf),
          (
            (pg_wal_level_check-Reports "primary" p.postgres pf),
            (
              (pg_wal_senders_check-Reports "primary" p.postgres pf),
              (
                db_key_present_check-Reports "primary" p.ssh_host runner c.replies,
                (
                  remote_binary_check-Reports "primary" "rsync" p.ssh_host "rsync --version" runner
                      c.replies,
                  (
                    remote_binary_check-Reports "primary" "git" p.ssh_host "git --version" runner
                        c.replies,
                    append-AllReport (sites_names p.ssh_host cfg.secondaries)
                        (sites_checks env p.ssh_host runner pf cfg.secondaries)
                        (s3_names (p.object_store.backend == "s3") p.object_store.s3)
                        (s3_checks (p.object_store.backend == "s3") p.object_store.s3)
                        (sites-AllReport env p.ssh_host runner pf cfg.secondaries c)
                        (s3-AllReport (p.object_store.backend == "s3") p.object_store.s3),
                  ),
                ),
              ),
            ),
          ),
        ),
      ),
    )
