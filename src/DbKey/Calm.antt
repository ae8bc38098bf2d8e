-- ===== src/DbKey/Calm.antt =====
-- The parity check of internal/dbkey never panics.
use gitlab_geo_sync.Prelude.{String, Bool, true, false, Option, none, some, if◌then◌else◌, ◌==◌}
use gitlab_geo_sync.Go.Fmt.{Error, Result, ok, err, panic, cancelled}
use gitlab_geo_sync.Go.Exec.{Env, attempt, fail, ◌>>=◌}
use gitlab_geo_sync.Go.Exec.Calm.{Calm, IsCalm, bind-Calm, attempt_bind-Calm, if-Calm}
use gitlab_geo_sync.SshExec.{SshOptions, Runner, combined_output, check_host}
use gitlab_geo_sync.ReadOnly.Calm.{check_host-Calm, combined_output-Calm}
use gitlab_geo_sync.DbKey.{
  try_fetch_key, try_plain, retry_plain, fetch_key, check_with_runner, check_with_config,
  wrap_error, find_key, grep_outcome, found_key, second_outcome, sudo_grep, plain_grep,
}

grep_outcome-Calm : (out : String) (o : Option Error) → Calm (grep_outcome out o)
grep_outcome-Calm out none h = tt
grep_outcome-Calm out (some e) h = tt

found_key-Calm : (host : String) (o : Option String) → Calm (found_key host o)
found_key-Calm host none h = tt
found_key-Calm host (some k) h = tt

second_outcome-Calm : (host : String) (r : Result String) → IsCalm r → Calm (second_outcome host r)
second_outcome-Calm host (ok k) c h = tt
second_outcome-Calm host (err e) c h = tt
second_outcome-Calm host (panic m) c h = absurd c

wrap_error-Calm : (format : String) (r : Result String) → IsCalm r → Calm (wrap_error format r)
wrap_error-Calm format (ok k) c h = tt
wrap_error-Calm format (err e) c h = tt
wrap_error-Calm format (panic m) c h = absurd c

module _ (env : Env) (runner : Runner) (calm : (host cmd : String) → Calm (runner host cmd)) where
  try_fetch_key-Calm : (host : String) (sudo : Bool) → Calm (try_fetch_key host runner sudo)
  unfolding try_fetch_key
  try_fetch_key-Calm host sudo =
      bind-Calm (runner host (if sudo then sudo_grep else plain_grep)) _ (calm host _)
        λ r. grep_outcome-Calm r.output r.failure

  try_plain-Calm : (host : String) → Calm (try_plain env host runner)
  unfolding try_plain
  try_plain-Calm host h =
      if-Calm (env.is_done h) (fail cancelled)
        (attempt (try_fetch_key host runner false) >>= second_outcome host) (λ h. tt)
        (attempt_bind-Calm (try_fetch_key host runner false) (second_outcome host)
          (try_fetch_key-Calm host false) (second_outcome-Calm host))
        h

  retry_plain-Calm :
      (host : String) (r : Result String) → IsCalm r → Calm (retry_plain env host runner r)
  unfolding retry_plain
  retry_plain-Calm host (ok k) c h = tt
  retry_plain-Calm host (err e) c h = try_plain-Calm host h
  retry_plain-Calm host (panic m) c h = absurd c

  fetch_key-Calm : (host : String) → Calm (fetch_key env host runner)
  unfolding fetch_key
  fetch_key-Calm host = bind-Calm (check_host host) _ (check_host-Calm host) λ u.
      attempt_bind-Calm (try_fetch_key host runner true) _ (try_fetch_key-Calm host true) λ r c.
        bind-Calm (retry_plain env host runner r) _ (retry_plain-Calm host r c)
          λ key. found_key-Calm host (find_key key)

  pub check_with_runner-Calm : (p s : String) → Calm (check_with_runner env p s runner)
  unfolding check_with_runner
  check_with_runner-Calm p s =
      attempt_bind-Calm (fetch_key env p runner) _ (fetch_key-Calm p) λ rp cp.
        bind-Calm (wrap_error "primary db_key_base: %w" rp) _ (wrap_error-Calm _ rp cp) λ kp.
          attempt_bind-Calm (fetch_key env s runner) _ (fetch_key-Calm s) λ rs cs.
            bind-Calm (wrap_error "secondary db_key_base: %w" rs) _ (wrap_error-Calm _ rs cs)
              λ ks. if-Calm (kp == ks) _ _ (λ h. tt) (λ h. tt)

pub check_with_config-Calm :
    (env : Env) (p s : String) (cfg : SshOptions) → Calm (check_with_config env p s cfg)
unfolding check_with_config
check_with_config-Calm env p s cfg =
    check_with_runner-Calm env (combined_output env cfg) (combined_output-Calm env cfg) p s
