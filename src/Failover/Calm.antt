-- ===== src/Failover/Calm.antt =====
-- A promotion ends with success or an error, never with a panic.
use gitlab_geo_sync.Prelude.{
  String, Bool, true, false, not, ◌&&◌, List, [], ◌∷◌, All, if◌then◌else◌, ◌==◌,
}
use gitlab_geo_sync.Go.Fmt.{Result, ok, err, panic}
use gitlab_geo_sync.Go.Exec.{Env, Exec, attempt, ◌>>=◌, ◌>>◌}
use gitlab_geo_sync.Go.Exec.Calm.{Calm, IsCalm, bind-Calm, attempt_bind-Calm, if-Calm}
use gitlab_geo_sync.SshExec.{combined_output, check_host}
use gitlab_geo_sync.ReadOnly
use gitlab_geo_sync.ReadOnly.{run_all}
use gitlab_geo_sync.ReadOnly.Calm.{
  check_host-Calm, combined_output-Calm, ssh_outcome-Calm, run_all-Calm,
}
use gitlab_geo_sync.DbKey.Calm.{check_with_config-Calm}
use gitlab_geo_sync.Config.{SiteConfig}
use gitlab_geo_sync.Failover.{
  Controller, PromotionStep, find_secondary, verify_primary_down, ssh_secondary, step_outcome,
  run_steps, promotion_steps, promote, promote_site, lift,
}

step_outcome-Calm :
    (format name : String) (r : Result (Unit {0})) → IsCalm r → Calm (step_outcome format name r)
step_outcome-Calm format name (ok u) c h = tt
step_outcome-Calm format name (err e) c h = tt
step_outcome-Calm format name (panic m) c h = absurd c

ssh_secondary-Calm :
    (env : Env) (c : Controller) (host cmd : String) → Calm (ssh_secondary env c host cmd)
unfolding ssh_secondary
ssh_secondary-Calm env c host cmd = bind-Calm (check_host host) _ (check_host-Calm host) λ u.
    bind-Calm (combined_output env c.ssh_cfg host cmd) _
      (combined_output-Calm env c.ssh_cfg host cmd) (ssh_outcome-Calm host)

step-Calm :
    (format : String) (dry_run : Bool) (s : PromotionStep) (rest : Exec (Unit {0}))
    → Calm s.fn
    → Calm rest
    → Calm (if dry_run then rest else do r ← attempt s.fn; step_outcome format s.name r; rest)
step-Calm format dry_run s rest c k = if-Calm dry_run rest _ k (
    attempt_bind-Calm s.fn _ c λ r kr.
      bind-Calm (step_outcome format s.name r) _ (step_outcome-Calm format s.name r kr) (λ u. k))

run_steps-Calm :
    (format : String) (dry_run : Bool) (steps : List PromotionStep)
    → All (λ s. Calm s.fn) steps
    → Calm (run_steps format dry_run steps)
unfolding run_steps
run_steps-Calm format dry_run [] c h = tt
run_steps-Calm format dry_run (s ∷ steps) c h =
    step-Calm format dry_run s (run_steps format dry_run steps) c.0
      (run_steps-Calm format dry_run steps c.1) h

find_secondary-IsCalm : (name : String) (ss : List SiteConfig) → IsCalm (find_secondary name ss)
unfolding find_secondary
find_secondary-IsCalm name [] = tt
find_secondary-IsCalm name (s ∷ ss) =
    let ih = find_secondary-IsCalm name ss in
    elim (s.name == name) as (λ b. IsCalm (if b then ok s else find_secondary name ss)) [
      | true ↦ tt
      | false ↦ ih
    ]

verify_primary_down-Calm : (c : Controller) → Calm (verify_primary_down c)
unfolding verify_primary_down
verify_primary_down-Calm c = if-Calm c.primary_down _ _ (λ h. tt) (λ h. tt)

steps-Calm :
    (env : Env) (c : Controller) (s : SiteConfig) → All (λ s. Calm s.fn) (promotion_steps env c s)
unfolding promotion_steps ReadOnly.disable_with_config
steps-Calm env c s = (
  verify_primary_down-Calm c,
  (
    ssh_secondary-Calm env c s.ssh_host _,
    (
      ssh_secondary-Calm env c s.ssh_host _,
      (
        run_all-Calm env s.ssh_host c.dry_run c.ssh_cfg _,
        (
          ssh_secondary-Calm env c s.ssh_host _,
          (check_with_config-Calm env c.cfg.primary.ssh_host s.ssh_host c.ssh_cfg, tt),
        ),
      ),
    ),
  ),
)

pub promote-Calm : (env : Env) (c : Controller) (name : String) → Calm (promote env c name)
unfolding promote promote_site
promote-Calm env c name =
    bind-Calm (lift (find_secondary name c.cfg.secondaries)) _
      (λ h. find_secondary-IsCalm name c.cfg.secondaries)
      λ s.
        if-Calm (not c.dry_run && not c.cfg.sync.failover_enabled) _ _ (λ h. tt)
          (run_steps-Calm "step %q: %w" c.dry_run (promotion_steps env c s) (steps-Calm env c s))
