-- ===== src/Failover/Promotion.antt =====
-- A promotion and a role swap as scripts of commands.
use mathlib.Core.Path.{fun_ext}
use gitlab_geo_sync.Prelude.{
  String, ◌≡◌, ◌≢◌, refl, sym, ap, ◌∙◌, Bool, true, false, not, ◌&&◌, List, [], ◌∷◌, ◌++◌,
  if◌then◌else◌,
}
use gitlab_geo_sync.Go.Fmt.{Result, ok, err, panic}
use gitlab_geo_sync.Go.Exec.{Env, Exec, Event, continue, ◌>>=◌}
use gitlab_geo_sync.SshExec.{SshOptions}
use gitlab_geo_sync.ReadOnly
use gitlab_geo_sync.ReadOnly.{disable_commands, enable_commands}
use gitlab_geo_sync.DbKey
use gitlab_geo_sync.Config.{SiteConfig}
use gitlab_geo_sync.Failover.{
  Controller, PromotionStep, find_secondary, verify_primary_down, run_steps, promotion_steps,
  promote, promote_site, adopt_steps, adopt_as_secondary, base_backup_command, stop_command,
  start_command, promote_command, first_secondary, ssh_secondary,
}
use gitlab_geo_sync.Failover.Script.{
  is_ok, outcome, then_if, script, script-append, ssh_secondary-outcome, run_all-outcome,
  run_steps-outcome,
}

abbrev pub promotion_script : List String
promotion_script = stop_command ∷ promote_command ∷ (disable_commands ++ (start_command ∷ []))

then_if-then_if :
    (o : Bool × List Event) (j k : List Event → Bool × List Event)
    → then_if (then_if o j) k ≡ then_if o (λ h. then_if (j h) k)
then_if-then_if (true, h) j k = refl
then_if-then_if (false, h) j k = refl

-- A step that is a part of the script, before a rest.
module _ (env : Env) (format : String) (host : String) (c : Controller)
    (k : List Event → Bool × List Event) where
  step_script :
      (s : PromotionStep) (steps : List PromotionStep) (cmds rest : List String)
      → ((h : List Event) → outcome s.fn h ≡ script env c.ssh_cfg host cmds h)
      → ((h : List Event)
          → outcome (run_steps format false steps) h ≡ then_if (script env c.ssh_cfg host rest h) k)
      → (h : List Event)
      → outcome (run_steps format false (s ∷ steps)) h
        ≡ then_if (script env c.ssh_cfg host (cmds ++ rest) h) k
  step_script s steps cmds rest one more h =
      run_steps-outcome env format s steps h
      ∙ (ap (λ o. then_if o (outcome (run_steps format false steps))) (one h)
          ∙ (ap (then_if (script env c.ssh_cfg host cmds h)) (fun_ext more)
              ∙ (sym (
                    then_if-then_if (script env c.ssh_cfg host cmds h)
                      (script env c.ssh_cfg host rest) k)
                  ∙ ap (λ o. then_if o k) (sym (script-append env c.ssh_cfg host cmds rest h)))))

script-nil :
    (env : Env) (cfg : SshOptions) (host : String) (h : List Event)
    → script env cfg host [] h ≡ (true, h)
unfolding script
script-nil env cfg host h = refl

verified :
    (c : Controller) (h : List Event)
    → c.primary_down ≡ true
    → outcome (verify_primary_down c) h ≡ (true, h)
unfolding verify_primary_down
verified c h e = rw e

last_step :
    (env : Env) (format : String) (c : Controller) (host : String) (s : PromotionStep)
    (h : List Event)
    → outcome (run_steps format false (s ∷ [])) h
      ≡ then_if (script env c.ssh_cfg host [] h) (outcome s.fn)
unfolding run_steps script
last_step env format c host s h =
    run_steps-outcome env format s [] h ∙ last_outcome (s.fn h).0 (s.fn h).1
  where
    last_outcome :
        (r : Result (Unit {0})) (h : List Event)
        → then_if (is_ok r, h) (outcome (run_steps format false [])) ≡ (is_ok r, h)
    last_outcome (ok u) h = refl
    last_outcome (err e) h = refl
    last_outcome (panic m) h = refl

gate_open :
    {A : Type 0} (dry on : Bool) (m n : A) → on ≡ true → (if not dry && not on then m else n) ≡ n
gate_open true on m n e = refl
gate_open false true m n e = refl
gate_open false false m n e = cc

steps_script :
    (env : Env) (c : Controller) (s : SiteConfig) (h : List Event)
    → c.dry_run ≡ false
    → c.primary_down ≡ true
    → s.ssh_host ≢ ""
    → outcome (run_steps "step %q: %w" false (promotion_steps env c s)) h
      ≡ then_if
          (script env c.ssh_cfg s.ssh_host promotion_script h)
          (outcome (DbKey.check_with_config env c.cfg.primary.ssh_host s.ssh_host c.ssh_cfg))
unfolding promotion_steps ReadOnly.disable_with_config
steps_script env c s h dry down host =
    let parity =
      outcome (DbKey.check_with_config env c.cfg.primary.ssh_host s.ssh_host c.ssh_cfg) in
    let step = step_script env "step %q: %w" s.ssh_host c parity in
    step _ _ [] promotion_script
      (λ h. verified c h down ∙ sym (script-nil env c.ssh_cfg s.ssh_host h))
      (step _ _ (stop_command ∷ []) _
        (λ h. ssh_secondary-outcome env c s.ssh_host stop_command h host)
        (step _ _ (promote_command ∷ []) _
          (λ h. ssh_secondary-outcome env c s.ssh_host promote_command h host)
          (step _ _ disable_commands _
            (λ h.
              ap (λ b. outcome (ReadOnly.run_all env s.ssh_host b c.ssh_cfg disable_commands) h) dry
              ∙ (run_all-outcome env s.ssh_host c.ssh_cfg disable_commands h host))
            (step _ _ (start_command ∷ []) []
              (λ h. ssh_secondary-outcome env c s.ssh_host start_command h host)
              (last_step env "step %q: %w" c s.ssh_host _)))))
      h

site_open :
    (env : Env) (c : Controller) (s : SiteConfig)
    → c.cfg.sync.failover_enabled ≡ true
    → promote_site env c s ≡ run_steps "step %q: %w" c.dry_run (promotion_steps env c s)
unfolding promote_site
site_open env c s on = gate_open c.dry_run c.cfg.sync.failover_enabled _ _ on

no_steps :
    (env : Env) (format : String) (c : Controller) (host : String) (h : List Event)
    → outcome (run_steps format false []) h
      ≡ then_if (script env c.ssh_cfg host [] h) (λ h. (true, h))
unfolding run_steps script
no_steps env format c host h = refl

then_if_done : (o : Bool × List Event) → then_if o (λ h. (true, h)) ≡ o
then_if_done (true, h) = refl
then_if_done (false, h) = refl

-- With failover enabled and the primary held to be down, a promotion that is no dry run, of a secondary
-- that is configured by that name and has an SSH host that is not empty, stops GitLab, promotes
-- PostgreSQL, lifts read-only mode by three commands and starts GitLab, in this order of the code (the
-- comment of Promote has another), each only if all before it succeeded, and then checks the parity of
-- db_key_base; it succeeds exactly if all of these do.
pub promote-script :
    (env : Env) (c : Controller) (name : String) (s : SiteConfig) (h : List Event)
    → c.dry_run ≡ false
    → c.cfg.sync.failover_enabled ≡ true
    → c.primary_down ≡ true
    → find_secondary name c.cfg.secondaries ≡ ok s
    → s.ssh_host ≢ ""
    → outcome (promote env c name) h
      ≡ then_if
          (script env c.ssh_cfg s.ssh_host promotion_script h)
          (outcome (DbKey.check_with_config env c.cfg.primary.ssh_host s.ssh_host c.ssh_cfg))
unfolding promote
promote-script env c name s h dry on down found host =
    ap (λ r. outcome (λ h. continue r (promote_site env c) h) h) found
    ∙ (ap (λ (m : Exec (Unit {0})). outcome m h) (site_open env c s on)
        ∙ (ap (λ b. outcome (run_steps "step %q: %w" b (promotion_steps env c s)) h) dry
            ∙ steps_script env c s h dry down host))

abbrev pub adopt_script : SiteConfig → List String
adopt_script new_primary =
    stop_command ∷ base_backup_command new_primary ∷ (enable_commands ++ (start_command ∷ []))

backup_step :
    (env : Env) (c : Controller) (host : String) (s : SiteConfig) (ss : List SiteConfig)
    (h : List Event)
    → c.cfg.secondaries ≡ s ∷ ss
    → host ≢ ""
    → outcome
        (do
          new_primary ← first_secondary c.cfg.secondaries
          ssh_secondary env c host (base_backup_command new_primary))
        h
      ≡ script env c.ssh_cfg host (base_backup_command s ∷ []) h
backup_step env c host s ss h e ne =
    ap
      (λ l.
        outcome
          (do
            new_primary ← first_secondary l
            ssh_secondary env c host (base_backup_command new_primary))
          h)
      e
    ∙ ssh_secondary-outcome env c host (base_backup_command s) h ne

adopt_steps-script :
    (env : Env) (c : Controller) (host : String) (s : SiteConfig) (ss : List SiteConfig)
    (h : List Event)
    → c.dry_run ≡ false
    → c.cfg.secondaries ≡ s ∷ ss
    → host ≢ ""
    → outcome (run_steps "role-swap step %q: %w" false (adopt_steps env c host)) h
      ≡ script env c.ssh_cfg host (adopt_script s) h
unfolding adopt_steps ReadOnly.enable_with_config
adopt_steps-script env c host s ss h dry e ne =
    let step = step_script env "role-swap step %q: %w" host c (λ h. (true, h)) in
    step _ _ (stop_command ∷ []) _ (λ h. ssh_secondary-outcome env c host stop_command h ne)
      (step _ _ (base_backup_command s ∷ []) _ (λ h. backup_step env c host s ss h e ne)
        (step _ _ enable_commands _
          (λ h.
            ap (λ b. outcome (ReadOnly.run_all env host b c.ssh_cfg enable_commands) h) dry
            ∙ run_all-outcome env host c.ssh_cfg enable_commands h ne)
          (step _ _ (start_command ∷ []) []
            (λ h. ssh_secondary-outcome env c host start_command h ne)
            (no_steps env "role-swap step %q: %w" c host))))
      h
    ∙ then_if_done (script env c.ssh_cfg host (adopt_script s) h)

-- With failover enabled, a secondary configured and an SSH host of the old primary that is not empty,
-- a role swap that is no dry run stops GitLab on the old primary, copies the database of the first
-- secondary to it, sets read-only mode by three commands and starts GitLab, in this order, each only if
-- all before it succeeded, and succeeds exactly if all of them do.
pub adopt-script :
    (env : Env) (c : Controller) (old_primary_ssh : String) (s : SiteConfig) (ss : List SiteConfig)
    (h : List Event)
    → c.dry_run ≡ false
    → c.cfg.sync.failover_enabled ≡ true
    → c.cfg.secondaries ≡ s ∷ ss
    → old_primary_ssh ≢ ""
    → outcome (adopt_as_secondary env c old_primary_ssh) h
      ≡ script env c.ssh_cfg old_primary_ssh (adopt_script s) h
unfolding adopt_as_secondary
adopt-script env c host s ss h dry on e ne =
    ap (λ (m : Exec (Unit {0})). outcome m h)
      (gate_open c.dry_run c.cfg.sync.failover_enabled _ _ on)
    ∙ (ap (λ b. outcome (run_steps "role-swap step %q: %w" b (adopt_steps env c host)) h) dry
        ∙ adopt_steps-script env c host s ss h dry e ne)
