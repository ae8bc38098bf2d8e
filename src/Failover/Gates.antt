-- ===== src/Failover/Gates.antt =====
-- When a promotion calls nothing.
use gitlab_geo_sync.Prelude.{
  String, ◌≡◌, ◌⊎◌, refl, ap, ◌∙◌, Bool, true, false, not, ◌&&◌, List, [], ◌∷◌, if◌then◌else◌, inl,
  inr,
}
use gitlab_geo_sync.Go.Fmt.{Result, ok, err, panic}
use gitlab_geo_sync.Go.Exec.{Env, Exec, Event, continue}
use gitlab_geo_sync.Config.{SiteConfig}
use gitlab_geo_sync.Failover.{
  Controller, PromotionStep, find_secondary, verify_primary_down, run_steps, promotion_steps,
  promote, promote_site,
}
use gitlab_geo_sync.Failover.Script.{is_ok}

pub run_steps_dry :
    (format : String) (steps : List PromotionStep) (h : List Event)
    → run_steps format true steps h ≡ (ok tt, h)
unfolding run_steps
run_steps_dry format [] h = refl
run_steps_dry format (s ∷ steps) h = run_steps_dry format steps h

run_steps_down :
    (format : String) (c : Controller) (name : String) (steps : List PromotionStep) (dry_run : Bool)
    (h : List Event)
    → c.primary_down ≡ false
    → (run_steps format dry_run (record { name = name; fn = verify_primary_down c } ∷ steps) h).1
      ≡ h
unfolding run_steps verify_primary_down
run_steps_down format c name steps true h e = ap (λ r. r.1) (run_steps_dry format steps h)
run_steps_down format c name steps false h e = rw e

abbrev Closed : Controller → Type 0
Closed c = (c.dry_run ≡ true) ⊎ ((c.cfg.sync.failover_enabled ≡ false) ⊎ (c.primary_down ≡ false))

steps_down :
    (env : Env) (c : Controller) (s : SiteConfig) (h : List Event)
    → c.primary_down ≡ false
    → (run_steps "step %q: %w" c.dry_run (promotion_steps env c s) h).1 ≡ h
unfolding promotion_steps
steps_down env c s h e = run_steps_down "step %q: %w" c _ _ c.dry_run h e

gate_quiet :
    (dry on : Bool) (m n : Exec (Unit {0})) (h : List Event)
    → (m h).1 ≡ h
    → ((dry ≡ true) ⊎ ((on ≡ false) ⊎ ((n h).1 ≡ h)))
    → (dry ≡ true → (n h).1 ≡ h)
    → ((if not dry && not on then m else n) h).1 ≡ h
gate_quiet true on m n h quiet g k = k refl
gate_quiet false false m n h quiet g k = quiet
gate_quiet false true m n h quiet (inl e) k = cc
gate_quiet false true m n h quiet (inr (inl e)) k = cc
gate_quiet false true m n h quiet (inr (inr e)) k = e

quiet_case :
    (env : Env) (c : Controller) (s : SiteConfig) (h : List Event)
    → Closed c
    → (c.dry_run ≡ true)
      ⊎ ((c.cfg.sync.failover_enabled ≡ false)
          ⊎ ((run_steps "step %q: %w" c.dry_run (promotion_steps env c s) h).1 ≡ h))
quiet_case env c s h (inl d) = inl d
quiet_case env c s h (inr (inl e)) = inr (inl e)
quiet_case env c s h (inr (inr e)) = inr (inr (steps_down env c s h e))

site_quiet :
    (env : Env) (c : Controller) (s : SiteConfig) (h : List Event)
    → Closed c
    → (promote_site env c s h).1 ≡ h
unfolding promote_site
site_quiet env c s h g =
    gate_quiet c.dry_run c.cfg.sync.failover_enabled _ _ h refl (quiet_case env c s h g) λ d.
      ap (λ b. (run_steps "step %q: %w" b (promotion_steps env c s) h).1) d
      ∙ ap (λ r. r.1) (run_steps_dry "step %q: %w" (promotion_steps env c s) h)

lookup_cases :
    (env : Env) (c : Controller) (r : Result SiteConfig) (h : List Event)
    → Closed c ⊎ (is_ok r ≡ false)
    → (continue r (promote_site env c) h).1 ≡ h
lookup_cases env c (ok s) h (inl g) = site_quiet env c s h g
lookup_cases env c (ok s) h (inr e) = cc
lookup_cases env c (err x) h g = refl
lookup_cases env c (panic m) h g = refl

-- A promotion calls nothing at all in a dry run, where failover is disabled in the configuration,
-- while the primary is not held to be down, and where no secondary has the name.
pub promote-gates :
    (env : Env) (c : Controller) (name : String) (h : List Event)
    → ((c.dry_run ≡ true) ⊎ ((c.cfg.sync.failover_enabled ≡ false) ⊎ (c.primary_down ≡ false)))
      ⊎ (is_ok (find_secondary name c.cfg.secondaries) ≡ false)
    → (promote env c name h).1 ≡ h
unfolding promote
promote-gates env c name h g = lookup_cases env c (find_secondary name c.cfg.secondaries) h g
