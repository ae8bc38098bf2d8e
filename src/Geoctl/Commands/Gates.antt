-- ===== src/Geoctl/Commands/Gates.antt =====
-- What the commands failover and adopt-as-secondary call.
use gitlab_geo_sync.Prelude.{
  String, ◌≡◌, refl, ap, ◌∙◌, Bool, true, false, not, ◌&&◌, Option, none, some, List, if◌then◌else◌,
  ◌==◌, inl, inr,
}
use gitlab_geo_sync.Go.Fmt.{errorf, end, Result, ok, err, panic}
use gitlab_geo_sync.Go.Exec.{Env, Exec, Event, fail, continue}
use gitlab_geo_sync.Config.{Config, SiteConfig, FailoverConfig}
use gitlab_geo_sync.Failover
use gitlab_geo_sync.Failover.{
  Controller, configured, run_steps, promotion_steps, verify_primary_down, promote, promote_site,
  find_secondary,
}
use gitlab_geo_sync.Failover.Gates.{promote-gates, run_steps_dry}
use gitlab_geo_sync.Failover.Script.{is_ok}
use gitlab_geo_sync.Geoctl.Commands.{secondary_or_first, failover_cmd}

configured-primary_down :
    (f : Option FailoverConfig) (c : Controller)
    → c.primary_down ≡ false
    → (configured f c).primary_down ≡ false
configured-primary_down none c h = h
configured-primary_down (some f) c h = h

new-primary_down : (cfg : Config) (dry_run : Bool) → (Failover.new cfg dry_run).primary_down ≡ false
unfolding Failover.new
new-primary_down cfg dry_run = configured-primary_down cfg.failover _ refl

configured-dry_run :
    (f : Option FailoverConfig) (c : Controller) (b : Bool)
    → c.dry_run ≡ b
    → (configured f c).dry_run ≡ b
configured-dry_run none c b h = h
configured-dry_run (some f) c b h = h

new-dry_run : (cfg : Config) (dry_run : Bool) → (Failover.new cfg dry_run).dry_run ≡ dry_run
unfolding Failover.new
new-dry_run cfg dry_run = configured-dry_run cfg.failover _ dry_run refl

configured-cfg : (f : Option FailoverConfig) (c : Controller) → (configured f c).cfg ≡ c.cfg
configured-cfg none c = refl
configured-cfg (some f) c = refl

new-cfg : (cfg : Config) (dry_run : Bool) → (Failover.new cfg dry_run).cfg ≡ cfg
unfolding Failover.new
new-cfg cfg dry_run = configured-cfg cfg.failover _

-- The first step of a promotion ends it while the primary is not held to be down.
steps_refused :
    (env : Env) (c : Controller) (s : SiteConfig) (dry : Bool) (h : List Event)
    → dry ≡ false
    → c.primary_down ≡ false
    → is_ok (run_steps "step %q: %w" dry (promotion_steps env c s) h).0 ≡ false
unfolding run_steps promotion_steps verify_primary_down
steps_refused env c s true h e d = cc
steps_refused env c s false h e d = rw d refl

either_refused :
    (b : Bool) (m n : Exec (Unit {0})) (h : List Event)
    → is_ok (m h).0 ≡ false
    → is_ok (n h).0 ≡ false
    → is_ok ((if b then m else n) h).0 ≡ false
either_refused true m n h e f = e
either_refused false m n h e f = f

site_refused :
    (env : Env) (c : Controller) (s : SiteConfig) (h : List Event)
    → c.dry_run ≡ false
    → c.primary_down ≡ false
    → is_ok (promote_site env c s h).0 ≡ false
unfolding promote_site
site_refused env c s h e d =
    either_refused (not c.dry_run && not c.cfg.sync.failover_enabled) _
      (run_steps "step %q: %w" c.dry_run (promotion_steps env c s)) h refl
      (steps_refused env c s c.dry_run h e d)

site_dry :
    (env : Env) (c : Controller) (s : SiteConfig) (h : List Event)
    → c.dry_run ≡ true
    → is_ok (promote_site env c s h).0 ≡ true
unfolding promote_site
site_dry env c s h e =
    ap
      (λ b.
        is_ok
          ((if not b && not c.cfg.sync.failover_enabled
              then fail (errorf "failover is disabled in config (sync.failover_enabled=false)" end)
              else run_steps "step %q: %w" b (promotion_steps env c s))
            h).0)
      e
    ∙ ap (λ r. is_ok r.0) (run_steps_dry "step %q: %w" (promotion_steps env c s) h)

-- A promotion by a controller that does not hold the primary to be down.
promoted :
    (env : Env) (c : Controller) (dry : Bool) (r : Result SiteConfig) (h : List Event)
    → c.dry_run ≡ dry
    → c.primary_down ≡ false
    → is_ok (continue r (promote_site env c) h).0 ≡ dry && is_ok r
promoted env c true (ok s) h e d = site_dry env c s h e
promoted env c false (ok s) h e d = site_refused env c s h e d
promoted env c true (err x) h e d = refl
promoted env c false (err x) h e d = refl
promoted env c true (panic m) h e d = refl
promoted env c false (panic m) h e d = refl

new-promote :
    (env : Env) (cfg : Config) (dry : Bool) (name : String) (h : List Event)
    → is_ok (promote env (Failover.new cfg dry) name h).0
      ≡ dry && is_ok (find_secondary name cfg.secondaries)
unfolding promote
new-promote env cfg dry name h =
    promoted env (Failover.new cfg dry) dry
      (find_secondary name (Failover.new cfg dry).cfg.secondaries) h (new-dry_run cfg dry)
      (new-primary_down cfg dry)
    ∙ ap (λ (k : Config). dry && is_ok (find_secondary name k.secondaries)) (new-cfg cfg dry)

branches_quiet :
    (a b : Bool) (m n k : Exec (Unit {0})) (h : List Event)
    → (m h).1 ≡ h
    → (n h).1 ≡ h
    → (k h).1 ≡ h
    → ((if a then m else (if b then n else k)) h).1 ≡ h
branches_quiet true b m n k h e f g = e
branches_quiet false true m n k h e f g = f
branches_quiet false false m n k h e f g = g

branches_ok :
    (a force dry found : Bool) (m n k : Exec (Unit {0})) (h : List Event)
    → is_ok (m h).0 ≡ false
    → is_ok (n h).0 ≡ false
    → is_ok (k h).0 ≡ dry && found
    → is_ok ((if a then m else (if not force && not dry then n else k)) h).0
      ≡ not a && (dry && found)
branches_ok true force dry found m n k h e f g = e
branches_ok false true dry found m n k h e f g = g
branches_ok false false true found m n k h e f g = g
branches_ok false false false found m n k h e f g = f

-- The command failover makes no call at all, with --yes or without, in any configuration: it succeeds
-- exactly in a dry run whose secondary, the flag's or else the first one, is named in the
-- configuration, and a real run always ends in an error.
pub failover_cmd-refuses :
    (env : Env) (cfg : Config) (dry force : Bool) (flag : String) (h : List Event)
    → ((failover_cmd env cfg dry force flag h).1 ≡ h)
      × (is_ok (failover_cmd env cfg dry force flag h).0
          ≡ not (secondary_or_first flag cfg.secondaries == "")
            && (dry
                && is_ok
                    (find_secondary (secondary_or_first flag cfg.secondaries) cfg.secondaries)))
unfolding failover_cmd
failover_cmd-refuses env cfg dry force flag h =
    let name : String = secondary_or_first flag cfg.secondaries in
    (
      branches_quiet (name == "") (not force && not dry) _ _
          (promote env (Failover.new cfg dry) name) h refl refl
          (promote-gates env (Failover.new cfg dry) name h
            (inl (inr (inr (new-primary_down cfg dry))))),
      branches_ok (name == "") force dry (is_ok (find_secondary name cfg.secondaries)) _ _
          (promote env (Failover.new cfg dry) name) h refl refl (new-promote env cfg dry name h),
    )
