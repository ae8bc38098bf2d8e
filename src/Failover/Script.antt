-- ===== src/Failover/Script.antt =====
-- The commands of a promotion and of a role swap as one script on one host: each command runs only
-- if all before it succeeded.
use gitlab_geo_sync.Prelude.{
  String, ◌≡◌, ◌≢◌, refl, sym, ap, ◌∙◌, Bool, true, false, Option, none, some, List, [], ◌∷◌, ◌++◌,
  eq_false_of_ne,
}
use mathlib.Core.Path.{fun_ext}
use gitlab_geo_sync.Go.Fmt.{Error, Result, ok, err, panic}
use gitlab_geo_sync.Go.Exec.{Env, Exec, Event, call, settle, continue, ◌>>◌}
use gitlab_geo_sync.SshExec.{SshOptions, ssh_command, combined_output, check_host}
use gitlab_geo_sync.ReadOnly.{ssh_failure, run_ssh, run_all}
use gitlab_geo_sync.Failover.{Controller, PromotionStep, ssh_secondary, step_outcome, run_steps}

abbrev pub is_ok {ℓ} : {A : Type ℓ} → Result A → Bool
is_ok (ok a) = true
is_ok _ = false

-- Whether an action succeeds, and what has been called by then.
abbrev pub outcome {ℓ} : {A : Type ℓ} → Exec A → List Event → Bool × List Event
outcome m h = let (r, h') = m h in (is_ok r, h')

abbrev pub then_if : Bool × List Event → (List Event → Bool × List Event) → Bool × List Event
then_if (true, h) k = k h
then_if (false, h) k = (false, h)

abbrev pub succeeds : Option Error → Bool
succeeds none = true
succeeds (some e) = false

-- The commands on `host` one after the other, up to the first that fails.
unfoldable pub script : Env → SshOptions → String → List String → List Event → Bool × List Event
script env cfg host [] h = (true, h)
script env cfg host (cmd ∷ cmds) h =
    let c = ssh_command cfg host cmd in
    then_if (succeeds (env.reply h c).failure, h ++ call c ∷ []) (script env cfg host cmds)

pub script-append :
    (env : Env) (cfg : SshOptions) (host : String) (xs ys : List String) (h : List Event)
    → script env cfg host (xs ++ ys) h ≡ then_if (script env cfg host xs h) (script env cfg host ys)
unfolding script
script-append env cfg host [] ys h = refl
script-append env cfg host (x ∷ xs) ys h =
    go (succeeds (env.reply h (ssh_command cfg host x)).failure)
      (script-append env cfg host xs ys (h ++ call (ssh_command cfg host x) ∷ []))
  where
    go :
        (b : Bool)
        → script env cfg host (xs ++ ys) (h ++ call (ssh_command cfg host x) ∷ [])
          ≡ then_if
              (script env cfg host xs (h ++ call (ssh_command cfg host x) ∷ []))
              (script env cfg host ys)
        → then_if (b, h ++ call (ssh_command cfg host x) ∷ []) (script env cfg host (xs ++ ys))
          ≡ then_if
              (then_if (b, h ++ call (ssh_command cfg host x) ∷ []) (script env cfg host xs))
              (script env cfg host ys)
    go true ih = ih
    go false ih = refl

module _ (env : Env) where
  ssh_failure-outcome :
      (host out : String) (o : Option Error) (h : List Event)
      → outcome (ssh_failure host out o) h ≡ (succeeds o, h)
  ssh_failure-outcome host out none h = refl
  ssh_failure-outcome host out (some e) h = refl

  then_if-true : (b : Bool) (h : List Event) → then_if (b, h) (λ h'. (true, h')) ≡ (b, h)
  then_if-true true h = refl
  then_if-true false h = refl

  pub ssh_secondary-outcome :
      (c : Controller) (host cmd : String) (h : List Event)
      → host ≢ ""
      → outcome (ssh_secondary env c host cmd) h ≡ script env c.ssh_cfg host (cmd ∷ []) h
  unfolding ssh_secondary check_host combined_output script
  ssh_secondary-outcome c host cmd h e =
      let r = env.reply h (ssh_command c.ssh_cfg host cmd) in
      rw (eq_false_of_ne host "" e)
        (ssh_failure-outcome host r.output r.failure _ ∙ sym (then_if-true (succeeds r.failure) _))

  run_ssh-outcome :
      (host : String) (cfg : SshOptions) (cmd : String) (h : List Event)
      → host ≢ ""
      → outcome (run_ssh env host false cfg cmd) h ≡ (
        succeeds (env.reply h (ssh_command cfg host cmd)).failure,
        h ++ call (ssh_command cfg host cmd) ∷ [],
      )
  unfolding run_ssh check_host combined_output
  run_ssh-outcome host cfg cmd h e =
      let r = env.reply h (ssh_command cfg host cmd) in
      rw (eq_false_of_ne host "" e) (ssh_failure-outcome host r.output r.failure _)

  -- The outcome of two actions in a row.
  continue-outcome :
      {A : Type 0} (r : Result A) (h : List Event) (k : Exec (Unit {0}))
      → outcome (λ h. continue r (λ a. k) h) h ≡ then_if (is_ok r, h) (outcome k)
  continue-outcome (ok a) h k = refl
  continue-outcome (err e) h k = refl
  continue-outcome (panic m) h k = refl

  pub run_all-outcome :
      (host : String) (cfg : SshOptions) (cmds : List String) (h : List Event)
      → host ≢ ""
      → outcome (run_all env host false cfg cmds) h ≡ script env cfg host cmds h
  unfolding run_all script
  run_all-outcome host cfg [] h e = refl
  run_all-outcome host cfg (cmd ∷ cmds) h e =
      continue-outcome (run_ssh env host false cfg cmd h).0 (run_ssh env host false cfg cmd h).1
        (run_all env host false cfg cmds)
      ∙ (ap (λ o. then_if o (outcome (run_all env host false cfg cmds)))
            (run_ssh-outcome host cfg cmd h e)
          ∙ ap
              (then_if (
                succeeds (env.reply h (ssh_command cfg host cmd)).failure,
                h ++ call (ssh_command cfg host cmd) ∷ [],
              ))
              (fun_ext (λ h'. run_all-outcome host cfg cmds h' e)))

  step-outcome :
      (format name : String) (r : Result (Unit {0})) (h : List Event) (k : Exec (Unit {0}))
      → outcome
          (λ h. continue (settle (r, h)).0 (λ r. step_outcome format name r >> k) (settle (r, h)).1)
          h
        ≡ then_if (is_ok r, h) (outcome k)
  step-outcome format name (ok a) h k = refl
  step-outcome format name (err e) h k = refl
  step-outcome format name (panic m) h k = refl

  pub run_steps-outcome :
      (format : String) (s : PromotionStep) (steps : List PromotionStep) (h : List Event)
      → outcome (run_steps format false (s ∷ steps)) h
        ≡ then_if (outcome s.fn h) (outcome (run_steps format false steps))
  unfolding run_steps
  run_steps-outcome format s steps h =
      step-outcome format s.name (s.fn h).0 (s.fn h).1 (run_steps format false steps)
