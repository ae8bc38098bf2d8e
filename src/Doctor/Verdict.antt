-- ===== src/Doctor/Verdict.antt =====
-- When the command doctor succeeds.
use gitlab_geo_sync.Prelude.{
  ℕ, suc, ◌≡◌, ◌≢◌, ◌↔◌, refl, ap, ◌∙◌, sym, Bool, true, false, List, [], ◌∷◌, All, count_if, ltb,
  if◌then◌else◌, ◌==◌, arith, eq_false, eq_false_of_ne,
}
use gitlab_geo_sync.Go.Fmt.{Error, errorf, end, nat, Result, ok, err, panic}
use gitlab_geo_sync.Go.Exec.{Exec, Env, Event, pure, fail, continue}
use gitlab_geo_sync.Config.{Config}
use gitlab_geo_sync.Doctor.{Check, PoolFactory}
use gitlab_geo_sync.Doctor.Run.{Summary, run, doctor_cmd}
use gitlab_geo_sync.Doctor.Tally.{with_status}
use gitlab_geo_sync.Doctor.Complete.{Completes, run-Completes}

abbrev pub NotFailed : Check → Type 0
NotFailed c = c.status ≢ "FAIL"

none_failed : (cs : List Check) → with_status "FAIL" cs ≡ 0 → All NotFailed cs
unfolding count_if
none_failed [] h = tt
none_failed (c ∷ cs) h = head (c.status == "FAIL") (none_failed cs) refl h
  where
    head :
        (b : Bool)
        → (with_status "FAIL" cs ≡ 0 → All NotFailed cs)
        → (c.status == "FAIL") ≡ b
        → (if b then suc (with_status "FAIL" cs) else with_status "FAIL" cs) ≡ 0
        → NotFailed c × All NotFailed cs
    head true f e k = omega (arith, k)
    head false f e k = (eq_false c.status "FAIL" e, f k)

failed_none : (cs : List Check) → All NotFailed cs → with_status "FAIL" cs ≡ 0
unfolding count_if
failed_none [] h = refl
failed_none (c ∷ cs) h = rw (eq_false_of_ne c.status "FAIL" h.0) (failed_none cs h.1)

abbrev decided : Summary → Exec (Unit {0})
decided r =
    if ltb 0 r.fail then fail (errorf "doctor: %d checks failed" (nat r.fail end)) else pure tt

passed_if :
    (b : Bool) (e : Error) (h : List Event)
    → ((if b then fail {0} {A = Unit {0}} e else pure tt) h).0 ≡ ok tt
    → b ≡ false
passed_if true e h k = cc
passed_if false e h k = refl

not_positive : (n : ℕ) → ltb 0 n ≡ false → n ≡ 0
not_positive n h = ground arith

decided_if :
    (n : ℕ) (e : Error) (h : List Event)
    → ((if ltb 0 n then fail {0} {A = Unit {0}} e else pure tt) h).0 ≡ ok tt
    → n ≡ 0
decided_if n e h k = not_positive n (passed_if (ltb 0 n) e h k)

-- Nothing failed, in the result of a run.
abbrev pub NothingFailed : Result Summary × List Event → Type 0
NothingFailed (ok r, h) = All NotFailed r.checks
NothingFailed (err e, h) = ⊥
NothingFailed (panic m, h) = ⊥

verdict :
    (cfg : Config) (x : Result Summary × List Event)
    → Completes cfg x
    → ((continue x.0 decided x.1).0 ≡ ok tt) ↔ NothingFailed x
verdict cfg (ok r, h) c = (
  (λ e.
      none_failed r.checks
        (sym c.fail ∙ decided_if r.fail (errorf "doctor: %d checks failed" (nat r.fail end)) h e)),
  λ a.
      ap
        (λ n.
          ((if ltb 0 n
              then fail {0} {A = Unit {0}} (errorf "doctor: %d checks failed" (nat n end))
              else pure tt)
            h).0)
        (c.fail ∙ failed_none r.checks a),
)
verdict cfg (err e, h) c = absurd c
verdict cfg (panic m, h) c = absurd c

-- The command doctor succeeds exactly when no check of the run failed; a warning does not matter.
pub doctor_cmd-NothingFailed :
    (env : Env) (cfg : Config) (pf : PoolFactory) (h : List Event)
    → ((doctor_cmd env cfg pf h).0 ≡ ok tt) ↔ NothingFailed (run env cfg pf h)
unfolding doctor_cmd
doctor_cmd-NothingFailed env cfg pf h = verdict cfg (run env cfg pf h) (run-Completes env cfg pf h)
