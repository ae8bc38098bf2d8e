-- ===== src/Doctor/Complete.antt =====
-- The run of all checks, and the verdict of the command doctor.
use mathlib.Core.Path.{subst}
use gitlab_geo_sync.Prelude.{
  ℕ, suc, ◌+◌, ◌≡◌, refl, ap, ◌∙◌, sym, List, [], ◌∷◌, map, All, length, arith,
}
use gitlab_geo_sync.Go.Fmt.{Result, ok, err, panic}
use gitlab_geo_sync.Go.Exec.{Env, Event, pure, continue}
use gitlab_geo_sync.SshExec.{combined_output, default_options}
use gitlab_geo_sync.ReadOnly.Calm.{combined_output-Calm}
use gitlab_geo_sync.Config.{Config}
use gitlab_geo_sync.Doctor.{Check, PoolFactory}
use gitlab_geo_sync.Doctor.Run.{run_checks, all_checks, Summary, tally, run_with, run}
use gitlab_geo_sync.Doctor.Tally.{
  IsStatus, with_status, Grown, tally-Grown, tally-checks, statuses-length,
}
use gitlab_geo_sync.Doctor.Expected.{
  expected_names, Results, run_checks-Results, IsRunner, all-AllReport,
}

-- The checks are the expected ones, each with a status, and the summary counts each once.
pub record IsComplete (cfg : Config) (r : Summary) : Type 0 where
  pub names : map (λ c. c.name) r.checks ≡ expected_names cfg
  pub statuses : All IsStatus r.checks
  pub pass : r.pass ≡ with_status "PASS" r.checks
  pub fail : r.fail ≡ with_status "FAIL" r.checks
  pub warn : r.warn ≡ with_status "WARN" r.checks
  pub total : r.pass + (r.fail + r.warn) ≡ length (expected_names cfg)

abbrev pub Completes : Config → Result Summary × List Event → Type 0
Completes cfg (ok r, h) = IsComplete cfg r
Completes cfg (err e, h) = ⊥
Completes cfg (panic m, h) = ⊥

length-map : (cs : List Check) → length (map (λ c. c.name) cs) ≡ length cs
length-map [] = refl
length-map (c ∷ cs) = ap suc (length-map cs)

abbrev zero_summary : List Check → Summary
zero_summary cs = record { checks = cs; pass = 0; fail = 0; warn = 0 }

Grown-IsComplete :
    (cfg : Config) (r : Summary)
    → map (λ c. c.name) r.checks ≡ expected_names cfg
    → All IsStatus r.checks
    → Grown (zero_summary r.checks) r r.checks
    → IsComplete cfg r
Grown-IsComplete cfg r e a g = record {
  names = e;
  statuses = a;
  pass = omega (arith, g.0);
  fail = omega (arith, g.1.0);
  warn = omega (arith, g.1.1);
  total =
      counts r.pass r.fail r.warn _ _ _ _ g.0 g.1.0 g.1.1 (statuses-length r.checks a)
      ∙ sym (length-map r.checks)
      ∙ ap length e;
}
  where
    counts :
        (p f w p' f' w' n : ℕ)
        → p ≡ p' + 0
        → f ≡ f' + 0
        → w ≡ w' + 0
        → p' + (f' + w') ≡ n
        → p + (f + w) ≡ n
    counts p f w p' f' w' n ep ef ew e = omega (arith, ep, ef, ew, e)

tallied-IsComplete :
    (cfg : Config) (cs : List Check)
    → map (λ c. c.name) cs ≡ expected_names cfg
    → All IsStatus cs
    → IsComplete cfg (tally cs (zero_summary cs))
tallied-IsComplete cfg cs e a =
    let same : cs ≡ (tally cs (zero_summary cs)).checks = sym (tally-checks cs (zero_summary cs)) in
    Grown-IsComplete cfg (tally cs (zero_summary cs))
      (subst (λ l. map (λ c. c.name) l ≡ expected_names cfg) same e)
      (subst (λ l. All IsStatus l) same a)
      (subst (λ l. Grown (zero_summary l) (tally cs (zero_summary cs)) l) same
        (tally-Grown cs (zero_summary cs) a))

tallied-Completes :
    (cfg : Config) (r : Result (List Check) × List Event)
    → Results (expected_names cfg) r
    → Completes cfg (continue r.0 (λ cs. pure (tally cs (zero_summary cs))) r.1)
tallied-Completes cfg (ok cs, h) k = tallied-IsComplete cfg cs k.0 k.1
tallied-Completes cfg (err x, h) k = k
tallied-Completes cfg (panic x, h) k = k

combined_output-IsRunner : (env : Env) → IsRunner (combined_output env default_options)
unfolding combined_output
combined_output-IsRunner env = record {
  replies = λ host cmd h. tt;
  calm = λ host cmd. combined_output-Calm env default_options host cmd;
}

-- Whatever is answered, the doctor ends with a summary: its checks are, in order, the ones that the
-- configuration calls for, none left out after a failure; each passed, failed or warned; and the three
-- counts are those of the checks and together make up all of them.
pub run-Completes :
    (env : Env) (cfg : Config) (pf : PoolFactory) (h : List Event)
    → Completes cfg (run env cfg pf h)
unfolding run run_with
run-Completes env cfg pf h =
    tallied-Completes cfg
      (run_checks (all_checks env cfg (combined_output env default_options) pf) h)
      (run_checks-Results (expected_names cfg)
        (all_checks env cfg (combined_output env default_options) pf) h
        (all-AllReport env cfg (combined_output env default_options) pf
          (combined_output-IsRunner env)))
