-- ===== src/Witnesses/FailoverCases.antt =====
-- The theorems on the failover controller at the sample configuration.
use gitlab_geo_sync.Prelude.{
  ◌≡◌, ◌≢◌, refl, String, true, false, inl, inr, List, [], ◌∷◌, arith, eq_false,
}
use gitlab_geo_sync.Go.Int64.{pos, negsuc}
use gitlab_geo_sync.Go.Fmt.{ok}
use gitlab_geo_sync.DbKey
use gitlab_geo_sync.Failover.{
  Controller, HttpAnswer, status, no_response, new, run, promote, adopt_as_secondary,
  find_secondary,
}
use gitlab_geo_sync.Failover.Health.{
  after, streak, run-streak, run-quorum_unreachable, run-quorum_not_positive,
}
use gitlab_geo_sync.Failover.Script.{outcome, then_if, script}
use gitlab_geo_sync.Failover.Gates.{promote-gates}
use gitlab_geo_sync.Failover.Promotion.{
  promotion_script, promote-script, adopt_script, adopt-script,
}
use gitlab_geo_sync.Witnesses.Sample.{sample_config, sample_site, sample_env}

abbrev up : String → HttpAnswer
up url = status 200

abbrev down : String → HttpAnswer
down url = no_response

-- One good round, then three with no answer.
abbrev outage : List (String → HttpAnswer)
outage = up ∷ down ∷ down ∷ down ∷ []

has_secondary : (sample_config (pos 2)).secondaries ≢ []
has_secondary e = cc

run-streak_example :
    (run sample_env outage (new (sample_config (pos 2)) false) []).0
    ≡ ok (
        after
          (new (sample_config (pos 2)) false)
          (streak (new (sample_config (pos 2)) false) 0 outage))
unfolding new
run-streak_example =
    run-streak sample_env (sample_config (pos 2)) false outage [] (λ a. has_secondary) (omega arith)

run-quorum_unreachable_example :
    (run sample_env outage (new (sample_config (pos 3)) false) []).0
    ≡ ok (new (sample_config (pos 3)) false)
unfolding new
run-quorum_unreachable_example =
    run-quorum_unreachable sample_env (sample_config (pos 3)) false outage [] (λ a. has_secondary)
      (omega arith) refl

run-quorum_not_positive_example :
    (run sample_env (up ∷ up ∷ up ∷ []) (new (sample_config (negsuc 0)) false) []).0
    ≡ ok (record (new (sample_config (negsuc 0)) false) {
      consecutive_fails = pos 3;
      primary_down = true;
    })
unfolding new
run-quorum_not_positive_example =
    run-quorum_not_positive sample_env (sample_config (negsuc 0)) false (up ∷ up ∷ up ∷ []) []
      (λ a. has_secondary) (omega arith) (omega arith) refl

-- A controller that holds the primary to be down.
abbrev alarmed : Controller
alarmed = record (new (sample_config (pos 2)) false) { primary_down = true }

promote-gates_example : (promote sample_env (new (sample_config (pos 2)) false) "oslo" []).1 ≡ []
unfolding new
promote-gates_example =
    promote-gates sample_env (new (sample_config (pos 2)) false) "oslo" [] (inl (inr (inr refl)))

promote-script_example :
    outcome (promote sample_env alarmed "oslo") []
    ≡ then_if (script sample_env alarmed.ssh_cfg "oslo.example.com:22" promotion_script []) (
        outcome (
          DbKey.check_with_config sample_env alarmed.cfg.primary.ssh_host "oslo.example.com:22"
            alarmed.ssh_cfg))
unfolding new find_secondary
promote-script_example =
    promote-script sample_env alarmed "oslo" (sample_site "oslo" "oslo.example.com:22") [] refl refl
      refl refl (eq_false "oslo.example.com:22" "" refl)

adopt-script_example :
    outcome (adopt_as_secondary sample_env alarmed "paris.example.com:22") []
    ≡ script sample_env alarmed.ssh_cfg "paris.example.com:22"
        (adopt_script (sample_site "oslo" "oslo.example.com:22"))
        []
unfolding new
adopt-script_example =
    adopt-script sample_env alarmed "paris.example.com:22"
      (sample_site "oslo" "oslo.example.com:22") [] [] refl refl refl
      (eq_false "paris.example.com:22" "" refl)
