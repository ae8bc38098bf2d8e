-- ===== src/Witnesses/DoctorCases.antt =====
-- The doctor at the sample configuration, where the database of one site cannot be reached.
use gitlab_geo_sync.Prelude.{◌≡◌, ◌↔◌, []}
use gitlab_geo_sync.Go.Int64.{pos}
use gitlab_geo_sync.Go.Fmt.{ok, foreign}
use gitlab_geo_sync.Doctor.{PoolFactory, failed}
use gitlab_geo_sync.Doctor.Run.{run, doctor_cmd}
use gitlab_geo_sync.Doctor.Complete.{Completes, run-Completes}
use gitlab_geo_sync.Doctor.Verdict.{NothingFailed, doctor_cmd-NothingFailed}
use gitlab_geo_sync.Witnesses.Sample.{sample_config, sample_env}

abbrev unreachable : PoolFactory
unreachable dsn = failed (foreign "connection refused")

run-Completes_example :
    Completes (sample_config (pos 1)) (run sample_env (sample_config (pos 1)) unreachable [])
run-Completes_example = run-Completes sample_env (sample_config (pos 1)) unreachable []

doctor_cmd-NothingFailed_example :
    ((doctor_cmd sample_env (sample_config (pos 1)) unreachable []).0 ≡ ok tt)
    ↔ NothingFailed (run sample_env (sample_config (pos 1)) unreachable [])
doctor_cmd-NothingFailed_example =
    doctor_cmd-NothingFailed sample_env (sample_config (pos 1)) unreachable []
