-- ===== src/Witnesses/ConfigCases.antt =====
-- The theorems on the configuration at the sample configuration.
use gitlab_geo_sync.Prelude.{refl, ◌≡◌, some, [], ◌∷◌, ◌++◌}
use gitlab_geo_sync.Go.Int64.{pos}
use gitlab_geo_sync.Go.Strings.{all_char}
use gitlab_geo_sync.Config.Validate.{validate}
use gitlab_geo_sync.Config.Validate.Laws.{validate-accepts, PrimaryOk, SecondariesOk}
use gitlab_geo_sync.Config.Validate.Defaults.{DefaultsFilled, validate-DefaultsFilled}
use gitlab_geo_sync.Config.Dsn.{dsn, replication_dsn, dsn_pairs}
use gitlab_geo_sync.Config.Dsn.Parse.{parse, gap, is_space}
use gitlab_geo_sync.Config.Dsn.Pair.{clean_char}
use gitlab_geo_sync.Config.Dsn.RoundTrip.{dsn-parse, CleanConfig}
use gitlab_geo_sync.Witnesses.Sample.{sample_config, sample_postgres}

validate-accepts_example :
    ((validate (sample_config (pos 1))).1 ≡ []
      → PrimaryOk (sample_config (pos 1)) × SecondariesOk [] (sample_config (pos 1)).secondaries)
    × (PrimaryOk (sample_config (pos 1)) × SecondariesOk [] (sample_config (pos 1)).secondaries
        → (validate (sample_config (pos 1))).1 ≡ [])
validate-accepts_example = validate-accepts (sample_config (pos 1))

validate-DefaultsFilled_example :
    DefaultsFilled (sample_config (pos 1)) (validate (sample_config (pos 1))).0
validate-DefaultsFilled_example = validate-DefaultsFilled (sample_config (pos 1))

sample_clean : CleanConfig sample_postgres
unfolding all_char clean_char is_space
sample_clean = record {
  host = refl;
  db = refl;
  user = refl;
  password = refl;
  replication_user = refl;
  replication_password = refl;
  ssl_mode = refl;
  ssl_root_cert = refl;
  ssl_cert = refl;
  ssl_key = refl;
}

dsn-parse_example :
    (parse gap (dsn sample_postgres)
      ≡ some (dsn_pairs sample_postgres "gitlab" "it's a \\ secret" "gitlabhq_production"))
    × (parse gap (replication_dsn sample_postgres)
        ≡ some (
            dsn_pairs sample_postgres "gitlab_repl" "" "replication"
            ++ ("application_name", "gitlab-geo-sync") ∷ []))
dsn-parse_example = dsn-parse sample_postgres sample_clean
