-- ===== src/Config/Validate.antt =====
-- `validate` of internal/config/config.go: the semantic checks, and the defaults that it writes.
-- The warnings that it logs are not modelled.
pub mod Laws
pub mod Defaults
use gitlab_geo_sync.Prelude.{
  ℕ, suc, String, Bool, true, false, ◌&&◌, ◌||◌, not, Option, none, some, List, [], ◌∷◌, ◌++◌, any,
  if◌then◌else◌, ◌==◌,
}
use gitlab_geo_sync.Go.Int64.{ℤ, pos, eqb_ℤ}
use gitlab_geo_sync.Go.Fmt.{Error, errorf, end, str, nat}
use gitlab_geo_sync.Config.{Config, SiteConfig, SyncConfig, FailoverConfig}

-- A check that fails adds its error.
unfoldable pub failures : List (Bool × Error) → List Error
failures [] = []
failures ((bad, e) ∷ checks) = let rest = failures checks in if bad then e ∷ rest else rest

abbrev pub is_empty : List SiteConfig → Bool
is_empty [] = true
is_empty (s ∷ ss) = false

-- The checks of the primary site, and of the number of secondaries.
unfoldable pub primary_checks : Config → List (Bool × Error)
primary_checks c =
    (c.primary.name == "", errorf "primary.name is required" end)
    ∷ (c.primary.external_url == "", errorf "primary.external_url is required" end)
    ∷ (c.primary.postgres.host == "", errorf "primary.postgres.host is required" end)
    ∷ (eqb_ℤ c.primary.postgres.port (pos 0), errorf "primary.postgres.port is required" end)
    ∷ (
      c.primary.postgres.replication_user == "",
      errorf "primary.postgres.replication_user is required" end,
    )
    ∷ (
      c.primary.postgres.replication_password == "",
      errorf "primary.postgres.replication_password is required (via env)" end,
    )
    ∷ (c.primary.git.mode == "", errorf "primary.git.mode is required (rsync|fetch)" end)
    ∷ (
      not (c.primary.git.mode == "rsync" || c.primary.git.mode == "fetch"),
      errorf "primary.git.mode %q invalid; want rsync or fetch" (str c.primary.git.mode end),
    )
    ∷ (
      c.primary.git.mode == "rsync" && c.primary.git.repos_path == "",
      errorf "primary.git.repos_path is required when mode=rsync" end,
    )
    ∷ (is_empty c.secondaries, errorf "at least one secondary is required" end)
    ∷ []

-- One round of the loop over the secondaries; `seen` holds the names met before.
unfoldable pub secondary_checks : ℕ → List String → SiteConfig → List (Bool × Error)
secondary_checks i seen s =
    (s.name == "", errorf "secondaries[%d].name is required" (nat i end))
    ∷ (
      not (s.name == "") && any (λ n. n == s.name) seen,
      errorf "secondaries[%d].name %q duplicated" (nat i (str s.name end)),
    )
    ∷ (s.postgres.host == "", errorf "secondaries[%d].postgres.host is required" (nat i end))
    ∷ (
      s.postgres.replication_password == "",
      errorf "secondaries[%d].postgres.replication_password is required (via env)" (nat i end),
    )
    ∷ []

unfoldable pub secondaries_errors : ℕ → List String → List SiteConfig → List Error
secondaries_errors i seen [] = []
secondaries_errors i seen (s ∷ ss) =
    failures (secondary_checks i seen s) ++ secondaries_errors (suc i) (s.name ∷ seen) ss

unfoldable pub or_duration : ℤ → ℤ → ℤ
or_duration v d = if eqb_ℤ v (pos 0) then d else v

unfoldable pub or_text : String → String → String
or_text v d = if v == "" then d else v

-- 10 seconds, 30 seconds and 5 minutes, in nanoseconds.
abbrev pub ten_seconds : ℤ
ten_seconds = pos 10000000000

abbrev pub thirty_seconds : ℤ
thirty_seconds = pos 30000000000

abbrev pub five_minutes : ℤ
five_minutes = pos 300000000000

unfoldable pub sync_defaults : SyncConfig → SyncConfig
sync_defaults s = record s {
  sweep_interval = or_duration s.sweep_interval five_minutes;
  lag_warning_threshold = or_duration s.lag_warning_threshold thirty_seconds;
  lag_critical_threshold = or_duration s.lag_critical_threshold five_minutes;
  consistency_sample_pct = or_duration s.consistency_sample_pct (pos 10000);
}

unfoldable pub failover_defaults : Option FailoverConfig → Option FailoverConfig
failover_defaults none = none
failover_defaults (some f) = some (record f {
  health_check_interval = or_duration f.health_check_interval ten_seconds;
  quorum_required = or_duration f.quorum_required (pos 1);
  dns_plugin = or_text f.dns_plugin "none";
})

unfoldable pub with_defaults : Config → Config
with_defaults c = record c {
  sync = sync_defaults c.sync;
  metrics = record c.metrics { addr = or_text c.metrics.addr ":9101" };
  log = record c.log { level = or_text c.log.level "info"; format = or_text c.log.format "json" };
  control_db = or_text c.control_db "sqlite://data/geoctl.db";
  failover = failover_defaults c.failover;
}

-- The configuration after the call, and the errors that are joined.
unfoldable pub validate : Config → Config × List Error
validate c = (with_defaults c, failures (primary_checks c) ++ secondaries_errors 0 [] c.secondaries)
