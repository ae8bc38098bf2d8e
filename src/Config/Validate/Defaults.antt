-- ===== src/Config/Validate/Defaults.antt =====
-- What the defaults set and what they leave in place.
use gitlab_geo_sync.Prelude.{String, Option, none, some, ◌≡◌, ◌≢◌, refl, arith, eq_iff}
use gitlab_geo_sync.Go.Int64.{ℤ, pos}
use gitlab_geo_sync.Config.{Config, FailoverConfig}
use gitlab_geo_sync.Config.Validate.{
  ten_seconds, thirty_seconds, five_minutes, sync_defaults, failover_defaults, with_defaults,
  validate, or_duration, or_text,
}

-- A setting before and after: kept where it was set, and the default where it was not.
pub record Filled (A : Type 0) (unset default before after : A) : Type 0 where
  pub kept : before ≢ unset → after ≡ before
  pub filled : before ≡ unset → after ≡ default

abbrev pub FilledNumber : ℤ → ℤ → ℤ → Type 0
FilledNumber = Filled ℤ (pos 0)

abbrev pub FilledText : String → String → String → Type 0
FilledText = Filled String ""

-- The failover section: 10 seconds, a quorum of one and no plugin; the rest of it stays.
pub record FailoverFilled (f g : FailoverConfig) : Type 0 where
  pub health_check_interval :
      FilledNumber (pos 10000000000) f.health_check_interval g.health_check_interval
  pub quorum_required : FilledNumber (pos 1) f.quorum_required g.quorum_required
  pub dns_plugin : FilledText "none" f.dns_plugin g.dns_plugin
  pub rest :
      record g {
        health_check_interval = f.health_check_interval;
        quorum_required = f.quorum_required;
        dns_plugin = f.dns_plugin;
      }
      ≡ f

abbrev pub SectionFilled : Option FailoverConfig → Option FailoverConfig → Type 0
SectionFilled none none = Unit
SectionFilled none (some g) = ⊥
SectionFilled (some f) none = ⊥
SectionFilled (some f) (some g) = FailoverFilled f g

-- The defaults, in nanoseconds and millionths: 5 minutes, 30 seconds, 5 minutes and one percent.
pub record DefaultsFilled (c d : Config) : Type 0 where
  pub sweep_interval : FilledNumber (pos 300000000000) c.sync.sweep_interval d.sync.sweep_interval
  pub lag_warning_threshold :
      FilledNumber (pos 30000000000) c.sync.lag_warning_threshold d.sync.lag_warning_threshold
  pub lag_critical_threshold :
      FilledNumber (pos 300000000000) c.sync.lag_critical_threshold d.sync.lag_critical_threshold
  pub consistency_sample_pct :
      FilledNumber (pos 10000) c.sync.consistency_sample_pct d.sync.consistency_sample_pct
  pub metrics_addr : FilledText ":9101" c.metrics.addr d.metrics.addr
  pub level : FilledText "info" c.log.level d.log.level
  pub format : FilledText "json" c.log.format d.log.format
  pub control_db : FilledText "sqlite://data/geoctl.db" c.control_db d.control_db
  pub failover : SectionFilled c.failover d.failover
  pub rest :
      record d {
        sync = record d.sync {
          sweep_interval = c.sync.sweep_interval;
          lag_warning_threshold = c.sync.lag_warning_threshold;
          lag_critical_threshold = c.sync.lag_critical_threshold;
          consistency_sample_pct = c.sync.consistency_sample_pct;
        };
        metrics = record d.metrics { addr = c.metrics.addr };
        log = record d.log { level = c.log.level; format = c.log.format };
        control_db = c.control_db;
        failover = c.failover;
      }
      ≡ c

or_duration-Filled : (v d : ℤ) → FilledNumber d v (or_duration v d)
unfolding or_duration
or_duration-Filled v d = record { kept = λ h. ground arith; filled = λ h. ground arith }

or_text-Filled : (v d : String) → FilledText d v (or_text v d)
unfolding or_text
or_text-Filled v d = record {
  kept = λ h. ground (arith, eq_iff v "");
  filled = λ h. ground (arith, eq_iff v "");
}

failover_defaults-Filled : (o : Option FailoverConfig) → SectionFilled o (failover_defaults o)
unfolding failover_defaults
failover_defaults-Filled none = tt
failover_defaults-Filled (some f) = record {
  health_check_interval = or_duration-Filled f.health_check_interval ten_seconds;
  quorum_required = or_duration-Filled f.quorum_required (pos 1);
  dns_plugin = or_text-Filled f.dns_plugin "none";
  rest = refl;
}

-- After `validate`, with errors or without, each of the eleven settings that have a default is what it
-- was if it was set, and otherwise the default: a sweep interval of 5 minutes, lag thresholds of 30
-- seconds and 5 minutes, a sample of one percent, `:9101`, `info`, `json` and
-- `sqlite://data/geoctl.db`, and in a failover section 10 seconds, a quorum of 1 and `none`. Nothing
-- else in the configuration is changed.
pub validate-DefaultsFilled : (c : Config) → DefaultsFilled c (validate c).0
unfolding validate with_defaults sync_defaults
validate-DefaultsFilled c = record {
  sweep_interval = or_duration-Filled c.sync.sweep_interval five_minutes;
  lag_warning_threshold = or_duration-Filled c.sync.lag_warning_threshold thirty_seconds;
  lag_critical_threshold = or_duration-Filled c.sync.lag_critical_threshold five_minutes;
  consistency_sample_pct = or_duration-Filled c.sync.consistency_sample_pct (pos 10000);
  metrics_addr = or_text-Filled c.metrics.addr ":9101";
  level = or_text-Filled c.log.level "info";
  format = or_text-Filled c.log.format "json";
  control_db = or_text-Filled c.control_db "sqlite://data/geoctl.db";
  failover = failover_defaults-Filled c.failover;
  rest = refl;
}
