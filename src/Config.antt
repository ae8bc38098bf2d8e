-- ===== src/Config.antt =====
-- internal/config: the records of the configuration, and its checks in the modules below.
-- A duration is an int64 of nanoseconds. `sample_pct` (a float64) counts millionths.
pub mod Dsn
pub mod Validate
pub mod Env
use gitlab_geo_sync.Prelude.{String, Bool, Option, List}
use gitlab_geo_sync.Go.Int64.{ℤ}

pub record PostgresConfig : Type 0 where
  pub host : String
  pub port : ℤ
  pub db : String
  pub user : String
  pub password : String
  pub replication_user : String
  pub replication_password : String
  pub slot_name : String
  pub ssl_mode : String
  pub ssl_root_cert : String
  pub ssl_cert : String
  pub ssl_key : String

pub record GitStorage : Type 0 where
  pub mode : String
  pub repos_path : String
  pub hashed_storage : Bool

pub record S3Config : Type 0 where
  pub region : String
  pub primary_bucket : String
  pub replica_bucket : String
  pub access_key : String
  pub secret_key : String
  pub endpoint : String
  pub replication_lag : ℤ

pub record ObjectStoreConfig : Type 0 where
  pub backend : String
  pub s3 : Option S3Config
  pub fs_paths : List String

pub record RegistryConfig : Type 0 where
  pub mode : String
  pub fs_path : String
  pub s3 : Option S3Config

pub record SiteConfig : Type 0 where
  pub name : String
  pub external_url : String
  pub postgres : PostgresConfig
  pub git : GitStorage
  pub object_store : ObjectStoreConfig
  pub registry : Option RegistryConfig
  pub ssh_host : String

pub record SyncConfig : Type 0 where
  pub sweep_interval : ℤ
  pub lag_warning_threshold : ℤ
  pub lag_critical_threshold : ℤ
  pub failover_enabled : Bool
  pub read_only_secondary : Bool
  pub consistency_sample_pct : ℤ

pub record MetricsConfig : Type 0 where
  pub addr : String

pub record LogConfig : Type 0 where
  pub level : String
  pub format : String

pub record WebhookConfig : Type 0 where
  pub addr : String
  pub secret_token : String

pub record ApiValidatorConfig : Type 0 where
  pub enabled : Bool
  pub primary_token : String
  pub secondary_token : String

pub record FailoverConfig : Type 0 where
  pub health_check_urls : List String
  pub health_check_interval : ℤ
  pub quorum_required : ℤ
  pub dns_plugin : String
  pub dns_config : List (String × String)
  pub auto_failover : Bool

pub record SshConfig : Type 0 where
  pub known_hosts_file : String
  pub strict_host_key_checking : String

pub record Config : Type 0 where
  pub primary : SiteConfig
  pub secondaries : List SiteConfig
  pub sync : SyncConfig
  pub metrics : MetricsConfig
  pub log : LogConfig
  pub control_db : String
  pub webhook : Option WebhookConfig
  pub api_validator : Option ApiValidatorConfig
  pub failover : Option FailoverConfig
  pub ssh : SshConfig
