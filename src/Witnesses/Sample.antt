-- ===== src/Witnesses/Sample.antt =====
-- A configuration of one primary and one secondary.
use gitlab_geo_sync.Prelude.{String, true, false, none, some, [], ◌∷◌}
use gitlab_geo_sync.Go.Int64.{ℤ, pos}
use gitlab_geo_sync.Go.Exec.{Env}
use gitlab_geo_sync.Config.{Config, SiteConfig, PostgresConfig, FailoverConfig}

abbrev pub sample_postgres : PostgresConfig
sample_postgres = record {
  host = "10.0.0.10";
  port = pos 5432;
  db = "gitlabhq_production";
  user = "gitlab";
  password = "it's a \\ secret";
  replication_user = "gitlab_repl";
  replication_password = "";
  slot_name = "geo";
  ssl_mode = "";
  ssl_root_cert = "/etc/ca.pem";
  ssl_cert = "";
  ssl_key = "";
}

abbrev pub sample_site : String → String → SiteConfig
sample_site name host = record {
  name = name;
  external_url = "https://gitlab.example.com";
  postgres = sample_postgres;
  git = record { mode = "fetch"; repos_path = "/repos"; hashed_storage = true };
  object_store = record { backend = "fs"; s3 = none; fs_paths = "/uploads" ∷ [] };
  registry = none;
  ssh_host = host;
}

abbrev pub sample_failover : ℤ → FailoverConfig
sample_failover quorum = record {
  health_check_urls = "https://gitaly.example.com" ∷ [];
  health_check_interval = pos 10000000000;
  quorum_required = quorum;
  dns_plugin = "none";
  dns_config = [];
  auto_failover = true;
}

abbrev pub sample_config : ℤ → Config
sample_config quorum = record {
  primary = sample_site "paris" "paris.example.com:22";
  secondaries = sample_site "oslo" "oslo.example.com:22" ∷ [];
  sync = record {
    sweep_interval = pos 0;
    lag_warning_threshold = pos 0;
    lag_critical_threshold = pos 0;
    failover_enabled = true;
    read_only_secondary = true;
    consistency_sample_pct = pos 0;
  };
  metrics = record { addr = "" };
  log = record { level = ""; format = "" };
  control_db = "";
  webhook = none;
  api_validator = none;
  failover = some (sample_failover quorum);
  ssh = record { known_hosts_file = ""; strict_host_key_checking = "" };
}

-- Every command succeeds, with one key in its output.
abbrev pub sample_env : Env
sample_env = record {
  reply = λ h c. record { output = "db_key_base: abc\n"; failure = none };
  is_done = λ h. false;
}
