-- ===== src/Witnesses/GeoctlCases.antt =====
-- The commands at the sample configuration, and services that answer.
use gitlab_geo_sync.Prelude.{
  String, ◌≡◌, refl, true, false, not, ◌&&◌, Option, none, some, List, [], ◌∷◌, All, ◌==◌,
}
use gitlab_geo_sync.Go.Int64.{pos}
use gitlab_geo_sync.Go.Fmt.{Error, ok, foreign}
use gitlab_geo_sync.Go.Exec.{Call}
use gitlab_geo_sync.Config.{Config}
use gitlab_geo_sync.SshExec.{default_options}
use gitlab_geo_sync.Reconciler.Postgres.{start}
use gitlab_geo_sync.Reconciler.Registry
use gitlab_geo_sync.Reconciler.ApiValidator
use gitlab_geo_sync.Reconciler.GitFetch.{GitFetch}
use gitlab_geo_sync.Webhook.{Server, new_server}
use gitlab_geo_sync.Webhook.Handler.{request}
use gitlab_geo_sync.Failover.{find_secondary}
use gitlab_geo_sync.Failover.Script.{is_ok}
use gitlab_geo_sync.Geoctl.Build.{Services, build_reconcilers}
use gitlab_geo_sync.Geoctl.Build.Cleanup.{Tidy, build_reconcilers-Tidy}
use gitlab_geo_sync.Geoctl.Build.Names.{Answers, turned_on, asked_for}
use gitlab_geo_sync.Geoctl.Build.Shape.{Builds, build_reconcilers-Builds}
use gitlab_geo_sync.Geoctl.Build.Receiver.{
  Incident, at_server, called, fired, receiver_of, receive_all,
}
use gitlab_geo_sync.Geoctl.Build.Trigger.{CallAnswers, receive_all-Answers}
use gitlab_geo_sync.Geoctl.Commands.{secondary_or_first, failover_cmd}
use gitlab_geo_sync.Geoctl.Commands.Gates.{failover_cmd-refuses}
use gitlab_geo_sync.Geoctl.Serve.{serve}
use gitlab_geo_sync.Geoctl.Serve.Running.{Serves, serve-Serves}
use gitlab_geo_sync.Witnesses.Sample.{sample_config, sample_site, sample_env}

abbrev services : Services
services = record {
  pool_factory = λ j dsn. none;
  s3_client = λ c bucket. ok (λ n. ok (pos 0, pos 0));
  row_querier = λ p table. ok (pos 7);
  primary_registry = λ url. Registry.failed (foreign "closed");
  secondary_registry = λ url. Registry.failed (foreign "closed");
  api_client = λ url token. ApiValidator.failed (foreign "closed");
}

services-Answers : Answers services
services-Answers = record { pools = λ j d. refl; buckets = λ c bucket. tt }

build_reconcilers-Tidy_example :
    Tidy (build_reconcilers services (sample_config (pos 1)) false start)
build_reconcilers-Tidy_example =
    build_reconcilers-Tidy services (sample_config (pos 1)) false (λ c bucket. tt)

-- The sample configuration with buckets.
abbrev bucket_config : Config
bucket_config = record (sample_config (pos 1)) {
  primary = record (sample_site "paris" "paris.example.com:22") {
    object_store = record {
      backend = "s3";
      s3 = some (record {
        region = "eu-west-3";
        primary_bucket = "gitlab-paris";
        replica_bucket = "gitlab-oslo";
        access_key = "AK";
        secret_key = "SK";
        endpoint = "";
        replication_lag = pos 0;
      });
      fs_paths = [];
    };
  };
}

build_reconcilers-Builds_example :
    Builds
      (turned_on (asked_for bucket_config))
      (build_reconcilers services bucket_config false start)
build_reconcilers-Builds_example =
    build_reconcilers-Builds services bucket_config false (sample_site "oslo" "oslo.example.com:22")
      [] services-Answers refl (λ e. refl)

-- The names that this asks for.
asked_names :
    turned_on (asked_for bucket_config)
    ≡ "postgres" ∷ "git_fetch" ∷ "object_storage" ∷ "consistency_sweep" ∷ []
unfolding turned_on asked_for
asked_names = refl

serve-Serves_example :
    Serves
      (sample_config (pos 1))
      false
      []
      (serve sample_env services (sample_config (pos 1)) false start [])
serve-Serves_example =
    serve-Serves sample_env services (sample_config (pos 1)) false [] (λ c bucket. tt)

failover_cmd-refuses_example :
    ((failover_cmd sample_env (sample_config (pos 1)) false true "" []).1 ≡ [])
    × (is_ok (failover_cmd sample_env (sample_config (pos 1)) false true "" []).0
        ≡ not (secondary_or_first "" (sample_config (pos 1)).secondaries == "")
          && (false
              && is_ok (
                  find_secondary
                    (secondary_or_first "" (sample_config (pos 1)).secondaries)
                    (sample_config (pos 1)).secondaries)))
failover_cmd-refuses_example =
    failover_cmd-refuses sample_env (sample_config (pos 1)) false true "" []

abbrev listening : Server
listening = record { addr = ":9000"; secret_token = "s3cret"; sem = []; metrics = [] }

abbrev fetcher : GitFetch
fetcher = record {
  primary_ssh_host = "geo@primary";
  repos_path = "/repos";
  secondary_name = "oslo";
  ssh_cfg = default_options;
  dry_run = false;
  max_parallel = pos 8;
}

abbrev joined : String → String → String
joined a b = b

abbrev refused : Call → Option Error
refused c = some (foreign "exit status 128")

-- A push, its call of the manager, a second one for the same project, and the end of the second's wait.
abbrev incidents : List Incident
incidents =
    at_server (
      request (record { is_post = true; token = "s3cret"; event = "push"; body = some "acme/app" }))
    ∷ called 0
    ∷ called 0
    ∷ fired 1
    ∷ []

receive_all-Answers_example :
    All
      (CallAnswers joined refused (some fetcher))
      (receive_all some (receiver_of listening) incidents).manager.calls
unfolding new_server
receive_all-Answers_example =
    receive_all-Answers some ":9000" "s3cret" listening incidents joined refused (some fetcher) refl
