-- ===== src/Geoctl/Build.antt =====
-- cmd/geoctl: buildReconcilers and buildWebhookServer. The services outside the program that the
-- reconcilers are given are parameters.
pub mod Shape
pub mod Names
pub mod Cleanup
pub mod Receiver
pub mod Trigger
use gitlab_geo_sync.Prelude.{
  ℕ, String, Bool, true, false, Option, none, some, List, [], ◌∷◌, ◌++◌, if◌then◌else◌, ◌==◌,
}
use gitlab_geo_sync.Go.Int64.{pos, ltb_ℤ, ℤ}
use gitlab_geo_sync.Go.Fmt.{Error, errorf, end, cause, Result, ok, err, panic}
use gitlab_geo_sync.Go.Exec.{Call}
use gitlab_geo_sync.Config.{Config, SiteConfig, S3Config, WebhookConfig, ApiValidatorConfig}
use gitlab_geo_sync.Failover.{ssh_exec_config}
use gitlab_geo_sync.Webhook.{Server, new_server}
use gitlab_geo_sync.Webhook.Debounce.{TriggerManager, new_trigger_manager}
use gitlab_geo_sync.Reconciler.GitRsync
use gitlab_geo_sync.Reconciler.GitRsync.{GitRsync}
use gitlab_geo_sync.Reconciler.GitFetch
use gitlab_geo_sync.Reconciler.GitFetch.{GitFetch}
use gitlab_geo_sync.Reconciler.FsStorage
use gitlab_geo_sync.Reconciler.FsStorage.{FsStorage}
use gitlab_geo_sync.Reconciler.ObjectStorage
use gitlab_geo_sync.Reconciler.ObjectStorage.{ObjectStorage}
use gitlab_geo_sync.Reconciler.Postgres
use gitlab_geo_sync.Reconciler.Postgres.{
  Postgres, Journal, PoolFactory, secondary_pool, close_pools,
}
use gitlab_geo_sync.Reconciler.Registry
use gitlab_geo_sync.Reconciler.Registry.{Registry}
use gitlab_geo_sync.Reconciler.Consistency.{Consistency, RowQuerier}
use gitlab_geo_sync.Reconciler.ApiValidator
use gitlab_geo_sync.Reconciler.ApiValidator.{ApiValidator, ApiAnswer}

-- The reconcilers that implement the interface.
pub data Component : Type 0 where
  postgres : Postgres → Component
  git_rsync : GitRsync → Component
  git_fetch : GitFetch → Component
  object_storage : ObjectStorage → Component
  fs_storage : FsStorage → Component
  registry : Registry → Component
  consistency : Consistency → Component
  api_validator : ApiValidator → Component

-- `Name` of each.
unfoldable pub component_name : Component → String
component_name (postgres r) = "postgres"
component_name (git_rsync r) = "git_rsync"
component_name (git_fetch r) = "git_fetch"
component_name (object_storage r) = "object_storage"
component_name (fs_storage r) = "fs_storage"
component_name (registry r) = "registry"
component_name (consistency r) = "consistency_sweep"
component_name (api_validator r) = "api_validator"

pub record Services : Type 0 where
  pub pool_factory : PoolFactory
  pub s3_client : ObjectStorage.Client
  pub row_querier : ℕ → RowQuerier
  pub primary_registry : Registry.Client
  pub secondary_registry : Registry.Client
  pub api_client : String → String → ApiAnswer

-- The reconcilers, and the `Close` of each that the cleanup calls.
pub record Built : Type 0 where
  pub recs : List Component
  pub cleanups : List Postgres

unfoldable pub clean_up : List Postgres → Journal → Journal
clean_up [] j = j
clean_up (p ∷ ps) j = clean_up ps (close_pools p j)

-- A nil pool.
abbrev pub nil_querier : RowQuerier
nil_querier table = panic "nil pointer dereference"

abbrev pub querier_of : Services → Option ℕ → RowQuerier
querier_of svc none = nil_querier
querier_of svc (some p) = svc.row_querier p

-- `consistency.New`
unfoldable pub new_consistency : Services → Config → SiteConfig → Postgres → Consistency
new_consistency svc cfg s pg = record {
  primary = svc.row_querier pg.primary;
  secondary = querier_of svc (secondary_pool s.name pg.secondaries);
  secondary_name = s.name;
  repos_path = s.git.repos_path;
  samples = ltb_ℤ (pos 0) cfg.sync.consistency_sample_pct;
}

unfoldable pub git_components : Config → SiteConfig → Bool → List Component
git_components cfg s dry_run =
    if cfg.primary.git.mode == "rsync"
    then git_rsync (GitRsync.new cfg.primary s dry_run (ssh_exec_config cfg)) ∷ []
    else (if cfg.primary.git.mode == "fetch"
        then git_fetch (
            GitFetch.new cfg.primary.ssh_host s.git.repos_path s.name dry_run (ssh_exec_config cfg))
          ∷ []
        else [])

abbrev pub s3_component : Result ObjectStorage → Result (List Component)
s3_component (ok r) = ok (object_storage r ∷ [])
s3_component (err e) = err (errorf "object storage reconciler: %w" (cause e end))
s3_component (panic m) = panic m

unfoldable pub storage_components : Services → Config → SiteConfig → Bool → Result (List Component)
storage_components svc cfg s dry_run =
    if cfg.primary.object_store.backend == "s3"
    then s3_component
        (ObjectStorage.new svc.s3_client cfg.primary.object_store.s3 s.object_store.s3)
    else (if cfg.primary.object_store.backend == "fs"
        then ok (fs_storage (FsStorage.new cfg.primary s dry_run (ssh_exec_config cfg)) ∷ [])
        else ok [])

abbrev pub is_some {ℓ} : {A : Type ℓ} → Option A → Bool
is_some none = false
is_some (some a) = true

unfoldable pub registry_components : Services → Config → SiteConfig → Bool → List Component
registry_components svc cfg s dry_run =
    if is_some cfg.primary.registry
    then registry (Registry.new svc.primary_registry svc.secondary_registry cfg.primary s dry_run)
      ∷ []
    else []

abbrev pub is_enabled : Option ApiValidatorConfig → Bool
is_enabled none = false
is_enabled (some v) = v.enabled

abbrev pub validator_component : Result ApiValidator → Result (List Component)
validator_component (ok r) = ok (api_validator r ∷ [])
validator_component (err e) = err e
validator_component (panic m) = panic m

unfoldable pub validator_components : Services → Config → Result (List Component)
validator_components svc cfg =
    if is_enabled cfg.api_validator
    then validator_component (ApiValidator.new svc.api_client cfg)
    else ok []

-- `buildReconcilers` from the API validator on, and from the object storage on.
abbrev pub with_validator :
    Postgres → List Component → Journal → Result (List Component) → Result Built × Journal
with_validator pg recs j (ok v) = (ok (record { recs = recs ++ v; cleanups = pg ∷ [] }), j)
with_validator pg recs j (err e) = (err e, j)
with_validator pg recs j (panic m) = (panic m, j)

-- What is built before the API validator, in order.
abbrev pub components :
    Services → Config → SiteConfig → Bool → Postgres → List Component → List Component
components svc cfg s dry_run pg storage =
    postgres pg
    ∷ (git_components cfg s dry_run
        ++ (storage
            ++ (registry_components svc cfg s dry_run
                ++ consistency (new_consistency svc cfg s pg) ∷ [])))

abbrev pub with_storage :
    Services
    → Config
    → SiteConfig
    → Bool
    → Postgres
    → Journal
    → Result (List Component)
    → Result Built × Journal
with_storage svc cfg s dry_run pg j (ok storage) =
    with_validator pg (components svc cfg s dry_run pg storage) j (validator_components svc cfg)
with_storage svc cfg s dry_run pg j (err e) = (err e, clean_up (pg ∷ []) j)
with_storage svc cfg s dry_run pg j (panic m) = (panic m, j)

abbrev pub with_secondaries :
    Services → Config → Bool → Postgres → Journal → List SiteConfig → Result Built × Journal
with_secondaries svc cfg dry_run pg j [] =
    (ok (record { recs = postgres pg ∷ []; cleanups = pg ∷ [] }), j)
with_secondaries svc cfg dry_run pg j (s ∷ ss) =
    with_storage svc cfg s dry_run pg j (storage_components svc cfg s dry_run)

abbrev pub with_postgres :
    Services → Config → Bool → Result Postgres × Journal → Result Built × Journal
with_postgres svc cfg dry_run (ok pg, j) = with_secondaries svc cfg dry_run pg j cfg.secondaries
with_postgres svc cfg dry_run (err e, j) = (err (errorf "postgres reconciler: %w" (cause e end)), j)
with_postgres svc cfg dry_run (panic m, j) = (panic m, j)

unfoldable pub build_reconcilers : Services → Config → Bool → Journal → Result Built × Journal
build_reconcilers svc cfg dry_run j =
    with_postgres svc cfg dry_run (Postgres.new svc.pool_factory cfg j)

-- The first git fetch reconciler, if there is one.
unfoldable pub find_fetcher : List Component → Option GitFetch
find_fetcher [] = none
find_fetcher (git_fetch r ∷ cs) = some r
find_fetcher (c ∷ cs) = find_fetcher cs

-- The trigger that the manager wraps; `join` is filepath.Join and `failure` the error of a command.
module _ (join : String → String → String) (failure : Call → Option Error) where
  abbrev pub trigger : Option GitFetch → String → String → Result (Unit {0})
  trigger none path event = ok tt
  trigger (some fetcher) path event = GitFetch.fetch_project join failure fetcher path

abbrev pub server_of : Option WebhookConfig → Result Server
server_of none = panic "nil pointer dereference"
server_of (some w) = new_server w.addr w.secret_token

-- The manager whose `Trigger` the server calls, and the fetcher of the trigger that it wraps.
pub record Debounced : Type 0 where
  pub fetcher : Option GitFetch
  pub manager : TriggerManager

abbrev pub debounced : List Component → Debounced
debounced recs = record { fetcher = find_fetcher recs; manager = new_trigger_manager }

unfoldable pub build_webhook_server : Config → List Component → Result Server × Debounced
build_webhook_server cfg recs = (server_of cfg.webhook, debounced recs)
