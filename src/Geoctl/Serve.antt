-- ===== src/Geoctl/Serve.antt =====
-- cmd/geoctl: what the command serve has started when it begins to wait, or the error it ends with.
-- The goroutines it starts are the modules of their components; the metrics server is left out.
pub mod Calls
pub mod Running
use gitlab_geo_sync.Prelude.{
  String, Bool, true, false, ◌&&◌, Option, none, some, List, [], ◌∷◌, if◌then◌else◌,
}
use gitlab_geo_sync.Go.Fmt.{Error, errorf, end, str, cause, Result, ok, err, panic}
use gitlab_geo_sync.Go.Exec.{Exec, Env, Event, pure, fail, panics, attempt, ◌>>=◌, ◌>>◌}
use gitlab_geo_sync.Config.{Config, SiteConfig, WebhookConfig, FailoverConfig}
use gitlab_geo_sync.ReadOnly
use gitlab_geo_sync.Failover
use gitlab_geo_sync.Failover.{Controller}
use gitlab_geo_sync.Webhook.{Server}
use gitlab_geo_sync.Reconciler.Postgres.{Journal}
use gitlab_geo_sync.Geoctl.Build.{
  Component, Services, Built, clean_up, build_reconcilers, build_webhook_server, Debounced,
}

abbrev pub enabled_on : String → Result (Unit {0}) → Exec (Unit {0})
enabled_on name (ok u) = pure u
enabled_on name (err e) = fail (errorf "enable readonly on %s: %w" (str name (cause e end)))
enabled_on name (panic m) = panics m

-- The loop over the secondaries.
unfoldable pub enable_all : Env → Bool → List SiteConfig → Exec (Unit {0})
enable_all env dry_run [] = pure tt
enable_all env dry_run (s ∷ ss) =
    let rest = enable_all env dry_run ss in
    do r ← attempt (ReadOnly.enable env s.ssh_host dry_run); enabled_on s.name r; rest

-- What runs: the reconcilers of the runner, with its interval in the configuration, the webhook server
-- with its trigger manager, and the failover controller.
pub record Started : Type 0 where
  pub recs : List Component
  pub webhook : Option (Server × Debounced)
  pub failover : Option Controller

abbrev pub server_started : Debounced → Result Server → Exec (Option (Server × Debounced))
server_started fetcher (ok s) = pure (some (s, fetcher))
server_started fetcher (err e) = fail (errorf "webhook server: %w" (cause e end))
server_started fetcher (panic m) = panics m

abbrev pub webhook_of :
    Option WebhookConfig → Result Server × Debounced → Exec (Option (Server × Debounced))
webhook_of none made = pure none
webhook_of (some w) (server, fetcher) = server_started fetcher server

-- `cfg.Failover != nil`
abbrev pub is_set : Option FailoverConfig → Bool
is_set none = false
is_set (some f) = true

abbrev pub failover_of : Config → Bool → Option Controller
failover_of cfg dry_run =
    if cfg.sync.failover_enabled && is_set cfg.failover
    then some (Failover.new cfg dry_run)
    else none

-- The command once the reconcilers are built.
unfoldable pub start_services : Env → Config → Bool → List Component → Exec Started
start_services env cfg dry_run recs = do
  if cfg.sync.read_only_secondary then enable_all env dry_run cfg.secondaries else pure tt
  w ← webhook_of cfg.webhook (build_webhook_server cfg recs)
  pure (record { recs = recs; webhook = w; failover = failover_of cfg dry_run })

-- The deferred cleanup runs when the command ends, here with an error.
abbrev pub ended :
    Built → Journal → Result Started × List Event → (Result Started × Journal) × List Event
ended b j (ok st, h) = ((ok st, j), h)
ended b j (err e, h) = ((err e, clean_up b.cleanups j), h)
ended b j (panic m, h) = ((panic m, clean_up b.cleanups j), h)

abbrev pub with_built :
    Env
    → Config
    → Bool
    → Result Built × Journal
    → List Event
    → (Result Started × Journal) × List Event
with_built env cfg dry_run (ok b, j) h = ended b j (start_services env cfg dry_run b.recs h)
with_built env cfg dry_run (err e, j) h =
    ((err (errorf "build reconcilers: %w" (cause e end)), j), h)
with_built env cfg dry_run (panic m, j) h = ((panic m, j), h)

unfoldable pub serve :
    Env → Services → Config → Bool → Journal → List Event → (Result Started × Journal) × List Event
serve env svc cfg dry_run j h = with_built env cfg dry_run (build_reconcilers svc cfg dry_run j) h
