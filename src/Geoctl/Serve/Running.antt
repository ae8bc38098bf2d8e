-- ===== src/Geoctl/Serve/Running.antt =====
-- What holds once the command serve runs, and once it has failed.
use gitlab_geo_sync.Prelude.{
  String, ◌≡◌, refl, ◌∙◌, Bool, true, false, ◌&&◌, Option, none, some, List, [], ◌++◌,
  if◌then◌else◌, ◌==◌,
}
use gitlab_geo_sync.Go.Fmt.{Error, Result, ok, err, panic}
use gitlab_geo_sync.Go.Exec.{Env, Event, pure, continue, ◌>>=◌}
use gitlab_geo_sync.Config.{Config, WebhookConfig}
use gitlab_geo_sync.Go.Exec.Calm.{IsCalm, if-Calm}
use gitlab_geo_sync.Go.Exec.Records.{Recorded, if-Records}
use gitlab_geo_sync.Failover
use gitlab_geo_sync.Webhook.{Server, new_server}
use gitlab_geo_sync.Reconciler.Postgres.{Journal, start}
use gitlab_geo_sync.Reconciler.Postgres.Pools.{open_pools}
use gitlab_geo_sync.Geoctl.Build.{
  Component, Services, Built, clean_up, build_reconcilers, build_webhook_server, server_of,
  Debounced, debounced, is_some,
}
use gitlab_geo_sync.Geoctl.Build.Cleanup.{Tidy, ClientReturns, build_reconcilers-Tidy}
use gitlab_geo_sync.Geoctl.Serve.{
  enable_all, Started, start_services, ended, with_built, serve, webhook_of, server_started,
  failover_of, is_set,
}
use gitlab_geo_sync.Geoctl.Serve.Calls.{
  read_only_calls, unless_dry, done-Records, enable_all-Records, enable_all-Calm,
}

-- What the part for the webhook server comes to.
abbrev Attached :
    Option WebhookConfig → List Event → Result (Option (Server × Debounced)) × List Event → Type 0
Attached o h (ok w, h') = (h' ≡ h) × (is_some w ≡ is_some o)
Attached o h (err e, h') = Unit
Attached o h (panic m, h') = ⊥

new_server-IsCalm : (addr secret : String) → IsCalm (new_server addr secret)
unfolding new_server
new_server-IsCalm addr secret = answer (secret == "") _ _
  where
    answer : (b : Bool) (e : Error) (s : Server) → IsCalm {0} (if b then err e else ok s)
    answer true e s = tt
    answer false e s = tt

started-Attached :
    (w : WebhookConfig) (fetcher : Debounced) (r : Result Server) (h : List Event)
    → IsCalm r
    → Attached (some w) h (server_started fetcher r h)
started-Attached w fetcher (ok s) h c = (refl, refl)
started-Attached w fetcher (err e) h c = tt
started-Attached w fetcher (panic m) h c = absurd c

webhook-Attached :
    (o : Option WebhookConfig) (fetcher : Debounced) (h : List Event)
    → Attached o h (webhook_of o (server_of o, fetcher) h)
webhook-Attached none fetcher h = (refl, refl)
webhook-Attached (some w) fetcher h =
    started-Attached w fetcher (new_server w.addr w.secret_token) h
      (new_server-IsCalm w.addr w.secret_token)

-- What runs is what the configuration asks for, and if it asks for read-only secondaries, the commands
-- for that were run on each of them before, but not in a dry run.
pub record Runs (cfg : Config) (dry : Bool) (h h' : List Event) (st : Started) : Type 0 where
  pub calls :
      h'
      ≡ h
        ++ (if cfg.sync.read_only_secondary
            then unless_dry dry (read_only_calls cfg.secondaries)
            else [])
  pub webhook : is_some st.webhook ≡ is_some cfg.webhook
  pub failover : is_some st.failover ≡ (cfg.sync.failover_enabled && is_set cfg.failover)

abbrev Begun : Config → Bool → List Event → Result Started × List Event → Type 0
Begun cfg dry h (ok st, h') = Runs cfg dry h h' st
Begun cfg dry h (err e, h') = Unit
Begun cfg dry h (panic m, h') = ⊥

failover-set :
    (cfg : Config) (dry b : Bool) → is_some (if b then some (Failover.new cfg dry) else none) ≡ b
failover-set cfg dry true = refl
failover-set cfg dry false = refl

Attached-Begun :
    (cfg : Config) (dry : Bool) (recs : List Component) (h h' : List Event)
    (r : Result (Option (Server × Debounced)) × List Event)
    → h'
      ≡ h
        ++ (if cfg.sync.read_only_secondary
            then unless_dry dry (read_only_calls cfg.secondaries)
            else [])
    → Attached cfg.webhook h' r
    → Begun cfg dry h (
        continue r.0
          (λ w. pure (record { recs = recs; webhook = w; failover = failover_of cfg dry }))
          r.1)
Attached-Begun cfg dry recs h h' (ok w, k) e a = record {
  calls = a.0 ∙ e;
  webhook = a.1;
  failover = failover-set cfg dry (cfg.sync.failover_enabled && is_set cfg.failover);
}
Attached-Begun cfg dry recs h h' (err x, k) e a = tt
Attached-Begun cfg dry recs h h' (panic x, k) e a = a

enabled-Begun :
    (cfg : Config) (dry : Bool) (recs : List Component) (h : List Event)
    (r : Result (Unit {0}) × List Event)
    → IsCalm r.0
    → Recorded h
        (if cfg.sync.read_only_secondary
          then unless_dry dry (read_only_calls cfg.secondaries)
          else [])
        r
    → Begun cfg dry h (
        continue r.0
          (λ _. webhook_of cfg.webhook (build_webhook_server cfg recs) >>= λ w.
            pure (record { recs = recs; webhook = w; failover = failover_of cfg dry }))
          r.1)
unfolding build_webhook_server
enabled-Begun cfg dry recs h (ok u, h') c e =
    Attached-Begun cfg dry recs h h' (webhook_of cfg.webhook (build_webhook_server cfg recs) h') e
      (webhook-Attached cfg.webhook (debounced recs) h')
enabled-Begun cfg dry recs h (err x, h') c e = tt
enabled-Begun cfg dry recs h (panic x, h') c e = c

start_services-Begun :
    (env : Env) (cfg : Config) (dry : Bool) (recs : List Component) (h : List Event)
    → Begun cfg dry h (start_services env cfg dry recs h)
unfolding start_services
start_services-Begun env cfg dry recs h =
    enabled-Begun cfg dry recs h
      ((if cfg.sync.read_only_secondary then enable_all env dry cfg.secondaries else pure tt) h)
      (if-Calm cfg.sync.read_only_secondary (enable_all env dry cfg.secondaries) (pure tt)
        (enable_all-Calm env dry cfg.secondaries) (λ k. tt) h)
      (if-Records cfg.sync.read_only_secondary (unless_dry dry (read_only_calls cfg.secondaries))
        (enable_all env dry cfg.secondaries) (pure tt) (enable_all-Records env dry cfg.secondaries)
        done-Records h)

-- The command runs as asked, or it ended with an error and has closed its pools.
abbrev pub Serves : Config → Bool → List Event → (Result Started × Journal) × List Event → Type 0
Serves cfg dry h ((ok st, j), h') = Runs cfg dry h h' st
Serves cfg dry h ((err e, j), h') = open_pools j ≡ some []
Serves cfg dry h ((panic m, j), h') = ⊥

ended-Serves :
    (cfg : Config) (dry : Bool) (h : List Event) (b : Built) (j : Journal)
    (r : Result Started × List Event)
    → open_pools (clean_up b.cleanups j) ≡ some []
    → Begun cfg dry h r
    → Serves cfg dry h (ended b j r)
ended-Serves cfg dry h b j (ok st, h') e g = g
ended-Serves cfg dry h b j (err x, h') e g = e
ended-Serves cfg dry h b j (panic x, h') e g = g

built-Serves :
    (env : Env) (cfg : Config) (dry : Bool) (h : List Event) (r : Result Built × Journal)
    → Tidy r
    → Serves cfg dry h (with_built env cfg dry r h)
built-Serves env cfg dry h (ok b, j) t =
    ended-Serves cfg dry h b j (start_services env cfg dry b.recs h) t
      (start_services-Begun env cfg dry b.recs h)
built-Serves env cfg dry h (err e, j) t = t
built-Serves env cfg dry h (panic m, j) t = t

-- Where building an S3 client does not panic, `serve` comes to run or ends with an error, and does not
-- panic. When it runs, the webhook server runs exactly if the configuration has its section, the
-- failover controller exactly if failover is enabled and has its section, and the calls made are those
-- of read-only mode on every secondary in turn if that is asked for and the run is not dry, and none
-- otherwise. When it ends with an error, no pool that it opened is open.
pub serve-Serves :
    (env : Env) (svc : Services) (cfg : Config) (dry : Bool) (h : List Event)
    → ClientReturns svc
    → Serves cfg dry h (serve env svc cfg dry start h)
unfolding serve
serve-Serves env svc cfg dry h f =
    built-Serves env cfg dry h (build_reconcilers svc cfg dry start)
      (build_reconcilers-Tidy svc cfg dry f)
