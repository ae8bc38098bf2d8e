-- ===== src/Geoctl/Build/Cleanup.antt =====
-- The pools after the reconcilers were built, or could not be.
use mathlib.Core.Path.{subst}
use gitlab_geo_sync.Prelude.{
  String, ◌≡◌, refl, sym, Bool, true, false, Option, none, some, List, [], ◌∷◌, if◌then◌else◌, ◌==◌,
}
use gitlab_geo_sync.Go.Exec.Calm.{IsCalm}
use gitlab_geo_sync.Go.Fmt.{Result, ok, err, panic}
use gitlab_geo_sync.Config.{Config, SiteConfig, S3Config, ApiValidatorConfig}
use gitlab_geo_sync.Reconciler.ObjectStorage
use gitlab_geo_sync.Reconciler.ObjectStorage.{ObjectStorage, Lister}
use gitlab_geo_sync.Reconciler.ApiValidator
use gitlab_geo_sync.Reconciler.ApiValidator.{ApiValidator}
use gitlab_geo_sync.Reconciler.Postgres
use gitlab_geo_sync.Reconciler.Postgres.{Postgres, Journal, start, close_pools}
use gitlab_geo_sync.Reconciler.Postgres.Pools.{
  open_pools, pools_of, Settled, new-Settled, close_pools-open_pools,
}
use gitlab_geo_sync.Geoctl.Build.{
  Component, components, Services, Built, clean_up, s3_component, storage_components, is_enabled,
  validator_component, validator_components, with_validator, with_storage, with_secondaries,
  with_postgres, build_reconcilers,
}

abbrev pub IsOk {ℓ} : {A : Type ℓ} → Result A → Type 0
IsOk (ok a) = Unit
IsOk (err e) = ⊥
IsOk (panic m) = ⊥

-- No pool is left open by a failure, nor after the cleanup of a success; and it returns.
abbrev pub Tidy : Result Built × Journal → Type 0
Tidy (ok b, j) = open_pools (clean_up b.cleanups j) ≡ some []
Tidy (err e, j) = open_pools j ≡ some []
Tidy (panic m, j) = ⊥

abbrev pub ClientReturns : Services → Type 0
ClientReturns svc = (c : S3Config) (bucket : String) → IsCalm (svc.s3_client c bucket)

replica-IsCalm :
    (primary : S3Config) (p : Lister) (r : Result Lister)
    → IsCalm r
    → IsCalm (ObjectStorage.with_replica primary p r)
replica-IsCalm primary p (ok x) h = tt
replica-IsCalm primary p (err e) h = tt
replica-IsCalm primary p (panic _) h = elim h [ ]

clients-IsCalm :
    (client : ObjectStorage.Client) (primary rep : S3Config) (r : Result Lister)
    → ((c : S3Config) (bucket : String) → IsCalm (client c bucket))
    → IsCalm r
    → IsCalm (ObjectStorage.with_primary client primary rep r)
clients-IsCalm client primary rep (ok p) f h =
    replica-IsCalm primary p (client rep rep.replica_bucket) (f rep rep.replica_bucket)
clients-IsCalm client primary rep (err e) f h = tt
clients-IsCalm client primary rep (panic _) f h = elim h [ ]

s3-IsCalm :
    (client : ObjectStorage.Client) (p s : Option S3Config)
    → ((c : S3Config) (bucket : String) → IsCalm (client c bucket))
    → IsCalm (ObjectStorage.new client p s)
unfolding ObjectStorage.new
s3-IsCalm client none s f = tt
s3-IsCalm client (some p) s f =
    clients-IsCalm client p (ObjectStorage.or_primary s p) (client p p.primary_bucket) f
      (f p p.primary_bucket)

s3_component-IsCalm : (r : Result ObjectStorage) → IsCalm r → IsCalm (s3_component r)
s3_component-IsCalm (ok r) h = tt
s3_component-IsCalm (err e) h = tt
s3_component-IsCalm (panic _) h = elim h [ ]

backend-IsCalm :
    (a b : Bool) (r : Result (List Component)) (c d : List Component)
    → IsCalm r
    → IsCalm (if a then r else (if b then ok c else ok d))
backend-IsCalm true b r c d h = h
backend-IsCalm false true r c d h = tt
backend-IsCalm false false r c d h = tt

storage-IsCalm :
    (svc : Services) (cfg : Config) (s : SiteConfig) (dry_run : Bool)
    → ClientReturns svc
    → IsCalm (storage_components svc cfg s dry_run)
unfolding storage_components
storage-IsCalm svc cfg s dry_run f =
    backend-IsCalm (cfg.primary.object_store.backend == "s3")
      (cfg.primary.object_store.backend == "fs")
      (s3_component (ObjectStorage.new svc.s3_client cfg.primary.object_store.s3 s.object_store.s3))
      _ _
      (s3_component-IsCalm _
        (s3-IsCalm svc.s3_client cfg.primary.object_store.s3 s.object_store.s3 f))

-- Where there is a secondary, the validator is built whenever it is enabled.
enabled-IsOk :
    (b : Bool) (svc : Services) (cfg : Config) (v : ApiValidatorConfig) (s : SiteConfig)
    (ss : List SiteConfig)
    → IsOk (
        if b
        then validator_component (ApiValidator.with_secondary_url cfg svc.api_client v (s ∷ ss))
        else ok [])
enabled-IsOk true svc cfg v s ss = tt
enabled-IsOk false svc cfg v s ss = tt

option-IsOk :
    (svc : Services) (cfg : Config) (s : SiteConfig) (ss : List SiteConfig)
    (o : Option ApiValidatorConfig)
    → cfg.secondaries ≡ s ∷ ss
    → IsOk (
        if is_enabled o
        then validator_component (ApiValidator.with_tokens cfg svc.api_client o)
        else ok [])
option-IsOk svc cfg s ss none e = tt
option-IsOk svc cfg s ss (some v) e =
    subst
      (λ l. IsOk (
        if v.enabled
        then validator_component (ApiValidator.with_secondary_url cfg svc.api_client v l)
        else ok []))
      (sym e) (enabled-IsOk v.enabled svc cfg v s ss)

pub validator-IsOk :
    (svc : Services) (cfg : Config) (s : SiteConfig) (ss : List SiteConfig)
    → cfg.secondaries ≡ s ∷ ss
    → IsOk (validator_components svc cfg)
unfolding validator_components ApiValidator.new
validator-IsOk svc cfg s ss e = option-IsOk svc cfg s ss cfg.api_validator e

-- The rest of the function, on a connected reconciler.
abbrev pub Connected : Postgres → Journal → Type 0
Connected pg j = open_pools j ≡ some (pg.primary ∷ pools_of pg.secondaries)

clean_up-one :
    (pg : Postgres) (j : Journal) → Connected pg j → open_pools (clean_up (pg ∷ []) j) ≡ some []
unfolding clean_up
clean_up-one pg j h = close_pools-open_pools pg j h

with_validator-Tidy :
    (pg : Postgres) (recs : List Component) (j : Journal) (r : Result (List Component))
    → Connected pg j
    → IsOk r
    → Tidy (with_validator pg recs j r)
with_validator-Tidy pg recs j (ok v) h f = clean_up-one pg j h
with_validator-Tidy pg recs j (err _) h f = elim f [ ]
with_validator-Tidy pg recs j (panic _) h f = elim f [ ]

with_storage-Tidy :
    (svc : Services) (cfg : Config) (s : SiteConfig) (ss : List SiteConfig) (dry_run : Bool)
    (pg : Postgres) (j : Journal) (r : Result (List Component))
    → cfg.secondaries ≡ s ∷ ss
    → Connected pg j
    → IsCalm r
    → Tidy (with_storage svc cfg s dry_run pg j r)
with_storage-Tidy svc cfg s ss dry_run pg j (ok storage) e h f =
    with_validator-Tidy pg (components svc cfg s dry_run pg storage) j
      (validator_components svc cfg) h (validator-IsOk svc cfg s ss e)
with_storage-Tidy svc cfg s ss dry_run pg j (err x) e h f = clean_up-one pg j h
with_storage-Tidy svc cfg s ss dry_run pg j (panic _) e h f = elim f [ ]

with_secondaries-Tidy :
    (svc : Services) (cfg : Config) (dry_run : Bool) (pg : Postgres) (j : Journal)
    (sites : List SiteConfig)
    → ClientReturns svc
    → cfg.secondaries ≡ sites
    → Connected pg j
    → Tidy (with_secondaries svc cfg dry_run pg j sites)
with_secondaries-Tidy svc cfg dry_run pg j [] f e h = clean_up-one pg j h
with_secondaries-Tidy svc cfg dry_run pg j (s ∷ ss) f e h =
    with_storage-Tidy svc cfg s ss dry_run pg j (storage_components svc cfg s dry_run) e h
      (storage-IsCalm svc cfg s dry_run f)

with_postgres-Tidy :
    (svc : Services) (cfg : Config) (dry_run : Bool) (r : Result Postgres × Journal)
    → ClientReturns svc
    → Settled r
    → Tidy (with_postgres svc cfg dry_run r)
with_postgres-Tidy svc cfg dry_run (ok pg, j) f h =
    with_secondaries-Tidy svc cfg dry_run pg j cfg.secondaries f refl h.0
with_postgres-Tidy svc cfg dry_run (err e, j) f h = h
with_postgres-Tidy svc cfg dry_run (panic _, j) f h = elim h [ ]

-- Where building an S3 client does not panic, `buildReconcilers` returns, for every configuration:
-- after an error none of the pools that it opened is open, and after a success none is once the
-- cleanup that it hands over has run; each is closed once.
pub build_reconcilers-Tidy :
    (svc : Services) (cfg : Config) (dry_run : Bool)
    → ClientReturns svc
    → Tidy (build_reconcilers svc cfg dry_run start)
unfolding build_reconcilers
build_reconcilers-Tidy svc cfg dry_run f =
    with_postgres-Tidy svc cfg dry_run (Postgres.new svc.pool_factory cfg start) f
      (new-Settled svc.pool_factory cfg)
