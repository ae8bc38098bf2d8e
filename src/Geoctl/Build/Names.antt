-- ===== src/Geoctl/Build/Names.antt =====
-- The names of the reconcilers that each part of the construction gives.
use mathlib.Core.Path.{subst}
use gitlab_geo_sync.Prelude.{
  eq_iff, String, ◌≡◌, refl, ap, sym, Bool, true, false, Option, none, some, List, [], ◌∷◌, ◌++◌,
  map, if◌then◌else◌, ◌==◌,
}
use gitlab_geo_sync.Go.Fmt.{Result, ok, err, panic}
use gitlab_geo_sync.Config.{Config, SiteConfig, S3Config, ApiValidatorConfig}
use gitlab_geo_sync.Reconciler.ObjectStorage
use gitlab_geo_sync.Reconciler.ObjectStorage.{ObjectStorage, Lister}
use gitlab_geo_sync.Reconciler.ApiValidator
use gitlab_geo_sync.Reconciler.Postgres.{Journal}
use gitlab_geo_sync.Geoctl.Build.Cleanup.{IsOk}
use gitlab_geo_sync.Geoctl.Build.{
  Component, component_name, Services, s3_component, storage_components, is_enabled, is_some,
  validator_component, validator_components, git_components,
}

abbrev pub names : List Component → List String
names cs = map component_name cs

-- The names that a table turns on.
unfoldable pub turned_on : List (Bool × String) → List String
turned_on [] = []
turned_on ((b, n) ∷ t) = let rest = turned_on t in if b then n ∷ rest else rest

-- What the configuration asks for, where it has a secondary.
unfoldable pub asked_for : Config → List (Bool × String)
asked_for cfg =
    (true, "postgres")
    ∷ (cfg.primary.git.mode == "rsync", "git_rsync")
    ∷ (cfg.primary.git.mode == "fetch", "git_fetch")
    ∷ (cfg.primary.object_store.backend == "s3", "object_storage")
    ∷ (cfg.primary.object_store.backend == "fs", "fs_storage")
    ∷ (is_some cfg.primary.registry, "registry")
    ∷ (true, "consistency_sweep")
    ∷ (is_enabled cfg.api_validator, "api_validator")
    ∷ []

pub names-append : (a b : List Component) → names (a ++ b) ≡ names a ++ names b
names-append [] b = refl
names-append (c ∷ a) b = ap (◌∷◌ (component_name c)) (names-append a b)

abbrev pub Lists : List String → Result (List Component) → Type 0
Lists ns (ok cs) = names cs ≡ ns
Lists ns (err e) = ⊥
Lists ns (panic m) = ⊥

-- Two words that a text cannot both be.
apart : (m a b : String) → (a == b) ≡ false → (m == a) ≡ true → (m == b) ≡ false
apart m a b h e = subst (λ x. (x == b) ≡ false) (sym ((eq_iff m a).0 e)) h

switch_names :
    (a b : Bool) (xs ys : List Component) (m n : String)
    → (a ≡ true → b ≡ false)
    → names xs ≡ m ∷ []
    → names ys ≡ n ∷ []
    → names (if a then xs else (if b then ys else [])) ≡ turned_on ((a, m) ∷ (b, n) ∷ [])
unfolding turned_on
switch_names true true xs ys m n h e f = cc (h refl)
switch_names true false xs ys m n h e f = e
switch_names false true xs ys m n h e f = f
switch_names false false xs ys m n h e f = refl

pub git_names :
    (cfg : Config) (s : SiteConfig) (dry_run : Bool)
    → names (git_components cfg s dry_run)
      ≡ turned_on (
          (cfg.primary.git.mode == "rsync", "git_rsync")
          ∷ (cfg.primary.git.mode == "fetch", "git_fetch")
          ∷ [])
unfolding git_components component_name
git_names cfg s dry_run =
    switch_names (cfg.primary.git.mode == "rsync") (cfg.primary.git.mode == "fetch") _ _ "git_rsync"
      "git_fetch" (apart cfg.primary.git.mode "rsync" "fetch" refl) refl refl

switch-Lists :
    (a b : Bool) (r : Result (List Component)) (ys : List Component) (m n : String)
    → (a ≡ true → b ≡ false)
    → (a ≡ true → Lists (m ∷ []) r)
    → names ys ≡ n ∷ []
    → Lists (turned_on ((a, m) ∷ (b, n) ∷ [])) (if a then r else (if b then ok ys else ok []))
unfolding turned_on
switch-Lists true true r ys m n h e f = cc (h refl)
switch-Lists true false r ys m n h e f = e refl
switch-Lists false true r ys m n h e f = f
switch-Lists false false r ys m n h e f = refl

-- The services answer.
pub record Answers (svc : Services) : Type 0 where
  pub pools : (j : Journal) (d : String) → svc.pool_factory j d ≡ none
  pub buckets : (c : S3Config) (bucket : String) → IsOk (svc.s3_client c bucket)

replica-Lists :
    (primary : S3Config) (p : Lister) (r : Result Lister)
    → IsOk r
    → Lists ("object_storage" ∷ []) (s3_component (ObjectStorage.with_replica primary p r))
unfolding component_name
replica-Lists primary p (ok x) h = refl
replica-Lists primary p (err _) h = elim h [ ]
replica-Lists primary p (panic _) h = elim h [ ]

clients-List :
    (svc : Services) (primary rep : S3Config) (r : Result Lister)
    → Answers svc
    → IsOk r
    → Lists
        ("object_storage" ∷ [])
        (s3_component (ObjectStorage.with_primary svc.s3_client primary rep r))
clients-List svc primary rep (ok p) f h =
    replica-Lists primary p (svc.s3_client rep rep.replica_bucket)
      (f.buckets rep rep.replica_bucket)
clients-List svc primary rep (err _) f h = elim h [ ]
clients-List svc primary rep (panic _) f h = elim h [ ]

s3-Lists :
    (svc : Services) (p s : Option S3Config)
    → Answers svc
    → is_some p ≡ true
    → Lists ("object_storage" ∷ []) (s3_component (ObjectStorage.new svc.s3_client p s))
unfolding ObjectStorage.new
s3-Lists svc none s f h = cc
s3-Lists svc (some p) s f h =
    clients-List svc p (ObjectStorage.or_primary s p) (svc.s3_client p p.primary_bucket) f
      (f.buckets p p.primary_bucket)

pub storage-Lists :
    (svc : Services) (cfg : Config) (s : SiteConfig) (dry_run : Bool)
    → Answers svc
    → (cfg.primary.object_store.backend ≡ "s3" → is_some cfg.primary.object_store.s3 ≡ true)
    → Lists
        (turned_on (
          (cfg.primary.object_store.backend == "s3", "object_storage")
          ∷ (cfg.primary.object_store.backend == "fs", "fs_storage")
          ∷ []))
        (storage_components svc cfg s dry_run)
unfolding storage_components component_name
storage-Lists svc cfg s dry_run f h =
    switch-Lists (cfg.primary.object_store.backend == "s3")
      (cfg.primary.object_store.backend == "fs")
      (s3_component (ObjectStorage.new svc.s3_client cfg.primary.object_store.s3 s.object_store.s3))
      _ "object_storage" "fs_storage" (apart cfg.primary.object_store.backend "s3" "fs" refl)
      (λ e.
        s3-Lists svc cfg.primary.object_store.s3 s.object_store.s3 f
          (h ((eq_iff cfg.primary.object_store.backend "s3").0 e)))
      refl

pub registry_names :
    (b : Bool) (cs : List Component)
    → names cs ≡ "registry" ∷ []
    → names (if b then cs else []) ≡ turned_on ((b, "registry") ∷ [])
unfolding turned_on
registry_names true cs h = h
registry_names false cs h = refl

pub turned_on-append :
    (a b : List (Bool × String)) → turned_on (a ++ b) ≡ turned_on a ++ turned_on b
unfolding turned_on
turned_on-append [] b = refl
turned_on-append ((true, n) ∷ a) b = ap (◌∷◌ n) (turned_on-append a b)
turned_on-append ((false, n) ∷ a) b = turned_on-append a b

enabled-Lists :
    (b : Bool) (svc : Services) (cfg : Config) (v : ApiValidatorConfig) (s : SiteConfig)
    (ss : List SiteConfig)
    → Lists (turned_on ((b, "api_validator") ∷ [])) (
        if b
        then validator_component (ApiValidator.with_secondary_url cfg svc.api_client v (s ∷ ss))
        else ok [])
unfolding component_name turned_on
enabled-Lists true svc cfg v s ss = refl
enabled-Lists false svc cfg v s ss = refl

option-Lists :
    (svc : Services) (cfg : Config) (s : SiteConfig) (ss : List SiteConfig)
    (o : Option ApiValidatorConfig)
    → cfg.secondaries ≡ s ∷ ss
    → Lists (turned_on ((is_enabled o, "api_validator") ∷ [])) (
        if is_enabled o
        then validator_component (ApiValidator.with_tokens cfg svc.api_client o)
        else ok [])
unfolding turned_on
option-Lists svc cfg s ss none e = refl
option-Lists svc cfg s ss (some v) e =
    subst
      (λ l. Lists (turned_on ((v.enabled, "api_validator") ∷ [])) (
        if v.enabled
        then validator_component (ApiValidator.with_secondary_url cfg svc.api_client v l)
        else ok []))
      (sym e) (enabled-Lists v.enabled svc cfg v s ss)

pub validator-Lists :
    (svc : Services) (cfg : Config) (s : SiteConfig) (ss : List SiteConfig)
    → cfg.secondaries ≡ s ∷ ss
    → Lists
        (turned_on ((is_enabled cfg.api_validator, "api_validator") ∷ []))
        (validator_components svc cfg)
unfolding validator_components ApiValidator.new
validator-Lists svc cfg s ss e = option-Lists svc cfg s ss cfg.api_validator e
