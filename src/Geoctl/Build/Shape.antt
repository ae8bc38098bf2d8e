-- ===== src/Geoctl/Build/Shape.antt =====
-- Which reconcilers are built, in which order.
use mathlib.Core.Path.{subst}
use gitlab_geo_sync.Prelude.{
  ℕ, String, ◌≡◌, refl, ap, sym, ◌∙◌, Bool, true, List, [], ◌∷◌, ◌++◌, ◌==◌,
}
use gitlab_geo_sync.Go.Fmt.{Result, ok, err, panic}
use gitlab_geo_sync.Config.Dsn.{dsn}
use gitlab_geo_sync.Config.{Config, SiteConfig}
use gitlab_geo_sync.Reconciler.Postgres
use gitlab_geo_sync.Reconciler.Postgres.{
  Postgres, Journal, start, connected, open_next, connect_secondaries, SecondaryConn, PoolFactory,
}
use gitlab_geo_sync.Geoctl.Build.{
  Component, component_name, components, Services, Built, storage_components, is_enabled, is_some,
  validator_components, with_validator, with_storage, with_secondaries, with_postgres,
  build_reconcilers, git_components, registry_components, consistency, new_consistency,
}
use gitlab_geo_sync.Geoctl.Build.Names.{
  names, turned_on, asked_for, names-append, Lists, git_names, Answers, storage-Lists,
  registry_names, turned_on-append, validator-Lists,
}

-- Built, and of these names.
abbrev pub Builds : List String → Result Built × Journal → Type 0
Builds ns (ok b, j) = names b.recs ≡ ns
Builds ns (err e, j) = ⊥
Builds ns (panic m, j) = ⊥

with_validator-Builds :
    (pg : Postgres) (recs : List Component) (j : Journal) (r : Result (List Component))
    (m n : List String)
    → names recs ≡ m
    → Lists n r
    → Builds (m ++ n) (with_validator pg recs j r)
with_validator-Builds pg recs j (ok v) m n e h =
    names-append recs v ∙ ap (λ x. x ++ names v) e ∙ ap (λ x. m ++ x) h
with_validator-Builds pg recs j (err _) m n e h = elim h [ ]
with_validator-Builds pg recs j (panic _) m n e h = elim h [ ]

abbrev git_part : Config → List (Bool × String)
git_part cfg =
    (cfg.primary.git.mode == "rsync", "git_rsync")
    ∷ (cfg.primary.git.mode == "fetch", "git_fetch")
    ∷ []

abbrev storage_part : Config → List (Bool × String)
storage_part cfg =
    (cfg.primary.object_store.backend == "s3", "object_storage")
    ∷ (cfg.primary.object_store.backend == "fs", "fs_storage")
    ∷ []

abbrev registry_part : Config → List (Bool × String)
registry_part cfg = (is_some cfg.primary.registry, "registry") ∷ []

abbrev validator_part : Config → List (Bool × String)
validator_part cfg = (is_enabled cfg.api_validator, "api_validator") ∷ []

-- What is asked for before the API validator.
abbrev first_part : Config → List (Bool × String)
first_part cfg =
    (true, "postgres")
    ∷ (git_part cfg
        ++ (storage_part cfg ++ (registry_part cfg ++ (true, "consistency_sweep") ∷ [])))

asked_for-parts :
    (cfg : Config)
    → turned_on (first_part cfg) ++ turned_on (validator_part cfg) ≡ turned_on (asked_for cfg)
unfolding asked_for
asked_for-parts cfg = sym (turned_on-append (first_part cfg) (validator_part cfg))

turned_on-parts :
    (a b c d : List (Bool × String))
    → turned_on (a ++ (b ++ (c ++ d)))
      ≡ turned_on a ++ (turned_on b ++ (turned_on c ++ turned_on d))
turned_on-parts a b c d =
    rw (turned_on-append a (b ++ (c ++ d)), turned_on-append b (c ++ d), turned_on-append c d) refl

names-parts :
    (a b c d : List Component)
    → names (a ++ (b ++ (c ++ d))) ≡ names a ++ (names b ++ (names c ++ names d))
names-parts a b c d =
    rw (names-append a (b ++ (c ++ d)), names-append b (c ++ d), names-append c d) refl

-- Components with the names that four parts of a table turn on.
parts-named :
    (a b c d : List Component) (t u v w : List (Bool × String))
    → names a ≡ turned_on t
    → names b ≡ turned_on u
    → names c ≡ turned_on v
    → names d ≡ turned_on w
    → names (a ++ (b ++ (c ++ d))) ≡ turned_on (t ++ (u ++ (v ++ w)))
parts-named a b c d t u v w ea eb ec ed =
    rw (names-parts a b c d, turned_on-parts t u v w, ea, eb, ec, ed) refl

components-names :
    (svc : Services) (cfg : Config) (s : SiteConfig) (dry_run : Bool) (pg : Postgres)
    (storage : List Component)
    → names storage ≡ turned_on (storage_part cfg)
    → names (components svc cfg s dry_run pg storage) ≡ turned_on (first_part cfg)
unfolding component_name registry_components turned_on
components-names svc cfg s dry_run pg storage e = ap (◌∷◌ "postgres") (
    parts-named (git_components cfg s dry_run) storage (registry_components svc cfg s dry_run)
      (consistency (new_consistency svc cfg s pg) ∷ []) (git_part cfg) (storage_part cfg)
      (registry_part cfg) ((true, "consistency_sweep") ∷ []) (git_names cfg s dry_run) e
      (registry_names (is_some cfg.primary.registry) _ refl) refl)

with_storage-Builds :
    (svc : Services) (cfg : Config) (s : SiteConfig) (ss : List SiteConfig) (dry_run : Bool)
    (pg : Postgres) (j : Journal) (r : Result (List Component))
    → cfg.secondaries ≡ s ∷ ss
    → Lists (turned_on (storage_part cfg)) r
    → Builds (turned_on (asked_for cfg)) (with_storage svc cfg s dry_run pg j r)
with_storage-Builds svc cfg s ss dry_run pg j (ok storage) e h =
    subst (λ ns. Builds ns (with_storage svc cfg s dry_run pg j (ok storage))) (asked_for-parts cfg)
      (with_validator-Builds pg (components svc cfg s dry_run pg storage) j
        (validator_components svc cfg) _ _ (components-names svc cfg s dry_run pg storage h)
        (validator-Lists svc cfg s ss e))
with_storage-Builds svc cfg s ss dry_run pg j (err _) e h = elim h [ ]
with_storage-Builds svc cfg s ss dry_run pg j (panic _) e h = elim h [ ]

abbrev pub Connects : Result Postgres × Journal → Type 0
Connects (ok pg, j) = Unit
Connects (err e, j) = ⊥
Connects (panic m, j) = ⊥

connect-Connects :
    (svc : Services) (p : ℕ) (scs : List SiteConfig) (conns : List SecondaryConn) (j : Journal)
    → Answers svc
    → Connects (connect_secondaries svc.pool_factory p scs conns j)
unfolding connect_secondaries
connect-Connects svc p [] conns j f = tt
connect-Connects svc p (sc ∷ scs) conns j f =
    subst
      (λ o.
        Connects
          (connected svc.pool_factory (connect_secondaries svc.pool_factory p scs) p conns sc j o))
      (sym (f.pools j (dsn sc.postgres)))
      (connect-Connects svc p scs (conns ++ record { name = sc.name; pool = j.next } ∷ [])
        (open_next j) f)

new-Connects :
    (svc : Services) (cfg : Config)
    → Answers svc
    → Connects (Postgres.new svc.pool_factory cfg start)
unfolding Postgres.new
new-Connects svc cfg f =
    subst (λ o. Connects (Postgres.with_primary svc.pool_factory cfg.secondaries start o))
      (sym (f.pools start (dsn cfg.primary.postgres)))
      (connect-Connects svc 0 cfg.secondaries [] (open_next start) f)

with_postgres-Builds :
    (svc : Services) (cfg : Config) (dry_run : Bool) (s : SiteConfig) (ss sites : List SiteConfig)
    (pg : Postgres) (j : Journal)
    → Answers svc
    → cfg.secondaries ≡ s ∷ ss
    → sites ≡ s ∷ ss
    → (cfg.primary.object_store.backend ≡ "s3" → is_some cfg.primary.object_store.s3 ≡ true)
    → Builds (turned_on (asked_for cfg)) (with_secondaries svc cfg dry_run pg j sites)
with_postgres-Builds svc cfg dry_run s ss sites pg j f e e' h =
    subst (λ l. Builds (turned_on (asked_for cfg)) (with_secondaries svc cfg dry_run pg j l))
      (sym e')
      (with_storage-Builds svc cfg s ss dry_run pg j (storage_components svc cfg s dry_run) e
        (storage-Lists svc cfg s dry_run f h))

-- The reconcilers that `buildReconcilers` hands over are exactly those that the configuration asks
-- for, each once and in a fixed order, and it does hand them over: where the configuration has a
-- secondary, and an S3 section if the backend is s3, and where the databases and buckets can be
-- connected to.
pub build_reconcilers-Builds :
    (svc : Services) (cfg : Config) (dry_run : Bool) (s : SiteConfig) (ss : List SiteConfig)
    → Answers svc
    → cfg.secondaries ≡ s ∷ ss
    → (cfg.primary.object_store.backend ≡ "s3" → is_some cfg.primary.object_store.s3 ≡ true)
    → Builds (turned_on (asked_for cfg)) (build_reconcilers svc cfg dry_run start)
unfolding build_reconcilers
build_reconcilers-Builds svc cfg dry_run s ss f e h =
    answer (Postgres.new svc.pool_factory cfg start) (new-Connects svc cfg f)
  where
    answer :
        (r : Result Postgres × Journal)
        → Connects r
        → Builds (turned_on (asked_for cfg)) (with_postgres svc cfg dry_run r)
    answer (ok pg, j) c = with_postgres-Builds svc cfg dry_run s ss cfg.secondaries pg j f e e h
    answer (err _, j) c = elim c [ ]
    answer (panic _, j) c = elim c [ ]
