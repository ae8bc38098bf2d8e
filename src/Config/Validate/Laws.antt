-- ===== src/Config/Validate/Laws.antt =====
-- What an accepted configuration is.
use gitlab_geo_sync.Prelude.{
  eq_false, eq_false_of_ne, ℕ, suc, String, Bool, true, false, ◌&&◌, ◌||◌, not, List, [], ◌∷◌, ◌++◌,
  any, All, ◌≡◌, ◌≢◌, ◌↔◌, ◌⊎◌, inl, inr, refl, arith, ◌==◌, eq_iff,
}
use gitlab_geo_sync.Go.Int64.{ℤ, pos, eqb_ℤ}
use gitlab_geo_sync.Go.Fmt.{Error}
use gitlab_geo_sync.Config.{Config, SiteConfig}
use gitlab_geo_sync.Config.Validate.{
  is_empty, failures, primary_checks, secondary_checks, secondaries_errors, validate,
}

-- The name is not among those met before.
abbrev pub IsFresh : String → List String → Type 0
IsFresh n seen = All (λ m. m ≢ n) seen

pub record SecondaryOk (seen : List String) (s : SiteConfig) : Type 0 where
  pub name : s.name ≢ ""
  pub fresh : IsFresh s.name seen
  pub host : s.postgres.host ≢ ""
  pub replication_password : s.postgres.replication_password ≢ ""

abbrev pub SecondariesOk : List String → List SiteConfig → Type 0
SecondariesOk seen [] = Unit
SecondariesOk seen (s ∷ ss) = SecondaryOk seen s × SecondariesOk (s.name ∷ seen) ss

pub record PrimaryOk (c : Config) : Type 0 where
  pub name : c.primary.name ≢ ""
  pub external_url : c.primary.external_url ≢ ""
  pub host : c.primary.postgres.host ≢ ""
  pub port : c.primary.postgres.port ≢ pos 0
  pub replication_user : c.primary.postgres.replication_user ≢ ""
  pub replication_password : c.primary.postgres.replication_password ≢ ""
  pub mode : (c.primary.git.mode ≡ "rsync") ⊎ (c.primary.git.mode ≡ "fetch")
  pub repos_path : c.primary.git.mode ≡ "rsync" → c.primary.git.repos_path ≢ ""
  pub secondaries : c.secondaries ≢ []

pub failures-nil :
    (checks : List (Bool × Error)) → failures checks ≡ [] → All (λ p. p.0 ≡ false) checks
unfolding failures
failures-nil [] h = tt
failures-nil ((true, e) ∷ checks) h = cc
failures-nil ((false, e) ∷ checks) h = (refl, failures-nil checks h)

pub failures_of_All :
    (checks : List (Bool × Error)) → All (λ p. p.0 ≡ false) checks → failures checks ≡ []
unfolding failures
failures_of_All [] h = refl
failures_of_All ((b, e) ∷ checks) h = rw h.0 (failures_of_All checks h.1)

pub append-eq-nil {ℓ} : {A : Type ℓ} (xs ys : List A) → xs ++ ys ≡ [] → (xs ≡ []) × (ys ≡ [])
append-eq-nil [] ys h = (refl, h)
append-eq-nil (x ∷ xs) ys h = cc

port_clash : (p : ℤ) → eqb_ℤ p (pos 0) ≡ false → p ≢ pos 0
port_clash p h e = ground arith

mode_cases :
    (m : String) → not (m == "rsync" || m == "fetch") ≡ false → (m ≡ "rsync") ⊎ (m ≡ "fetch")
mode_cases m h = ground (arith, eq_iff m "rsync", eq_iff m "fetch")

repos_path_clash : (m p : String) → (m == "rsync" && p == "") ≡ false → m ≡ "rsync" → p ≢ ""
repos_path_clash m p h e = ground (arith, eq_iff m "rsync", eq_iff p "")

port_set : (p : ℤ) → p ≢ pos 0 → eqb_ℤ p (pos 0) ≡ false
port_set p h = ground arith

mode_set : (m : String) → (m ≡ "rsync") ⊎ (m ≡ "fetch") → (m == "") ≡ false
mode_set m (inl e) = rw e
mode_set m (inr e) = rw e

mode_known :
    (m : String) → (m ≡ "rsync") ⊎ (m ≡ "fetch") → not (m == "rsync" || m == "fetch") ≡ false
mode_known m (inl e) = rw e
mode_known m (inr e) = rw e

repos_path_set : (m p : String) → (m ≡ "rsync" → p ≢ "") → (m == "rsync" && p == "") ≡ false
repos_path_set m p h = ground (arith, eq_iff m "rsync", eq_iff p "")

has_secondary : (ss : List SiteConfig) → ss ≢ [] → is_empty ss ≡ false
has_secondary [] h = absurd (h refl)
has_secondary (s ∷ ss) h = refl

PrimaryOk-of_checks : (c : Config) → All (λ p. p.0 ≡ false) (primary_checks c) → PrimaryOk c
unfolding primary_checks
PrimaryOk-of_checks c h = record {
  name = eq_false _ _ h.0;
  external_url = eq_false _ _ h.1.0;
  host = eq_false _ _ h.1.1.0;
  port = λ e. port_clash c.primary.postgres.port h.1.1.1.0 e;
  replication_user = eq_false _ _ h.1.1.1.1.0;
  replication_password = eq_false _ _ h.1.1.1.1.1.0;
  mode = mode_cases c.primary.git.mode h.1.1.1.1.1.1.1.0;
  repos_path = λ m e. repos_path_clash _ _ h.1.1.1.1.1.1.1.1.0 m e;
  secondaries = λ e. cc (e, h.1.1.1.1.1.1.1.1.1.0);
}

checks_of_PrimaryOk : (c : Config) → PrimaryOk c → All (λ p. p.0 ≡ false) (primary_checks c)
unfolding primary_checks
checks_of_PrimaryOk c h = (
  eq_false_of_ne _ _ h.name,
  (
    eq_false_of_ne _ _ h.external_url,
    (
      eq_false_of_ne _ _ h.host,
      (
        port_set _ h.port,
        (
          eq_false_of_ne _ _ h.replication_user,
          (
            eq_false_of_ne _ _ h.replication_password,
            (
              mode_set _ h.mode,
              (
                mode_known _ h.mode,
                (repos_path_set _ _ h.repos_path, (has_secondary _ h.secondaries, tt)),
              ),
            ),
          ),
        ),
      ),
    ),
  ),
)

any-false-IsFresh :
    (n : String) (seen : List String) → any (λ m. m == n) seen ≡ false → IsFresh n seen
any-false-IsFresh n [] h = tt
any-false-IsFresh n (m ∷ seen) h =
    (ground (arith, eq_iff m n), any-false-IsFresh n seen (ground arith))

any-false_of_IsFresh :
    (n : String) (seen : List String) → IsFresh n seen → any (λ m. m == n) seen ≡ false
any-false_of_IsFresh n [] h = refl
any-false_of_IsFresh n (m ∷ seen) h = rw (eq_false_of_ne m n h.0) (any-false_of_IsFresh n seen h.1)

IsFresh-of_check :
    (n : String) (seen : List String)
    → (n == "") ≡ false
    → (not (n == "") && any (λ m. m == n) seen) ≡ false
    → IsFresh n seen
IsFresh-of_check n seen e h = any-false-IsFresh n seen (ground arith)

SecondaryOk-of_checks :
    (i : ℕ) (seen : List String) (s : SiteConfig)
    → All (λ p. p.0 ≡ false) (secondary_checks i seen s)
    → SecondaryOk seen s
unfolding secondary_checks
SecondaryOk-of_checks i seen s h = record {
  name = eq_false _ _ h.0;
  fresh = IsFresh-of_check s.name seen h.0 h.1.0;
  host = eq_false _ _ h.1.1.0;
  replication_password = eq_false _ _ h.1.1.1.0;
}

checks_of_SecondaryOk :
    (i : ℕ) (seen : List String) (s : SiteConfig)
    → SecondaryOk seen s
    → All (λ p. p.0 ≡ false) (secondary_checks i seen s)
unfolding secondary_checks
checks_of_SecondaryOk i seen s h = (
  eq_false_of_ne _ _ h.name,
  (
    rw (eq_false_of_ne _ _ h.name) (any-false_of_IsFresh s.name seen h.fresh),
    (eq_false_of_ne _ _ h.host, (eq_false_of_ne _ _ h.replication_password, tt)),
  ),
)

secondaries_errors-nil :
    (i : ℕ) (seen : List String) (ss : List SiteConfig)
    → secondaries_errors i seen ss ≡ []
    → SecondariesOk seen ss
unfolding secondaries_errors
secondaries_errors-nil i seen [] h = tt
secondaries_errors-nil i seen (s ∷ ss) h =
    let (now, later) = append-eq-nil (failures (secondary_checks i seen s)) _ h in
    (
      SecondaryOk-of_checks i seen s (failures-nil (secondary_checks i seen s) now),
      secondaries_errors-nil (suc i) (s.name ∷ seen) ss later,
    )

secondaries_errors_of_ok :
    (i : ℕ) (seen : List String) (ss : List SiteConfig)
    → SecondariesOk seen ss
    → secondaries_errors i seen ss ≡ []
unfolding secondaries_errors
secondaries_errors_of_ok i seen [] h = refl
secondaries_errors_of_ok i seen (s ∷ ss) h =
    rw (failures_of_All _ (checks_of_SecondaryOk i seen s h.0))
      (secondaries_errors_of_ok (suc i) (s.name ∷ seen) ss h.1)

-- `validate` reports no error exactly when the primary has its name, URL, database host and port,
-- replication role and password, a known git mode and a repositories path if that mode is rsync,
-- there is a secondary, and each secondary has a host, a replication password and a name of its own.
pub validate-accepts :
    (c : Config) → ((validate c).1 ≡ []) ↔ (PrimaryOk c × SecondariesOk [] c.secondaries)
unfolding validate
validate-accepts c = (
  λ h.
      let (now, later) = append-eq-nil (failures (primary_checks c)) _ h in
      (
        PrimaryOk-of_checks c (failures-nil (primary_checks c) now),
        secondaries_errors-nil 0 [] _ later,
      ),
  λ h.
      rw (failures_of_All _ (checks_of_PrimaryOk c h.0))
        (secondaries_errors_of_ok 0 [] c.secondaries h.1),
)
