-- ===== src/Reconciler/Registry.antt =====
-- internal/reconciler/registry: the comparison of two container registries. What a registry answers
-- to a GET of a URL is a parameter: an error, or a status, the decoded list of the body and its text.
-- A map from strings to true is the list of its keys, each once; the code only counts over it.
pub mod Sets
use gitlab_geo_sync.Prelude.{
  ℕ, suc, ◌+◌, String, Bool, true, false, not, ◌&&◌, ◌||◌, Option, none, some, List, [], ◌∷◌,
  length, any, all, eqb, ltb, if◌then◌else◌, ◌==◌,
}
use gitlab_geo_sync.Go.Fmt.{
  Error, errorf, auth_required, Text, lit, sprintf, end, str, nat, cause, Result, ok, err, panic,
  ◌>>=◌,
}
use gitlab_geo_sync.Go.Strings.{◌<>◌, trim_suffix}
use gitlab_geo_sync.Go.Exec.{Metric, drift, duration, last_sync}
use gitlab_geo_sync.Config.{SiteConfig}
use gitlab_geo_sync.Reconciler.{Outcome, outcome}

pub data Answer : Type 0 where
  failed : Error → Answer
  response : ℕ → Result (List String) → String → Answer

abbrev pub Client : Type 0
Client = String → Answer

pub record Registry : Type 0 where
  pub primary_url : String
  pub secondary_url : String
  pub primary_client : Client
  pub secondary_client : Client
  pub dry_run : Bool

unfoldable pub new : Client → Client → SiteConfig → SiteConfig → Bool → Registry
new primary_client secondary_client primary secondary dry_run = record {
  primary_url = trim_suffix primary.external_url "/" <> "/v2";
  secondary_url = trim_suffix secondary.external_url "/" <> "/v2";
  primary_client = primary_client;
  secondary_client = secondary_client;
  dry_run = dry_run;
}

abbrev pub wrap_decode : Result (List String) → Result (List String)
wrap_decode (ok xs) = ok xs
wrap_decode (err e) = err (errorf "decode catalog: %w" (cause e end))
wrap_decode (panic m) = panic m

abbrev pub catalog : Answer → Result (List String)
catalog (failed e) = err e
catalog (response status decoded body) =
    if eqb status 401
    then err auth_required
    else (if eqb status 200
        then wrap_decode decoded
        else err (errorf "catalog: status %d: %s" (nat status (str body end))))

unfoldable pub list_repositories : Client → String → Result (List String)
list_repositories client base_url = catalog (client (base_url <> "/_catalog?n=1000"))

abbrev pub mem : String → List String → Bool
mem k ks = any (λ x. k == x) ks

unfoldable pub to_set : List String → List String
to_set [] = []
to_set (s ∷ ss) = let rest = to_set ss in if mem s rest then rest else s ∷ rest

unfoldable pub set_diff : List String → List String → List String
set_diff [] b = []
set_diff (k ∷ a) b = let rest = set_diff a b in if mem k b then rest else k ∷ rest

unfoldable pub equal_set : List String → List String → Bool
equal_set a b = if eqb (length a) (length b) then all (λ k. mem k b) a else false

abbrev pub tags : String → Answer → Result (List String)
tags repo (failed e) = err e
tags repo (response status decoded body) =
    if eqb status 401
    then err auth_required
    else (if eqb status 200
        then (decoded >>= λ ts. ok (to_set ts))
        else err (errorf "tags for %s: status %d" (str repo (nat status end))))

unfoldable pub list_tags : Client → String → String → Result (List String)
list_tags client base_url repo = tags repo (client (base_url <> ("/" <> (repo <> "/tags/list"))))

unfoldable pub is_auth_error : Error → Bool
is_auth_error auth_required = true
is_auth_error _ = false

abbrev pub tags_differ : Result (List String) → Result (List String) → Bool
tags_differ (ok p) (ok s) = not (equal_set p s)
tags_differ _ _ = true

unfoldable pub repo_drifts : Registry → String → Bool
repo_drifts r repo =
    tags_differ (list_tags r.primary_client r.primary_url repo)
      (list_tags r.secondary_client r.secondary_url repo)

-- The loop over the repositories of the primary.
unfoldable pub drift_repos : Registry → List String → ℕ
drift_repos r [] = 0
drift_repos r (repo ∷ repos) =
    let rest = drift_repos r repos in if repo_drifts r repo then suc rest else rest

abbrev pub skipped : String → String → Error → Outcome × List Metric
skipped side format e =
    if is_auth_error e
    then (
      outcome true
          (sprintf "registry: %s requires auth (skipped — configure a token to enable)"
            (str side end))
          0 0,
      [],
    )
    else (outcome false (sprintf format (cause e end)) 0 1, drift "registry" "critical" ∷ [])

abbrev pub deep_check : Registry → List String → Outcome × List Metric
deep_check r p_set =
    let n = drift_repos r p_set in
    if ltb 0 n
    then (
      outcome false (sprintf "%d/%d repos have manifest drift" (nat n (nat (length p_set) end))) 0
          n,
      duration "registry" "ok" ∷ drift "registry" "warning" ∷ [],
    )
    else (
      outcome true (sprintf "registry in sync: %d repos" (nat (length p_set) end)) 0 0,
      duration "registry" "ok" ∷ last_sync "registry" ∷ [],
    )

-- `Reconcile` from the two sets on.
unfoldable pub compare_sets : Registry → List String → List String → Outcome × List Metric
compare_sets r p_set s_set =
    let missing = set_diff p_set s_set in
    let extra = set_diff s_set p_set in
    if eqb (length missing) 0 && eqb (length extra) 0 then deep_check r p_set else (
      outcome false
          (sprintf "repo list drift: %d missing, %d extra on secondary"
            (nat (length missing) (nat (length extra) end)))
          0 (length missing + length extra),
      duration "registry" "error" ∷ drift "registry" "warning" ∷ [],
    )

abbrev pub with_secondary :
    Registry → List String → Result (List String) → Result (Outcome × List Metric)
with_secondary r p_repos (ok s_repos) = ok (compare_sets r (to_set p_repos) (to_set s_repos))
with_secondary r p_repos (err e) = ok (skipped "secondary" "secondary list repos: %v" e)
with_secondary r p_repos (panic m) = panic m

abbrev pub with_primary : Registry → Result (List String) → Result (Outcome × List Metric)
with_primary r (ok p_repos) =
    with_secondary r p_repos (list_repositories r.secondary_client r.secondary_url)
with_primary r (err e) = ok (skipped "primary" "primary list repos: %v" e)
with_primary r (panic m) = panic m

unfoldable pub reconcile : Registry → Result (Outcome × List Metric)
reconcile r = with_primary r (list_repositories r.primary_client r.primary_url)
