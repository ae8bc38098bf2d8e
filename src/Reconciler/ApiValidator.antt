-- ===== src/Reconciler/ApiValidator.antt =====
-- internal/reconciler/apivalidator: the comparison of the API's counts. The answer to the request of
-- a URL with a token is a parameter, the `X-Total` header read as `Sscanf` reads it.
use gitlab_geo_sync.Prelude.{ℕ, suc, String, Option, none, some, List, [], ◌∷◌, eqb, if◌then◌else◌}
use gitlab_geo_sync.Go.Int64.{ℤ, pos, eqb_ℤ}
use gitlab_geo_sync.Go.Fmt.{
  Error, errorf, Text, lit, sprintf, end, str, nat, int, text, cause, Result, ok, err, panic,
}
use gitlab_geo_sync.Go.Strings.{◌<>◌, trim_suffix}
use gitlab_geo_sync.Go.Exec.{Exec, emit, pure, panics, ◌>>=◌, ◌>>◌, drift}
use gitlab_geo_sync.Config.{Config, SiteConfig, ApiValidatorConfig}
use gitlab_geo_sync.Reconciler.{Outcome}

-- A transport error, or a status, the text of the body and the total.
pub data ApiAnswer : Type 0 where
  failed : Error → ApiAnswer
  response : ℕ → String → Result ℤ → ApiAnswer

pub record ApiValidator : Type 0 where
  pub primary_url : String
  pub secondary_url : String
  pub primary_token : String
  pub secondary_token : String
  pub client : String → String → ApiAnswer

-- The tokens of `cfg.APIValidator`, which is nil-checked by the caller.
abbrev pub with_secondary_url :
    Config
    → (String → String → ApiAnswer)
    → ApiValidatorConfig
    → List SiteConfig
    → Result ApiValidator
with_secondary_url cfg client v [] = panic "index out of range"
with_secondary_url cfg client v (s ∷ ss) = ok (record {
  primary_url = trim_suffix cfg.primary.external_url "/" <> "/api/v4";
  secondary_url = trim_suffix s.external_url "/" <> "/api/v4";
  primary_token = v.primary_token;
  secondary_token = v.secondary_token;
  client = client;
})

abbrev pub with_tokens :
    Config → (String → String → ApiAnswer) → Option ApiValidatorConfig → Result ApiValidator
with_tokens cfg client none = panic "nil pointer dereference"
with_tokens cfg client (some v) = with_secondary_url cfg client v cfg.secondaries

unfoldable pub new : (String → String → ApiAnswer) → Config → Result ApiValidator
new client cfg = with_tokens cfg client cfg.api_validator

abbrev pub endpoints : List String
endpoints = "projects" ∷ "users" ∷ "groups" ∷ "issues" ∷ "merge_requests" ∷ []

abbrev pub total : Result ℤ → Result ℤ
total (ok n) = ok n
total (err e) = err (errorf "no X-Total header: %w" (cause e end))
total (panic m) = panic m

abbrev pub count_of : ApiAnswer → Result ℤ
count_of (failed e) = err e
count_of (response status body x_total) =
    if eqb status 200
    then total x_total
    else err (errorf "status %d: %s" (nat status (str body end)))

unfoldable pub fetch_count : ApiValidator → String → String → String → Result ℤ
fetch_count r base_url token path =
    count_of (r.client (base_url <> ("/" <> (path <> "?per_page=1"))) token)

pub record Comparison : Type 0 where
  pub drifts : ℕ
  pub remaining : ℕ
  pub detail : Text

abbrev pub count_error : String → String → Error → Comparison → Comparison
count_error format label e s = record {
  drifts = s.drifts;
  remaining = suc s.remaining;
  detail = sprintf format (text s.detail (str label (cause e end)));
}

abbrev pub with_secondary : String → ℤ → Result ℤ → Comparison → Exec Comparison
with_secondary label p (ok q) s = if eqb_ℤ p q then pure s else (do
  emit (drift ("api:" <> label) "warning")
  pure (record {
    drifts = suc s.drifts;
    remaining = suc s.remaining;
    detail =
        sprintf "%s; %s drift: primary=%d secondary=%d"
          (text s.detail (str label (int p (int q end))));
  }))
with_secondary label p (err e) s = pure (count_error "%s; %s secondary error: %v" label e s)
with_secondary label p (panic m) s = panics m

abbrev pub with_primary : ApiValidator → String → Result ℤ → Comparison → Exec Comparison
with_primary r label (ok p) s =
    with_secondary label p (fetch_count r r.secondary_url r.secondary_token label) s
with_primary r label (err e) s = pure (count_error "%s; %s primary error: %v" label e s)
with_primary r label (panic m) s = panics m

-- The loop over the endpoints; each one's path is its label.
unfoldable pub compare_endpoints : ApiValidator → List String → Comparison → Exec Comparison
compare_endpoints r [] s = pure s
compare_endpoints r (ep ∷ eps) s =
    let rest = compare_endpoints r eps in
    do s' ← with_primary r ep (fetch_count r r.primary_url r.primary_token ep) s; rest s'

unfoldable pub reconcile : ApiValidator → Exec Outcome
reconcile r = do
  s ←
      compare_endpoints r endpoints
        (record { drifts = 0; remaining = 0; detail = lit "api validation complete" })
  pure (record {
    ok = eqb s.drifts 0;
    lag = pos 0;
    detail = s.detail;
    repaired = 0;
    remaining = s.remaining;
  })
