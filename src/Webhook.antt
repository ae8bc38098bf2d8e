-- ===== src/Webhook.antt =====
-- internal/webhook: the handler of GitLab's webhooks, and the debouncing of triggers below it.
-- `unmarshal` stands for `json.Unmarshal` into the payload: `none` where it fails, and otherwise the
-- field `project.path_with_namespace`, empty where the payload has none. Whether the body can be
-- read is part of the request.
pub mod Handler
pub mod Debounce
pub mod Owned
pub mod Burst
use Prim.Native.String.{[], ◌∷◌}
use mathlib.Core.List
use gitlab_geo_sync.Prelude.{
  ℕ, zero, suc, ◌+◌, ◌-◌, String, Bool, true, false, Option, none, some, List, ltb, eqb,
  if◌then◌else◌, ◌==◌,
}
use gitlab_geo_sync.Go.Fmt.{Result, ok, err, panic, Error, errorf, end, foreign, ◌>>=◌}
use gitlab_geo_sync.Go.Exec.{Metric, drift, duration, last_sync}
use gitlab_geo_sync.ProjectPath

-- A triggered sync: the project and the event.
pub record Job : Type 0 where
  pub project : String
  pub event : String

-- `sem` holds one token for each job that has not finished; the metrics are in order of their update.
pub record Server : Type 0 where
  pub addr : String
  pub secret_token : String
  pub sem : List Job
  pub metrics : List Metric

-- `sem: make(chan struct{}, 8)`
abbrev pub sem_cap : ℕ
sem_cap = 8

unfoldable pub new_server : String → String → Result Server
new_server addr secret_token =
    if secret_token == ""
    then err (errorf "webhook secret_token must not be empty" end)
    else ok (record { addr = addr; secret_token = secret_token; sem = List.[]; metrics = List.[] })

pub record Request : Type 0 where
  pub is_post : Bool
  pub token : String
  pub event : String
  pub body : Option String

-- io.LimitReader, by characters.
unfoldable pub limit : ℕ → String → String
limit n [] = []
limit zero (c ∷ s) = []
limit (suc n) (c ∷ s) = c ∷ limit n s

abbrev pub body_limit : ℕ
body_limit = 1048576

abbrev pub emit : Server → Metric → Server
emit s m = record s { metrics = List.◌++◌ s.metrics (List.◌∷◌ m List.[]) }

abbrev pub occupied : List Job → ℕ
occupied List.[] = 0
occupied (List.◌∷◌ j js) = suc (occupied js)

-- The status that is written, and the server afterwards.
abbrev pub Response : Type 0
Response = ℕ × Server

-- `select { case s.sem <- struct{}{}: … default: … }`, and the goroutine that is started.
unfoldable pub start_job : Server → Job → Response
start_job s job =
    if ltb (occupied s.sem) sem_cap
    then (200, record s { sem = List.◌∷◌ job s.sem })
    else (503, emit s (drift "webhook" "warning"))

-- The handler from the check of the path on, given the check's result.
abbrev pub path_checked : Server → Job → Result (Unit {0}) → Response
path_checked s job (ok u) = start_job s job
path_checked s job (err e) = (200, emit s (drift "webhook" "warning"))
path_checked s job (panic m) = (500, s)

unfoldable pub accept_path : Server → String → String → Response
accept_path s path event =
    path_checked s (record { project = path; event = event }) (ProjectPath.validate path)

abbrev pub payload_path : Option String → Result String
payload_path none = err (errorf "parse webhook payload: %w" end)
payload_path (some path) =
    if path == "" then err (errorf "no project.path_with_namespace in payload" end) else ok path

-- The handler from the payload on.
abbrev pub payload_read : Server → String → Result String → Response
payload_read s event (ok path) = accept_path s path event
payload_read s event (err e) = (200, s)
payload_read s event (panic m) = (500, s)

module _ (unmarshal : String → Option String) where
  unfoldable pub extract_project_path : String → Result String
  extract_project_path body = payload_path (unmarshal body)

  -- The handler from the body on.
  abbrev pub accept_body : Server → String → Option String → Response
  accept_body s event none = (400, s)
  accept_body s event (some body) =
      payload_read s event (extract_project_path (limit body_limit body))

  unfoldable pub handle_webhook : Server → Request → Response
  handle_webhook s req =
      if req.is_post
      then (if req.token == s.secret_token
          then accept_body s req.event req.body
          else (401, emit s (drift "webhook" "critical")))
      else (405, s)

-- The job at a place of `sem`, taken out.
abbrev pub remove : ℕ → List Job → List Job
remove i List.[] = List.[]
remove zero (List.◌∷◌ j js) = js
remove (suc i) (List.◌∷◌ j js) = List.◌∷◌ j (remove i js)

-- The end of the goroutine of a job, with the error that the trigger returned.
unfoldable pub finish_job : Server → ℕ → Option Error → Server
finish_job s i (some e) =
    emit (record s { sem = remove i s.sem }) (duration "webhook_trigger" "error")
finish_job s i none =
    emit (emit (record s { sem = remove i s.sem }) (duration "webhook_trigger" "ok"))
      (last_sync "webhook_trigger")
