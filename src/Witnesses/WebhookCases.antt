-- ===== src/Witnesses/WebhookCases.antt =====
-- A webhook of a project, handled by a server with no sync running, and a burst of triggers.
use gitlab_geo_sync.Prelude.{String, ◌≡◌, ◌≢◌, ◌↔◌, refl, true, Option, none, some, List}
use gitlab_geo_sync.Go.Fmt.{ok}
use gitlab_geo_sync.Webhook.{Job, Server, Request, new_server, handle_webhook}
use gitlab_geo_sync.Webhook.Handler.{
  Starts, IsSafe, Happening, request, finished, history, with_job, handle_webhook-Starts,
  new_server-IsSafe,
}
use gitlab_geo_sync.Webhook.Debounce.{begin, abort, new_trigger_manager}
use gitlab_geo_sync.Webhook.Owned.{Step, begins, fires, parent_ends, take_steps}
use gitlab_geo_sync.Webhook.Burst.{live_calls, take_steps-live_calls, abort-live_calls}

-- A payload that is the path itself.
abbrev payload : String → Option String
payload body = some body

abbrev secret : String
secret = "s3cret"

abbrev idle : Server
idle = record { addr = ":9090"; secret_token = "s3cret"; sem = List.[]; metrics = List.[] }

abbrev push : Request
push = record { is_post = true; token = "s3cret"; event = "Push Hook"; body = some "group/app" }

abbrev app : Job
app = record { project = "group/app"; event = "Push Hook" }

handle_webhook-Starts_example :
    (handle_webhook payload idle push ≡ (200, with_job idle app))
    ↔ Starts payload idle push "group/app"
handle_webhook-Starts_example = handle_webhook-Starts payload idle push "group/app"

made : new_server ":9090" "s3cret" ≡ ok idle
unfolding new_server
made = refl

abbrev happenings : List Happening
happenings = List.◌∷◌ (request push) (List.◌∷◌ (request push) (List.◌∷◌ (finished 1 none) List.[]))

new_server-IsSafe_example : (secret ≢ "") × IsSafe secret (history payload idle happenings)
new_server-IsSafe_example = new_server-IsSafe payload ":9090" secret idle happenings made

abbrev busy : List Step
busy = List.◌∷◌ (begins "group/app" "Push Hook") (
    List.◌∷◌ (begins "group/lib" "Push Hook")
      (List.◌∷◌ (fires 0) (List.◌∷◌ (parent_ends 1) List.[])))

take_steps-live_calls_example :
    live_calls "group/app" (begin (take_steps new_trigger_manager busy) "group/app" "Tag Push Hook")
    ≡ 1
take_steps-live_calls_example = take_steps-live_calls busy "group/app" "Tag Push Hook"

abort-live_calls_example :
    live_calls "group/app" (
      begin
        (abort (begin (begin new_trigger_manager "group/app" "a") "group/app" "b") 0)
        "group/app"
        "c")
    ≡ 2
abort-live_calls_example = abort-live_calls "group/app" "a" "b" "c"
