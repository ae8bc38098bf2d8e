-- ===== src/Geoctl/Build/Receiver.antt =====
-- The webhook server together with the trigger manager that its syncs call, as cmd/geoctl's
-- buildWebhookServer joins them (internal/webhook/webhook.go). The goroutine of a running sync may call
-- the manager at any time, and the steps of the calls come in any order.
use gitlab_geo_sync.Prelude.{ℕ, zero, suc, String, Option, none, some, List}
use gitlab_geo_sync.Webhook.{Server, Job}
use gitlab_geo_sync.Webhook.Handler.{Happening, happen}
use gitlab_geo_sync.Webhook.Debounce.{
  TriggerManager, new_trigger_manager, begin, abort, fire, finish, end_parent,
}

pub record Receiver : Type 0 where
  pub server : Server
  pub manager : TriggerManager

-- What `buildWebhookServer` returns.
abbrev pub receiver_of : Server → Receiver
receiver_of s = record { server = s; manager = new_trigger_manager }

-- What happens at the server; the call of `mgr.Trigger` by the sync at a place of `sem`; and the steps
-- of a call.
pub data Incident : Type 0 where
  at_server : Happening → Incident
  called : ℕ → Incident
  aborted : ℕ → Incident
  fired : ℕ → Incident
  sync_ended : ℕ → Incident
  parent_ended : ℕ → Incident

abbrev pub job_at : ℕ → List Job → Option Job
job_at i List.[] = none
job_at zero (List.◌∷◌ j js) = some j
job_at (suc i) (List.◌∷◌ j js) = job_at i js

abbrev pub call_trigger : Option Job → TriggerManager → TriggerManager
call_trigger none m = m
call_trigger (some j) m = begin m j.project j.event

module _ (unmarshal : String → Option String) where
  unfoldable pub receive : Receiver → Incident → Receiver
  receive v (at_server h) = record v { server = happen unmarshal v.server h }
  receive v (called i) = record v { manager = call_trigger (job_at i v.server.sem) v.manager }
  receive v (aborted i) = record v { manager = abort v.manager i }
  receive v (fired i) = record v { manager = fire v.manager i }
  receive v (sync_ended i) = record v { manager = finish v.manager i }
  receive v (parent_ended i) = record v { manager = end_parent v.manager i }

  unfoldable pub receive_all : Receiver → List Incident → Receiver
  receive_all v List.[] = v
  receive_all v (List.◌∷◌ i is) = receive_all (receive v i) is
