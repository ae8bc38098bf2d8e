-- ===== src/Webhook/Debounce.antt =====
-- internal/webhook: the TriggerManager. A call of `Trigger` is a record of the manager's; its steps
-- under the lock, at the end of its wait and at its return are steps of the manager, in any order.
use gitlab_geo_sync.Prelude.{
  ℕ, suc, String, Bool, true, false, not, ◌&&◌, ◌||◌, Option, none, some, List, [], ◌∷◌, eqb,
  if◌then◌else◌, ◌==◌,
}
use gitlab_geo_sync.Go.Fmt.{Result, err, cancelled}

-- Before the wait of two seconds is over, in the trigger function, and after the return.
pub data Phase : Type 0 where
  waiting : Phase
  fetching : Phase
  returned : Phase

pub record TriggerCall : Type 0 where
  pub id : ℕ
  pub project_path : String
  pub event_type : String
  pub phase : Phase
  pub cancelled : Bool
  pub parent_done : Bool

-- `pending` maps a path to the call whose cancel function it holds; an earlier entry hides a later one.
pub record TriggerManager : Type 0 where
  pub next_id : ℕ
  pub pending : List (String × ℕ)
  pub calls : List TriggerCall

unfoldable pub new_trigger_manager : TriggerManager
new_trigger_manager = record { next_id = 0; pending = []; calls = [] }

unfoldable pub lookup : String → List (String × ℕ) → Option ℕ
lookup p [] = none
lookup p ((q, i) ∷ m) = if p == q then some i else lookup p m

unfoldable pub delete : String → List (String × ℕ) → List (String × ℕ)
delete p [] = []
delete p ((q, i) ∷ m) = let rest = delete p m in if p == q then rest else (q, i) ∷ rest

abbrev pub cancel_call : ℕ → TriggerCall → TriggerCall
cancel_call i c = if eqb c.id i then record c { cancelled = true } else c

-- `if cancel, ok := m.pending[projectPath]; ok { cancel() }`
unfoldable pub cancel_pending : Option ℕ → List TriggerCall → List TriggerCall
cancel_pending none cs = cs
cancel_pending (some i) [] = []
cancel_pending (some i) (c ∷ cs) = cancel_call i c ∷ cancel_pending (some i) cs

-- The first locked part of `Trigger`.
unfoldable pub begin : TriggerManager → String → String → TriggerManager
begin m path event = record {
  next_id = suc m.next_id;
  pending = (path, m.next_id) ∷ m.pending;
  calls =
      record {
        id = m.next_id;
        project_path = path;
        event_type = event;
        phase = waiting;
        cancelled = false;
        parent_done = false;
      }
      ∷ cancel_pending (lookup path m.pending) m.calls;
}

abbrev pub is_waiting : Phase → Bool
is_waiting waiting = true
is_waiting _ = false

abbrev pub is_fetching : Phase → Bool
is_fetching fetching = true
is_fetching _ = false

abbrev pub can_abort : TriggerCall → Bool
can_abort c = is_waiting c.phase && (c.cancelled || c.parent_done)

abbrev pub can_fire : TriggerCall → Bool
can_fire c = is_waiting c.phase

abbrev pub can_finish : TriggerCall → Bool
can_finish c = is_fetching c.phase

abbrev pub any_call : TriggerCall → Bool
any_call c = true

-- The calls with one that passes a test changed, and its path.
unfoldable pub update :
    (TriggerCall → Bool)
    → (TriggerCall → TriggerCall)
    → ℕ
    → List TriggerCall
    → List TriggerCall × Option String
update can f i [] = ([], none)
update can f i (c ∷ cs) =
    let (rest, found) = update can f i cs in
    if eqb c.id i && can c then (f c ∷ cs, some c.project_path) else (c ∷ rest, found)

-- The deferred deletion.
abbrev pub release : Option String → List (String × ℕ) → List (String × ℕ)
release none m = m
release (some p) m = delete p m

-- A call whose context is cancelled returns before the trigger.
unfoldable pub abort : TriggerManager → ℕ → TriggerManager
abort m i =
    let (calls, found) = update can_abort (λ c. record c { phase = returned }) i m.calls in
    record m { pending = release found m.pending; calls = calls }

-- The wait is over.
unfoldable pub fire : TriggerManager → ℕ → TriggerManager
fire m i = record m { calls = (update can_fire (λ c. record c { phase = fetching }) i m.calls).0 }

-- The trigger function returns.
unfoldable pub finish : TriggerManager → ℕ → TriggerManager
finish m i =
    let (calls, found) = update can_finish (λ c. record c { phase = returned }) i m.calls in
    record m { pending = release found m.pending; calls = calls }

-- The context that the call was given ends.
unfoldable pub end_parent : TriggerManager → ℕ → TriggerManager
end_parent m i = record m {
  calls = (update any_call (λ c. record c { parent_done = true }) i m.calls).0;
}

abbrev pub returns_in : Phase → Bool → Result (Unit {0}) → Option (Result (Unit {0}))
returns_in waiting true answer = some (err cancelled)
returns_in waiting false answer = none
returns_in fetching ended answer = some answer
returns_in returned ended answer = none

-- What a call returns next: the error of its context if that ended in the wait, and what the trigger
-- returns after it.
unfoldable pub returns :
    (String → String → Result (Unit {0})) → TriggerCall → Option (Result (Unit {0}))
returns trigger c =
    returns_in c.phase (c.cancelled || c.parent_done) (trigger c.project_path c.event_type)

-- A call that has neither been cancelled nor returned.
unfoldable pub is_live : String → TriggerCall → Bool
is_live path c =
    c.project_path == path && (not c.cancelled && (is_waiting c.phase || is_fetching c.phase))
