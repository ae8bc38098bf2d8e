-- ===== src/Geoctl/Build/Trigger.antt =====
-- What the calls of the trigger manager return for the paths that the webhook server starts.
use Prim.Native.String.{[], ◌∷◌}
use mathlib.Core.List
use text.Mathlib.TextLemmas.{cons-append, cons-ne-nil}
use gitlab_geo_sync.Prelude.{
  ℕ, zero, suc, String, ◌≡◌, ◌⊎◌, inl, inr, refl, ap, ◌∙◌, Bool, true, false, ◌||◌, Option, none,
  some, All, if◌then◌else◌, ◌==◌, eqb, eq_false_of_ne, arith,
}
use gitlab_geo_sync.Go.Int64.{pos}
use gitlab_geo_sync.Go.Fmt.{Error, Result, errorf, end, str, ok, err, cancelled}
use gitlab_geo_sync.Go.Strings.{◌<>◌}
use gitlab_geo_sync.Go.Exec.{Call}
use gitlab_geo_sync.ProjectPath.Grammar.{InGrammar, starts_alphanumeric}
use gitlab_geo_sync.ProjectPath.Accepts.{validate-InGrammar}
use gitlab_geo_sync.Reconciler.GitFetch.{
  GitFetch, fetch_project, checked_path, fetch_one, fetch_call, succeeded,
}
use gitlab_geo_sync.Webhook.{Server, Job, new_server}
use gitlab_geo_sync.Webhook.Debounce.{
  waiting, fetching, returned, TriggerCall, TriggerManager, new_trigger_manager, lookup,
  cancel_pending, begin, can_abort, can_fire, can_finish, any_call, abort, fire, finish, end_parent,
  returns_in, returns,
}
use gitlab_geo_sync.Webhook.Owned.{update-All}
use gitlab_geo_sync.Webhook.Handler.{history, IsSafe, happen-IsSafe, new_server-IsSafe}
use gitlab_geo_sync.Geoctl.Build.{trigger}
use gitlab_geo_sync.Geoctl.Build.Receiver.{
  Receiver, receiver_of, Incident, at_server, called, aborted, fired, sync_ended, parent_ended,
  job_at, call_trigger, receive, receive_all,
}

-- The command that is run for a project path, unless the run is dry, decides.
abbrev pub fetched : (String → String → String) → (Call → Option Error) → GitFetch → String → Bool
fetched join failure r path =
    if r.dry_run
    then true
    else succeeded join
        (failure (fetch_call join r (record { id = pos 0; repo_path = path <> ".git" })))

-- The result of a sync of a path, with a git fetch reconciler and without.
abbrev pub synced :
    (String → String → String)
    → (Call → Option Error)
    → Option GitFetch
    → String
    → Result (Unit {0})
synced join failure none path = ok tt
synced join failure (some r) path =
    if fetched join failure r path
    then ok tt
    else err (errorf "git fetch failed for %s" (str path end))

filled_append : (path t : String) → starts_alphanumeric path ≡ true → (path <> t == "") ≡ false
filled_append [] t h = cc
filled_append (c ∷ s) t h =
    rw (cons-append c s t) (eq_false_of_ne (c ∷ (s <> t)) "" (cons-ne-nil c (s <> t)))

trigger-synced :
    (join : String → String → String) (failure : Call → Option Error) (o : Option GitFetch)
    (path event : String)
    → InGrammar path
    → trigger join failure o path event ≡ synced join failure o path
unfolding fetch_project fetch_one
trigger-synced join failure none path event g = refl
trigger-synced join failure (some r) path event g =
    ap (checked_path join failure r path) ((validate-InGrammar path).1 g)
    ∙ ap
        (λ (b : Bool).
          if (if b then false else fetched join failure r path)
          then ok tt
          else err (errorf "git fetch failed for %s" (str path end)))
        (filled_append path ".git" g.starts)

-- What a call of the manager returns, by where it stands: nothing yet in its wait, the error of its
-- context if that has ended by then, and after the wait the result of the sync of its path.
pub record CallAnswers (join : String → String → String) (failure : Call → Option Error)
    (o : Option GitFetch) (c : TriggerCall) : Type 0 where
  pub waits :
      c.phase ≡ waiting
      → c.cancelled ≡ false
      → c.parent_done ≡ false
      → returns (trigger join failure o) c ≡ none
  pub aborts :
      c.phase ≡ waiting
      → (c.cancelled ≡ true) ⊎ (c.parent_done ≡ true)
      → returns (trigger join failure o) c ≡ some (err cancelled)
  pub syncs :
      c.phase ≡ fetching
      → returns (trigger join failure o) c ≡ some (synced join failure o c.project_path)

or_true : (a b : Bool) → (a ≡ true) ⊎ (b ≡ true) → (a || b) ≡ true
or_true a b (inl h) = ground (arith, h)
or_true a b (inr h) = ground (arith, h)

call-Answers :
    (join : String → String → String) (failure : Call → Option Error) (o : Option GitFetch)
    (c : TriggerCall)
    → InGrammar c.project_path
    → CallAnswers join failure o c
unfolding returns
call-Answers join failure o c g =
    let answer = trigger join failure o c.project_path c.event_type in
    record {
      waits = λ p a b.
          ap (λ f. returns_in f (c.cancelled || c.parent_done) answer) p
          ∙ ap (λ x. returns_in waiting (x || c.parent_done) answer) a
          ∙ ap (λ x. returns_in waiting (false || x) answer) b;
      aborts = λ p h.
          ap (λ f. returns_in f (c.cancelled || c.parent_done) answer) p
          ∙ ap (λ x. returns_in waiting x answer) (or_true c.cancelled c.parent_done h);
      syncs = λ p.
          ap (λ f. returns_in f (c.cancelled || c.parent_done) answer) p
          ∙ ap some (trigger-synced join failure o c.project_path c.event_type g);
    }

abbrev Named : TriggerCall → Type 0
Named c = InGrammar c.project_path

cancelled_Named :
    (b : Bool) (c : TriggerCall) → Named c → Named (if b then record c { cancelled = true } else c)
cancelled_Named true c h = h
cancelled_Named false c h = h

cancel_pending-Named :
    (i : Option ℕ) (cs : List.List TriggerCall) → All Named cs → All Named (cancel_pending i cs)
unfolding cancel_pending
cancel_pending-Named none cs h = h
cancel_pending-Named (some i) List.[] h = tt
cancel_pending-Named (some i) (List.◌∷◌ c cs) (h, hs) =
    (cancelled_Named (eqb c.id i) c h, cancel_pending-Named (some i) cs hs)

-- The server keeps its invariant, and every call is of a path of the grammar.
abbrev Sound : String → Receiver → Type 0
Sound secret v = IsSafe secret v.server × All Named v.manager.calls

job_at-Named :
    (i : ℕ) (js : List.List Job) (m : TriggerManager)
    → All (λ j. InGrammar j.project) js
    → All Named m.calls
    → All Named (call_trigger (job_at i js) m).calls
unfolding begin
job_at-Named i List.[] m h g = g
job_at-Named zero (List.◌∷◌ j js) m (h, hs) g =
    (h, cancel_pending-Named (lookup j.project m.pending) m.calls g)
job_at-Named (suc i) (List.◌∷◌ j js) m (h, hs) g = job_at-Named i js m hs g

receive-Sound :
    (unmarshal : String → Option String) (secret : String) (v : Receiver) (i : Incident)
    → Sound secret v
    → Sound secret (receive unmarshal v i)
unfolding receive abort fire finish end_parent
receive-Sound unmarshal secret v (at_server h) (s, m) =
    (happen-IsSafe unmarshal secret v.server h s, m)
receive-Sound unmarshal secret v (called i) (s, m) =
    (s, job_at-Named i v.server.sem v.manager s.paths m)
receive-Sound unmarshal secret v (aborted i) (s, m) = (
  s,
  update-All Named can_abort (λ c. record c { phase = returned }) (λ c w h. h) i v.manager.calls m,
)
receive-Sound unmarshal secret v (fired i) (s, m) = (
  s,
  update-All Named can_fire (λ c. record c { phase = fetching }) (λ c w h. h) i v.manager.calls m,
)
receive-Sound unmarshal secret v (sync_ended i) (s, m) = (
  s,
  update-All Named can_finish (λ c. record c { phase = returned }) (λ c w h. h) i v.manager.calls m,
)
receive-Sound unmarshal secret v (parent_ended i) (s, m) = (
  s,
  update-All Named any_call (λ c. record c { parent_done = true }) (λ c w h. h) i v.manager.calls m,
)

receive_all-Sound :
    (unmarshal : String → Option String) (secret : String) (v : Receiver) (is : List.List Incident)
    → Sound secret v
    → Sound secret (receive_all unmarshal v is)
unfolding receive_all
receive_all-Sound unmarshal secret v List.[] h = h
receive_all-Sound unmarshal secret v (List.◌∷◌ i is) h =
    receive_all-Sound unmarshal secret (receive unmarshal v i) is
      (receive-Sound unmarshal secret v i h)

All-Answers :
    (join : String → String → String) (failure : Call → Option Error) (o : Option GitFetch)
    (cs : List.List TriggerCall)
    → All Named cs
    → All (CallAnswers join failure o) cs
All-Answers join failure o List.[] h = tt
All-Answers join failure o (List.◌∷◌ c cs) (h, hs) =
    (call-Answers join failure o c h, All-Answers join failure o cs hs)

-- After any sequence of requests, ends of syncs, calls of the trigger manager by running syncs and steps
-- of those calls, at a webhook server that was made and with a new manager: a call in its wait returns
-- the error of its context if it was cancelled by a newer call or lost the context of its sync, and
-- returns nothing yet otherwise; and a call whose wait is over never has its path refused: without a
-- git fetch reconciler it succeeds, and with one it succeeds in a dry run, and otherwise exactly when
-- the fetch of the project's repository does.
pub receive_all-Answers :
    (unmarshal : String → Option String) (addr secret : String) (s : Server)
    (is : List.List Incident) (join : String → String → String) (failure : Call → Option Error)
    (o : Option GitFetch)
    → new_server addr secret ≡ ok s
    → All (CallAnswers join failure o) (receive_all unmarshal (receiver_of s) is).manager.calls
unfolding new_trigger_manager history
receive_all-Answers unmarshal addr secret s is join failure o h =
    All-Answers join failure o _
      (receive_all-Sound unmarshal secret (receiver_of s) is
        ((new_server-IsSafe unmarshal addr secret s List.[] h).1, tt)).1
