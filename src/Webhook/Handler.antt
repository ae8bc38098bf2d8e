-- ===== src/Webhook/Handler.antt =====
-- Which requests start a sync, and what holds of the server between requests.
use Prim.Native.String.{[], ◌∷◌}
use mathlib.Core.Path.{subst}
use text.Mathlib.TextLemmas.{cons-ne-nil}
use gitlab_geo_sync.Prelude.{
  ℕ, zero, suc, ◌≤◌, ◌<◌, String, ◌≡◌, ◌≢◌, ◌⊎◌, ◌↔◌, refl, ap, ◌∙◌, sym, Bool, true, false, Option,
  none, some, List, All, ltb, if◌then◌else◌, ◌==◌, arith, eq_iff, inl, inr, lt→ltb, ltb→lt,
  eq_false_of_ne, eq_false,
}
use gitlab_geo_sync.Go.Fmt.{Result, ok, err, panic, Error, errorf, end}
use gitlab_geo_sync.Go.Exec.{drift}
use gitlab_geo_sync.ProjectPath
use gitlab_geo_sync.ProjectPath.Grammar.{InGrammar, starts_alphanumeric}
use gitlab_geo_sync.ProjectPath.Accepts.{validate-InGrammar}
use gitlab_geo_sync.Webhook.{
  Job, Server, Request, Response, sem_cap, body_limit, limit, occupied, start_job, accept_path,
  path_checked, payload_path, payload_read, extract_project_path, accept_body, emit, handle_webhook,
  remove, finish_job, new_server,
}

-- The server after a job was started.
abbrev pub with_job : Server → Job → Server
with_job s job = record s { sem = List.◌∷◌ job s.sem }

-- Nothing was started, and the secret is the one before.
abbrev Kept : Server → Response → Type 0
Kept s r = (r.1.sem ≡ s.sem) × (r.1.secret_token ≡ s.secret_token)

abbrev Grown : Server → Job → Response → Type 0
Grown s job r = (occupied s.sem < 8) × (r ≡ (200, with_job s job))

start_job_case :
    (s : Server) (job : Job) (b : Bool)
    → ltb (occupied s.sem) sem_cap ≡ b
    → Kept s (start_job s job) ⊎ Grown s job (start_job s job)
unfolding start_job
start_job_case s job true e = inr (ltb→lt _ _ e, rw e)
start_job_case s job false e = inl (rw e, rw e)

path_checked_case :
    (s : Server) (job : Job) (r : Result (Unit {0}))
    → Kept s (path_checked s job r) ⊎ ((r ≡ ok tt) × Grown s job (path_checked s job r))
path_checked_case s job (ok u) = elim (start_job_case s job _ refl) [
  | inl k ↦ inl k
  | inr g ↦ inr (refl, g)
]
path_checked_case s job (err e) = inl (refl, refl)
path_checked_case s job (panic m) = inl (refl, refl)

abbrev job_of : String → String → Job
job_of path event = record { project = path; event = event }

accept_path_case :
    (s : Server) (path event : String)
    → Kept s (accept_path s path event)
      ⊎ (InGrammar path × Grown s (job_of path event) (accept_path s path event))
unfolding accept_path
accept_path_case s path event =
    elim (path_checked_case s (job_of path event) (ProjectPath.validate path)) [
      | inl k ↦ inl k
      | inr (v, g) ↦ inr ((validate-InGrammar path).0 v, g)
    ]

payload_path_if :
    (b : Bool) (e : Error) (p path : String) → (if b then err e else ok p) ≡ ok path → p ≡ path
payload_path_if true e p path h = cc
payload_path_if false e p path h = cc

payload_path_inv : (o : Option String) (path : String) → payload_path o ≡ ok path → o ≡ some path
payload_path_inv none path h = cc
payload_path_inv (some p) path h = ap some (payload_path_if (p == "") _ p path h)

-- What a request must be to start a sync of a path.
pub record Starts (unmarshal : String → Option String) (s : Server) (req : Request) (path : String)
    : Type 0 where
  pub post : req.is_post ≡ true
  pub token : req.token ≡ s.secret_token
  pub body : String
  pub read : req.body ≡ some body
  pub payload : unmarshal (limit body_limit body) ≡ some path
  pub grammar : InGrammar path
  pub room : occupied s.sem < 8

module _ (unmarshal : String → Option String) where
  payload_read_case :
      (s : Server) (event : String) (r : Result String)
      → Kept s (payload_read s event r)
        ⊎ ((path : String) × ((r ≡ ok path)
              × (InGrammar path × Grown s (job_of path event) (payload_read s event r))))
  payload_read_case s event (ok path) = elim (accept_path_case s path event) [
    | inl k ↦ inl k
    | inr (v, g) ↦ inr (path, (refl, (v, g)))
  ]
  payload_read_case s event (err e) = inl (refl, refl)
  payload_read_case s event (panic m) = inl (refl, refl)

  abbrev Read : Server → String → Option String → String → Type 0
  Read s event o path =
      (body : String) × ((o ≡ some body)
        × ((unmarshal (limit body_limit body) ≡ some path)
            × (InGrammar path × Grown s (job_of path event) (accept_body unmarshal s event o))))

  accept_body_case :
      (s : Server) (event : String) (o : Option String)
      → Kept s (accept_body unmarshal s event o) ⊎ ((path : String) × Read s event o path)
  unfolding extract_project_path
  accept_body_case s event none = inl (refl, refl)
  accept_body_case s event (some body) =
      elim (payload_read_case s event (extract_project_path unmarshal (limit body_limit body))) [
        | inl k ↦ inl k
        | inr (path, (e, (v, g))) ↦ inr (path, (body, (refl, (payload_path_inv _ path e, (v, g)))))
      ]

  abbrev Started : Server → Request → Type 0
  Started s req =
      (path : String) × (Starts unmarshal s req path
        × (handle_webhook unmarshal s req ≡ (200, with_job s (job_of path req.event))))

  -- The handler of a request with the right method and token.
  handle_webhook-authorized :
      (s : Server) (req : Request)
      → req.is_post ≡ true
      → (req.token == s.secret_token) ≡ true
      → handle_webhook unmarshal s req ≡ accept_body unmarshal s req.event req.body
  unfolding handle_webhook
  handle_webhook-authorized s req p t =
      let refused : Response = (401, emit s (drift "webhook" "critical")) in
      ap
        (λ b.
          if b
          then (if req.token == s.secret_token
              then accept_body unmarshal s req.event req.body
              else refused)
          else (405, s))
        p
      ∙ ap (λ c. if c then accept_body unmarshal s req.event req.body else refused) t

  guards_case :
      (s : Server) (req : Request) (b c : Bool)
      → req.is_post ≡ b
      → (req.token == s.secret_token) ≡ c
      → Kept s (handle_webhook unmarshal s req) ⊎ Started s req
  unfolding handle_webhook
  guards_case s req false c p t = inl (rw p, rw p)
  guards_case s req true false p t = inl (rw (p, t), rw (p, t))
  guards_case s req true true p t =
      let eq = handle_webhook-authorized s req p t in
      elim (accept_body_case s req.event req.body) [
        | inl (k, l) ↦ inl (ap (λ r. r.1.sem) eq ∙ k, ap (λ r. r.1.secret_token) eq ∙ l)
        | inr (path, (body, (r, (u, (v, (room, g)))))) ↦ inr (
          path,
          (
            record {
              post = p;
              token = (eq_iff _ _).0 t;
              body = body;
              read = r;
              payload = u;
              grammar = v;
              room = room;
            },
            eq ∙ g,
          ),
        )
      ]

  pub handle_webhook-Kept_or_Started :
      (s : Server) (req : Request) → Kept s (handle_webhook unmarshal s req) ⊎ Started s req
  handle_webhook-Kept_or_Started s req = guards_case s req _ _ refl refl

  start_job_room :
      (s : Server) (job : Job) → occupied s.sem < 8 → start_job s job ≡ (200, with_job s job)
  unfolding start_job
  start_job_room s job room = rw (lt→ltb _ _ room)

  path_nonempty :
      (path : String) → starts_alphanumeric path ≡ true → payload_path (some path) ≡ ok path
  path_nonempty [] h = cc
  path_nonempty (c ∷ s) h =
      ap
        (λ b.
          if b then err (errorf "no project.path_with_namespace in payload" end) else ok (c ∷ s))
        (eq_false_of_ne (c ∷ s) "" (cons-ne-nil c s))

  started :
      (s : Server) (req : Request) (path : String)
      → Starts unmarshal s req path
      → handle_webhook unmarshal s req ≡ (200, with_job s (job_of path req.event))
  unfolding extract_project_path accept_path
  started s req path h =
      handle_webhook-authorized s req h.post ((eq_iff _ _).1 h.token)
      ∙ ap (accept_body unmarshal s req.event) h.read
      ∙ ap (λ o. payload_read s req.event (payload_path o)) h.payload
      ∙ ap (payload_read s req.event) (path_nonempty path h.grammar.starts)
      ∙ ap (path_checked s (job_of path req.event)) ((validate-InGrammar path).1 h.grammar)
      ∙ start_job_room s (job_of path req.event) h.room

  not_kept : (js : List Job) (j : Job) → List.◌∷◌ j js ≡ js → ⊥
  not_kept js j e = omega (arith, ap occupied e)

  abbrev head_project : List Job → String
  head_project List.[] = ""
  head_project (List.◌∷◌ j js) = j.project

  starts :
      (s : Server) (req : Request) (path : String)
      → handle_webhook unmarshal s req ≡ (200, with_job s (job_of path req.event))
      → Starts unmarshal s req path
  starts s req path e = elim (handle_webhook-Kept_or_Started s req) [
    | inl (k, l) ↦ absurd (not_kept s.sem (job_of path req.event) cc)
    | inr (p, (st, e')) ↦
        let q : p ≡ path = ap (λ r. head_project r.1.sem) (sym e' ∙ e) in
        subst (Starts unmarshal s req) q st
  ]

-- The handler starts a sync of a path and answers 200 exactly when the request is a POST with the
-- server's secret, its body can be read, the payload names the path, the path is of the grammar, and
-- fewer than eight syncs run.
pub handle_webhook-Starts :
    (unmarshal : String → Option String) (s : Server) (req : Request) (path : String)
    → (handle_webhook unmarshal s req
        ≡ (200, with_job s (record { project = path; event = req.event })))
      ↔ Starts unmarshal s req path
handle_webhook-Starts unmarshal s req path =
    (starts unmarshal s req path, started unmarshal s req path)

-- What happens at a server: a request is handled, or a sync ends.
pub data Happening : Type 0 where
  request : Request → Happening
  finished : ℕ → Option Error → Happening

unfoldable pub happen : (String → Option String) → Server → Happening → Server
happen unmarshal s (request req) = (handle_webhook unmarshal s req).1
happen unmarshal s (finished i e) = finish_job s i e

unfoldable pub history : (String → Option String) → Server → List Happening → Server
history unmarshal s List.[] = s
history unmarshal s (List.◌∷◌ h hs) = history unmarshal (happen unmarshal s h) hs

-- At most eight syncs run, each of a path of the grammar, and the secret is the one the server was
-- made with.
pub record IsSafe (secret : String) (s : Server) : Type 0 where
  pub bounded : occupied s.sem ≤ 8
  pub paths : All (λ j. InGrammar j.project) s.sem
  pub guarded : s.secret_token ≡ secret

occupied-remove : (i : ℕ) (js : List Job) → occupied (remove i js) ≤ occupied js
occupied-remove i List.[] = omega arith
occupied-remove zero (List.◌∷◌ j js) = omega arith
occupied-remove (suc i) (List.◌∷◌ j js) = omega (arith, occupied-remove i js)

All-remove :
    (i : ℕ) (js : List Job)
    → All (λ j. InGrammar j.project) js
    → All (λ j. InGrammar j.project) (remove i js)
All-remove i List.[] h = tt
All-remove zero (List.◌∷◌ j js) (p, h) = h
All-remove (suc i) (List.◌∷◌ j js) (p, h) = (p, All-remove i js h)

removed :
    (secret : String) (s : Server) (i : ℕ)
    → IsSafe secret s
    → IsSafe secret (record s { sem = remove i s.sem })
removed secret s i h = record {
  bounded = omega (arith, occupied-remove i s.sem, h.bounded);
  paths = All-remove i s.sem h.paths;
  guarded = h.guarded;
}

finish_job-IsSafe :
    (secret : String) (s : Server) (i : ℕ) (e : Option Error)
    → IsSafe secret s
    → IsSafe secret (finish_job s i e)
unfolding finish_job
finish_job-IsSafe secret s i none h =
    let r = removed secret s i h in
    record { bounded = r.bounded; paths = r.paths; guarded = r.guarded }
finish_job-IsSafe secret s i (some e) h =
    let r = removed secret s i h in
    record { bounded = r.bounded; paths = r.paths; guarded = r.guarded }

pub happen-IsSafe :
    (unmarshal : String → Option String) (secret : String) (s : Server) (h : Happening)
    → IsSafe secret s
    → IsSafe secret (happen unmarshal s h)
unfolding happen
happen-IsSafe unmarshal secret s (finished i e) g = finish_job-IsSafe secret s i e g
happen-IsSafe unmarshal secret s (request req) g =
    elim (handle_webhook-Kept_or_Started unmarshal s req) [
      | inl (k, l) ↦ record {
        bounded = rw k g.bounded;
        paths = rw k g.paths;
        guarded = l ∙ g.guarded;
      }
      | inr (path, (st, e)) ↦
          subst (λ r. IsSafe secret r.1) (sym e)
            (record {
              bounded = omega (arith, st.room);
              paths = (st.grammar, g.paths);
              guarded = g.guarded;
            })
    ]

history-IsSafe :
    (unmarshal : String → Option String) (secret : String) (s : Server) (hs : List Happening)
    → IsSafe secret s
    → IsSafe secret (history unmarshal s hs)
unfolding history
history-IsSafe unmarshal secret s List.[] h = h
history-IsSafe unmarshal secret s (List.◌∷◌ a hs) h =
    history-IsSafe unmarshal secret (happen unmarshal s a) hs (happen-IsSafe unmarshal secret s a h)

ok_inj : {a b : Server} → ok a ≡ ok b → a ≡ b
ok_inj h = cc

new_server_if :
    (b : Bool) (e : Error) (a : String) (secret : String) (s : Server)
    → (if b
        then err e
        else ok (record { addr = a; secret_token = secret; sem = List.[]; metrics = List.[] }))
      ≡ ok s
    → (b ≡ false) × IsSafe secret s
new_server_if true e a secret s h = cc
new_server_if false e a secret s h = (
  refl,
  subst (IsSafe secret) (ok_inj h) (record { bounded = omega arith; paths = tt; guarded = refl }),
)

-- After any sequence of requests and ends of syncs, a server that was made has a non-empty secret
-- still the one it was made with, at most eight syncs running, and every one of them is of a path of
-- the grammar.
pub new_server-IsSafe :
    (unmarshal : String → Option String) (addr secret : String) (s : Server) (hs : List Happening)
    → new_server addr secret ≡ ok s
    → (secret ≢ "") × IsSafe secret (history unmarshal s hs)
unfolding new_server
new_server-IsSafe unmarshal addr secret s hs h =
    let (e, g) = new_server_if (secret == "") _ addr secret s h in
    (eq_false _ _ e, history-IsSafe unmarshal secret s hs g)
