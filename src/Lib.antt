-- ===== src/Lib.antt =====
-- A verification library for gitlab-geo-sync, the geo-replication control plane for self-hosted
-- GitLab instances. `geoctl` loads a configuration, runs reconcilers that compare or copy what a
-- primary site and its secondaries hold, watches the primary's health, promotes a secondary when the
-- primary is down, and takes webhooks that start the sync of one project.
--
-- How the parts meet: the configuration (Config) is checked once and read by all others. The command
-- serve (Geoctl/Serve) builds the reconcilers (Geoctl/Build) with their database pools, sets the
-- secondaries read-only, and starts the runner, the webhook server, whose trigger waits in the
-- TriggerManager and then fetches one project (Geoctl/Build/Receiver), and the failover controller. That controller (Failover) counts failing rounds of health
-- checks, and its promotion runs ssh commands (SshExec), lifts read-only mode (ReadOnly) and checks
-- the key parity (DbKey). The webhook handler (Webhook) takes only paths that ProjectPath accepts, as
-- does the fetch of one project. The reconcilers (Reconciler) each return one result, and the runner
-- sweeps over them; object storage runs its listings through Retry. The doctor (Doctor) and the
-- bootstrap of a standby (PgSetup) are commands of their own.
--
-- Files and sources:
--   Config, Config/Validate, Config/Dsn     internal/config/config.go: the configuration's structs,
--                                           validate, DSN, ReplicationDSN, buildDSN
--   Config/Env                              internal/config/config.go: ExpandEnv, resolveEnvInStruct,
--                                           resolveEnv, expandEnvString
--   SshExec, ReadOnly, DbKey                internal/sshexec, internal/readonly, internal/dbkey
--   Failover                                internal/failover/failover.go: New, Run, check, Promote,
--                                           AdoptAsSecondary
--   ProjectPath                             internal/projectpath/projectpath.go: Validate
--   Webhook, Webhook/Debounce               internal/webhook/webhook.go: NewServer, handleWebhook,
--                                           extractProjectPath; the TriggerManager
--   Reconciler, Reconciler/Runner           internal/reconciler/runner.go: Result, Runner
--   Reconciler/Retry                        internal/reconciler/retry.go: Retry
--   Reconciler/FsStorage, GitRsync          internal/reconciler/fsstorage, gitrsync
--   Reconciler/GitFetch                     internal/reconciler/gitfetch
--   Reconciler/Consistency, ApiValidator    internal/reconciler/consistency, apivalidator
--   Reconciler/Registry                     internal/reconciler/registry
--   Reconciler/ObjectStorage, Postgres      internal/reconciler/objectstorage, postgres
--   PgSetup                                 internal/pgsetup/pgsetup.go: Run, appendConnInfoAppname
--   Doctor, Doctor/Run                      internal/doctor/doctor.go: the checks; RunWith
--   Geoctl/Build, Serve, Commands           cmd/geoctl/main.go: buildReconcilers, buildWebhookServer;
--                                           serve; failover, adopt-as-secondary, dbkey, sync, pg
--   Go, Prelude                             what the code takes from Go: 64-bit integers with their
--                                           wrap-around, texts and errors, strings, actions that run
--                                           commands and update metrics; shared lemmas
--   Witnesses                               concrete inputs for the theorems with hypotheses
-- The other modules below a part hold its proofs and are named for what they prove.
--
-- How the code is carried over: a function that may fail returns a `Result`; a run-time panic is the
-- third case of it. Code that runs commands or updates metrics is an action that hands on the list of
-- what it has called, so an error leaves the earlier calls in place. The reply to a command and the
-- end of the context are given by an environment that may depend on everything called before. A text
-- or error made by fmt is kept as its format and arguments. A function's loop over a list is recursion
-- on it; a ticker is a list of rounds; concurrent steps are steps of one state, in any order; the pool
-- of the git fetch takes the choice of the fetch that ends next as a parameter.
--
-- Bounds: Go's int and int64 are integers brought back into 64 bits after each operation where a
-- program value can reach the bound; counters that a list's length bounds are natural numbers.
-- `decimal` prints a number with one more step of fuel than the number, which is enough since each
-- step divides it by ten. Sizes of bodies are counted in characters.
--
-- Parameters, since their code is not in the repository: the environment of commands, what an HTTP
-- server or a database answers, json.Unmarshal, SHA-1, filepath.Join, random picks
-- and the clock. The floating-point share of sampled repositories enters the sweep as the
-- resulting number. Regular expressions are written out as matchers.
--
-- Not modelled: the reading of the file and its YAML (Load), the definition of commands and flags and
-- what commands print, autorepair, sla, initcmd, runbook, the S3 and HTTP clients, and logging,
-- metrics servers and other output. The pages of a listing, the lag in nanoseconds and the roles that
-- the databases report are parameters.
mod Prelude
pub mod Go
pub mod Config
pub mod SshExec
pub mod ReadOnly
pub mod DbKey
pub mod Failover
pub mod ProjectPath
pub mod Webhook
pub mod Reconciler
pub mod PgSetup
pub mod Doctor
pub mod Geoctl
mod Witnesses
