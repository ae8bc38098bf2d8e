-- ===== src/Reconciler/FsStorage/Synced.antt =====
-- A run of the loop over the paths, and what its counters are worth.
use gitlab_geo_sync.Prelude.{
  ℕ, suc, ◌+◌, ◌≡◌, refl, ap, ◌∙◌, Bool, true, false, not, ◌&&◌, ◌||◌, Option, none, some, List, [],
  ◌∷◌, ◌++◌, length, if◌then◌else◌, arith,
}
use gitlab_geo_sync.Go.Fmt.{Error, Result, ok, errorf, str, cause, end}
use gitlab_geo_sync.Go.Strings.{◌<>◌, contains, trim_space}
use gitlab_geo_sync.Go.Exec.{Env, Event, Call, Reply, command, call, metric, drift, pure, ◌>>=◌}
use gitlab_geo_sync.Reconciler.FsStorage.{
  FsStorage, PathPair, Counts, counted, rsync_args, rsync_path, rsync_result, sync_pairs,
}

abbrev pub rsync_call : FsStorage → PathPair → Call
rsync_call r pair = command "rsync" (rsync_args r pair) []

abbrev pub is_error : Option Error → Bool
is_error none = false
is_error (some e) = true

abbrev pub is_missing : Reply → Bool
is_missing reply =
    contains (trim_space reply.output) "No such file or directory"
    || contains (trim_space reply.output) "change_dir"

-- An rsync fails unless it ends without an error or its output says that the path is missing.
abbrev pub is_failed : Reply → Bool
is_failed reply = is_error reply.failure && not (is_missing reply)

abbrev pub one_more : Option ℕ → Option ℕ
one_more none = none
one_more (some k) = some (suc k)

-- A run over paths from a history, and how many of its rsyncs failed, or `none` if the context ended
-- before a path.
pub data Synced (env : Env) (r : FsStorage) : List PathPair → List Event → Option ℕ → Type 0 where
  nothing_left : {h : List Event} → Synced env r [] h (some 0)
  context_ended :
      {pair : PathPair} {pairs : List PathPair} {h : List Event}
      → env.is_done h ≡ true
      → Synced env r (pair ∷ pairs) h none
  path_copied :
      {pair : PathPair} {pairs : List PathPair} {h : List Event} {k : Option ℕ}
      → env.is_done h ≡ false
      → is_failed (env.reply h (rsync_call r pair)) ≡ false
      → Synced env r pairs (h ++ call (rsync_call r pair) ∷ []) k
      → Synced env r (pair ∷ pairs) h k
  path_failed :
      {pair : PathPair} {pairs : List PathPair} {h : List Event} {k : Option ℕ}
      → env.is_done h ≡ false
      → is_failed (env.reply h (rsync_call r pair)) ≡ true
      → Synced env r pairs
          ((h ++ call (rsync_call r pair) ∷ [])
            ++ metric (drift ("fs_storage:" <> pair.src) "critical") ∷ [])
          k
      → Synced env r (pair ∷ pairs) h (one_more k)

-- The counters of the loop, from their first values, for paths of which some failed.
abbrev pub Matches : ℕ → ℕ → ℕ → Option Counts → Option ℕ → Type 0
Matches f p n none none = Unit
Matches f p n none (some k) = ⊥
Matches f p n (some c) none = ⊥
Matches f p n (some (a, b)) (some k) = (a ≡ f + k) × (b + k ≡ p + n)

pub record Ended (env : Env) (r : FsStorage) (pairs : List PathPair) (h : List Event) (f p : ℕ)
    (x : Result (Option Counts)) : Type 0 where
  pub counts : Option Counts
  pub failures : Option ℕ
  pub answer : x ≡ ok counts
  pub synced : Synced env r pairs h failures
  pub matches : Matches f p (length pairs) counts failures

Matches-copied :
    (f p n : ℕ) (c : Option Counts) (k : Option ℕ)
    → Matches f (suc p) n c k
    → Matches f p (suc n) c k
Matches-copied f p n none none m = tt
Matches-copied f p n none (some k) m = m
Matches-copied f p n (some c) none m = m
Matches-copied f p n (some (a, b)) (some k) (u, v) = (u, omega (arith, v))

Matches-failed :
    (f p n : ℕ) (c : Option Counts) (k : Option ℕ)
    → Matches (suc f) p n c k
    → Matches f p (suc n) c (one_more k)
Matches-failed f p n none none m = tt
Matches-failed f p n none (some k) m = m
Matches-failed f p n (some c) none m = m
Matches-failed f p n (some (a, b)) (some k) (u, v) = (omega (arith, u), omega (arith, v))

module _ (env : Env) (r : FsStorage) (pair : PathPair) (pairs : List PathPair)
    (ih : (f p : ℕ) (h : List Event) → Ended env r pairs h f p (sync_pairs env r pairs f p h).0)
    (h : List Event) (f p : ℕ) where
  abbrev after_call : List Event
  after_call = h ++ call (rsync_call r pair) ∷ []

  abbrev reply : Reply
  reply = env.reply h (rsync_call r pair)

  copied-Ended :
      env.is_done h ≡ false
      → is_failed reply ≡ false
      → Ended env r (pair ∷ pairs) h f p (sync_pairs env r pairs f (suc p) after_call).0
  copied-Ended d q =
      let e = ih f (suc p) after_call in
      record {
        counts = e.counts;
        failures = e.failures;
        answer = e.answer;
        synced = path_copied d q e.synced;
        matches = Matches-copied f p (length pairs) e.counts e.failures e.matches;
      }

  abbrev after_drift : List Event
  after_drift = after_call ++ metric (drift ("fs_storage:" <> pair.src) "critical") ∷ []

  failed-Ended :
      env.is_done h ≡ false
      → is_failed reply ≡ true
      → Ended env r (pair ∷ pairs) h f p (sync_pairs env r pairs (suc f) p after_drift).0
  failed-Ended d q =
      let e = ih (suc f) p after_drift in
      record {
        counts = e.counts;
        failures = one_more e.failures;
        answer = e.answer;
        synced = path_failed d q e.synced;
        matches = Matches-failed f p (length pairs) e.counts e.failures e.matches;
      }

  -- What rsync answered.
  missing-Ended :
      (x : Error) (b : Bool)
      → env.is_done h ≡ false
      → reply.failure ≡ some x
      → is_missing reply ≡ b
      → Ended env r
          (pair ∷ pairs)
          h
          f
          p
          (counted
            (sync_pairs env r pairs)
            pair
            f
            p
            (if b
              then none
              else some (
                  errorf "rsync %s: %w: %s"
                    (str pair.src (cause x (str (trim_space reply.output) end)))))
            after_call).0
  missing-Ended x true d e m =
      copied-Ended d (ap (λ o. is_error o && not (is_missing reply)) e ∙ ap (λ b. true && not b) m)
  missing-Ended x false d e m =
      failed-Ended d (ap (λ o. is_error o && not (is_missing reply)) e ∙ ap (λ b. true && not b) m)

  answered-Ended :
      (o : Option Error)
      → env.is_done h ≡ false
      → reply.failure ≡ o
      → Ended env r
          (pair ∷ pairs)
          h
          f
          p
          (counted
            (sync_pairs env r pairs)
            pair
            f
            p
            (rsync_result pair (trim_space reply.output) o)
            after_call).0
  answered-Ended none d e = copied-Ended d (ap (λ o. is_error o && not (is_missing reply)) e)
  answered-Ended (some x) d e = missing-Ended x (is_missing reply) d e refl

  path-Ended :
      (b : Bool)
      → env.is_done h ≡ b
      → Ended env r
          (pair ∷ pairs)
          h
          f
          p
          ((if b
              then pure none
              else (rsync_path env r pair >>= counted (sync_pairs env r pairs) pair f p))
            h).0
  unfolding rsync_path
  path-Ended true d = record {
    counts = none;
    failures = none;
    answer = refl;
    synced = context_ended d;
    matches = tt;
  }
  path-Ended false d = answered-Ended reply.failure d refl

pub sync_pairs-Ended :
    (env : Env) (r : FsStorage) (pairs : List PathPair) (f p : ℕ) (h : List Event)
    → Ended env r pairs h f p (sync_pairs env r pairs f p h).0
unfolding sync_pairs
sync_pairs-Ended env r [] f p h = record {
  counts = some (f, p);
  failures = some 0;
  answer = refl;
  synced = nothing_left;
  matches = (omega arith, omega arith);
}
sync_pairs-Ended env r (pair ∷ pairs) f p h =
    path-Ended env r pair pairs (sync_pairs-Ended env r pairs) h f p (env.is_done h) refl
