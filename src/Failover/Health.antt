-- ===== src/Failover/Health.antt =====
-- When the controller holds the primary to be down, over any rounds of health checks.
use gitlab_geo_sync.Prelude.{
  ℕ, suc, ◌+◌, ◌≤◌, ◌<◌, String, ◌≡◌, ◌≢◌, refl, ap, ◌∙◌, Bool, true, false, not, List, [], ◌∷◌,
  length, count_if-le-length, leb, if◌then◌else◌, arith, Bool-cases, Option-cases, sym, inl, inr,
}
use gitlab_geo_sync.Go.Int64.{pos, ◌+ℤ◌, leb_ℤ, ltb_ℤ, half_modulus}
use gitlab_geo_sync.Go.Fmt.{Result, ok, err, panic}
use gitlab_geo_sync.Go.Exec.{Env, Exec, Event, pure, attempt, settle, continue, ◌>>=◌}
use gitlab_geo_sync.Go.Exec.Calm.{IsCalm}
use gitlab_geo_sync.Config.{Config, SiteConfig}
use gitlab_geo_sync.Failover.{
  Controller, HttpAnswer, failing_urls, poll_url, first_secondary, promote, auto_promote,
  declare_down, check, run, new,
}
use gitlab_geo_sync.Failover.Calm.{promote-Calm}

-- The round fails: at least `quorum` of the URLs do not answer 200.
abbrev pub is_failing : Controller → (String → HttpAnswer) → Bool
is_failing c http = leb_ℤ c.quorum (pos (failing_urls http c.health_urls))

-- How many of the last rounds failed in a row, `n` of them before the rounds given.
abbrev pub streak : Controller → ℕ → List (String → HttpAnswer) → ℕ
streak c n [] = n
streak c n (http ∷ rounds) = streak c (if is_failing c http then suc n else 0) rounds

-- The controller after `n` failing rounds in a row.
abbrev pub after : Controller → ℕ → Controller
after c n = record c { consecutive_fails = pos n; primary_down = leb 3 n }

-- An automatic promotion has a secondary to promote.
abbrev pub CanPromote : Controller → Type 0
CanPromote c = c.auto_failover ≡ true → c.cfg.secondaries ≢ []

raise_count : (n : ℕ) → suc n < half_modulus → pos n +ℤ pos 1 ≡ pos (suc n)
unfolding ◌+ℤ◌
raise_count n h = ground arith

attempt-settled :
    (r : Result (Unit {0})) (h : List Event)
    → IsCalm r
    → (continue (settle (r, h)).0 (λ r. pure tt) (settle (r, h)).1).0 ≡ ok (tt {0})
attempt-settled (ok u) h c = refl
attempt-settled (err e) h c = refl
attempt-settled (panic m) h c = absurd c

promote_first_ok :
    (env : Env) (c : Controller) (ss : List SiteConfig) (h : List Event)
    → ss ≢ []
    → ((do s ← first_secondary ss; r ← attempt (promote env c s.name); pure tt) h).0 ≡ ok (tt {0})
promote_first_ok env c [] h e = absurd (e refl)
promote_first_ok env c (s ∷ ss) h e =
    attempt-settled (promote env c s.name h).0 (promote env c s.name h).1
      (promote-Calm env c s.name h)

auto_promote_ok :
    (env : Env) (c : Controller) (h : List Event)
    → c.cfg.secondaries ≢ []
    → (auto_promote env c h).0 ≡ ok tt
unfolding auto_promote
auto_promote_ok env c h e = promote_first_ok env c c.cfg.secondaries h e

declare_down_ok :
    (env : Env) (c : Controller) (n : ℕ) (h : List Event)
    → CanPromote c
    → (declare_down env (record c { consecutive_fails = pos (suc n); primary_down = leb 3 n }) h).0
      ≡ ok (after c (suc n))
unfolding declare_down
declare_down_ok env c n h can = elim (Bool-cases (leb 3 (suc n))) [
  | inr few ↦ ground arith
  | inl many ↦ elim (Bool-cases c.auto_failover) [
    | inl auto ↦ ground (arith, auto_promote_ok env (after c (suc n)) h (can auto))
    | inr manual ↦ ground arith
  ]
]

check-after :
    (env : Env) (http : String → HttpAnswer) (c : Controller) (n : ℕ) (h : List Event)
    → CanPromote c
    → suc n < half_modulus
    → (check env http (after c n) h).0 ≡ ok (after c (if is_failing c http then suc n else 0))
unfolding check
check-after env http c n h can small = elim (Bool-cases (is_failing c http)) [
  | inl bad ↦ rw (bad, raise_count n small) (declare_down_ok env c n h can)
  | inr good ↦ rw good
]

then_run :
    (env : Env) (rounds : List (String → HttpAnswer)) (m : Exec Controller) (h : List Event)
    (c d : Controller)
    → (m h).0 ≡ ok c
    → ((h' : List Event) → (run env rounds c h').0 ≡ ok d)
    → ((do c' ← m; run env rounds c') h).0 ≡ ok d
then_run env rounds m h c d e k = rw e (k (m h).1)

next_bound :
    (b : Bool) (n l : ℕ) → n + suc l < half_modulus → (if b then suc n else 0) + l < half_modulus
next_bound true n l h = omega arith
next_bound false n l h = omega arith

run-after :
    (env : Env) (rounds : List (String → HttpAnswer)) (c : Controller) (n : ℕ) (h : List Event)
    → CanPromote c
    → n + length rounds < half_modulus
    → (run env rounds (after c n) h).0 ≡ ok (after c (streak c n rounds))
unfolding run
run-after env [] c n h can small = refl
run-after env (http ∷ rounds) c n h can small =
    then_run env rounds (check env http (after c n)) h _ _
      (check-after env http c n h can (omega arith))
      λ h'.
        run-after env rounds c (if is_failing c http then suc n else 0) h' can
          (next_bound (is_failing c http) n (length rounds) small)

new-after : (cfg : Config) (dry_run : Bool) → new cfg dry_run ≡ after (new cfg dry_run) 0
unfolding new
new-after cfg dry_run = elim (Option-cases cfg.failover) [ inl e ↦ rw e | inr (f, e) ↦ rw e ]

-- From a new controller, over any rounds of health checks (fewer than 2^63), `Run` holds the primary
-- to be down exactly when the last three rounds or more failed the quorum in a row, and counts that
-- run of failing rounds; the automatic promotions on the way do not change this, if there is a
-- secondary to promote.
pub run-streak :
    (env : Env) (cfg : Config) (dry_run : Bool) (rounds : List (String → HttpAnswer))
    (h : List Event)
    → CanPromote (new cfg dry_run)
    → length rounds < half_modulus
    → let c = new cfg dry_run in
      (run env rounds c h).0
      ≡ ok (record c {
        consecutive_fails = pos (streak c 0 rounds);
        primary_down = leb 3 (streak c 0 rounds);
      })
run-streak env cfg dry_run rounds h can small =
    ap (λ c. (run env rounds c h).0) (new-after cfg dry_run)
    ∙ run-after env rounds (new cfg dry_run) 0 h can (omega arith)

never_failing :
    (c : Controller) (http : String → HttpAnswer)
    → ltb_ℤ (pos (length c.health_urls)) c.quorum ≡ true
    → is_failing c http ≡ false
unfolding failing_urls
never_failing c http h =
    ground (arith, count_if-le-length (λ url. not (poll_url http url)) c.health_urls)

streak_unreachable :
    (c : Controller) (rounds : List (String → HttpAnswer))
    → ltb_ℤ (pos (length c.health_urls)) c.quorum ≡ true
    → streak c 0 rounds ≡ 0
streak_unreachable c [] h = refl
streak_unreachable c (http ∷ rounds) h = rw (never_failing c http h) (streak_unreachable c rounds h)

-- If the quorum is larger than the number of health URLs, then fewer than 2^63 rounds of health checks
-- leave a new controller as it was, whatever they find, if there is a secondary in case automatic
-- failover is on: the primary is not held to be down after them.
pub run-quorum_unreachable :
    (env : Env) (cfg : Config) (dry_run : Bool) (rounds : List (String → HttpAnswer))
    (h : List Event)
    → CanPromote (new cfg dry_run)
    → length rounds < half_modulus
    → ltb_ℤ (pos (length (new cfg dry_run).health_urls)) (new cfg dry_run).quorum ≡ true
    → (run env rounds (new cfg dry_run) h).0 ≡ ok (new cfg dry_run)
run-quorum_unreachable env cfg dry_run rounds h can small q =
    run-streak env cfg dry_run rounds h can small
    ∙ (ap (λ n. ok (after (new cfg dry_run) n)) (streak_unreachable (new cfg dry_run) rounds q)
        ∙ ap ok (sym (new-after cfg dry_run)))

all_failing :
    (c : Controller) (http : String → HttpAnswer)
    → leb_ℤ c.quorum (pos 0) ≡ true
    → is_failing c http ≡ true
all_failing c http h = ground arith

streak_full :
    (c : Controller) (n : ℕ) (rounds : List (String → HttpAnswer))
    → leb_ℤ c.quorum (pos 0) ≡ true
    → streak c n rounds ≡ n + length rounds
streak_full c n [] h = omega arith
streak_full c n (http ∷ rounds) h =
    rw (all_failing c http h) (streak_full c (suc n) rounds h ∙ omega arith)

-- If the quorum is zero or negative, every round counts as failing, also when all URLs answer 200:
-- after three rounds or more, fewer than 2^63, a new controller has counted all of them and holds the
-- primary to be down, if there is a secondary to promote in case automatic failover is on.
pub run-quorum_not_positive :
    (env : Env) (cfg : Config) (dry_run : Bool) (rounds : List (String → HttpAnswer))
    (h : List Event)
    → CanPromote (new cfg dry_run)
    → length rounds < half_modulus
    → 3 ≤ length rounds
    → leb_ℤ (new cfg dry_run).quorum (pos 0) ≡ true
    → (run env rounds (new cfg dry_run) h).0
      ≡ ok (record (new cfg dry_run) {
        consecutive_fails = pos (length rounds);
        primary_down = true;
      })
run-quorum_not_positive env cfg dry_run rounds h can small three q =
    run-streak env cfg dry_run rounds h can small
    ∙ rw (streak_full (new cfg dry_run) 0 rounds q) (ground arith)
