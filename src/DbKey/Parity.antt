-- ===== src/DbKey/Parity.antt =====
-- When the parity check succeeds.
use gitlab_geo_sync.Prelude.{
  String, ◌≡◌, ◌↔◌, refl, ap, ◌∙◌, sym, Bool, true, false, List, ◌==◌, eq_iff, eq_refl,
}
use gitlab_geo_sync.Go.Fmt.{Result, ok, err, panic}
use gitlab_geo_sync.Go.Exec.{Exec, Env, Event, continue, settle, attempt, ◌>>=◌}
use gitlab_geo_sync.SshExec.{Runner}
use gitlab_geo_sync.DbKey.{fetch_key, wrap_error, check_with_runner, verdict}

-- A fetch and what follows it, from the fetch's outcome.
abbrev followed :
    String → (String → Exec (Unit {0})) → Result String → List Event → Result (Unit {0})
followed format rest r h =
    (continue (settle (r, h)).0 (λ p. wrap_error format p >>= rest) (settle (r, h)).1).0

followed_inv :
    (format : String) (rest : String → Exec (Unit {0})) (r : Result String) (h : List Event)
    → followed format rest r h ≡ ok tt
    → (k : String) × ((r ≡ ok k) × ((rest k h).0 ≡ ok tt))
followed_inv format rest (ok k) h e = (k, (refl, e))
followed_inv format rest (err x) h e = cc
followed_inv format rest (panic m) h e = cc

same_inv : (b : Bool) (h : List Event) → (verdict b h).0 ≡ ok tt → b ≡ true
same_inv true h e = refl
same_inv false h e = cc

-- What follows the primary's key.
abbrev secondary_part : Env → String → Runner → String → Exec (Unit {0})
secondary_part env secondary_ssh runner k = attempt (fetch_key env secondary_ssh runner) >>= λ s.
    wrap_error "secondary db_key_base: %w" s >>= λ j. verdict (k == j)

-- The parity check succeeds exactly when a key is found on the primary, then one on the secondary, and
-- the two are equal.
pub check_with_runner-parity :
    (env : Env) (primary_ssh secondary_ssh : String) (runner : Runner) (h : List Event)
    → ((check_with_runner env primary_ssh secondary_ssh runner h).0 ≡ ok tt) ↔ (
        (key : String) × (((fetch_key env primary_ssh runner h).0 ≡ ok key)
          × ((fetch_key env secondary_ssh runner (fetch_key env primary_ssh runner h).1).0
              ≡ ok key)))
unfolding check_with_runner
check_with_runner-parity env primary_ssh secondary_ssh runner h =
    let (p, h') = fetch_key env primary_ssh runner h in
    let (s, h'') = fetch_key env secondary_ssh runner h' in
    (
      (λ e.
          let (k, (ek, e')) = followed_inv "primary db_key_base: %w" _ p h' e in
          let (j, (ej, e'')) = followed_inv "secondary db_key_base: %w" _ s h'' e' in
          let same = (eq_iff k j).0 (same_inv (k == j) h'' e'') in
          (k, (ek, ej ∙ ap ok (sym same)))),
      λ (k, (ek, es)).
          ap
            (λ r. followed "primary db_key_base: %w" (secondary_part env secondary_ssh runner) r h')
            ek
          ∙ ap (λ r. followed "secondary db_key_base: %w" (λ j. verdict (k == j)) r h'') es
          ∙ ap (λ b. (verdict b h'').0) (eq_refl k),
    )
