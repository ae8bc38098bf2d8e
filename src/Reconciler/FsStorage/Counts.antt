-- ===== src/Reconciler/FsStorage/Counts.antt =====
-- What the result of a run over the paths says.
use gitlab_geo_sync.Prelude.{
  ℕ, zero, suc, ◌+◌, ◌<◌, ◌≡◌, ◌⊎◌, refl, ap, ◌∙◌, sym, inl, inr, true, false, Option, none, some,
  List, [], ◌∷◌, length, arith, eqb, lt→ltb,
}
use gitlab_geo_sync.Go.Int64.{ℤ}
use gitlab_geo_sync.Go.Fmt.{Result, ok, lit}
use gitlab_geo_sync.Go.Exec.{Env, Event, continue, ◌>>=◌}
use gitlab_geo_sync.Reconciler.{Outcome, outcome}
use gitlab_geo_sync.Reconciler.FsStorage.{
  FsStorage, PathPair, Counts, partly_synced, finished, reconcile, sync_pairs,
}
use gitlab_geo_sync.Reconciler.FsStorage.Synced.{Synced, nothing_left, Matches, sync_pairs-Ended}

eqb_pos : (n : ℕ) → 0 < n → eqb n 0 ≡ false
eqb_pos n h = ground arith

-- The result for so many paths of which so many failed, and for a run that was cancelled.
abbrev pub Accounts : ℕ → Option ℕ → Outcome → Type 0
Accounts n none o = (o.ok ≡ false) × ((o.repaired ≡ 0) × (o.remaining ≡ n))
Accounts n (some k) o = (o.ok ≡ eqb k 0) × ((o.repaired + k ≡ n) × (o.remaining ≡ k))

-- A run from a history ends with a result for the paths that failed in it.
abbrev pub Accounted : Env → FsStorage → List Event → Result Outcome → Type 0
Accounted env r h x =
    (k : Option ℕ) × (Synced env r r.path_pairs h k
      × ((o : Outcome) × ((x ≡ ok o) × Accounts (length r.path_pairs) k o)))

finished-Accounts :
    (r : FsStorage) (elapsed : ℤ) (c : Option Counts) (k : Option ℕ) (h : List Event)
    → Matches 0 0 (length r.path_pairs) c k
    → (o : Outcome) × (((finished r elapsed c h).0 ≡ ok o) × Accounts (length r.path_pairs) k o)
finished-Accounts r elapsed none none h m = (_, (refl, (refl, (refl, refl))))
finished-Accounts r elapsed none (some k) h m = absurd m
finished-Accounts r elapsed (some c) none h m = absurd m
finished-Accounts r elapsed (some (zero, b)) (some k) h (u, v) =
    (_, (refl, (ground (arith, u), (omega (arith, u, v), omega (arith, u)))))
finished-Accounts r elapsed (some (suc a, b)) (some k) h (u, v) = (
  partly_synced r elapsed (suc a) b,
  (
    rw (lt→ltb 0 (suc a) (omega arith)),
    (sym (eqb_pos k (omega (arith, u))), (omega (arith, u, v), omega (arith, u))),
  ),
)

pairs-Accounted :
    (env : Env) (r : FsStorage) (elapsed : ℤ) (h : List Event)
    → Accounted env r h ((sync_pairs env r r.path_pairs 0 0 >>= finished r elapsed) h).0
pairs-Accounted env r elapsed h =
    let e = sync_pairs-Ended env r r.path_pairs 0 0 h in
    let h' = (sync_pairs env r r.path_pairs 0 0 h).1 in
    let (o, (q, a)) = finished-Accounts r elapsed e.counts e.failures h' e.matches in
    (
      e.failures,
      (e.synced, (o, (ap (λ x. (continue x (finished r elapsed) h').0) e.answer ∙ q, a))),
    )

no_pairs :
    (env : Env) (r : FsStorage) (h : List Event) (pairs : List PathPair)
    → length pairs ≡ 0
    → Synced env r pairs h (some 0)
no_pairs env r h [] e = nothing_left
no_pairs env r h (pair ∷ pairs) e = absurd (omega (arith, e))

zero_or_pos : (n : ℕ) → (n ≡ 0) ⊎ (0 < n)
zero_or_pos zero = inl refl
zero_or_pos (suc n) = inr (omega arith)

-- In any environment, a run over the paths copies them in turn until the context ends, where an rsync
-- fails if it ends with an error and its output does not say that the path is missing, and a failure
-- is reported as critical drift. The run ends without an error: if the context ended before a path,
-- the result is not OK, nothing is repaired and all the configured paths remain; otherwise the paths
-- whose rsync failed remain, the others are repaired, and it is OK exactly when none failed.
pub reconcile-Accounts :
    (env : Env) (r : FsStorage) (elapsed : ℤ) (h : List Event)
    → Accounted env r h (reconcile env r elapsed h).0
unfolding reconcile
reconcile-Accounts env r elapsed h = elim (zero_or_pos (length r.path_pairs)) [
  | inl z ↦ (
    some 0,
    (
      no_pairs env r h r.path_pairs z,
      (outcome true (lit "no fs paths configured") 0 0, (rw z, (refl, (sym z, refl)))),
    ),
  )
  | inr p ↦ rw (eqb_pos (length r.path_pairs) p) (pairs-Accounted env r elapsed h)
]
