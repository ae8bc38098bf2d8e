-- ===== src/Reconciler/Postgres/Lag.antt =====
-- The verdict and the lag of a run over the secondaries.
use gitlab_geo_sync.Prelude.{
  ℕ, ◌+◌, ◌≡◌, ◌≤◌, ◌⊎◌, inl, inr, refl, ap, ◌∙◌, sym, Bool, true, false, List, [], ◌∷◌,
  if◌then◌else◌, eqb, All, arith, Bool-cases,
}
use gitlab_geo_sync.Go.Int64.{ℤ, pos, pos_part, neg_part, ltb_ℤ}
use gitlab_geo_sync.Go.Fmt.{Error, Result, ok, err, panic}
use gitlab_geo_sync.Go.Exec.{Exec, Event}
use gitlab_geo_sync.Reconciler.{Outcome}
use gitlab_geo_sync.Reconciler.Postgres.{
  Rows, Postgres, SecondaryConn, check_secondary, checked, check_all, with_lag, with_error, max,
  reconcile,
}

-- A row of the databases that ends in no panic.
abbrev pub Answers : Result ℤ → Type 0
Answers (ok lag) = Unit
Answers (err e) = Unit
Answers (panic m) = ⊥

abbrev pub failed : Result ℤ → ℕ
failed (err e) = 1
failed _ = 0

-- How many secondaries fail their check.
abbrev pub failures : Rows → Postgres → List SecondaryConn → ℕ
failures rows r [] = 0
failures rows r (sc ∷ scs) = failed (check_secondary rows r sc) + failures rows r scs

infix 50 ◌≤ℤ◌
abbrev pub ◌≤ℤ◌ : ℤ → ℤ → Type 0
a ≤ℤ b = pos_part a + neg_part b ≤ pos_part b + neg_part a

-- The measured lag of a secondary is at most a bound.
abbrev pub Within : ℤ → Result ℤ → Type 0
Within bound (ok lag) = lag ≤ℤ bound
Within bound (err e) = Unit
Within bound (panic m) = Unit

-- A lag was measured on one of the secondaries.
abbrev pub Measured : Rows → Postgres → ℤ → List SecondaryConn → Type 0
Measured rows r lag [] = ⊥
Measured rows r lag (sc ∷ scs) = (check_secondary rows r sc ≡ ok lag) ⊎ Measured rows r lag scs

-- The result of the loop, from the one before.
record Follows (rows : Rows) (r : Postgres) (scs : List SecondaryConn) (before o : Outcome)
    : Type 0 where
  remaining : o.remaining ≡ before.remaining + failures rows r scs
  good : o.ok ≡ (if eqb (failures rows r scs) 0 then before.ok else false)
  grown : before.lag ≤ℤ o.lag
  within : All (λ sc. Within o.lag (check_secondary rows r sc)) scs
  attained : (o.lag ≡ before.lag) ⊎ Measured rows r o.lag scs

Within-le : (a b : ℤ) (c : Result ℤ) → a ≤ℤ b → Within a c → Within b c
Within-le a b (ok lag) h w = omega (arith, h, w)
Within-le a b (err e) h w = tt
Within-le a b (panic m) h w = tt

-- The lag after a check.
record Lagged (lag : ℤ) (before o : Outcome) : Type 0 where
  remaining : o.remaining ≡ before.remaining
  good : o.ok ≡ before.ok
  old : before.lag ≤ℤ o.lag
  new : lag ≤ℤ o.lag
  one : (o.lag ≡ before.lag) ⊎ (o.lag ≡ lag)

max_cases : (a b : ℤ) → (a ≤ℤ max a b) × ((b ≤ℤ max a b) × ((max a b ≡ a) ⊎ (max a b ≡ b)))
max_cases a b = elim (Bool-cases (ltb_ℤ a b)) [
  | inl e ↦ rw e (ground arith, (omega arith, inr refl))
  | inr e ↦ rw e (omega arith, (ground arith, inl refl))
]

with_lag-Lagged :
    (sc : SecondaryConn) (lag : ℤ) (o : Outcome) (b : Bool)
    → ltb_ℤ (pos 0) lag ≡ b
    → pos 0 ≤ℤ o.lag
    → Lagged lag o (with_lag sc lag o)
with_lag-Lagged sc lag o true e h =
    let (le, (ge, one)) = max_cases o.lag lag in
    rw e (record { remaining = refl; good = refl; old = le; new = ge; one = one })
with_lag-Lagged sc lag o false e h = rw e (record {
  remaining = refl;
  good = refl;
  old = omega arith;
  new = ground arith;
  one = inl refl;
})

abbrev Ends : Rows → Postgres → List SecondaryConn → Outcome → Exec Outcome → Type 0
Ends rows r scs before m =
    (h : List Event) → (o : Outcome) × (((m h).0 ≡ ok o) × Follows rows r scs before o)

zero_le_trans : (a b c : ℤ) → a ≤ℤ b → b ≤ℤ c → a ≤ℤ c
zero_le_trans a b c h k = omega (arith, h, k)

zero_plus : (n : ℕ) → 0 + n ≡ n
zero_plus n = omega arith

one_plus : (n : ℕ) → eqb (1 + n) 0 ≡ false
one_plus n = ground arith

never : (b : Bool) → (if b then false else false) ≡ false
never true = refl
never false = refl

as_test : (b : Bool) → (if b then true else false) ≡ b
as_test true = refl
as_test false = refl

-- What follows a check that succeeded, and one that failed.
cons-ok :
    (rows : Rows) (r : Postgres) (sc : SecondaryConn) (scs : List SecondaryConn) (lag : ℤ)
    (before mid o : Outcome)
    → check_secondary rows r sc ≡ ok lag
    → Lagged lag before mid
    → Follows rows r scs mid o
    → Follows rows r (sc ∷ scs) before o
cons-ok rows r sc scs lag before mid o e l f = record {
  remaining = rw e (omega (arith, f.remaining, l.remaining));
  good = rw e (
      f.good
      ∙ ap (λ b. if eqb n 0 then b else false) l.good
      ∙ ap (λ k. if eqb k 0 then before.ok else false) (sym (zero_plus n)));
  grown = zero_le_trans before.lag mid.lag o.lag l.old f.grown;
  within = (rw e (zero_le_trans lag mid.lag o.lag l.new f.grown), f.within);
  attained = attained f.attained l.one;
}
  where
    n : ℕ
    n = failures rows r scs

    attained :
        ((o.lag ≡ mid.lag) ⊎ Measured rows r o.lag scs)
        → ((mid.lag ≡ before.lag) ⊎ (mid.lag ≡ lag))
        → (o.lag ≡ before.lag)
          ⊎ ((check_secondary rows r sc ≡ ok o.lag) ⊎ Measured rows r o.lag scs)
    attained (inr m) q = inr (inr m)
    attained (inl p) (inl q) = inl (p ∙ q)
    attained (inl p) (inr q) = inr (inl (e ∙ ap ok (sym (p ∙ q))))

cons-err :
    (rows : Rows) (r : Postgres) (sc : SecondaryConn) (scs : List SecondaryConn) (x : Error)
    (before o : Outcome)
    → check_secondary rows r sc ≡ err x
    → Follows rows r scs (with_error sc x before) o
    → Follows rows r (sc ∷ scs) before o
cons-err rows r sc scs x before o e f = record {
  remaining = rw e (omega (arith, f.remaining));
  good = rw e (
      f.good
      ∙ never (eqb (failures rows r scs) 0)
      ∙ sym (ap (λ b. if b then before.ok else false) (one_plus (failures rows r scs))));
  grown = f.grown;
  within = (rw e tt, f.within);
  attained = attained f.attained;
}
  where
    attained :
        ((o.lag ≡ before.lag) ⊎ Measured rows r o.lag scs)
        → (o.lag ≡ before.lag)
          ⊎ ((check_secondary rows r sc ≡ ok o.lag) ⊎ Measured rows r o.lag scs)
    attained (inl p) = inl p
    attained (inr m) = inr (inr m)

check_result :
    (rows : Rows) (r : Postgres) (sc : SecondaryConn) (scs : List SecondaryConn)
    (rest : Outcome → Exec Outcome) (before : Outcome) (res : Result ℤ)
    → check_secondary rows r sc ≡ res
    → Answers res
    → pos 0 ≤ℤ before.lag
    → ((mid : Outcome) → pos 0 ≤ℤ mid.lag → Ends rows r scs mid (rest mid))
    → Ends rows r (sc ∷ scs) before (checked rest sc before res)
check_result rows r sc scs rest before (ok lag) e a z loop h =
    let l = with_lag-Lagged sc lag before _ refl z in
    let (o, (q, f)) =
      loop (with_lag sc lag before) (zero_le_trans (pos 0) before.lag _ z l.old) _ in
    (o, (q, cons-ok rows r sc scs lag before _ o e l f))
check_result rows r sc scs rest before (err x) e a z loop h =
    let (o, (q, f)) = loop (with_error sc x before) z _ in
    (o, (q, cons-err rows r sc scs x before o e f))
check_result rows r sc scs rest before (panic m) e a z loop h = absurd a

check_all-Ends :
    (rows : Rows) (r : Postgres) (scs : List SecondaryConn) (before : Outcome)
    → All (λ sc. Answers (check_secondary rows r sc)) scs
    → pos 0 ≤ℤ before.lag
    → Ends rows r scs before (check_all rows r scs before)
unfolding check_all
check_all-Ends rows r [] before a z h = (
  before,
  (
    refl,
    record {
      remaining = omega arith;
      good = refl;
      grown = omega arith;
      within = tt;
      attained = inl refl;
    },
  ),
)
check_all-Ends rows r (sc ∷ scs) before (a, as') z h =
    check_result rows r sc scs (check_all rows r scs) before (check_secondary rows r sc) refl a z
      (λ mid. check_all-Ends rows r scs mid as') h

-- What a run reports: as remaining the secondaries that fail their check, OK when there is none, and
-- as lag the largest of zero and the measured ones.
pub record Reports (rows : Rows) (r : Postgres) (o : Outcome) : Type 0 where
  pub remaining : o.remaining ≡ failures rows r r.secondaries
  pub good : o.ok ≡ eqb o.remaining 0
  pub positive : pos 0 ≤ℤ o.lag
  pub within : All (λ sc. Within o.lag (check_secondary rows r sc)) r.secondaries
  pub attained : (o.lag ≡ pos 0) ⊎ Measured rows r o.lag r.secondaries

-- If no row of the databases panics, a run returns a result that reports the number of secondaries
-- that fail their check, is OK exactly when there is none, and gives the largest of zero and the lags
-- that were measured.
pub reconcile-Reports :
    (rows : Rows) (r : Postgres) (h : List Event)
    → All (λ sc. Answers (check_secondary rows r sc)) r.secondaries
    → (o : Outcome) × (((reconcile rows r h).0 ≡ ok o) × Reports rows r o)
unfolding reconcile
reconcile-Reports rows r h a =
    let (o, (q, f)) = check_all-Ends rows r r.secondaries _ a (omega arith) h in
    (
      o,
      (
        q,
        record {
          remaining = f.remaining ∙ zero_plus (failures rows r r.secondaries);
          good =
              f.good
              ∙ as_test (eqb (failures rows r r.secondaries) 0)
              ∙ ap (λ n. eqb n 0) (sym (f.remaining ∙ zero_plus (failures rows r r.secondaries)));
          positive = f.grown;
          within = f.within;
          attained = f.attained;
        },
      ),
    )
