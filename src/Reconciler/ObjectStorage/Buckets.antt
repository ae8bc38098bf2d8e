-- ===== src/Reconciler/ObjectStorage/Buckets.antt =====
-- When two buckets are reported to match, and what the listing of a bucket adds up to.
use mathlib.Core.Path.{subst}
use gitlab_geo_sync.Prelude.{
  ℕ, suc, ◌+◌, ◌<◌, ◌≡◌, ◌↔◌, refl, ap, ◌∙◌, sym, Bool, true, false, ◌&&◌, Option, none, some, List,
  [], ◌∷◌, length, if◌then◌else◌, arith,
}
use gitlab_geo_sync.Go.Int64.{ℤ, pos, eqb_ℤ, eqb_ℤ_iff, ◌+ℤ◌, wrap, half_modulus}
use gitlab_geo_sync.Go.Fmt.{Result, ok, err, panic}
use gitlab_geo_sync.Go.Exec.{Event}
use gitlab_geo_sync.Reconciler.{Outcome}
use gitlab_geo_sync.Reconciler.ObjectStorage.{
  Stats, Page, same_stats, buckets_match, buckets_differ, ObjectStorage, listed, compare_stats,
  with_primary_stats, reconcile, add_page, add_pages, bucket_stats, failure, captured, two_seconds,
  ten_seconds,
}
use gitlab_geo_sync.Reconciler.Retry.{Retried, retry}
use gitlab_geo_sync.Reconciler.Retry.Attempts.{Fails, retry-Reports}

-- A run that returned OK.
abbrev Succeeds : Result Outcome → Type 0
Succeeds r = (o : Outcome) × ((r ≡ ok o) × (o.ok ≡ true))

eqb_ℤ_refl : (a : ℤ) → eqb_ℤ a a ≡ true
eqb_ℤ_refl a = ground arith

and_inv : (a b : Bool) → a && b ≡ true → (a ≡ true) × (b ≡ true)
and_inv true b h = (refl, h)
and_inv false b h = cc

ok_inj : {a b : Outcome} → ok a ≡ ok b → a ≡ b
ok_inj h = cc

-- The comparison returns, and its verdict is the test.
branch_ok :
    (p r : Stats) (h : List Event) (b : Bool)
    → (o : Outcome) × ((((if b then buckets_match p else buckets_differ p r) h).0 ≡ ok o)
        × (o.ok ≡ b))
branch_ok p r h true = (_, (refl, refl))
branch_ok p r h false = (_, (refl, refl))

compare_stats-ok :
    (p r : Stats) (h : List Event)
    → (o : Outcome) × (((compare_stats p r h).0 ≡ ok o) × (o.ok ≡ same_stats p r))
unfolding compare_stats
compare_stats-ok p r h = branch_ok p r h (same_stats p r)

verdict_eq : (r : Result Outcome) (o : Outcome) → r ≡ ok o → Succeeds r → o.ok ≡ true
verdict_eq r o e (o', (e', t)) = ap (λ (x : Outcome). x.ok) (ok_inj (sym e ∙ e')) ∙ t

same_stats-eq : (p r : Stats) → same_stats p r ≡ true → p ≡ r
same_stats-eq (pc, ps) (rc, rs) e =
    let (c, s) = and_inv (eqb_ℤ pc rc) (eqb_ℤ ps rs) e in rw (eqb_ℤ_iff pc rc c, eqb_ℤ_iff ps rs s)

same_stats_refl : (p : Stats) → same_stats p p ≡ true
same_stats_refl (c, s) = rw (eqb_ℤ_refl c, eqb_ℤ_refl s)

-- The two listings, and what the run makes of them.
abbrev Agree : Result Stats → Result Stats → Type 0
Agree p r = (s : Stats) × ((p ≡ ok s) × (r ≡ ok s))

clash : {b : Bool} → b ≡ true → b ≡ false → ⊥
clash h e = cc

Agree-inv :
    (p r : Result Stats) (h : List Event) → Succeeds (with_primary_stats p r h).0 → Agree p r
Agree-inv (ok p) (ok r) h s =
    let (o, (e, v)) = compare_stats-ok p r _ in
    (p, (refl, ap ok (sym (same_stats-eq p r (sym v ∙ verdict_eq _ o e s)))))
Agree-inv (ok p) (err e) h (o, (q, t)) =
    absurd (clash t (ap (λ (x : Outcome). x.ok) (sym (ok_inj q))))
Agree-inv (ok p) (panic m) h (o, (q, t)) = cc
Agree-inv (err e) r h (o, (q, t)) = absurd (clash t (ap (λ (x : Outcome). x.ok) (sym (ok_inj q))))
Agree-inv (panic m) r h (o, (q, t)) = cc

Agree-Succeeds :
    (p r : Result Stats) (h : List Event) → Agree p r → Succeeds (with_primary_stats p r h).0
Agree-Succeeds p r h (s, (e, f)) =
    subst (λ x. Succeeds (with_primary_stats x r h).0) (sym e)
      (subst (λ x. Succeeds (with_primary_stats (ok s) x h).0) (sym f)
        (let (o, (q, v)) = compare_stats-ok s s _ in (o, (q, v ∙ same_stats_refl s))))

-- A run is OK exactly when both listings succeed, within their retries, and find the same number of
-- objects and the same total size.
pub reconcile-Agree :
    (primary_done replica_done : ℕ → Bool) (r : ObjectStorage) (h : List Event)
    → ((o : Outcome) × (((reconcile primary_done replica_done r h).0 ≡ ok o) × (o.ok ≡ true))) ↔ (
        (s : Stats) × ((listed r.primary primary_done ≡ ok s)
          × (listed r.replica replica_done ≡ ok s)))
unfolding reconcile
reconcile-Agree primary_done replica_done r h = (
  Agree-inv (listed r.primary primary_done) (listed r.replica replica_done) h,
  Agree-Succeeds (listed r.primary primary_done) (listed r.replica replica_done) h,
)

-- The objects of a page, each with its size or none.
abbrev pub page_of : List (Option ℕ) → Page
page_of [] = []
page_of (none ∷ os) = none ∷ page_of os
page_of (some n ∷ os) = some (pos n) ∷ page_of os

abbrev pub size_of : List (Option ℕ) → ℕ
size_of [] = 0
size_of (none ∷ os) = size_of os
size_of (some n ∷ os) = n + size_of os

abbrev pub pages_of : List (List (Option ℕ)) → List (Result Page)
pages_of [] = []
pages_of (p ∷ ps) = ok (page_of p) ∷ pages_of ps

abbrev pub objects_in : List (List (Option ℕ)) → ℕ
objects_in [] = 0
objects_in (p ∷ ps) = length p + objects_in ps

abbrev pub bytes_in : List (List (Option ℕ)) → ℕ
bytes_in [] = 0
bytes_in (p ∷ ps) = size_of p + bytes_in ps

add_pos : (a b : ℕ) → a + b < half_modulus → pos a +ℤ pos b ≡ pos (a + b)
unfolding ◌+ℤ◌ wrap
add_pos a b h = ground arith

stats_eq : {a b c d : ℕ} → a ≡ b → c ≡ d → ◌≡◌ {A = Stats} (pos a, pos c) (pos b, pos d)
stats_eq h k = cc

add_page-pos :
    (os : List (Option ℕ)) (c t : ℕ)
    → c + length os < half_modulus
    → t + size_of os < half_modulus
    → add_page (page_of os) (pos c, pos t) ≡ (pos (c + length os), pos (t + size_of os))
unfolding add_page
add_page-pos [] c t h k = stats_eq (omega arith) (omega arith)
add_page-pos (none ∷ os) c t h k =
    ap (λ x. add_page (page_of os) (x, pos t)) (add_pos c 1 (omega (arith, h)))
    ∙ add_page-pos os (c + 1) t (omega (arith, h)) k
    ∙ stats_eq (omega arith) (omega arith)
add_page-pos (some n ∷ os) c t h k =
    ap (λ x. add_page (page_of os) (x, pos t +ℤ pos n)) (add_pos c 1 (omega (arith, h)))
    ∙ ap (λ x. add_page (page_of os) (pos (c + 1), x)) (add_pos t n (omega (arith, k)))
    ∙ add_page-pos os (c + 1) (t + n) (omega (arith, h)) (omega (arith, k))
    ∙ stats_eq (omega arith) (omega arith)

add_pages-pos :
    (ps : List (List (Option ℕ))) (c t : ℕ)
    → c + objects_in ps < half_modulus
    → t + bytes_in ps < half_modulus
    → add_pages (pages_of ps) (pos c, pos t) ≡ ok (pos (c + objects_in ps), pos (t + bytes_in ps))
unfolding add_pages
add_pages-pos [] c t h k = ap ok (stats_eq (omega arith) (omega arith))
add_pages-pos (p ∷ ps) c t h k =
    ap (add_pages (pages_of ps)) (add_page-pos p c t (omega (arith, h)) (omega (arith, k)))
    ∙ add_pages-pos ps (c + length p) (t + size_of p) (omega (arith, h)) (omega (arith, k))
    ∙ ap ok (stats_eq (omega arith) (omega arith))

-- A listing whose pages all arrive, of objects with sizes that are not negative or with none, adds up
-- to the number of its objects and the sum of the sizes, if both are below 2^63.
pub bucket_stats-pages_of :
    (ps : List (List (Option ℕ)))
    → objects_in ps < half_modulus
    → bytes_in ps < half_modulus
    → bucket_stats (pages_of ps) ≡ ok (pos (objects_in ps), pos (bytes_in ps))
unfolding bucket_stats
bucket_stats-pages_of ps h k =
    add_pages-pos ps 0 0 (omega (arith, h)) (omega (arith, k))
    ∙ ap ok (stats_eq (omega arith) (omega arith))

-- The listing with its retries is that of the first attempt that succeeds, of the three at most, if
-- the context lasts through the waits before it.
pub listed-first :
    (l : ℕ → Result Stats) (is_done : ℕ → Bool) (k n : ℕ) (s : Stats)
    → k + n ≡ 2
    → Fails (λ i. failure (l i)) is_done 1 k
    → l (suc k) ≡ ok s
    → listed l is_done ≡ ok s
unfolding listed
listed-first l is_done k n s e f g =
    let r =
      (retry-Reports (λ i. failure (l i)) is_done 10000000000 2000000000 k n (omega arith)
          (omega arith) f).0
        (ap failure g) in
    let r' =
      ap (λ t. retry (λ i. failure (l i)) is_done (suc t) two_seconds ten_seconds) (sym e) ∙ r in
    ap (λ (x : Retried). captured x.error (l x.attempts)) r' ∙ g
