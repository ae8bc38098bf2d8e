-- ===== src/Doctor/Tally.antt =====
-- The summary counts every check once, under its status.
use mathlib.Core.Path.{subst}
use gitlab_geo_sync.Prelude.{
  All, ℕ, suc, ◌+◌, String, ◌≡◌, ◌⊎◌, refl, ◌∙◌, Bool, true, false, List, [], ◌∷◌, length, count_if,
  if◌then◌else◌, ◌==◌, arith, inl, inr,
}
use gitlab_geo_sync.Doctor.{Check}
use gitlab_geo_sync.Doctor.Run.{Summary, counted, tally}

-- The checks with a status.
abbrev pub with_status : String → List Check → ℕ
with_status status cs = count_if (λ c. c.status == status) cs

abbrev pub IsStatus : Check → Type 0
IsStatus c = (c.status ≡ "PASS") ⊎ ((c.status ≡ "FAIL") ⊎ (c.status ≡ "WARN"))

-- A summary grown by counts.
abbrev pub Grown : Summary → Summary → List Check → Type 0
Grown r r' cs =
    (r'.pass ≡ with_status "PASS" cs + r.pass)
    × ((r'.fail ≡ with_status "FAIL" cs + r.fail) × (r'.warn ≡ with_status "WARN" cs + r.warn))

counted_pass :
    (c : Check) (r : Summary) → c.status ≡ "PASS" → counted c r ≡ record r { pass = suc r.pass }
counted_pass c r h = rw h refl

counted_fail :
    (c : Check) (r : Summary) → c.status ≡ "FAIL" → counted c r ≡ record r { fail = suc r.fail }
counted_fail c r h = rw h refl

counted_warn :
    (c : Check) (r : Summary) → c.status ≡ "WARN" → counted c r ≡ record r { warn = suc r.warn }
counted_warn c r h = rw h refl

-- One result more at the front.
Grown-pass :
    (c : Check) (cs : List Check) (r r' : Summary)
    → c.status ≡ "PASS"
    → Grown (record r { pass = suc r.pass }) r' cs
    → Grown r r' (c ∷ cs)
unfolding count_if
Grown-pass c cs r r' h g = rw h (omega (arith, g.0), (g.1.0, g.1.1))

Grown-fail :
    (c : Check) (cs : List Check) (r r' : Summary)
    → c.status ≡ "FAIL"
    → Grown (record r { fail = suc r.fail }) r' cs
    → Grown r r' (c ∷ cs)
unfolding count_if
Grown-fail c cs r r' h g = rw h (g.0, (omega (arith, g.1.0), g.1.1))

Grown-warn :
    (c : Check) (cs : List Check) (r r' : Summary)
    → c.status ≡ "WARN"
    → Grown (record r { warn = suc r.warn }) r' cs
    → Grown r r' (c ∷ cs)
unfolding count_if
Grown-warn c cs r r' h g = rw h (g.0, (g.1.0, omega (arith, g.1.1)))

pub tally-Grown : (cs : List Check) (r : Summary) → All IsStatus cs → Grown r (tally cs r) cs
unfolding tally count_if
tally-Grown [] r h = (omega arith, (omega arith, omega arith))
tally-Grown (c ∷ cs) r (inl e, hs) = Grown-pass c cs r (tally cs (counted c r)) e (
    subst (λ x. Grown x (tally cs (counted c r)) cs) (counted_pass c r e)
      (tally-Grown cs (counted c r) hs))
tally-Grown (c ∷ cs) r (inr (inl e), hs) = Grown-fail c cs r (tally cs (counted c r)) e (
    subst (λ x. Grown x (tally cs (counted c r)) cs) (counted_fail c r e)
      (tally-Grown cs (counted c r) hs))
tally-Grown (c ∷ cs) r (inr (inr e), hs) = Grown-warn c cs r (tally cs (counted c r)) e (
    subst (λ x. Grown x (tally cs (counted c r)) cs) (counted_warn c r e)
      (tally-Grown cs (counted c r) hs))

-- The checks that a summary holds stay.
counted-checks : (c : Check) (r : Summary) → (counted c r).checks ≡ r.checks
counted-checks c r = kept (c.status == "PASS") (c.status == "FAIL") (c.status == "WARN")
  where
    kept :
        (a b d : Bool)
        → (if a
            then record r { pass = suc r.pass }
            else (if b
                then record r { fail = suc r.fail }
                else (if d then record r { warn = suc r.warn } else r))).checks
          ≡ r.checks
    kept true b d = refl
    kept false true d = refl
    kept false false true = refl
    kept false false false = refl

pub tally-checks : (cs : List Check) (r : Summary) → (tally cs r).checks ≡ r.checks
unfolding tally
tally-checks [] r = refl
tally-checks (c ∷ cs) r = tally-checks cs (counted c r) ∙ counted-checks c r

-- Every check has one of the three statuses, so the counts make up all of them.
pub statuses-length :
    (cs : List Check)
    → All IsStatus cs
    → with_status "PASS" cs + (with_status "FAIL" cs + with_status "WARN" cs) ≡ length cs
unfolding count_if
statuses-length [] h = refl
statuses-length (c ∷ cs) (inl e, hs) = rw e (omega (arith, statuses-length cs hs))
statuses-length (c ∷ cs) (inr (inl e), hs) = rw e (omega (arith, statuses-length cs hs))
statuses-length (c ∷ cs) (inr (inr e), hs) = rw e (omega (arith, statuses-length cs hs))
