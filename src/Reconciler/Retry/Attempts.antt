-- ===== src/Reconciler/Retry/Attempts.antt =====
-- How often a retried function is called, how the retries end, and how long they wait.
use gitlab_geo_sync.Prelude.{
  ℕ, suc, zero, ◌+◌, ◌*◌, ◌≤◌, ◌<◌, ◌≡◌, refl, ap, ◌∙◌, sym, Bool, true, false, Option, none, some,
  List, [], ◌∷◌, ◌++◌, append-nil, if◌then◌else◌, arith, ltb,
}
use gitlab_geo_sync.Go.Int64.{ℤ, pos, double, wrap, half_modulus}
use gitlab_geo_sync.Go.Fmt.{Error, cancelled}
use gitlab_geo_sync.Reconciler.Retry.{Retried, retry, loop, next_delay, waited, after_attempt}

abbrev pub capped : ℕ → ℕ → ℕ
capped bound d = if ltb bound d then bound else d

-- The waits of a number of retries: each twice the one before, and none above the cap.
unfoldable pub backoffs : ℕ → ℕ → ℕ → List ℤ
backoffs bound delay zero = []
backoffs bound delay (suc n) = pos (capped bound delay) ∷ backoffs bound (2 * delay) n

capped_double :
    (bound d : ℕ)
    → (if ltb bound (2 * capped bound d) then bound else 2 * capped bound d) ≡ capped bound (2 * d)
capped_double bound d = ground arith

next_delay_case :
    (bound d : ℕ)
    → 2 * d < half_modulus
    → next_delay (pos bound) (pos d) ≡ pos (if ltb bound (2 * d) then bound else 2 * d)
unfolding next_delay double wrap
next_delay_case bound d h = ground arith

next_delay-capped :
    (bound d : ℕ)
    → 2 * bound < half_modulus
    → next_delay (pos bound) (pos (capped bound d)) ≡ pos (capped bound (2 * d))
next_delay-capped bound d h =
    next_delay_case bound (capped bound d) (ground arith) ∙ ap pos (capped_double bound d)

-- A number of attempts from one on fail, and the context lasts through the waits after them.
abbrev pub Fails : (ℕ → Option Error) → (ℕ → Bool) → ℕ → ℕ → Type 0
Fails fn is_done attempt zero = Unit
Fails fn is_done attempt (suc n) =
    ((e : Error) × (fn attempt ≡ some e))
    × ((is_done attempt ≡ false) × Fails fn is_done (suc attempt) n)

-- The outcome with some waits and their attempts before it.
abbrev after : ℕ → ℕ → ℕ → Retried → Retried
after bound delay zero r = r
after bound delay (suc k) r = waited (pos (capped bound delay)) (after bound (2 * delay) k r)

abbrev scaled : ℕ → ℕ → ℕ
scaled zero d = d
scaled (suc k) d = scaled k (2 * d)

-- `k + n`, by the clauses that the loop follows.
abbrev more : ℕ → ℕ → ℕ
more zero n = n
more (suc k) n = suc (more k n)

more_add : (k n : ℕ) → more k n ≡ k + n
more_add zero n = omega arith
more_add (suc k) n = omega (arith, more_add k n)

-- The attempt after `k` more.
abbrev later : ℕ → ℕ → ℕ
later zero a = a
later (suc k) a = later k (suc a)

later_add : (k a : ℕ) → later k a ≡ k + a
later_add zero a = omega arith
later_add (suc k) a = omega (arith, later_add k (suc a))

abbrev outcome_of : Option Error → ℕ → List ℤ → Retried
outcome_of e n ws = record { error = e; attempts = n; waits = ws }

after-outcome_of :
    (k bound delay : ℕ) (e : Option Error) (n : ℕ) (ws : List ℤ)
    → after bound delay k (outcome_of e n ws)
      ≡ outcome_of e (more k n) (backoffs bound delay k ++ ws)
unfolding backoffs
after-outcome_of zero bound delay e n ws = refl
after-outcome_of (suc k) bound delay e n ws =
    ap (waited (pos (capped bound delay))) (after-outcome_of k bound (2 * delay) e n ws)

module _ (fn : ℕ → Option Error) (is_done : ℕ → Bool) (bound : ℕ)
    (small : 2 * bound < half_modulus) where
  one_failure :
      (n a : ℕ) (d : ℤ) (e : Error)
      → fn a ≡ some e
      → is_done a ≡ false
      → loop fn is_done (pos bound) (suc (suc n)) a d
        ≡ waited d (loop fn is_done (pos bound) (suc n) (suc a) (next_delay (pos bound) d))
  unfolding loop
  one_failure n a d e f g =
      ap (after_attempt fn is_done (pos bound) (suc n) (loop fn is_done (pos bound) (suc n)) a d) f
      ∙ ap
          (λ b.
            if b
            then outcome_of (some cancelled) 1 (d ∷ [])
            else waited d (loop fn is_done (pos bound) (suc n) (suc a) (next_delay (pos bound) d)))
          g

  loop-after :
      (k n a d : ℕ) (r : Retried)
      → Fails fn is_done a k
      → loop fn is_done (pos bound) (suc n) (later k a) (pos (capped bound (scaled k d))) ≡ r
      → loop fn is_done (pos bound) (suc (more k n)) a (pos (capped bound d)) ≡ after bound d k r
  loop-after zero n a d r h e = e
  loop-after (suc k) n a d r ((x, f), (g, h)) e =
      one_failure (more k n) a (pos (capped bound d)) x f g
      ∙ ap
          (λ d'.
            waited (pos (capped bound d)) (loop fn is_done (pos bound) (suc (more k n)) (suc a) d'))
          (next_delay-capped bound d small)
      ∙ ap (waited (pos (capped bound d))) (loop-after k n (suc a) (2 * d) r h e)

  succeeds :
      (n a : ℕ) (d : ℤ)
      → fn a ≡ none
      → loop fn is_done (pos bound) (suc n) a d ≡ outcome_of none 1 []
  unfolding loop
  succeeds n a d e =
      ap (after_attempt fn is_done (pos bound) n (loop fn is_done (pos bound) n) a d) e

  gives_up :
      (a : ℕ) (d : ℤ) (x : Error)
      → fn a ≡ some x
      → loop fn is_done (pos bound) 1 a d ≡ outcome_of (some x) 1 []
  unfolding loop
  gives_up a d x e =
      ap (after_attempt fn is_done (pos bound) 0 (loop fn is_done (pos bound) 0) a d) e

  stops :
      (n a : ℕ) (d : ℤ) (x : Error)
      → fn a ≡ some x
      → is_done a ≡ true
      → loop fn is_done (pos bound) (suc (suc n)) a d ≡ outcome_of (some cancelled) 1 (d ∷ [])
  unfolding loop
  stops n a d x e g =
      ap (after_attempt fn is_done (pos bound) (suc n) (loop fn is_done (pos bound) (suc n)) a d) e
      ∙ ap
          (λ b.
            if b
            then outcome_of (some cancelled) 1 (d ∷ [])
            else waited d (loop fn is_done (pos bound) (suc n) (suc a) (next_delay (pos bound) d)))
          g

  gives_up_last :
      (n a : ℕ) (d : ℤ) (x : Error)
      → fn a ≡ some x
      → n ≡ 0
      → loop fn is_done (pos bound) (suc n) a d ≡ outcome_of (some x) 1 []
  gives_up_last zero a d x e z = gives_up a d x e
  gives_up_last (suc n) a d x e z = absurd (omega (arith, z))

  stops_before_last :
      (n a : ℕ) (d : ℤ) (x : Error)
      → fn a ≡ some x
      → is_done a ≡ true
      → 0 < n
      → loop fn is_done (pos bound) (suc n) a d ≡ outcome_of (some cancelled) 1 (d ∷ [])
  stops_before_last zero a d x e g p = absurd (omega (arith, p))
  stops_before_last (suc n) a d x e g p = stops n a d x e g

  -- The loop from the first attempt on, with what comes after `k` failures.
  retry-after :
      (k n d : ℕ) (e : Option Error) (ws : List ℤ)
      → Fails fn is_done 1 k
      → ((a : ℕ)
          → a ≡ suc k
          → loop fn is_done (pos bound) (suc n) a (pos (capped bound (scaled k d)))
            ≡ outcome_of e 1 ws)
      → retry fn is_done (suc (k + n)) (pos (capped bound d)) (pos bound)
        ≡ outcome_of e (suc k) (backoffs bound d k ++ ws)
  unfolding retry
  retry-after k n d e ws h last =
      ap (λ t. loop fn is_done (pos bound) (suc t) 1 (pos (capped bound d))) (sym (more_add k n))
      ∙ loop-after k n 1 d (outcome_of e 1 ws) h (last (later k 1) (omega (arith, later_add k 1)))
      ∙ after-outcome_of k bound d e 1 ws
      ∙ ap (λ m. outcome_of e m (backoffs bound d k ++ ws)) (omega (arith, more_add k 1))

backoffs-last :
    (k bound delay : ℕ)
    → backoffs bound delay k ++ (pos (capped bound (scaled k delay)) ∷ [])
      ≡ backoffs bound delay (suc k)
unfolding backoffs
backoffs-last zero bound delay = refl
backoffs-last (suc k) bound delay =
    ap (◌∷◌ (pos (capped bound delay))) (backoffs-last k bound (2 * delay))

capped_small : (bound d : ℕ) → d ≤ bound → capped bound d ≡ d
capped_small bound d h = ground arith

-- What `Retry` reports: the error, the attempts and the waits.
abbrev pub Reports : Retried → Option Error → ℕ → List ℤ → Type 0
Reports r e n ws = r ≡ record { error = e; attempts = n; waits = ws }

-- For delays whose double fits 64 bits and an initial delay of at most the cap, if `k` attempts failed
-- and the context lasted, then `Retry` with `n` more attempts ends at attempt `k + 1` when that one
-- succeeds, when it fails and was the last, with its error, and when it fails and the context ends in
-- the wait after it, with the context's error; in between it has waited twice as long each time, up
-- to the cap.
pub retry-Reports :
    (fn : ℕ → Option Error) (is_done : ℕ → Bool) (bound initial k n : ℕ)
    → 2 * bound < half_modulus
    → initial ≤ bound
    → Fails fn is_done 1 k
    → let r = retry fn is_done (suc (k + n)) (pos initial) (pos bound) in
      (fn (suc k) ≡ none → Reports r none (suc k) (backoffs bound initial k))
      × (((x : Error)
            → fn (suc k) ≡ some x
            → n ≡ 0
            → Reports r (some x) (suc k) (backoffs bound initial k))
          × ((x : Error)
              → fn (suc k) ≡ some x
              → is_done (suc k) ≡ true
              → 0 < n
              → Reports r (some cancelled) (suc k) (backoffs bound initial (suc k))))
retry-Reports fn is_done bound initial k n small low h =
    let start =
      ap (λ d. retry fn is_done (suc (k + n)) (pos d) (pos bound))
        (sym (capped_small bound initial low)) in
    let tail : (e : Option Error)
        → outcome_of e (suc k) (backoffs bound initial k ++ [])
          ≡ outcome_of e (suc k) (backoffs bound initial k) =
      λ e. ap (outcome_of e (suc k)) (append-nil (backoffs bound initial k)) in
    let run = retry-after fn is_done bound small k n initial in
    (
      (λ e.
          start
          ∙ run none [] h (λ a q. succeeds fn is_done bound small n a _ (ap fn q ∙ e))
          ∙ tail none),
      (
        (λ x e z.
            start
            ∙ run (some x) [] h
                (λ a q. gives_up_last fn is_done bound small n a _ x (ap fn q ∙ e) z)
            ∙ tail (some x)),
        λ x e g p.
            start
            ∙ run (some cancelled) (pos (capped bound (scaled k initial)) ∷ []) h (λ a q.
              stops_before_last fn is_done bound small n a _ x (ap fn q ∙ e) (ap is_done q ∙ g) p)
            ∙ ap (outcome_of (some cancelled) (suc k)) (backoffs-last k bound initial),
      ),
    )
