-- ===== src/Go/Exec/Records.antt =====
-- Actions whose calls are known whenever they succeed, whatever was called before.
use gitlab_geo_sync.Prelude.{
  ◌≡◌, refl, ap, ◌∙◌, sym, Bool, true, false, List, [], ◌∷◌, ◌++◌, append-nil, append_assoc,
  if◌then◌else◌,
}
use gitlab_geo_sync.Go.Fmt.{Error, Result, ok, err, panic}
use gitlab_geo_sync.Go.Exec.{
  Exec, Env, Event, Call, call, run, pure, continue, settle, attempt, ◌>>=◌,
}

abbrev pub Recorded {ℓ} : {A : Type ℓ} → List Event → List Event → Result A × List Event → Type 0
Recorded h es (ok a, h') = h' ≡ h ++ es
Recorded h es (err e, h') = Unit
Recorded h es (panic m, h') = Unit

-- What an action that succeeds has called.
abbrev pub Records {ℓ} : {A : Type ℓ} → List Event → Exec A → Type 0
Records es m = (h : List Event) → Recorded h es (m h)

abbrev pub Fails {ℓ} : {A : Type ℓ} → Result A → Type 0
Fails (ok a) = ⊥
Fails (err e) = Unit
Fails (panic m) = Unit

module _ {ℓ} {A : Type ℓ} where
  pub pure-Records : (a : A) → Records [] (pure a)
  pure-Records a h = sym (append-nil h)

  then-Recorded :
      (h h' a b : List Event) (r : Result A × List Event)
      → h' ≡ h ++ a
      → Recorded h' b r
      → Recorded h (a ++ b) r
  then-Recorded h h' a b (ok x, k) e f = f ∙ ap (λ l. l ++ b) e ∙ append_assoc h a b
  then-Recorded h h' a b (err x, k) e f = tt
  then-Recorded h h' a b (panic x, k) e f = tt

  pub if-Records :
      (b : Bool) (es : List Event) (m n : Exec A)
      → Records es m
      → Records [] n
      → Records (if b then es else []) (if b then m else n)
  if-Records true es m n p q = p
  if-Records false es m n p q = q

module _ {ℓ κ} {A : Type ℓ} {B : Type κ} where
  continue-Recorded :
      (h a b : List Event) (r : Result A × List Event) (f : A → Exec B)
      → Recorded h a r
      → ((x : A) → Records b (f x))
      → Recorded h (a ++ b) (continue r.0 f r.1)
  continue-Recorded h a b (ok x, h') f e k = then-Recorded h h' a b (f x h') e (k x h')
  continue-Recorded h a b (err x, h') f e k = tt
  continue-Recorded h a b (panic x, h') f e k = tt

  pub bind-Records :
      (a b : List Event) (m : Exec A) (f : A → Exec B)
      → Records a m
      → ((x : A) → Records b (f x))
      → Records (a ++ b) (m >>= f)
  bind-Records a b m f p k h = continue-Recorded h a b (m h) f (p h) k

  attempted-Recorded :
      (h a b : List Event) (r : Result A × List Event) (f : Result A → Exec B)
      → Recorded h a r
      → ((x : A) → Records b (f (ok x)))
      → ((e : Error) (h' : List Event) → Fails (f (err e) h').0)
      → Recorded h (a ++ b) (continue (settle r).0 f (settle r).1)
  attempted-Recorded h a b (ok x, h') f e k g = then-Recorded h h' a b (f (ok x) h') e (k x h')
  attempted-Recorded h a b (err x, h') f e k g = failing (f (err x) h') (g x h')
    where
      failing : (r : Result B × List Event) → Fails r.0 → Recorded h (a ++ b) r
      failing (ok y, l) d = absurd d
      failing (err y, l) d = tt
      failing (panic y, l) d = tt
  attempted-Recorded h a b (panic x, h') f e k g = tt

  -- An attempt whose error is passed on.
  pub attempt-Records :
      (a b : List Event) (m : Exec A) (f : Result A → Exec B)
      → Records a m
      → ((x : A) → Records b (f (ok x)))
      → ((e : Error) (h : List Event) → Fails (f (err e) h).0)
      → Records (a ++ b) (attempt m >>= f)
  attempt-Records a b m f p k g h = attempted-Recorded h a b (m h) f (p h) k g

pub run-Records : (env : Env) (c : Call) → Records (call c ∷ []) (run env c)
run-Records env c h = refl
