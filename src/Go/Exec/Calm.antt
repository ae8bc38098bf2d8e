-- ===== src/Go/Exec/Calm.antt =====
-- Actions that end with a value or an error, never with a panic, whatever was called before.
use gitlab_geo_sync.Prelude.{List, Bool, true, false, if◌then◌else◌}
use gitlab_geo_sync.Go.Fmt.{Result, ok, err, panic}
use gitlab_geo_sync.Go.Exec.{Exec, Event, continue, settle, attempt, ◌>>=◌}

abbrev pub IsCalm {ℓ} : {A : Type ℓ} → Result A → Type 0
IsCalm (ok a) = Unit
IsCalm (err e) = Unit
IsCalm (panic m) = ⊥

abbrev pub Calm {ℓ} : {A : Type ℓ} → Exec A → Type 0
Calm m = (h : List Event) → IsCalm (m h).0

module _ {ℓ κ} {A : Type ℓ} {B : Type κ} where
  continue-Calm :
      (r : Result A) (f : A → Exec B) (h : List Event)
      → IsCalm r
      → ((a : A) → Calm (f a))
      → IsCalm (continue r f h).0
  continue-Calm (ok a) f h c k = k a h
  continue-Calm (err e) f h c k = tt
  continue-Calm (panic m) f h c k = absurd c

  pub bind-Calm : (m : Exec A) (f : A → Exec B) → Calm m → ((a : A) → Calm (f a)) → Calm (m >>= f)
  bind-Calm m f c k h = continue-Calm (m h).0 f (m h).1 (c h) k

module _ {ℓ} {A : Type ℓ} where
  settle-IsCalm : (r : Result A) (h : List Event) → IsCalm r → IsCalm (settle (r, h)).0
  settle-IsCalm (ok a) h c = tt
  settle-IsCalm (err e) h c = tt
  settle-IsCalm (panic m) h c = absurd c

  pub attempt-Calm : (m : Exec A) → Calm m → Calm (attempt m)
  attempt-Calm m c h = settle-IsCalm (m h).0 (m h).1 (c h)

  -- What an attempt hands over is no panic either.
  pub attempt_bind-Calm {κ} :
      {B : Type κ} (m : Exec A) (f : Result A → Exec B)
      → Calm m
      → ((r : Result A) → IsCalm r → Calm (f r))
      → Calm (attempt m >>= f)
  attempt_bind-Calm m f c k h = go (m h).0 (m h).1 (c h)
    where
      go :
          (r : Result A) (h' : List Event)
          → IsCalm r
          → IsCalm (continue (settle (r, h')).0 f (settle (r, h')).1).0
      go (ok a) h' c = k (ok a) tt h'
      go (err e) h' c = k (err e) tt h'
      go (panic m) h' c = absurd c

  pub if-Calm : (b : Bool) (m n : Exec A) → Calm m → Calm n → Calm (if b then m else n)
  if-Calm true m n c k = c
  if-Calm false m n c k = k
