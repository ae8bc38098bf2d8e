-- ===== src/Go/Fmt.antt =====
-- Formatted text and errors. A call of `fmt.Sprintf` or `fmt.Errorf` is kept as its format and its
-- arguments, so two texts agree when they were made by the same call.
use gitlab_geo_sync.Prelude.{ℕ, String}
use gitlab_geo_sync.Go.Int64.{ℤ}

mutual
  pub data Text : Type 0 where
    lit : String → Text
    sprintf : String → Args → Text

  pub data Args : Type 0 where
    end : Args
    str : String → Args → Args
    nat : ℕ → Args → Args
    int : ℤ → Args → Args
    text : Text → Args → Args
    cause : Error → Args → Args

  -- `auth_required` is the sentinel of the registry reconciler, `no_rows` that of the database
  -- driver, `cancelled` the error of a context; `foreign` comes from code outside the program.
  pub data Error : Type 0 where
    errorf : String → Args → Error
    auth_required : Error
    no_rows : Error
    cancelled : Error
    foreign : String → Error

-- The results of a function that returns `(value, error)`; `panic` stands for a Go run-time panic.
pub data Result {ℓ} (A : Type ℓ) : Type ℓ where
  ok : A → Result A
  err : Error → Result A
  panic : String → Result A

infixl 10 ◌>>=◌ ◌>>◌
abbrev pub ◌>>=◌ {ℓ κ} : {A : Type ℓ} {B : Type κ} → Result A → (A → Result B) → Result B
ok a >>= f = f a
err e >>= f = err e
panic m >>= f = panic m

abbrev pub ◌>>◌ {ℓ κ} : {A : Type ℓ} {B : Type κ} → Result A → Result B → Result B
m >> k = m >>= λ _. k
