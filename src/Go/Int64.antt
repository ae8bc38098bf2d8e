-- ===== src/Go/Int64.antt =====
-- Signed 64-bit integers: values of ℤ, brought back into range after each operation.
use gitlab_geo_sync.Prelude.{
  ℕ, suc, ◌+◌, ◌-◌, ◌*◌, ◌/◌, ◌%◌, ◌≤◌, ◌<◌, ◌≡◌, Bool, ltb, leb, eqb, true, if◌then◌else◌, arith,
}

-- `negsuc n` is -(n + 1).
pub data ℤ : Type 0 where
  pos : ℕ → ℤ
  negsuc : ℕ → ℤ

abbrev pub pos_part : ℤ → ℕ
pos_part (pos n) = n
pos_part (negsuc n) = 0

abbrev pub neg_part : ℤ → ℕ
neg_part (pos n) = 0
neg_part (negsuc n) = suc n

-- a - b, as an integer.
abbrev pub sub_ℕ : ℕ → ℕ → ℤ
sub_ℕ a b = if leb b a then pos (a - b) else negsuc (b - a - 1)

abbrev pub modulus : ℕ
modulus = 18446744073709551616

abbrev pub half_modulus : ℕ
half_modulus = 9223372036854775808

-- Two's complement: the value of the low 64 bits.
unfoldable pub wrap : ℤ → ℤ
wrap (pos n) = let m = n % modulus in if ltb m half_modulus then pos m else negsuc (modulus - 1 - m)
wrap (negsuc n) =
    let m = n % modulus in if ltb m half_modulus then negsuc m else pos (modulus - 1 - m)

infixl 65 ◌+ℤ◌ ◌-ℤ◌
unfoldable pub ◌+ℤ◌ : ℤ → ℤ → ℤ
unfolding wrap
a +ℤ b = wrap (sub_ℕ (pos_part a + pos_part b) (neg_part a + neg_part b))

unfoldable pub ◌-ℤ◌ : ℤ → ℤ → ℤ
unfolding wrap
a -ℤ b = wrap (sub_ℕ (pos_part a + neg_part b) (neg_part a + pos_part b))

-- Go's `-x`.
unfoldable pub neg : ℤ → ℤ
unfolding wrap
neg a = wrap (sub_ℕ (neg_part a) (pos_part a))

-- Go's `2 * x`.
unfoldable pub double : ℤ → ℤ
unfolding wrap
double a = wrap (sub_ℕ (2 * pos_part a) (2 * neg_part a))

-- Go's `x / 10`, which rounds towards zero.
unfoldable pub tenth : ℤ → ℤ
tenth a = sub_ℕ (pos_part a / 10) (neg_part a / 10)

abbrev pub ltb_ℤ : ℤ → ℤ → Bool
ltb_ℤ a b = ltb (pos_part a + neg_part b) (pos_part b + neg_part a)

abbrev pub leb_ℤ : ℤ → ℤ → Bool
leb_ℤ a b = leb (pos_part a + neg_part b) (pos_part b + neg_part a)

abbrev pub eqb_ℤ : ℤ → ℤ → Bool
eqb_ℤ a b = eqb (pos_part a + neg_part b) (pos_part b + neg_part a)

pub eqb_ℤ_iff : (a b : ℤ) → eqb_ℤ a b ≡ true → a ≡ b
eqb_ℤ_iff a b h = ground arith

-- The range of an int64.
pub record InRange (a : ℤ) : Type 0 where
  pub above : neg_part a ≤ half_modulus
  pub below : pos_part a < half_modulus

pub wrap-InRange : (a : ℤ) → InRange a → wrap a ≡ a
unfolding wrap
wrap-InRange (pos n) h = ground (arith, h.below)
wrap-InRange (negsuc n) h = ground (arith, h.above)
