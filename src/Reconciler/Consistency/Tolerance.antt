-- ===== src/Reconciler/Consistency/Tolerance.antt =====
-- The tolerance of the comparison.
use gitlab_geo_sync.Prelude.{
  ℕ, ◌+◌, ◌-◌, ◌/◌, ◌≤◌, ◌<◌, ◌≡◌, ◌⊎◌, inl, inr, ◌↔◌, refl, true, if◌then◌else◌, suc, arith, ltb,
}
use gitlab_geo_sync.Go.Int64.{
  ℤ, pos, ◌-ℤ◌, neg, tenth, wrap, ltb_ℤ, leb_ℤ, half_modulus, negsuc, sub_ℕ,
}
use gitlab_geo_sync.Reconciler.Consistency.{is_approx_equal}

distance : ℤ → ℤ → ℤ
distance a b = let d = a -ℤ b in if ltb_ℤ d (pos 0) then neg d else d

sub_ℕ-cases :
    (a b : ℕ) → ((b ≤ a) × (sub_ℕ a b ≡ pos (a - b))) ⊎ ((a < b) × (sub_ℕ a b ≡ negsuc (b - a - 1)))
sub_ℕ-cases a b = ground arith

difference : (a b : ℕ) → a < half_modulus → b < half_modulus → pos a -ℤ pos b ≡ wrap (sub_ℕ a b)
unfolding ◌-ℤ◌
difference a b ha hb = ground arith

difference_pos : (a b : ℕ) → a < half_modulus → b ≤ a → pos a -ℤ pos b ≡ pos (a - b)
unfolding ◌-ℤ◌ wrap
difference_pos a b ha h = ground arith

difference_negsuc : (a b : ℕ) → b < half_modulus → a < b → pos a -ℤ pos b ≡ negsuc (b - a - 1)
unfolding ◌-ℤ◌ wrap
difference_negsuc a b hb h = ground arith

neg-negsuc : (n : ℕ) → suc n < half_modulus → neg (negsuc n) ≡ pos (suc n)
unfolding neg wrap
neg-negsuc n h = ground arith

distance-pos : (a b : ℕ) → a < half_modulus → b ≤ a → distance (pos a) (pos b) ≡ pos (a - b)
unfolding distance
distance-pos a b ha h = rw (difference_pos a b ha h) (ground arith)

distance-negsuc : (a b : ℕ) → b < half_modulus → a < b → distance (pos a) (pos b) ≡ pos (b - a)
unfolding distance
distance-negsuc a b hb h =
    rw (difference_negsuc a b hb h, neg-negsuc (b - a - 1) (omega arith)) (ground arith)

tolerance : ℤ → ℤ → ℤ
tolerance a b =
    let t = if ltb_ℤ a b then tenth b else tenth a in if ltb_ℤ t (pos 5) then pos 5 else t

tolerance-ge :
    (a b : ℕ) → b ≤ a → tolerance (pos a) (pos b) ≡ pos (if ltb (a / 10) 5 then 5 else a / 10)
unfolding tolerance tenth
tolerance-ge a b h = ground arith

tolerance-lt :
    (a b : ℕ) → a < b → tolerance (pos a) (pos b) ≡ pos (if ltb (b / 10) 5 then 5 else b / 10)
unfolding tolerance tenth
tolerance-lt a b h = ground arith

is_approx_equal-distance : (a b : ℤ) → is_approx_equal a b ≡ leb_ℤ (distance a b) (tolerance a b)
unfolding is_approx_equal distance tolerance
is_approx_equal-distance a b = refl

within-ge :
    (a b : ℕ)
    → b ≤ a
    → (leb_ℤ (pos (a - b)) (pos (if ltb (a / 10) 5 then 5 else a / 10)) ≡ true)
      ↔ (((a ≤ b + 5) × (b ≤ a + 5)) ⊎ ((a ≤ b + a / 10) × (b ≤ a + b / 10)))
within-ge a b h = ground arith

within-lt :
    (a b : ℕ)
    → a < b
    → (leb_ℤ (pos (b - a)) (pos (if ltb (b / 10) 5 then 5 else b / 10)) ≡ true)
      ↔ (((a ≤ b + 5) × (b ≤ a + 5)) ⊎ ((a ≤ b + a / 10) × (b ≤ a + b / 10)))
within-lt a b h = ground arith

-- For estimates that are not negative, the test does not depend on the order and holds exactly when
-- the two differ by at most five or by at most a tenth, rounded down, of the larger one.
pub is_approx_equal-lem :
    (a b : ℕ)
    → a < half_modulus
    → b < half_modulus
    → (is_approx_equal (pos a) (pos b) ≡ true)
      ↔ (((a ≤ b + 5) × (b ≤ a + 5)) ⊎ ((a ≤ b + a / 10) × (b ≤ a + b / 10)))
is_approx_equal-lem a b ha hb = elim (sub_ℕ-cases a b) [
  | inl (h, e) ↦
      rw (is_approx_equal-distance (pos a) (pos b), distance-pos a b ha h, tolerance-ge a b h)
        (within-ge a b h)
  | inr (h, e) ↦
      rw (is_approx_equal-distance (pos a) (pos b), distance-negsuc a b hb h, tolerance-lt a b h)
        (within-lt a b h)
]
