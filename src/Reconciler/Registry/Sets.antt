-- ===== src/Reconciler/Registry/Sets.antt =====
-- What the sets and their comparison mean.
use mathlib.Core.Path.{subst}
use gitlab_geo_sync.Prelude.{
  ℕ, suc, ◌≤◌, String, ◌≡◌, ◌↔◌, refl, ap, ◌∙◌, sym, Bool, true, false, ◌&&◌, ◌||◌, List, [], ◌∷◌,
  length, all, eqb, if◌then◌else◌, ◌==◌, arith, Bool-cases, inl, inr, ◌⊎◌, eq_iff, eq_refl,
}
use gitlab_geo_sync.Reconciler.Registry.{mem, to_set, equal_set}

-- Each key once.
abbrev Distinct : List String → Type 0
Distinct [] = Unit
Distinct (s ∷ ss) = (mem s ss ≡ false) × Distinct ss

to_set-Distinct : (ss : List String) → Distinct (to_set ss)
unfolding to_set
to_set-Distinct [] = tt
to_set-Distinct (s ∷ ss) = elim (Bool-cases (mem s (to_set ss))) [
  | inl e ↦ rw e (to_set-Distinct ss)
  | inr e ↦ rw e (e, to_set-Distinct ss)
]

or_true : (b c : Bool) → c ≡ true → b || c ≡ c
or_true true c h = sym h
or_true false c h = refl

or_same : (k s : String) (m : List String) → mem s m ≡ true → k == s || mem k m ≡ mem k m
or_same k s m h = elim (Bool-cases (k == s)) [
  | inl e ↦ or_true (k == s) (mem k m) (subst (λ x. mem x m ≡ true) (sym ((eq_iff k s).0 e)) h)
  | inr e ↦ rw e
]

mem-to_set : (k : String) (ss : List String) → mem k (to_set ss) ≡ mem k ss
unfolding to_set
mem-to_set k [] = refl
mem-to_set k (s ∷ ss) = elim (Bool-cases (mem s (to_set ss))) [
  | inl e ↦ rw e (sym (or_same k s (to_set ss) e) ∙ ap (λ b. k == s || b) (mem-to_set k ss))
  | inr e ↦ rw e (ap (λ b. k == s || b) (mem-to_set k ss))
]

abbrev Subset : List String → List String → Type 0
Subset a b = (k : String) → mem k a ≡ true → mem k b ≡ true

abbrev remove : String → List String → List String
remove k [] = []
remove k (x ∷ xs) = if k == x then xs else x ∷ remove k xs

length-remove :
    (k : String) (b : List String) → mem k b ≡ true → suc (length (remove k b)) ≡ length b
length-remove k [] h = cc
length-remove k (x ∷ xs) h = elim (Bool-cases (k == x)) [
  | inl e ↦ rw e
  | inr e ↦ rw e (ap suc (length-remove k xs (rw e at h)))
]

or_right : (b c : Bool) → c ≡ true → b || c ≡ true
or_right true c h = refl
or_right false c h = h

or_left_false : (b c : Bool) → b ≡ false → b || c ≡ true → c ≡ true
or_left_false true c e h = cc
or_left_false false c e h = h

or_map : (b c d : Bool) → (c ≡ true → d ≡ true) → b || c ≡ true → b || d ≡ true
or_map true c d f h = refl
or_map false c d f h = f h

mem-remove :
    (j k : String) (b : List String) → (j == k) ≡ false → mem j b ≡ true → mem j (remove k b) ≡ true
mem-remove j k [] n h = h
mem-remove j k (x ∷ xs) n h = elim (Bool-cases (k == x)) [
  | inl e ↦
      rw e
        (or_left_false (j == x) (mem j xs) (subst (λ y. (j == y) ≡ false) ((eq_iff k x).0 e) n) h)
  | inr e ↦ rw e (or_map (j == x) (mem j xs) (mem j (remove k xs)) (mem-remove j k xs n) h)
]

mem_head : (k : String) (a : List String) → mem k (k ∷ a) ≡ true
mem_head k a = rw (eq_refl k)

clash : {b : Bool} → b ≡ true → b ≡ false → ⊥
clash h e = cc

other_key : (j k : String) (a : List String) → mem k a ≡ false → mem j a ≡ true → (j == k) ≡ false
other_key j k a n h = elim (Bool-cases (j == k)) [
  | inl e ↦ absurd (clash (subst (λ x. mem x a ≡ true) ((eq_iff j k).0 e) h) n)
  | inr e ↦ e
]

-- Distinct keys that all occur in a list are no more than the list.
subset_length : (a b : List String) → Distinct a → Subset a b → length a ≤ length b
subset_length [] b d h = omega arith
subset_length (k ∷ a) b (n, d) h =
    let rest =
      subset_length a (remove k b) d
        λ j m. mem-remove j k b (other_key j k a n m) (h j (or_right (j == k) (mem j a) m)) in
    omega (arith, rest, length-remove k b (h k (mem_head k a)))

mem_cases : (j k : String) (a : List String) → mem j (k ∷ a) ≡ true → (j ≡ k) ⊎ (mem j a ≡ true)
mem_cases j k a h = elim (Bool-cases (j == k)) [
  | inl e ↦ inl ((eq_iff j k).0 e)
  | inr e ↦ inr (or_left_false (j == k) (mem j a) e h)
]

Subset-cons : (k : String) (a b : List String) → mem k b ≡ true → Subset a b → Subset (k ∷ a) b
Subset-cons k a b m h j r = elim (mem_cases j k a r) [
  | inl e ↦ subst (λ x. mem x b ≡ true) (sym e) m
  | inr t ↦ h j t
]

-- Of the same number, they are all of a list with distinct keys.
Subset-sym : (a b : List String) → Distinct a → Subset a b → length a ≡ length b → Subset b a
Subset-sym a b d h e k m = elim (Bool-cases (mem k a)) [
  | inl t ↦ t
  | inr f ↦
      let more : length (k ∷ a) ≤ length b =
        subset_length (k ∷ a) b (f, d) (Subset-cons k a b m h) in
      absurd (omega (arith, more, e))
]

and_inv : (b c : Bool) → b && c ≡ true → (b ≡ true) × (c ≡ true)
and_inv true c h = (refl, h)
and_inv false c h = cc

all-Subset : (a b : List String) → all (λ k. mem k b) a ≡ true → Subset a b
all-Subset [] b h = λ k m. cc
all-Subset (x ∷ a) b h =
    let (m, r) = and_inv (mem x b) (all (λ k. mem k b) a) h in
    Subset-cons x a b m (all-Subset a b r)

Subset-all : (a b : List String) → Subset a b → all (λ k. mem k b) a ≡ true
Subset-all [] b h = refl
Subset-all (x ∷ a) b h =
    rw (h x (mem_head x a)) (Subset-all a b λ j m. h j (or_right (j == x) (mem j a) m))

same_bool : (b c : Bool) → (b ≡ true → c ≡ true) → (c ≡ true → b ≡ true) → b ≡ c
same_bool true c f g = sym (f refl)
same_bool false true f g = g refl
same_bool false false f g = refl

equal_set_if : (b c : Bool) → (if b then c else false) ≡ true → (b ≡ true) × (c ≡ true)
equal_set_if true c h = (refl, h)
equal_set_if false c h = cc

eqb_eq : (a b : ℕ) → eqb a b ≡ true → a ≡ b
eqb_eq a b h = ground arith

eq_eqb : (a b : ℕ) → a ≡ b → eqb a b ≡ true
eq_eqb a b h = ground arith

-- For lists with distinct keys, the test on length and membership is that of the sets.
equal_set-same :
    (a b : List String) → Distinct a → equal_set a b ≡ true → (k : String) → mem k a ≡ mem k b
unfolding equal_set
equal_set-same a b d h k =
    let (l, m) = equal_set_if (eqb (length a) (length b)) (all (λ x. mem x b) a) h in
    let s : Subset a b = all-Subset a b m in
    same_bool (mem k a) (mem k b) (s k) (Subset-sym a b d s (eqb_eq _ _ l) k)

same-equal_set :
    (a b : List String)
    → Distinct a
    → Distinct b
    → ((k : String) → mem k a ≡ mem k b)
    → equal_set a b ≡ true
unfolding equal_set
same-equal_set a b da db h =
    let s : Subset a b = λ k m. sym (h k) ∙ m in
    let t : Subset b a = λ k m. h k ∙ m in
    let le : length a ≤ length b = subset_length a b da s in
    let ge : length b ≤ length a = subset_length b a db t in
    rw (eq_eqb (length a) (length b) (omega (arith, le, ge))) (Subset-all a b s)

-- Two tag lists of a repository are reported as equal exactly when they hold the same tags, whatever
-- their order and however often one occurs.
pub equal_set-to_set :
    (ps ss : List String)
    → (equal_set (to_set ps) (to_set ss) ≡ true) ↔ ((k : String) → mem k ps ≡ mem k ss)
equal_set-to_set ps ss = (
  (λ h k.
      sym (mem-to_set k ps)
      ∙ equal_set-same (to_set ps) (to_set ss) (to_set-Distinct ps) h k
      ∙ mem-to_set k ss),
  λ h.
      same-equal_set (to_set ps) (to_set ss) (to_set-Distinct ps) (to_set-Distinct ss)
        λ k. mem-to_set k ps ∙ h k ∙ sym (mem-to_set k ss),
)
