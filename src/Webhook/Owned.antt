-- ===== src/Webhook/Owned.antt =====
-- While no call returns, every call that is live is the pending one of its path.
use mathlib.Core.Path.{subst}
use gitlab_geo_sync.Prelude.{
  ℕ, String, ◌≡◌, refl, ap, ◌∙◌, sym, Bool, true, false, Option, none, some, List, [], ◌∷◌, All,
  eqb, if◌then◌else◌, ◌==◌, ◌&&◌, arith, eq_iff, Bool-cases, some_inj, inl, inr, eq_false,
}
use gitlab_geo_sync.Webhook.Debounce.{
  TriggerCall, TriggerManager, new_trigger_manager, lookup, cancel_call, cancel_pending, begin,
  is_live, update, fire, end_parent, can_fire, any_call, fetching,
}

-- What may happen while no call returns: a call begins, the wait of one is over so that it fetches, or
-- the context that it was given ends.
pub data Step : Type 0 where
  begins : String → String → Step
  fires : ℕ → Step
  parent_ends : ℕ → Step

abbrev pub step : TriggerManager → Step → TriggerManager
step m (begins path event) = begin m path event
step m (fires i) = fire m i
step m (parent_ends i) = end_parent m i

unfoldable pub take_steps : TriggerManager → List Step → TriggerManager
take_steps m [] = m
take_steps m (s ∷ ss) = take_steps (step m s) ss

true_not_false : true ≡ false → ⊥
true_not_false h = cc

pub none_not_some : {n : ℕ} → none ≡ some n → ⊥
none_not_some h = cc

eqb_ne : (a b : ℕ) → eqb a b ≡ false → a ≡ b → ⊥
eqb_ne a b h e = ground arith

-- A live call is the pending one of its path.
abbrev pub Owned : String → Option ℕ → TriggerCall → Type 0
Owned path o c = is_live path c ≡ true → o ≡ some c.id

abbrev pub AllOwned : TriggerManager → Type 0
AllOwned m = (path : String) → All (Owned path (lookup path m.pending)) m.calls

cancelled_not_live :
    (path : String) (c : TriggerCall) → is_live path (record c { cancelled = true }) ≡ false
unfolding is_live
cancelled_not_live path c = ground arith

-- What is live after the cancellation of a call was live before, and is another call.
cancel_call-is_live :
    (path : String) (i : ℕ) (c : TriggerCall) (b : Bool)
    → eqb c.id i ≡ b
    → is_live path (cancel_call i c) ≡ true
    → (is_live path c ≡ true) × ((c.id ≡ i → ⊥) × ((cancel_call i c).id ≡ c.id))
cancel_call-is_live path i c true e h = absurd (
    true_not_false (
      sym h
      ∙ ap (λ b. is_live path (if b then record c { cancelled = true } else c)) e
      ∙ cancelled_not_live path c))
cancel_call-is_live path i c false e h = (
  sym (ap (λ b. is_live path (if b then record c { cancelled = true } else c)) e) ∙ h,
  ((λ q. eqb_ne c.id i e q), ap (λ b. (if b then record c { cancelled = true } else c).id) e),
)

pub cancelled_call :
    (path : String) (o : Option ℕ) (i : ℕ) (c : TriggerCall)
    → o ≡ some i
    → Owned path o c
    → is_live path (cancel_call i c) ≡ true
    → ⊥
cancelled_call path o i c e own h =
    let (live, (other, same)) = cancel_call-is_live path i c _ refl h in
    other (some_inj (sym (own live) ∙ e))

-- So nothing is asked of the path's calls afterwards.
cancel_pending-dead :
    (path : String) (o x : Option ℕ) (cs : List TriggerCall)
    → All (Owned path o) cs
    → All (Owned path x) (cancel_pending o cs)
unfolding cancel_pending
cancel_pending-dead path none x [] own = tt
cancel_pending-dead path none x (c ∷ cs) (own, owns) =
    ((λ h. absurd (none_not_some (own h))), cancel_pending-dead path none x cs owns)
cancel_pending-dead path (some i) x [] own = tt
cancel_pending-dead path (some i) x (c ∷ cs) (own, owns) = (
  (λ h. absurd (cancelled_call path (some i) i c refl own h)),
  cancel_pending-dead path (some i) x cs owns,
)

-- The calls of another path stay owned.
cancel_pending-Owned :
    (path : String) (o q : Option ℕ) (cs : List TriggerCall)
    → All (Owned path q) cs
    → All (Owned path q) (cancel_pending o cs)
unfolding cancel_pending
cancel_pending-Owned path none q cs own = own
cancel_pending-Owned path (some i) q [] own = tt
cancel_pending-Owned path (some i) q (c ∷ cs) (own, owns) = (
  λ h.
      let (live, (other, same)) = cancel_call-is_live path i c _ refl h in
      own live ∙ ap some (sym same),
  cancel_pending-Owned path (some i) q cs owns,
)

-- A path that something is said of, and another path or the same one.
lookup_begin :
    (path p : String) (n : ℕ) (m : List (String × ℕ)) (o : Option ℕ)
    → ((path ≡ p → ⊥) → lookup path m ≡ o)
    → (path ≡ p → some n ≡ o)
    → lookup path ((p, n) ∷ m) ≡ o
unfolding lookup
lookup_begin path p n m o other same = elim (Bool-cases (path == p)) [
  | inl e ↦ ap (λ b. if b then some n else lookup path m) e ∙ same ((eq_iff path p).0 e)
  | inr e ↦ ap (λ b. if b then some n else lookup path m) e ∙ other (eq_false path p e)
]

-- An old call that is still live after the cancellation is of another path.
kept_Owned :
    (p : String) (n : ℕ) (m : List (String × ℕ)) (path : String) (cs : List TriggerCall)
    → All (Owned p (lookup p m)) cs
    → All (Owned path (lookup path m)) cs
    → All (Owned path (lookup path ((p, n) ∷ m))) (cancel_pending (lookup p m) cs)
kept_Owned p n m path cs ps qs = elim (Bool-cases (path == p)) [
  | inl e ↦
      subst (λ q. All (Owned q (lookup path ((p, n) ∷ m))) (cancel_pending (lookup p m) cs))
        (sym ((eq_iff path p).0 e))
        (cancel_pending-dead p (lookup p m) (lookup path ((p, n) ∷ m)) cs ps)
  | inr e ↦
      subst (λ o. All (Owned path o) (cancel_pending (lookup p m) cs))
        (sym
          (lookup_begin path p n m (lookup path m) (λ ne. refl) λ q. absurd (eq_false path p e q)))
        (cancel_pending-Owned path (lookup p m) (lookup path m) cs qs)
]

live_path : (path : String) (c : TriggerCall) → is_live path c ≡ true → c.project_path ≡ path
unfolding is_live
live_path path c h = ground (arith, eq_iff c.project_path path)

pub new_manager-AllOwned : AllOwned new_trigger_manager
unfolding new_trigger_manager
new_manager-AllOwned path = tt

begin-AllOwned : (m : TriggerManager) (p event : String) → AllOwned m → AllOwned (begin m p event)
unfolding begin
begin-AllOwned m p event own path = (
  (λ h.
      lookup_begin path p m.next_id m.pending _ (λ ne. absurd (ne (sym (live_path path _ h))))
        λ e. refl),
  kept_Owned p m.next_id m.pending path m.calls (own p) (own path),
)

-- What a change of one call keeps of it, it keeps of all.
module _ (P : TriggerCall → Type 0) (can : TriggerCall → Bool) (f : TriggerCall → TriggerCall)
    (keep : (c : TriggerCall) → can c ≡ true → P c → P (f c)) where
  updated_All :
      (b : Bool) (c : TriggerCall) (cs rest : List TriggerCall) (found x : Option String)
      → (b ≡ true → can c ≡ true)
      → P c
      → All P cs
      → All P rest
      → All P
          (if◌then◌else◌ {A = List TriggerCall × Option String} b (f c ∷ cs, x) (c ∷ rest, found)).0
  updated_All true c cs rest found x e p ps more = (keep c (e refl) p, ps)
  updated_All false c cs rest found x e p ps more = (p, more)

  pub update-All : (i : ℕ) (cs : List TriggerCall) → All P cs → All P (update can f i cs).0
  unfolding update
  update-All i [] ps = tt
  update-All i (c ∷ cs) (p, ps) =
      updated_All (eqb c.id i && can c) c cs (update can f i cs).0 (update can f i cs).1
        (some c.project_path) (λ e. ground arith) p ps (update-All i cs ps)

fetching_is_live :
    (path : String) (c : TriggerCall)
    → can_fire c ≡ true
    → is_live path (record c { phase = fetching }) ≡ true
    → is_live path c ≡ true
unfolding is_live
fetching_is_live path c w h = ground (arith, w, h)

done_is_live :
    (path : String) (c : TriggerCall)
    → is_live path (record c { parent_done = true }) ≡ true
    → is_live path c ≡ true
unfolding is_live
done_is_live path c h = h

step-AllOwned : (m : TriggerManager) (s : Step) → AllOwned m → AllOwned (step m s)
unfolding fire end_parent
step-AllOwned m (begins p event) own path = begin-AllOwned m p event own path
step-AllOwned m (fires i) own path =
    update-All (Owned path (lookup path m.pending)) can_fire (λ c. record c { phase = fetching })
      (λ c w o h. o (fetching_is_live path c w h)) i m.calls (own path)
step-AllOwned m (parent_ends i) own path =
    update-All (Owned path (lookup path m.pending)) any_call (λ c. record c { parent_done = true })
      (λ c w o h. o (done_is_live path c h)) i m.calls (own path)

pub take_steps-AllOwned :
    (m : TriggerManager) (ss : List Step) → AllOwned m → AllOwned (take_steps m ss)
unfolding take_steps
take_steps-AllOwned m [] own = own
take_steps-AllOwned m (s ∷ ss) own = take_steps-AllOwned (step m s) ss (step-AllOwned m s own)
