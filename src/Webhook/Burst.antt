-- ===== src/Webhook/Burst.antt =====
-- What the debouncing achieves, and where it does not.
use gitlab_geo_sync.Prelude.{
  ℕ, suc, String, ◌≡◌, refl, ap, ◌∙◌, Bool, true, false, Option, none, some, List, [], ◌∷◌, All,
  count_if, count_if-nil, count_if-cons, if◌then◌else◌, eq_refl, Bool-cases, inl, inr,
}
use gitlab_geo_sync.Webhook.Owned.{
  none_not_some, Owned, Step, take_steps, cancelled_call, new_manager-AllOwned, take_steps-AllOwned,
}
use gitlab_geo_sync.Webhook.Debounce.{
  TriggerCall, TriggerManager, Phase, waiting, returned, new_trigger_manager, lookup, delete,
  cancel_pending, begin, is_live, abort, update,
}

-- How many calls of a path have neither been cancelled nor returned.
unfoldable pub live_calls : String → TriggerManager → ℕ
live_calls path m = count_if (is_live path) m.calls

count_if-skip :
    (path : String) (c : TriggerCall) (cs : List TriggerCall)
    → (is_live path c ≡ true → ⊥)
    → count_if (is_live path) cs ≡ 0
    → count_if (is_live path) (c ∷ cs) ≡ 0
count_if-skip path c cs h e = elim (Bool-cases (is_live path c)) [
  | inl live ↦ absurd (h live)
  | inr dead ↦
      count_if-cons (is_live path) c cs
      ∙ ap (λ b. if b then suc (count_if (is_live path) cs) else count_if (is_live path) cs) dead
      ∙ e
]

-- The cancellation leaves no live call of the path.
cancel_pending-none :
    (path : String) (o : Option ℕ) (cs : List TriggerCall)
    → All (Owned path o) cs
    → count_if (is_live path) (cancel_pending o cs) ≡ 0
unfolding cancel_pending
cancel_pending-none path none [] own = count_if-nil (is_live path)
cancel_pending-none path none (c ∷ cs) (own, owns) =
    count_if-skip path c cs (λ h. none_not_some (own h)) (cancel_pending-none path none cs owns)
cancel_pending-none path (some i) [] own = count_if-nil (is_live path)
cancel_pending-none path (some i) (c ∷ cs) (own, owns) =
    count_if-skip path _ _ (cancelled_call path (some i) i c refl own)
      (cancel_pending-none path (some i) cs owns)

new_is_live :
    (path event : String) (n : ℕ)
    → is_live path (record {
      id = n;
      project_path = path;
      event_type = event;
      phase = waiting;
      cancelled = false;
      parent_done = false;
    })
      ≡ true
unfolding is_live
new_is_live path event n = rw (eq_refl path)

-- After any sequence of steps of a new manager in which calls begin, for whichever paths, end their
-- wait and fetch, and lose the context that they were given, and none of them returns: a call that
-- begins for a path is the only live one of the path.
pub take_steps-live_calls :
    (ss : List Step) (path event : String)
    → live_calls path (begin (take_steps new_trigger_manager ss) path event) ≡ 1
unfolding live_calls begin
take_steps-live_calls ss path event =
    let m = take_steps new_trigger_manager ss in
    let rest = cancel_pending (lookup path m.pending) m.calls in
    count_if-cons (is_live path) _ rest
    ∙ ap (λ b. if b then suc (count_if (is_live path) rest) else count_if (is_live path) rest)
        (new_is_live path event m.next_id)
    ∙ ap suc (
        cancel_pending-none path (lookup path m.pending) m.calls
          (take_steps-AllOwned new_trigger_manager ss new_manager-AllOwned path))

abbrev call_of : ℕ → String → String → Phase → Bool → TriggerCall
call_of n path event phase cancelled = record {
  id = n;
  project_path = path;
  event_type = event;
  phase = phase;
  cancelled = cancelled;
  parent_done = false;
}

abbrev two_begun : String → String → String → TriggerManager
two_begun path e₁ e₂ = record {
  next_id = 2;
  pending = (path, 1) ∷ (path, 0) ∷ [];
  calls = call_of 1 path e₂ waiting false ∷ call_of 0 path e₁ waiting true ∷ [];
}

begin-twice :
    (path e₁ e₂ : String) → begin (begin new_trigger_manager path e₁) path e₂ ≡ two_begun path e₁ e₂
unfolding begin new_trigger_manager lookup cancel_pending
begin-twice path e₁ e₂ = rw (eq_refl path)

abbrev first_returned : String → String → String → TriggerManager
first_returned path e₁ e₂ = record {
  next_id = 2;
  pending = [];
  calls = call_of 1 path e₂ waiting false ∷ call_of 0 path e₁ returned true ∷ [];
}

delete-twice : (path : String) → delete path ((path, 1) ∷ (path, 0) ∷ []) ≡ []
unfolding delete
delete-twice path = rw (eq_refl path)

abort-first : (path e₁ e₂ : String) → abort (two_begun path e₁ e₂) 0 ≡ first_returned path e₁ e₂
unfolding abort update
abort-first path e₁ e₂ = rw (delete-twice path)

begin-third :
    (path e₁ e₂ e₃ : String) → live_calls path (begin (first_returned path e₁ e₂) path e₃) ≡ 2
unfolding live_calls begin lookup cancel_pending is_live count_if
begin-third path e₁ e₂ e₃ = rw (eq_refl path)

-- A cancelled call that returns after a newer one began takes the newer one's entry out, so the next
-- trigger cancels nothing: for every path, after two triggers, the return of the first and a third
-- trigger, two calls of the path are live.
pub abort-live_calls :
    (path e₁ e₂ e₃ : String)
    → live_calls path (begin (abort (begin (begin new_trigger_manager path e₁) path e₂) 0) path e₃)
      ≡ 2
abort-live_calls path e₁ e₂ e₃ =
    ap (λ m. live_calls path (begin (abort m 0) path e₃)) (begin-twice path e₁ e₂)
    ∙ ap (λ m. live_calls path (begin m path e₃)) (abort-first path e₁ e₂)
    ∙ begin-third path e₁ e₂ e₃
