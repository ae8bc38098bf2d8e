-- ===== src/Reconciler/Runner/Sweeps.antt =====
-- Which reconcilers a sweep runs.
use gitlab_geo_sync.Prelude.{
  ◌<◌, Bool, false, eqb, ◌&&◌, arith, ◌≡◌, refl, ap, ◌∙◌, true, false, List, [], ◌∷◌, ◌++◌, ◌⊎◌,
  inl, inr, if◌then◌else◌,
}
use gitlab_geo_sync.Go.Fmt.{Result, ok}
use gitlab_geo_sync.Go.Exec.{Exec, Env, Event, pure, continue, ◌>>=◌}
use gitlab_geo_sync.Reconciler.{Outcome}
use gitlab_geo_sync.Reconciler.Runner.{
  Reconciler, Log, Level, debug, info, warn, level_of, logged, sweep,
}

-- Every reconciler returns a result.
abbrev pub Returns : List Reconciler → Type 0
Returns [] = Unit
Returns (r ∷ rs) = ((h : List Event) → (o : Outcome) × ((r.reconcile h).0 ≡ ok o)) × Returns rs

-- The calls of the reconcilers one after the other.
abbrev pub in_turn : List Reconciler → List Event → List Event
in_turn [] h = h
in_turn (r ∷ rs) h = in_turn rs (r.reconcile h).1

-- The context lasts until the last of them is started.
abbrev pub Lasts : Env → List Reconciler → List Event → Type 0
Lasts env [] h = Unit
Lasts env (r ∷ rs) h = (env.is_done h ≡ false) × Lasts env rs (r.reconcile h).1

-- One reconciler and what follows it, from the reconciler's result.
abbrev then_rest : Reconciler → Exec Log → Result Outcome → List Event → Result Log × List Event
then_rest r rest res h = continue res (λ o. rest >>= logged r o) h

after_result :
    (r : Reconciler) (rest : Exec Log) (res : Result Outcome) (h h' : List Event) (o : Outcome)
    (log : Log)
    → res ≡ ok o
    → rest h ≡ (ok log, h')
    → then_rest r rest res h ≡ (ok ((r.name, level_of o) ∷ log), h')
after_result r rest res h h' o log e f =
    ap (λ x. then_rest r rest x h) e
    ∙ ap (λ (x : Result Log × List Event). continue x.0 (logged r o) x.1) f

-- The level that the result of a reconciler calls for.
pub data Fits (o : Outcome) : Level → Type 0 where
  in_sync : o.ok ≡ true → o.remaining ≡ 0 → Fits o debug
  partly : o.ok ≡ true → 0 < o.remaining → Fits o info
  drifted : o.ok ≡ false → Fits o warn

by_remaining :
    (o : Outcome) (b : Bool)
    → o.ok ≡ true
    → eqb o.remaining 0 ≡ b
    → Fits o (if true && b then debug else (if true then info else warn))
by_remaining o true e q = in_sync e (ground arith)
by_remaining o false e q = partly e (ground arith)

by_ok :
    (o : Outcome) (b : Bool)
    → o.ok ≡ b
    → Fits o (if b && eqb o.remaining 0 then debug else (if b then info else warn))
by_ok o true e = by_remaining o (eqb o.remaining 0) e refl
by_ok o false e = drifted e

level_of-Fits : (o : Outcome) → Fits o (level_of o)
unfolding level_of
level_of-Fits o = by_ok o o.ok refl

-- One entry for each reconciler in order, with the level that its result calls for.
abbrev pub LogFits : List Reconciler → List Event → Log → Type 0
LogFits [] h [] = Unit
LogFits [] h (e ∷ log) = ⊥
LogFits (r ∷ rs) h [] = ⊥
LogFits (r ∷ rs) h ((name, level) ∷ log) =
    (name ≡ r.name)
    × (((o : Outcome) × (((r.reconcile h).0 ≡ ok o) × Fits o level))
        × LogFits rs (r.reconcile h).1 log)

-- A sweep with nothing to run, or that starts after the context ended, runs nothing.
sweep_none :
    (env : Env) (rs : List Reconciler) (h : List Event)
    → (rs ≡ []) ⊎ (env.is_done h ≡ true)
    → sweep env rs h ≡ (ok [], h)
unfolding sweep
sweep_none env [] h e = refl
sweep_none env (r ∷ rs) h (inl e) = cc
sweep_none env (r ∷ rs) h (inr e) =
    ap (λ b. (if b then pure [] else (r.reconcile >>= λ o. sweep env rs >>= logged r o)) h) e

-- If the context lasts until the last of the first reconcilers is started, each of them returns a
-- result, as the interface has it, and there are no others or the context has ended after them, then a
-- sweep runs exactly the first ones, each once and in order, whatever their results, and logs one entry
-- for each: debug if it is OK with nothing remaining, info if it is OK with something remaining, and a
-- warning if it is not OK.
pub sweep-in_turn :
    (env : Env) (rs others : List Reconciler) (h : List Event)
    → Returns rs
    → Lasts env rs h
    → (others ≡ []) ⊎ (env.is_done (in_turn rs h) ≡ true)
    → (log : Log) × ((sweep env (rs ++ others) h ≡ (ok log, in_turn rs h)) × LogFits rs h log)
unfolding sweep
sweep-in_turn env [] others h t l e = ([], (sweep_none env others h e, tt))
sweep-in_turn env (r ∷ rs) others h (t, ts) (l, ls) e =
    let (o, q) = t h in
    let h' = (r.reconcile h).1 in
    let (log, (f, g)) = sweep-in_turn env rs others h' ts ls e in
    (
      (r.name, level_of o) ∷ log,
      (
        ap
              (λ b.
                (if b
                    then pure []
                    else (r.reconcile >>= λ o'. sweep env (rs ++ others) >>= logged r o'))
                  h)
              l
            ∙ after_result r (sweep env (rs ++ others)) (r.reconcile h).0 h' (in_turn rs h') o log q
                f,
        (refl, ((o, (q, level_of-Fits o)), g)),
      ),
    )
