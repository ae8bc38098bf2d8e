-- ===== src/Reconciler/GitFetch/Pool.antt =====
-- The counters of the pool of fetches, in whatever order these end.
use gitlab_geo_sync.Prelude.{
  ℕ, zero, suc, ◌+◌, ◌≡◌, refl, ap, ◌∙◌, sym, String, Bool, true, false, Option, none, some,
  if◌then◌else◌, List, length, count_if, count_if-nil, ltb, not, arith,
}
use gitlab_geo_sync.Go.Fmt.{Error}
use gitlab_geo_sync.Go.Exec.{Call}
use gitlab_geo_sync.Reconciler.GitFetch.{
  GitFetch, ProjectRow, FetchPool, take_out, fetch_one, added, end_fetch, start_fetch, start_all,
  wait_all, fetch_all,
}

-- The projects that are started: all, or those before the context ended.
abbrev pub dispatched : Option ℕ → List ProjectRow → List ProjectRow
dispatched none ps = ps
dispatched (some n) List.[] = List.[]
dispatched (some zero) (List.◌∷◌ p ps) = List.[]
dispatched (some (suc n)) (List.◌∷◌ p ps) = List.◌∷◌ p (dispatched (some n) ps)

take_out-count_if :
    (g : ProjectRow → Bool) (n : ℕ) (p : ProjectRow) (ps : List ProjectRow)
    → let (q, rest) = take_out n p ps in count_if g (List.◌∷◌ q rest) ≡ count_if g (List.◌∷◌ p ps)
unfolding take_out count_if
take_out-count_if g n p List.[] = refl
take_out-count_if g zero p (List.◌∷◌ q ps) = refl
take_out-count_if g (suc n) p (List.◌∷◌ q ps) = ground (arith, take_out-count_if g n q ps)

take_out-length :
    (n : ℕ) (p : ProjectRow) (ps : List ProjectRow) → length (take_out n p ps).1 ≡ length ps
unfolding take_out
take_out-length n p List.[] = refl
take_out-length zero p (List.◌∷◌ q ps) = refl
take_out-length (suc n) p (List.◌∷◌ q ps) = ap suc (take_out-length n q ps)

module _ (join : String → String → String) (pick : List ProjectRow → ℕ)
    (failure : Call → Option Error) (r : GitFetch) where
  abbrev pub good : ProjectRow → Bool
  good = fetch_one join failure r

  abbrev pub bad : ProjectRow → Bool
  bad p = not (fetch_one join failure r p)

  -- The counters, with the running fetches counted already.
  abbrev Owes : FetchPool → ℕ → ℕ → Type 0
  Owes pool a b =
      (pool.repaired + count_if good pool.running ≡ a)
      × (pool.failed + count_if bad pool.running ≡ b)

  added-Owes :
      (x : Bool) (q : ProjectRow) (rest : List ProjectRow) (pool : FetchPool) (a b : ℕ)
      → fetch_one join failure r q ≡ x
      → pool.repaired + count_if good (List.◌∷◌ q rest) ≡ a
      → pool.failed + count_if bad (List.◌∷◌ q rest) ≡ b
      → Owes (added join pick failure r x rest pool) a b
  unfolding count_if
  added-Owes true q rest pool a b e u v = (ground (arith, e, u), ground (arith, e, v))
  added-Owes false q rest pool a b e u v = (ground (arith, e, u), ground (arith, e, v))

  end_fetch-Owes :
      (pool : FetchPool) (running : List ProjectRow) (a b : ℕ)
      → pool.running ≡ running
      → Owes pool a b
      → Owes (end_fetch join pick failure r pool running) a b
  end_fetch-Owes pool List.[] a b e o = o
  end_fetch-Owes pool (List.◌∷◌ p ps) a b e (u, v) =
      let n = pick (List.◌∷◌ p ps) in
      added-Owes _ (take_out n p ps).0 (take_out n p ps).1 pool a b refl
        (ap (λ k. pool.repaired + k) (take_out-count_if good n p ps)
          ∙ ap (λ l. pool.repaired + count_if good l) (sym e)
          ∙ u)
        (ap (λ k. pool.failed + k) (take_out-count_if bad n p ps)
          ∙ ap (λ l. pool.failed + count_if bad l) (sym e)
          ∙ v)

  free-Owes :
      (x : Bool) (pool : FetchPool) (a b : ℕ)
      → Owes pool a b
      → Owes (if x then pool else end_fetch join pick failure r pool pool.running) a b
  free-Owes true pool a b o = o
  free-Owes false pool a b o = end_fetch-Owes pool pool.running a b refl o

  push-Owes :
      (p : ProjectRow) (pool : FetchPool) (a b : ℕ)
      → Owes pool a b
      → Owes
          (record pool { running = List.◌∷◌ p pool.running })
          (a + count_if good (List.◌∷◌ p List.[]))
          (b + count_if bad (List.◌∷◌ p List.[]))
  unfolding count_if
  push-Owes p pool a b (u, v) = (ground (arith, u), ground (arith, v))

  start_fetch-Owes :
      (limit : ℕ) (p : ProjectRow) (pool : FetchPool) (a b : ℕ)
      → Owes pool a b
      → Owes
          (start_fetch join pick failure r limit p pool)
          (a + count_if good (List.◌∷◌ p List.[]))
          (b + count_if bad (List.◌∷◌ p List.[]))
  unfolding start_fetch
  start_fetch-Owes limit p pool a b o =
      push-Owes p _ a b (free-Owes (ltb (length pool.running) limit) pool a b o)

  count_if-later :
      (g : ProjectRow → Bool) (p : ProjectRow) (ps : List ProjectRow) (x a : ℕ)
      → x ≡ (a + count_if g (List.◌∷◌ p List.[])) + count_if g ps
      → x ≡ a + count_if g (List.◌∷◌ p ps)
  unfolding count_if
  count_if-later g p ps x a h = ground (arith, h)

  start_all-Owes :
      (limit : ℕ) (ended : Option ℕ) (ps : List ProjectRow) (pool : FetchPool) (a b : ℕ)
      → Owes pool a b
      → Owes
          (start_all join pick failure r limit ended ps pool)
          (a + count_if good (dispatched ended ps))
          (b + count_if bad (dispatched ended ps))
  unfolding start_all
  start_all-Owes limit none List.[] pool a b (u, v) =
      rw (count_if-nil good, count_if-nil bad) (omega (arith, u), omega (arith, v))
  start_all-Owes limit (some n) List.[] pool a b (u, v) =
      rw (count_if-nil good, count_if-nil bad) (omega (arith, u), omega (arith, v))
  start_all-Owes limit none (List.◌∷◌ p ps) pool a b o =
      let (u, v) = start_all-Owes limit none ps _ _ _ (start_fetch-Owes limit p pool a b o) in
      (count_if-later good p ps _ a u, count_if-later bad p ps _ b v)
  start_all-Owes limit (some zero) (List.◌∷◌ p ps) pool a b (u, v) =
      rw (count_if-nil good, count_if-nil bad) (omega (arith, u), omega (arith, v))
  start_all-Owes limit (some (suc n)) (List.◌∷◌ p ps) pool a b o =
      let (u, v) = start_all-Owes limit (some n) ps _ _ _ (start_fetch-Owes limit p pool a b o) in
      (
        count_if-later good p (dispatched (some n) ps) _ a u,
        count_if-later bad p (dispatched (some n) ps) _ b v,
      )

  added-running :
      (x : Bool) (rest : List ProjectRow) (pool : FetchPool)
      → (added join pick failure r x rest pool).running ≡ rest
  added-running true rest pool = refl
  added-running false rest pool = refl

  end_fetch-length :
      (n : ℕ) (pool : FetchPool) (running : List ProjectRow)
      → length running ≡ suc n
      → length (end_fetch join pick failure r pool running).running ≡ n
  end_fetch-length n pool List.[] h = absurd (omega (arith, h))
  end_fetch-length n pool (List.◌∷◌ p ps) h =
      ap length (added-running _ (take_out (pick (List.◌∷◌ p ps)) p ps).1 pool)
      ∙ (take_out-length (pick (List.◌∷◌ p ps)) p ps ∙ omega (arith, h))

  no_more :
      (g : ProjectRow → Bool) (ps : List ProjectRow) (x y : ℕ)
      → length ps ≡ 0
      → x + count_if g ps ≡ y
      → x ≡ y
  unfolding count_if
  no_more g List.[] x y h e = omega (arith, e)
  no_more g (List.◌∷◌ p ps) x y h e = absurd (omega (arith, h))

  -- Waiting for as many fetches as run leaves the counters with all of them.
  wait_all-Owes :
      (n : ℕ) (pool : FetchPool) (a b : ℕ)
      → length pool.running ≡ n
      → Owes pool a b
      → ((wait_all join pick failure r n pool).repaired ≡ a)
        × ((wait_all join pick failure r n pool).failed ≡ b)
  unfolding wait_all
  wait_all-Owes zero pool a b h (u, v) =
      (no_more good pool.running _ a h u, no_more bad pool.running _ b h v)
  wait_all-Owes (suc n) pool a b h o =
      wait_all-Owes n _ a b (end_fetch-length n pool pool.running h)
        (end_fetch-Owes pool pool.running a b refl o)

  pub fetch_all-counts :
      (limit : ℕ) (ended : Option ℕ) (ps : List ProjectRow)
      → let done = fetch_all join pick failure r limit ended ps in
        (done.repaired ≡ count_if good (dispatched ended ps))
        × (done.failed ≡ count_if bad (dispatched ended ps))
  unfolding fetch_all
  fetch_all-counts limit ended ps =
      let (u, v) = wait_all-Owes _ _ _ _ refl (
        start_all-Owes limit ended ps (record { running = List.[]; repaired = 0; failed = 0 }) 0 0
          (rw (count_if-nil good) refl, rw (count_if-nil bad) refl)) in
      (omega (arith, u), omega (arith, v))
