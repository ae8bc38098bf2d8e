-- ===== src/Reconciler/Postgres/Pools.antt =====
-- Which pools are open: none after a failed construction, and none after `Close`.
use gitlab_geo_sync.Prelude.{
  ℕ, ◌≡◌, refl, ap, ◌∙◌, sym, true, Option, none, some, List, [], ◌∷◌, ◌++◌, eqb, if◌then◌else◌,
  arith,
}
use gitlab_geo_sync.Go.Fmt.{Error, Result, ok, err, panic}
use gitlab_geo_sync.Config.{Config, SiteConfig}
use gitlab_geo_sync.Config.Dsn.{dsn}
use gitlab_geo_sync.Reconciler.Postgres.{
  PoolEvent, opened, closed, Journal, start, PoolFactory, Postgres, SecondaryConn, close, open_next,
  close_all, connected, connect_secondaries, with_primary, new, close_pools,
}

abbrev pub keep : ℕ → Option (List ℕ) → Option (List ℕ)
keep m none = none
keep m (some ns) = some (m ∷ ns)

-- A pool taken out of the open ones; closing one that is not open is an error.
abbrev pub take_out : ℕ → List ℕ → Option (List ℕ)
take_out n [] = none
take_out n (m ∷ ms) = if eqb n m then some ms else keep m (take_out n ms)

-- The pools that are open after some events, in the order of their opening.
unfoldable pub open_after : Option (List ℕ) → List PoolEvent → Option (List ℕ)
open_after o [] = o
open_after none (e ∷ es) = none
open_after (some ps) (opened n ∷ es) = open_after (some (ps ++ n ∷ [])) es
open_after (some ps) (closed n ∷ es) = open_after (take_out n ps) es

abbrev pub open_pools : Journal → Option (List ℕ)
open_pools j = open_after (some []) j.events

eqb_refl : (n : ℕ) → eqb n n ≡ true
eqb_refl n = ground arith

open_after-none : (es : List PoolEvent) → open_after none es ≡ none
unfolding open_after
open_after-none [] = refl
open_after-none (e ∷ es) = refl

open_after-append :
    (o : Option (List ℕ)) (es fs : List PoolEvent)
    → open_after o (es ++ fs) ≡ open_after (open_after o es) fs
unfolding open_after
open_after-append o [] fs = refl
open_after-append none (e ∷ es) fs = sym (open_after-none fs)
open_after-append (some ps) (opened n ∷ es) fs = open_after-append (some (ps ++ n ∷ [])) es fs
open_after-append (some ps) (closed n ∷ es) fs = open_after-append (take_out n ps) es fs

abbrev pub pools_of : List SecondaryConn → List ℕ
pools_of [] = []
pools_of (s ∷ ss) = s.pool ∷ pools_of ss

pools_of-append : (a b : List SecondaryConn) → pools_of (a ++ b) ≡ pools_of a ++ pools_of b
pools_of-append [] b = refl
pools_of-append (s ∷ a) b = ap (◌∷◌ s.pool) (pools_of-append a b)

opening :
    (j : Journal) (ps : List ℕ)
    → open_pools j ≡ some ps
    → open_pools (open_next j) ≡ some (ps ++ j.next ∷ [])
unfolding open_after
opening j ps e =
    open_after-append (some []) j.events (opened j.next ∷ [])
    ∙ ap (λ o. open_after o (opened j.next ∷ [])) e

take_out_head : (n : ℕ) (ps : List ℕ) → take_out n (n ∷ ps) ≡ some ps
take_out_head n ps = rw (eqb_refl n)

closing :
    (p : ℕ) (j : Journal) (ps : List ℕ)
    → open_pools j ≡ some (p ∷ ps)
    → open_pools (close p j) ≡ some ps
unfolding close open_after
closing p j ps e =
    open_after-append (some []) j.events (closed p ∷ [])
    ∙ ap (λ o. open_after o (closed p ∷ [])) e
    ∙ take_out_head p ps

closing_all :
    (conns : List SecondaryConn) (j : Journal)
    → open_pools j ≡ some (pools_of conns)
    → open_pools (close_all conns j) ≡ some []
unfolding close_all
closing_all [] j e = e
closing_all (s ∷ ss) j e = closing_all ss (close s.pool j) (closing s.pool j (pools_of ss) e)

-- A failed construction leaves nothing open; a successful one leaves its own pools open, and
-- nothing after `Close`.
abbrev pub Settled : Result Postgres × Journal → Type 0
Settled (ok r, j) =
    (open_pools j ≡ some (r.primary ∷ pools_of r.secondaries))
    × (open_pools (close_pools r j) ≡ some [])
Settled (err e, j) = open_pools j ≡ some []
Settled (panic m, j) = ⊥

pub close_pools-open_pools :
    (r : Postgres) (j : Journal)
    → open_pools j ≡ some (r.primary ∷ pools_of r.secondaries)
    → open_pools (close_pools r j) ≡ some []
unfolding close_pools
close_pools-open_pools r j e =
    closing_all r.secondaries (close r.primary j) (closing r.primary j _ e)

-- A connection to a secondary, and the loop after it.
connected-Settled :
    (pf : PoolFactory) (rest : List SecondaryConn → Journal → Result Postgres × Journal) (p : ℕ)
    (conns : List SecondaryConn) (sc : SiteConfig) (j : Journal) (o : Option Error)
    → open_pools j ≡ some (p ∷ pools_of conns)
    → ((cs : List SecondaryConn) (k : Journal)
        → open_pools k ≡ some (p ∷ pools_of cs)
        → Settled (rest cs k))
    → Settled (connected pf rest p conns sc j o)
connected-Settled pf rest p conns sc j none e loop =
    loop (conns ++ record { name = sc.name; pool = j.next } ∷ []) (open_next j)
      (opening j _ e ∙ ap (λ x. some (p ∷ x)) (sym (pools_of-append conns _)))
connected-Settled pf rest p conns sc j (some x) e loop =
    closing_all conns (close p j) (closing p j _ e)

connect-Settled :
    (pf : PoolFactory) (p : ℕ) (scs : List SiteConfig) (conns : List SecondaryConn) (j : Journal)
    → open_pools j ≡ some (p ∷ pools_of conns)
    → Settled (connect_secondaries pf p scs conns j)
unfolding connect_secondaries
connect-Settled pf p [] conns j e =
    (e, close_pools-open_pools (record { primary = p; secondaries = conns }) j e)
connect-Settled pf p (sc ∷ scs) conns j e =
    connected-Settled pf (connect_secondaries pf p scs) p conns sc j (pf j (dsn sc.postgres)) e
      (λ cs k. connect-Settled pf p scs cs k)

-- Whatever the pool factory answers: when `New` fails, every pool that it opened is closed again, once;
-- when it succeeds, the open pools are the result's own, in order, and `Close` closes each once.
pub new-Settled : (pf : PoolFactory) (cfg : Config) → Settled (new pf cfg start)
unfolding new open_after
new-Settled pf cfg = answer (pf start (dsn cfg.primary.postgres))
  where
    answer : (o : Option Error) → Settled (with_primary pf cfg.secondaries start o)
    answer none = connect-Settled pf 0 cfg.secondaries [] (open_next start) refl
    answer (some x) = refl
