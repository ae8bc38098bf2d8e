-- ===== src/PgSetup/ConnInfo.antt =====
-- What the rewritten file holds.
use Prim.Native.Char.{Char, code}
use Prim.Native.String.{[], ◌∷◌}
use mathlib.Core.Path.{subst}
use text.Mathlib.TextLemmas.{nil-append, cons-append}
use gitlab_geo_sync.Prelude.{
  some_inj, String, ◌≡◌, refl, ap, ◌∙◌, Bool, true, false, ◌||◌, ◌&&◌, Option, none, some, List,
  ◌++◌, if◌then◌else◌, arith, ◌⊎◌, inl, inr,
}
use gitlab_geo_sync.Go.Strings.{◌<>◌, same, has_prefix, contains, any_char}
use gitlab_geo_sync.PgSetup.{
  last_found, before_last_quote, injected, inject_app_name, named_line, cons_lines, update_lines,
  or_appended,
}

same_refl : (c : Char) → same c (code c) ≡ true
same_refl c = ground arith

and_inv : (a b : Bool) → a && b ≡ true → (a ≡ true) × (b ≡ true)
and_inv true b h = (refl, h)
and_inv false b h = cc

and_intro : (a b : Bool) → a ≡ true → b ≡ true → a && b ≡ true
and_intro a b h k = rw h k

or_right : (a b : Bool) → b ≡ true → a || b ≡ true
or_right true b h = refl
or_right false b h = h

or_left : (a b : Bool) → a ≡ true → a || b ≡ true
or_left a b h = rw h refl

has_prefix-append : (p t : String) → has_prefix (p <> t) p ≡ true
unfolding has_prefix
has_prefix-append [] t = refl
has_prefix-append (c ∷ p) t =
    rw (cons-append c p t)
      (and_intro (same c (code c)) (has_prefix (p <> t) p) (same_refl c) (has_prefix-append p t))

-- A prefix of a text stays one when more follows.
has_prefix-grow : (s t p : String) → has_prefix s p ≡ true → has_prefix (s <> t) p ≡ true
unfolding has_prefix
has_prefix-grow s t [] h = refl
has_prefix-grow [] t (d ∷ p) h = cc
has_prefix-grow (c ∷ s) t (d ∷ p) h =
    let (e, f) = and_inv (same c (code d)) (has_prefix s p) h in
    rw (cons-append c s t)
      (and_intro (same c (code d)) (has_prefix (s <> t) p) e (has_prefix-grow s t p f))

-- Tests of a prefix that hold of the text from the prefix on.
has_prefix_trans :
    (s p q : String) → has_prefix s p ≡ true → has_prefix p q ≡ true → has_prefix s q ≡ true
unfolding has_prefix
has_prefix_trans s p [] h k = refl
has_prefix_trans s [] (e ∷ q) h k = cc
has_prefix_trans [] (d ∷ p) (e ∷ q) h k = cc
has_prefix_trans (c ∷ s) (d ∷ p) (e ∷ q) h k =
    let (a, b) = and_inv (same c (code d)) (has_prefix s p) h in
    let (a', b') = and_inv (same d (code e)) (has_prefix p q) k in
    and_intro (same c (code e)) (has_prefix s q) (ground (arith, a, a'))
      (has_prefix_trans s p q b b')

or_false : (a b : Bool) → a || b ≡ false → (a ≡ false) × (b ≡ false)
or_false true b h = cc
or_false false b h = (refl, h)

or_inv : (a b : Bool) → a || b ≡ true → (a ≡ true) ⊎ (b ≡ true)
or_inv true b h = inl refl
or_inv false b h = inr h

contains_prefix :
    (s p q : String) → has_prefix s p ≡ true → contains p q ≡ true → contains s q ≡ true
unfolding has_prefix contains
contains_prefix [] [] q h k = k
contains_prefix (c ∷ s) [] [] h k = refl
contains_prefix (c ∷ s) [] (e ∷ q) h k = cc
contains_prefix [] (d ∷ p) q h k = cc
contains_prefix (c ∷ s) (d ∷ p) q h k = elim (or_inv (has_prefix (d ∷ p) q) (contains p q) k) [
  | inl e ↦ or_left (has_prefix (c ∷ s) q) (contains s q) (has_prefix_trans (c ∷ s) (d ∷ p) q h e)
  | inr e ↦
      or_right (has_prefix (c ∷ s) q) (contains s q)
        (contains_prefix s p q (and_inv (same c (code d)) (has_prefix s p) h).1 e)
]

contains-append : (t s q : String) → contains s q ≡ true → contains (t <> s) q ≡ true
unfolding contains
contains-append [] s q h = rw (nil-append s) h
contains-append (c ∷ t) s q h =
    rw (cons-append c t s)
      (or_right (has_prefix (c ∷ (t <> s)) q) (contains (t <> s) q) (contains-append t s q h))

quote_if : (b : Bool) (t : String) → (if b then some "" else none) ≡ some t → b ≡ true
quote_if true t h = refl
quote_if false t h = cc

no_quote : (c d : Char) → same c (code d) ≡ true → same d 39 ≡ false → same c 39 ≡ true → ⊥
no_quote c d h k e = ground (arith, h, k, e)

-- The text before the last quote keeps a prefix that holds no quote.
before_last_quote-prefix :
    (line t p : String)
    → before_last_quote line ≡ some t
    → has_prefix line p ≡ true
    → any_char (λ c. same c 39) p ≡ false
    → has_prefix t p ≡ true
unfolding has_prefix before_last_quote any_char
before_last_quote-prefix line t [] e h q = refl
before_last_quote-prefix [] t (d ∷ p) e h q = cc
before_last_quote-prefix (c ∷ s) t (d ∷ p) e h q =
    let (a, b) = and_inv (same c (code d)) (has_prefix s p) h in
    let (a', b') = or_false (same d 39) (any_char (λ x. same x 39) p) q in
    found (before_last_quote s) e (λ u f. before_last_quote-prefix s u p f b b') a a'
  where
    found :
        (o : Option String)
        → last_found c o ≡ some t
        → ((u : String) → o ≡ some u → has_prefix u p ≡ true)
        → same c (code d) ≡ true
        → same d 39 ≡ false
        → has_prefix t (d ∷ p) ≡ true
    found (some u) e k a a' =
        subst (λ x. has_prefix x (d ∷ p) ≡ true) (some_inj e)
          (and_intro (same c (code d)) (has_prefix u p) a (k u refl))
    found none e k a a' = absurd (no_quote c d a a' (quote_if (same c 39) t e))

-- A line that names the application, with an application name in it.
abbrev pub IsNamed : String → Type 0
IsNamed line =
    (has_prefix line "primary_conninfo = " ≡ true) × (contains line "application_name=" ≡ true)

injected-IsNamed :
    (line app : String) (o : Option String)
    → before_last_quote line ≡ o
    → has_prefix line "primary_conninfo = " ≡ true
    → IsNamed (injected line app o)
unfolding contains has_prefix
injected-IsNamed line app none e h = (
  has_prefix-grow line _ "primary_conninfo = " h,
  contains-append line _ "application_name=" (
      contains_prefix (" application_name=" <> (app <> "'")) " application_name="
        "application_name=" (has_prefix-append " application_name=" (app <> "'")) refl),
)
injected-IsNamed line app (some t) e h = (
  has_prefix-grow t _ "primary_conninfo = "
      (before_last_quote-prefix line t "primary_conninfo = " e h (unfold any_char in refl)),
  contains-append t _ "application_name=" (
      contains_prefix (" application_name=" <> (app <> "'")) " application_name="
        "application_name=" (has_prefix-append " application_name=" (app <> "'")) refl),
)

inject-IsNamed :
    (line app : String)
    → has_prefix line "primary_conninfo = " ≡ true
    → IsNamed (inject_app_name line app)
unfolding inject_app_name
inject-IsNamed line app h = injected-IsNamed line app (before_last_quote line) refl h

either-IsNamed :
    (line line' : String) (b : Bool)
    → contains line "application_name=" ≡ b
    → has_prefix line "primary_conninfo = " ≡ true
    → IsNamed line'
    → IsNamed (if b then line else line')
either-IsNamed line line' true e h n = (h, e)
either-IsNamed line line' false e h n = n

named_line-IsNamed :
    (app line : String)
    → has_prefix line "primary_conninfo = " ≡ true
    → IsNamed (named_line app line)
named_line-IsNamed app line h =
    either-IsNamed line (inject_app_name line app) (contains line "application_name=") refl h
      (inject-IsNamed line app h)

abbrev pub new_line : String → String
new_line app = "primary_conninfo = 'application_name=" <> (app <> "'")

new_line-IsNamed : (app : String) → IsNamed (new_line app)
unfolding has_prefix contains
new_line-IsNamed app = (
  has_prefix_trans (new_line app) "primary_conninfo = 'application_name=" "primary_conninfo = "
      (has_prefix-append "primary_conninfo = 'application_name=" (app <> "'")) refl,
  contains_prefix (new_line app) "primary_conninfo = 'application_name=" "application_name="
      (has_prefix-append "primary_conninfo = 'application_name=" (app <> "'")) refl,
)

-- The first line of connection information has an application name.
abbrev pub FirstNamed : List String → Type 0
FirstNamed List.[] = ⊥
FirstNamed (List.◌∷◌ l ls) =
    IsNamed l ⊎ ((has_prefix l "primary_conninfo = " ≡ false) × FirstNamed ls)

pub FirstNamed-append : (ls more : List String) → FirstNamed ls → FirstNamed (ls ++ more)
FirstNamed-append List.[] more h = absurd h
FirstNamed-append (List.◌∷◌ l ls) more (inl h) = inl h
FirstNamed-append (List.◌∷◌ l ls) more (inr (e, h)) = inr (e, FirstNamed-append ls more h)

pub lines-FirstNamed :
    (app : String) (ls : List String) → FirstNamed (or_appended app ls (update_lines app ls))
unfolding update_lines
lines-FirstNamed app List.[] = inl (new_line-IsNamed app)
lines-FirstNamed app (List.◌∷◌ line ls) =
    by_prefix (has_prefix line "primary_conninfo = ") refl (update_lines app ls)
      (lines-FirstNamed app ls)
  where
    by_prefix :
        (b : Bool)
        → has_prefix line "primary_conninfo = " ≡ b
        → (o : Option (List String)) → FirstNamed (or_appended app ls o)
        → FirstNamed (
            or_appended app
              (List.◌∷◌ line ls)
              (if b then some (List.◌∷◌ (named_line app line) ls) else cons_lines line o))
    by_prefix true e o u = inl (named_line-IsNamed app line e)
    by_prefix false e none u = inr (e, u)
    by_prefix false e (some ls') u = inr (e, u)

-- Lines that have it are not changed.
pub update-same : (app : String) (ls : List String) → FirstNamed ls → update_lines app ls ≡ some ls
unfolding update_lines
update-same app List.[] h = absurd h
update-same app (List.◌∷◌ line ls) (inl (h, k)) =
    ap
      (λ b.
        if b
        then some (List.◌∷◌ (named_line app line) ls)
        else cons_lines line (update_lines app ls))
      h
    ∙ ap (λ b. some (List.◌∷◌ (if b then line else inject_app_name line app) ls)) k
update-same app (List.◌∷◌ line ls) (inr (e, h)) =
    ap
      (λ b.
        if b
        then some (List.◌∷◌ (named_line app line) ls)
        else cons_lines line (update_lines app ls))
      e
    ∙ ap (cons_lines line) (update-same app ls h)
