-- ===== src/PgSetup/Rewrite.antt =====
-- The rewriting of the file as a whole.
use Prim.Native.String.{[], ◌∷◌}
use mathlib.Core.Path.{subst}
use gitlab_geo_sync.Prelude.{
  some_inj, String, ◌≡◌, refl, sym, ap, ◌∙◌, Bool, true, false, Option, none, some, List, ◌++◌, All,
  if◌then◌else◌,
}
use gitlab_geo_sync.Go.Strings.{◌<>◌, same, any_char, contains, has_prefix}
use gitlab_geo_sync.PgSetup.Lines.{
  IsPlain, IsPlain-append, or_false_inv, or_false_of, split-join, split_lines-All,
  ends_line-newline, join-end,
}
use gitlab_geo_sync.PgSetup.ConnInfo.{FirstNamed, FirstNamed-append, lines-FirstNamed, update-same}
use gitlab_geo_sync.PgSetup.{
  last_found, before_last_quote, injected, inject_app_name, split_lines, join_lines, named_line,
  cons_lines, update_lines, or_appended, ends_line, with_newline, conf_text,
}

before-IsPlain : (line t : String) → before_last_quote line ≡ some t → IsPlain line → IsPlain t
unfolding before_last_quote any_char
before-IsPlain [] t e h = cc
before-IsPlain (c ∷ s) t e h =
    let (a, b) = or_false_inv (same c 10) (any_char (λ x. same x 10) s) h in
    found (before_last_quote s) e (λ u f. before-IsPlain s u f b) a
  where
    from_if : (b : Bool) → (if b then some "" else none) ≡ some t → IsPlain t
    from_if true f = subst IsPlain (some_inj f) refl
    from_if false f = cc

    found :
        (o : Option String)
        → last_found c o ≡ some t
        → ((u : String) → o ≡ some u → IsPlain u)
        → same c 10 ≡ false
        → IsPlain t
    found (some u) f k a =
        subst IsPlain (some_inj f)
          (or_false_of (same c 10) (any_char (λ x. same x 10) u) a (k u refl))
    found none f k a = from_if (same c 39) f

tail-IsPlain : (app : String) → IsPlain app → IsPlain (" application_name=" <> (app <> "'"))
unfolding any_char
tail-IsPlain app h =
    IsPlain-append " application_name=" (app <> "'") refl (IsPlain-append app "'" h refl)

injected-IsPlain :
    (line app : String) (o : Option String)
    → before_last_quote line ≡ o
    → IsPlain line
    → IsPlain app
    → IsPlain (injected line app o)
injected-IsPlain line app none e h k = IsPlain-append line _ h (tail-IsPlain app k)
injected-IsPlain line app (some t) e h k =
    IsPlain-append t _ (before-IsPlain line t e h) (tail-IsPlain app k)

named_line-IsPlain :
    (app line : String) → IsPlain line → IsPlain app → IsPlain (named_line app line)
unfolding inject_app_name
named_line-IsPlain app line h k = either (contains line "application_name=")
  where
    either : (b : Bool) → IsPlain (if b then line else inject_app_name line app)
    either true = h
    either false = injected-IsPlain line app (before_last_quote line) refl h k

append-All : (ls ms : List String) → All IsPlain ls → All IsPlain ms → All IsPlain (ls ++ ms)
append-All List.[] ms h k = k
append-All (List.◌∷◌ l ls) ms h k = (h.0, append-All ls ms h.1 k)

update-All :
    (app : String) (ls : List String)
    → IsPlain app
    → All IsPlain ls
    → All IsPlain (or_appended app ls (update_lines app ls))
unfolding update_lines any_char
update-All app List.[] k h = (
  IsPlain-append "primary_conninfo = 'application_name=" (app <> "'") refl
      (IsPlain-append app "'" k refl),
  tt,
)
update-All app (List.◌∷◌ line ls) k (h, hs) =
    by_prefix (has_prefix line "primary_conninfo = ") (update_lines app ls) (update-All app ls k hs)
  where
    by_prefix :
        (b : Bool) (o : Option (List String))
        → All IsPlain (or_appended app ls o)
        → All IsPlain (
            or_appended app
              (List.◌∷◌ line ls)
              (if b then some (List.◌∷◌ (named_line app line) ls) else cons_lines line o))
    by_prefix true o a = (named_line-IsPlain app line h k, hs)
    by_prefix false none a = (h, a)
    by_prefix false (some ls') a = (h, a)

-- A file that ends its last line, and whose first line of connection information has an application
-- name.
abbrev pub IsRewritten : String → Type 0
IsRewritten text = FirstNamed (split_lines text) × (ends_line text ≡ true)

-- Rewriting lines that are named already joins them as they are.
conf-same :
    (app text : String) (ls : List String)
    → split_lines text ≡ ls
    → FirstNamed ls
    → conf_text app text ≡ with_newline (join_lines ls)
unfolding conf_text
conf-same app text ls e h =
    ap (λ l. with_newline (join_lines (or_appended app l (update_lines app l)))) e
    ∙ ap (λ o. with_newline (join_lines (or_appended app ls o))) (update-same app ls h)

-- The lines, or the lines and an empty one, that a rewritten text has.
settled :
    (app l : String) (ls : List String)
    → All IsPlain (List.◌∷◌ l ls)
    → FirstNamed (List.◌∷◌ l ls)
    → IsRewritten (with_newline (join_lines (List.◌∷◌ l ls)))
      × (conf_text app (with_newline (join_lines (List.◌∷◌ l ls)))
          ≡ with_newline (join_lines (List.◌∷◌ l ls)))
unfolding any_char
settled app l ls a f = by_end (ends_line (join_lines (List.◌∷◌ l ls))) refl
  where
    all : List String
    all = List.◌∷◌ l ls

    more : List String
    more = List.◌∷◌ l (ls ++ List.◌∷◌ "" List.[])

    more-split : split_lines (join_lines all <> "\n") ≡ more
    more-split =
        ap split_lines (sym (join-end l ls))
        ∙ split-join l (ls ++ List.◌∷◌ "" List.[])
            (append-All all (List.◌∷◌ "" List.[]) a (refl, tt))

    more-named : FirstNamed more
    more-named = FirstNamed-append all (List.◌∷◌ "" List.[]) f

    by_end :
        (b : Bool)
        → ends_line (join_lines all) ≡ b
        → IsRewritten (if b then join_lines all else join_lines all <> "\n")
          × (conf_text app (if b then join_lines all else join_lines all <> "\n")
              ≡ (if b then join_lines all else join_lines all <> "\n"))
    by_end true e = (
      (subst FirstNamed (sym (split-join l ls a)) f, e),
      conf-same app (join_lines all) all (split-join l ls a) f
          ∙ ap (λ b. if b then join_lines all else join_lines all <> "\n") e,
    )
    by_end false e = (
      (subst FirstNamed (sym more-split) more-named, ends_line-newline (join_lines all)),
      conf-same app (join_lines all <> "\n") more more-split more-named
          ∙ ap with_newline (join-end l ls)
          ∙ ap (λ b. if b then join_lines all <> "\n" else (join_lines all <> "\n") <> "\n")
              (ends_line-newline (join_lines all)),
    )

-- Whatever the file held, after its rewriting with an application name of one line, the first line of
-- connection information in it has an application name, its last line is ended, and a second
-- rewriting with the same name changes nothing.
pub conf_text_idem :
    (app content : String)
    → IsPlain app
    → IsRewritten (conf_text app content)
      × (conf_text app (conf_text app content) ≡ conf_text app content)
unfolding conf_text
conf_text_idem app content h =
    of_lines (or_appended app (split_lines content) (update_lines app (split_lines content)))
      (update-All app (split_lines content) h (split_lines-All content))
      (lines-FirstNamed app (split_lines content))
  where
    of_lines :
        (ls : List String)
        → All IsPlain ls
        → FirstNamed ls
        → IsRewritten (with_newline (join_lines ls))
          × (conf_text app (with_newline (join_lines ls)) ≡ with_newline (join_lines ls))
    of_lines List.[] a f = absurd f
    of_lines (List.◌∷◌ l ls) a f = settled app l ls a f
