-- ===== src/Config/Dsn/Parse.antt =====
-- A reader of libpq's documented `key=value` format, as the specification of a connection string:
-- pairs are separated by white space, and white space around the `=` is skipped; a value is bare, up to
-- white space, or stands in single quotes; in both a backslash takes the next character as it is. An
-- empty value therefore needs the quotes, unless it ends the text.
use Prim.Native.Char.{Char, code}
use Prim.Native.String.{[], ◌∷◌}
use mathlib.Core.List
use gitlab_geo_sync.Prelude.{
  String, ◌≡◌, refl, Bool, ◌&&◌, ◌||◌, Option, none, some, List, leb, if◌then◌else◌,
}
use gitlab_geo_sync.Go.Strings.{◌<>◌, same}

pub data Mode : Type 0 where
  gap : Mode
  key : String → Mode
  equals : String → Mode
  value : String → Mode
  bare : String → String → Mode
  bare_escape : String → String → Mode
  quoted : String → String → Mode
  quoted_escape : String → String → Mode
  bad : Mode

abbrev pub push : String → Char → String
push s c = s <> (c ∷ [])

-- C's `isspace`.
unfoldable pub is_space : Char → Bool
is_space c = same c 32 || leb 9 (code c) && leb (code c) 13

abbrev pub Pairs : Type 0
Pairs = List (String × String)

-- The mode after a character, and the pair that it ends.
unfoldable pub next : Mode → Char → Mode × Pairs
unfolding is_space
next gap c =
    if is_space c
    then (gap, List.[])
    else if same c b'='
    then (bad, List.[])
    else (key (c ∷ []), List.[])
next (key k) c =
    if same c b'='
    then (value k, List.[])
    else if is_space c
    then (equals k, List.[])
    else (key (push k c), List.[])
next (equals k) c =
    if same c b'='
    then (value k, List.[])
    else if is_space c
    then (equals k, List.[])
    else (bad, List.[])
next (value k) c =
    if same c 39
    then (quoted k [], List.[])
    else if same c 92
    then (bare_escape k [], List.[])
    else if is_space c
    then (value k, List.[])
    else (bare k (c ∷ []), List.[])
next (bare k v) c =
    if is_space c
    then (gap, List.◌∷◌ (k, v) List.[])
    else if same c 92
    then (bare_escape k v, List.[])
    else (bare k (push v c), List.[])
next (bare_escape k v) c = (bare k (push v c), List.[])
next (quoted k v) c =
    if same c 92
    then (quoted_escape k v, List.[])
    else if same c 39
    then (gap, List.◌∷◌ (k, v) List.[])
    else (quoted k (push v c), List.[])
next (quoted_escape k v) c = (quoted k (push v c), List.[])
next bad c = (bad, List.[])

-- The pairs that the end of the text ends, or `none` where it stops short.
unfoldable pub finish : Mode → Option Pairs
finish gap = some List.[]
finish (value k) = some (List.◌∷◌ (k, []) List.[])
finish (bare k v) = some (List.◌∷◌ (k, v) List.[])
finish (bare_escape k v) = some (List.◌∷◌ (k, v) List.[])
finish _ = none

abbrev pub prepend : Pairs → Option Pairs → Option Pairs
prepend ps none = none
prepend ps (some qs) = some (List.◌++◌ ps qs)

unfoldable pub parse : Mode → String → Option Pairs
unfolding next finish
parse m [] = finish m
parse m (c ∷ s) = let (m', out) = next m c in prepend out (parse m' s)

quoted_value :
    parse gap "host=a password='it\\'s'"
    ≡ some (List.◌∷◌ ("host", "a") (List.◌∷◌ ("password", "it's") List.[]))
unfolding parse
quoted_value = refl

-- Without quotes, an empty value takes the next pair for itself.
lost_value :
    parse gap "password= sslmode=require" ≡ some (List.◌∷◌ ("password", "sslmode=require") List.[])
unfolding parse
lost_value = refl

kept_value :
    parse gap "password = '' sslmode=require"
    ≡ some (List.◌∷◌ ("password", "") (List.◌∷◌ ("sslmode", "require") List.[]))
unfolding parse
kept_value = refl
