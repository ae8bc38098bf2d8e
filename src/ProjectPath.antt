-- ===== src/ProjectPath.antt =====
-- internal/projectpath: the check of a project path (path_with_namespace).
pub mod Grammar
pub mod Accepts
use Prim.Native.Char.{Char, code}
use Prim.Native.String.{[], ◌∷◌}
use mathlib.Core.List
use gitlab_geo_sync.Prelude.{
  String, ◌≡◌, refl, Bool, true, false, ◌&&◌, ◌||◌, List, any, leb, if◌then◌else◌, ◌==◌,
}
use gitlab_geo_sync.Go.Fmt.{Result, ok, err, Error, errorf, end, str, ◌>>=◌, ◌>>◌}
use gitlab_geo_sync.Go.Strings.{same, all_char, any_char}

abbrev pub cons_head : Char → List String → List String
cons_head c List.[] = List.◌∷◌ (c ∷ []) List.[]
cons_head c (List.◌∷◌ s ss) = List.◌∷◌ (c ∷ s) ss

-- strings.Split(path, "/")
unfoldable pub split_slash : String → List String
split_slash [] = List.◌∷◌ [] List.[]
split_slash (c ∷ s) =
    let rest = split_slash s in if same c b'/' then List.◌∷◌ [] rest else cons_head c rest

-- `[a-zA-Z0-9]`
unfoldable pub is_alphanumeric : Char → Bool
is_alphanumeric c =
    leb b'a' (code c) && leb (code c) b'z'
    || leb b'A' (code c) && leb (code c) b'Z'
    || leb b'0' (code c) && leb (code c) b'9'

-- `[a-zA-Z0-9_.\-/]`
unfoldable pub is_path_char : Char → Bool
is_path_char c = is_alphanumeric c || same c b'_' || same c b'.' || same c b'-' || same c b'/'

-- `^[a-zA-Z0-9][a-zA-Z0-9_.\-/]*$`
unfoldable pub valid_path_re : String → Bool
valid_path_re [] = false
valid_path_re (c ∷ s) = is_alphanumeric c && all_char is_path_char s

abbrev pub starts_with_slash : String → Bool
starts_with_slash [] = false
starts_with_slash (c ∷ s) = same c b'/'

-- The loop over the segments.
unfoldable pub check_segments : List String → Result (Unit {0})
check_segments List.[] = ok tt
check_segments (List.◌∷◌ seg segs) =
    if seg == ""
    then err (errorf "project path contains empty segment" end)
    else if seg == "." || seg == ".."
    then err (errorf "project path contains traversal segment: %q" (str seg end))
    else check_segments segs

abbrev pub guard : Bool → Error → Result (Unit {0})
guard true e = err e
guard false e = ok tt

unfoldable pub validate : String → Result (Unit {0})
validate path = do
  guard (path == "") (errorf "project path is empty" end)
  guard (starts_with_slash path) (errorf "project path must not start with /" end)
  guard (any_char (λ c. same c 92) path) (errorf "project path must not contain backslashes" end)
  guard (any_char (λ c. same c 0) path) (errorf "project path must not contain NUL" end)
  check_segments (split_slash path)
  if valid_path_re path
      then ok tt
      else err (errorf "project path %q contains invalid characters" (str path end))
