-- ===== src/Config/Env.antt =====
-- The environment variables in internal/config/config.go: ExpandEnv, and the walk over the loaded
-- structure. `lookup` is os.LookupEnv. A value is what reflection sees: a map is its values, in the
-- order of the walk, and only an addressable string can be set.
pub mod Expand
pub mod Walk
pub mod Reference
use Prim.Native.Char.{Char, code}
use Prim.Native.String.{[], ◌∷◌}
use mathlib.Core.List
use gitlab_geo_sync.Prelude.{
  ℕ, zero, suc, String, Bool, true, false, not, ◌&&◌, ◌||◌, Option, none, some, List, ◌++◌, leb,
  if◌then◌else◌, ◌==◌,
}
use gitlab_geo_sync.Go.Fmt.{errorf, end, str, Result, ok, err, panic}
use gitlab_geo_sync.Go.Strings.{◌<>◌, same, contains, strip_prefix}

-- `[A-Z_]` and `[A-Z0-9_]`
unfoldable pub is_name_start : Char → Bool
is_name_start c = leb b'A' (code c) && leb (code c) b'Z' || same c b'_'

unfoldable pub is_name_char : Char → Bool
is_name_char c = is_name_start c || leb b'0' (code c) && leb (code c) b'9'

-- The name up to the closing brace, if nothing else comes before that.
abbrev pub name_cons : Char → Option String → Option String
name_cons c none = none
name_cons c (some n) = some (c ∷ n)

unfoldable pub name_to_brace : String → Option String
name_to_brace [] = none
name_to_brace (c ∷ s) =
    let rest = name_to_brace s in
    if same c 125 then some "" else (if is_name_char c then name_cons c rest else none)

unfoldable pub var_name : String → Option String
var_name [] = none
var_name (c ∷ s) = if is_name_start c then name_cons c (name_to_brace s) else none

abbrev pub after_opening : Option String → Option String
after_opening none = none
after_opening (some s) = var_name s

-- `^\$\{([A-Z_][A-Z0-9_]*)\}`: the name of a reference at the start of a text.
unfoldable pub env_ref_re : String → Option String
env_ref_re s = after_opening (strip_prefix "${" s)

abbrev pub size : String → ℕ
size [] = 0
size (c ∷ s) = suc (size s)

abbrev pub reference : String → String
reference name = "${" <> (name <> "}")

-- What a reference becomes, and the names that are missing.
abbrev pub looked_up : String → Option String → String × List String
looked_up name none = (reference name, List.◌∷◌ name List.[])
looked_up name (some v) = if v == "" then (reference name, List.◌∷◌ name List.[]) else (v, List.[])

abbrev pub then_piece : String × List String → String × List String → String × List String
then_piece (out, missing) (out', missing') = (out <> out', missing ++ missing')

module _ (lookup : String → Option String) where
  -- At a place of the text: a reference is replaced and the rest of it skipped, another character is
  -- kept.
  abbrev pub piece : Char → (ℕ → String × List String) → Option String → String × List String
  piece c rest none = then_piece (c ∷ [], List.[]) (rest 0)
  piece c rest (some name) =
      then_piece (looked_up name (lookup name)) (rest (suc (suc (size name))))

  -- `ReplaceAllFunc`, where some characters are still to be skipped.
  unfoldable pub replace_all : String → ℕ → String × List String
  replace_all [] skip = ("", List.[])
  replace_all (c ∷ s) (suc skip) = replace_all s skip
  replace_all (c ∷ s) zero = piece c (replace_all s) (env_ref_re (c ∷ s))

  unfoldable pub join_comma : List String → String
  join_comma List.[] = ""
  join_comma (List.◌∷◌ s List.[]) = s
  join_comma (List.◌∷◌ s (List.◌∷◌ t ss)) = s <> (", " <> join_comma (List.◌∷◌ t ss))

  abbrev pub expanded : String × List String → Result String
  expanded (out, List.[]) = ok out
  expanded (out, List.◌∷◌ n ns) = err (
      errorf "environment variables referenced but not set: %s"
        (str (join_comma (List.◌∷◌ n ns)) end))

  unfoldable pub expand_env : String → Result String
  expand_env raw = expanded (replace_all raw 0)

  unfoldable pub expand_env_string : String → Result String
  expand_env_string s = if not (contains s "${") then ok s else expanded (replace_all s 0)

mutual
  pub data Value : Type 0 where
    text_value : String → Value
    nil_pointer : Value
    pointer : Value → Value
    slice : Values → Value
    map_values : Values → Value
    struct_value : Values → Value
    other : Value

  pub data Values : Type 0 where
    no_values : Values
    add_value : Value → Values → Values

abbrev pub set_string : Bool → Result String → Result Value
set_string addressable (ok s) =
    if addressable
    then ok (text_value s)
    else panic "reflect.Value.SetString using unaddressable value"
set_string addressable (err e) = err e
set_string addressable (panic m) = panic m

module _ {A B : Type 0} where
  abbrev pub map_result : (A → B) → Result A → Result B
  map_result f (ok a) = ok (f a)
  map_result f (err e) = err e
  map_result f (panic m) = panic m

  abbrev pub then_result : Result A → (A → Result B) → Result B
  then_result (ok a) f = f a
  then_result (err e) f = err e
  then_result (panic m) f = panic m

module _ (lookup : String → Option String) where
  unfoldable mutual
    pub resolve_env : Bool → Value → Result Value
    resolve_env addressable (text_value s) = set_string addressable (expand_env_string lookup s)
    resolve_env addressable nil_pointer = ok nil_pointer
    resolve_env addressable (pointer v) = map_result pointer (resolve_env true v)
    resolve_env addressable (slice vs) = map_result slice (resolve_all true vs)
    resolve_env addressable (map_values vs) = map_result map_values (resolve_all false vs)
    resolve_env addressable (struct_value vs) = map_result struct_value (resolve_all addressable vs)
    resolve_env addressable other = ok other

    pub resolve_all : Bool → Values → Result Values
    resolve_all addressable no_values = ok no_values
    resolve_all addressable (add_value v vs) =
        let rest = resolve_all addressable vs in
        then_result (resolve_env addressable v) (λ w. map_result (add_value w) rest)

  -- The configuration itself is behind a pointer.
  unfoldable pub resolve_env_in_struct : Value → Result Value
  resolve_env_in_struct c = resolve_env true c
