-- ===== src/Config/Env/Walk.antt =====
-- Which strings the walk reaches, and when it succeeds.
use Prim.Native.Char.{Char}
use Prim.Native.String as Str
use gitlab_geo_sync.Config.Env.Expand.{expand_env-expand_env_string}
use gitlab_geo_sync.Prelude.{
  ℕ, zero, suc, not, none, some, if◌then◌else◌, ◌==◌, String, ◌≡◌, refl, sym, ap, ◌∙◌, Bool, true,
  false, ◌&&◌, Option, List, [], ◌∷◌, ◌++◌, all,
}
use gitlab_geo_sync.Go.Fmt.{Result, ok, err, panic}
use gitlab_geo_sync.Failover.Script.{is_ok}
use gitlab_geo_sync.Config.Env.{
  Value, text_value, nil_pointer, pointer, slice, map_values, struct_value, other, Values,
  no_values, add_value, set_string, map_result, then_result, expand_env, expand_env_string,
  env_ref_re, size, reference, looked_up, piece, replace_all, expanded, resolve_env, resolve_all,
  resolve_env_in_struct,
}

-- The strings of a value, each with whether it can be set: not inside a map, but behind a pointer or in
-- a slice.
unfoldable mutual
  pub strings_of : Bool → Value → List (Bool × String)
  strings_of settable (text_value s) = (settable, s) ∷ []
  strings_of settable nil_pointer = []
  strings_of settable (pointer v) = strings_of true v
  strings_of settable (slice vs) = strings_in true vs
  strings_of settable (map_values vs) = strings_in false vs
  strings_of settable (struct_value vs) = strings_in settable vs
  strings_of settable other = []

  pub strings_in : Bool → Values → List (Bool × String)
  strings_in settable no_values = []
  strings_in settable (add_value v vs) = strings_of settable v ++ strings_in settable vs

-- The names that a text refers to as `${NAME}`, from left to right, where some characters are still to
-- be skipped.
abbrev names_at : Option String → (ℕ → List String) → List String
names_at none rest = rest 0
names_at (some name) rest = name ∷ rest (suc (suc (size name)))

unfoldable pub references : String → ℕ → List String
references Str.[] skip = []
references (Str.◌∷◌ c s) (suc skip) = references s skip
references (Str.◌∷◌ c s) zero = names_at (env_ref_re (Str.◌∷◌ c s)) (references s)

-- A variable that is set, and not to the empty text.
abbrev pub has_value : Option String → Bool
has_value none = false
has_value (some v) = not (v == "")

-- A string that can be set, and whose references are all to variables that have a value.
abbrev pub is_fine : (String → Option String) → Bool × String → Bool
is_fine lookup (settable, s) = settable && all (λ name. has_value (lookup name)) (references s 0)

is_nil : List String → Bool
is_nil [] = true
is_nil (x ∷ xs) = false

is_nil-append : (a b : List String) → is_nil (a ++ b) ≡ is_nil a && is_nil b
unfolding is_nil
is_nil-append [] b = refl
is_nil-append (x ∷ a) b = refl

expanded-ok :
    (lookup : String → Option String) (p : String × List String)
    → is_ok (expanded lookup p) ≡ is_nil p.1
unfolding is_nil
expanded-ok lookup (out, []) = refl
expanded-ok lookup (out, n ∷ ns) = refl

-- A reference is missing exactly where its variable has no value.
looked_up-missing : (name : String) (o : Option String) → is_nil (looked_up name o).1 ≡ has_value o
unfolding is_nil
looked_up-missing name none = refl
looked_up-missing name (some v) = by_empty (v == "")
  where
    by_empty :
        (b : Bool)
        → is_nil (if◌then◌else◌ {A = String × List String} b (reference name, name ∷ []) (v, [])).1
          ≡ not b
    by_empty true = refl
    by_empty false = refl

module _ (lookup : String → Option String) where
  piece-missing :
      (c : Char) (s : String) (o : Option String)
      → ((k : ℕ)
          → is_nil (replace_all lookup s k).1
            ≡ all (λ name. has_value (lookup name)) (references s k))
      → is_nil (piece lookup c (replace_all lookup s) o).1
        ≡ all (λ name. has_value (lookup name)) (names_at o (references s))
  piece-missing c s none ih = ih 0
  piece-missing c s (some name) ih =
      is_nil-append (looked_up name (lookup name)).1 _
      ∙ ap (λ b. b && is_nil (replace_all lookup s (suc (suc (size name)))).1)
          (looked_up-missing name (lookup name))
      ∙ ap (λ b. has_value (lookup name) && b) (ih (suc (suc (size name))))

  replace_all-missing :
      (s : String) (k : ℕ)
      → is_nil (replace_all lookup s k).1 ≡ all (λ name. has_value (lookup name)) (references s k)
  unfolding replace_all references is_nil
  replace_all-missing Str.[] k = refl
  replace_all-missing (Str.◌∷◌ c s) (suc k) = replace_all-missing s k
  replace_all-missing (Str.◌∷◌ c s) zero =
      piece-missing c s (env_ref_re (Str.◌∷◌ c s)) (replace_all-missing s)

  expand_env_string-ok :
      (s : String)
      → is_ok (expand_env_string lookup s) ≡ all (λ name. has_value (lookup name)) (references s 0)
  unfolding expand_env
  expand_env_string-ok s =
      ap is_ok (sym (expand_env-expand_env_string lookup s))
      ∙ expanded-ok lookup (replace_all lookup s 0)
      ∙ replace_all-missing s 0

all-append :
    (f : Bool × String → Bool) (a b : List (Bool × String)) → all f (a ++ b) ≡ all f a && all f b
all-append f [] b = refl
all-append f (x ∷ a) b = by_head (f x) (all-append f a b)
  where
    by_head :
        (c : Bool)
        → all f (a ++ b) ≡ all f a && all f b
        → c && all f (a ++ b) ≡ (c && all f a) && all f b
    by_head true e = e
    by_head false e = refl

module _ {A B : Type 0} where
  map_result-ok : (f : A → B) (r : Result A) → is_ok (map_result f r) ≡ is_ok r
  map_result-ok f (ok a) = refl
  map_result-ok f (err e) = refl
  map_result-ok f (panic m) = refl

  then_map-ok :
      (r : Result A) (f : A → B → B) (q : Result B)
      → is_ok (then_result r (λ a. map_result (f a) q)) ≡ is_ok r && is_ok q
  then_map-ok (ok a) f (ok b) = refl
  then_map-ok (ok a) f (err e) = refl
  then_map-ok (ok a) f (panic m) = refl
  then_map-ok (err e) f q = refl
  then_map-ok (panic m) f q = refl

set_string-ok : (b : Bool) (r : Result String) → is_ok (set_string b r) ≡ (b && is_ok r) && true
set_string-ok true (ok s) = refl
set_string-ok false (ok s) = refl
set_string-ok true (err e) = refl
set_string-ok false (err e) = refl
set_string-ok true (panic m) = refl
set_string-ok false (panic m) = refl

module _ (lookup : String → Option String) where
  mutual
    unfolding resolve_env strings_of

    resolve_env-fine :
        (b : Bool) (v : Value)
        → is_ok (resolve_env lookup b v) ≡ all (is_fine lookup) (strings_of b v)
    resolve_env-fine b (text_value s) =
        set_string-ok b (expand_env_string lookup s)
        ∙ ap (λ c. (b && c) && true) (expand_env_string-ok lookup s)
    resolve_env-fine b nil_pointer = refl
    resolve_env-fine b (pointer v) =
        map_result-ok pointer (resolve_env lookup true v) ∙ resolve_env-fine true v
    resolve_env-fine b (slice vs) =
        map_result-ok slice (resolve_all lookup true vs) ∙ resolve_all-fine true vs
    resolve_env-fine b (map_values vs) =
        map_result-ok map_values (resolve_all lookup false vs) ∙ resolve_all-fine false vs
    resolve_env-fine b (struct_value vs) =
        map_result-ok struct_value (resolve_all lookup b vs) ∙ resolve_all-fine b vs
    resolve_env-fine b other = refl

    resolve_all-fine :
        (b : Bool) (vs : Values)
        → is_ok (resolve_all lookup b vs) ≡ all (is_fine lookup) (strings_in b vs)
    resolve_all-fine b no_values = refl
    resolve_all-fine b (add_value v vs) =
        then_map-ok (resolve_env lookup b v) add_value (resolve_all lookup b vs)
        ∙ ap (λ c. c && is_ok (resolve_all lookup b vs)) (resolve_env-fine b v)
        ∙ ap (λ c. all (is_fine lookup) (strings_of b v) && c) (resolve_all-fine b vs)
        ∙ sym (all-append (is_fine lookup) (strings_of b v) (strings_in b vs))

-- The walk over the loaded configuration succeeds exactly when each string in it can be set, which one
-- inside a map cannot unless it is behind a pointer or in a slice there, and each name that it refers
-- to as `${NAME}` is that of a variable set to a text that is not empty. So with a string right inside
-- a map it does not succeed, whatever the environment.
pub resolve_env_in_struct-fine :
    (lookup : String → Option String) (c : Value)
    → is_ok (resolve_env_in_struct lookup c) ≡ all (is_fine lookup) (strings_of true c)
unfolding resolve_env_in_struct
resolve_env_in_struct-fine lookup c = resolve_env-fine lookup true c
