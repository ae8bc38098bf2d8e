-- ===== src/Config/Env/Reference.antt =====
-- Which texts start with a reference to a variable.
use Prim.Native.Char.{Char}
use Prim.Native.String.{◌∷◌}
use gitlab_geo_sync.Prelude.{String, ◌≡◌, true}
use gitlab_geo_sync.Go.Strings.{◌<>◌, all_char}
use gitlab_geo_sync.Config.Env.{is_name_start, is_name_char}

-- A capital letter or an underscore, and then such characters and digits.
pub data IsName : String → Type 0 where
  is_name :
      (c : Char) (n : String)
      → is_name_start c ≡ true
      → all_char is_name_char n ≡ true
      → IsName (c ∷ n)

-- A name, the brace after it and the rest.
abbrev Braced : String → String → Type 0
Braced s n = (rest : String) × ((all_char is_name_char n ≡ true) × (s ≡ n <> ("}" <> rest)))

-- A text refers to a variable at its start.
abbrev pub Refers : String → String → Type 0
Refers s name = (rest : String) × (IsName name × (s ≡ "${" <> (name <> ("}" <> rest))))

Named : String → String → Type 0
Named t name = (rest : String) × (IsName name × (t ≡ name <> ("}" <> rest)))
