-- ===== src/Go/Strings.antt =====
-- The functions of Go's `strings` package that the program calls, over code points.
pub mod Laws
use Prim.Native.Char.{Char, code}
use Prim.Native.String
use Prim.Native.String.{[], ◌∷◌}
use gitlab_geo_sync.Go.Int64.{ℤ, pos, negsuc}
use gitlab_geo_sync.Prelude.{
  leb, ◌==◌, Option, none, some, zero, suc, ◌/◌, ◌%◌, ltb, if◌then◌else◌, ℕ, String, ◌≡◌, refl,
  Bool, true, false, ◌&&◌, ◌||◌, eqb,
}

infixr 60 ◌<>◌
abbrev pub ◌<>◌ : String → String → String
s <> t = String.◌++◌ s t

abbrev pub same : Char → ℕ → Bool
same c n = eqb (code c) n

-- strings.HasPrefix
unfoldable pub has_prefix : String → String → Bool
has_prefix s [] = true
has_prefix [] (p ∷ ps) = false
has_prefix (c ∷ s) (p ∷ ps) = same c (code p) && has_prefix s ps

-- strings.Contains
unfoldable pub contains : String → String → Bool
unfolding has_prefix
contains [] p = has_prefix [] p
contains (c ∷ s) p = has_prefix (c ∷ s) p || contains s p

-- Does some character of the text pass the test?
unfoldable pub any_char : (Char → Bool) → String → Bool
any_char p [] = false
any_char p (c ∷ s) = p c || any_char p s

unfoldable pub all_char : (Char → Bool) → String → Bool
all_char p [] = true
all_char p (c ∷ s) = p c && all_char p s

contains_middle : contains "rsync: change_dir failed" "change_dir" ≡ true
unfolding contains
contains_middle = refl

-- strconv.Itoa
unfoldable pub digit : ℕ → Char
digit zero = "0"
digit (suc zero) = "1"
digit (suc (suc zero)) = "2"
digit (suc (suc (suc zero))) = "3"
digit (suc (suc (suc (suc zero)))) = "4"
digit (suc (suc (suc (suc (suc zero))))) = "5"
digit (suc (suc (suc (suc (suc (suc zero)))))) = "6"
digit (suc (suc (suc (suc (suc (suc (suc zero))))))) = "7"
digit (suc (suc (suc (suc (suc (suc (suc (suc zero)))))))) = "8"
digit n = "9"

-- The decimal digits of `n`, for a fuel above `n`.
unfoldable pub decimal : ℕ → ℕ → String
decimal zero n = ""
decimal (suc f) n =
    let rest = decimal f (n / 10) <> (digit (n % 10) ∷ "") in
    if ltb n 10 then digit n ∷ "" else rest

unfoldable pub itoa : ℤ → String
itoa (pos n) = decimal (suc n) n
itoa (negsuc n) = "-" ∷ decimal (suc (suc n)) (suc n)

itoa_port : itoa (pos 5432) ≡ "5432"
unfolding itoa decimal digit
itoa_port = refl

-- The white space of `strings.TrimSpace`, among the ASCII characters.
unfoldable pub is_blank : Char → Bool
is_blank c = same c 32 || leb 9 (code c) && leb (code c) 13

unfoldable pub trim_left : String → String
trim_left [] = []
trim_left (c ∷ s) = let rest = trim_left s in if is_blank c then rest else c ∷ s

unfoldable pub trim_right : String → String
trim_right [] = []
trim_right (c ∷ s) = let rest = trim_right s in if is_blank c && rest == "" then [] else c ∷ rest

unfoldable pub trim_space : String → String
trim_space s = trim_right (trim_left s)

-- strings.TrimPrefix, with whether the prefix was there.
unfoldable pub strip_prefix : String → String → Option String
strip_prefix [] s = some s
strip_prefix (p ∷ ps) [] = none
strip_prefix (p ∷ ps) (c ∷ s) =
    let rest = strip_prefix ps s in if same c (code p) then rest else none

-- strings.TrimSuffix, for a suffix that is not empty.
unfoldable pub trim_suffix : String → String → String
trim_suffix [] suffix = []
trim_suffix (c ∷ s) suffix =
    let rest = trim_suffix s suffix in if (c ∷ s) == suffix then [] else c ∷ rest
