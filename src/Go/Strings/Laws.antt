-- ===== src/Go/Strings/Laws.antt =====
-- Laws of the text functions.
use Prim.Native.Char.{Char, code}
use Prim.Native.String.{[], ◌∷◌}
use text.Mathlib.TextLemmas.{nil-append, cons-append}
use text.Mathlib.TextEquality.{Char-path}
use gitlab_geo_sync.Prelude.{String, ◌≡◌, Bool, true, arith}
use gitlab_geo_sync.Go.Strings.{◌<>◌, same, all_char}

pub all_char-cons :
    (p : Char → Bool) (c : Char) (s : String)
    → all_char p (c ∷ s) ≡ true
    → (p c ≡ true) × (all_char p s ≡ true)
unfolding all_char
all_char-cons p c s h = ground arith

pub all_char_join :
    (p : Char → Bool) (c : Char) (s : String)
    → p c ≡ true
    → all_char p s ≡ true
    → all_char p (c ∷ s) ≡ true
unfolding all_char
all_char_join p c s h k = ground arith

pub all_char-append :
    (p : Char → Bool) (s t : String)
    → all_char p s ≡ true
    → all_char p t ≡ true
    → all_char p (s <> t) ≡ true
all_char-append p [] t h k = rw nil-append k
all_char-append p (c ∷ s) t h k =
    let (now, later) = all_char-cons p c s h in
    rw cons-append (all_char_join p c (s <> t) now (all_char-append p s t later k))

pub same→eq : (c d : Char) → same c (code d) ≡ true → c ≡ d
same→eq c d h = Char-path c d (ground arith)
