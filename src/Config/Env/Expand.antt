-- ===== src/Config/Env/Expand.antt =====
-- The expansion of a text, and of a field.
use Prim.Native.Char.{code}
use Prim.Native.String.{[], ◌∷◌}
use text.Mathlib.TextLemmas.{nil-append, cons-append}
use gitlab_geo_sync.Prelude.{
  String, ◌≡◌, refl, ap, ◌∙◌, Bool, true, false, not, ◌&&◌, ◌||◌, Option, none, List, if◌then◌else◌,
}
use gitlab_geo_sync.Go.Fmt.{ok}
use gitlab_geo_sync.Go.Strings.{same, has_prefix, contains, strip_prefix}
use gitlab_geo_sync.Config.Env.{
  after_opening, env_ref_re, then_piece, piece, replace_all, expanded, expand_env,
  expand_env_string,
}

strip_none : (p s : String) → has_prefix s p ≡ false → strip_prefix p s ≡ none
unfolding has_prefix strip_prefix
strip_none [] s h = cc
strip_none (d ∷ p) [] h = refl
strip_none (d ∷ p) (c ∷ s) h = by_char (same c (code d)) h (strip_none p s)
  where
    by_char :
        (b : Bool)
        → b && has_prefix s p ≡ false
        → (has_prefix s p ≡ false → strip_prefix p s ≡ none)
        → (if b then strip_prefix p s else none) ≡ none
    by_char true k f = f k
    by_char false k f = refl

or_false_inv : (a b : Bool) → a || b ≡ false → (a ≡ false) × (b ≡ false)
or_false_inv true b h = cc
or_false_inv false b h = (refl, h)

-- A text without an opening is kept.
replace-kept :
    (lookup : String → Option String) (s : String)
    → contains s "${" ≡ false
    → replace_all lookup s 0 ≡ (s, List.[])
unfolding contains replace_all env_ref_re
replace-kept lookup [] h = refl
replace-kept lookup (c ∷ s) h =
    let (now, later) = or_false_inv (has_prefix (c ∷ s) "${") (contains s "${") h in
    ap (λ o. piece lookup c (replace_all lookup s) (after_opening o)) (strip_none "${" (c ∷ s) now)
    ∙ ap (then_piece (c ∷ [], List.[])) (replace-kept lookup s later)
    ∙ ap (λ t. (t, List.[])) (cons-append c [] s ∙ ap (λ t. c ∷ t) (nil-append s))

-- The exported expansion of a text and that of a field, which is skipped where a text has no opening
-- of a reference, give the same result.
pub expand_env-expand_env_string :
    (lookup : String → Option String) (s : String)
    → expand_env lookup s ≡ expand_env_string lookup s
unfolding expand_env expand_env_string
expand_env-expand_env_string lookup s = by_opening (contains s "${") refl
  where
    by_opening :
        (b : Bool)
        → contains s "${" ≡ b
        → expanded lookup (replace_all lookup s 0)
          ≡ (if not b then ok s else expanded lookup (replace_all lookup s 0))
    by_opening true e = refl
    by_opening false e = ap (expanded lookup) (replace-kept lookup s e)
