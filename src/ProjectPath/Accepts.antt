-- ===== src/ProjectPath/Accepts.antt =====
-- The accepted paths are those of a grammar of segments.
use Prim.Native.Char.{Char}
use Prim.Native.String.{[], ◌∷◌}
use text.Mathlib.TextLemmas.{cons-ne-nil}
use gitlab_geo_sync.Prelude.{
  ℕ, String, ◌≡◌, ◌↔◌, refl, sym, ap, ◌∙◌, Bool, true, false, ◌&&◌, List, All, ◌==◌, arith,
  eq_false, eq_false_of_ne,
}
use gitlab_geo_sync.Go.Fmt.{ok}
use gitlab_geo_sync.Go.Strings.{same, all_char, any_char}
use gitlab_geo_sync.Go.Strings.Laws.{all_char-cons, all_char_join, all_char-append}
use gitlab_geo_sync.ProjectPath.Grammar.{
  is_segment_char, IsSegment, starts_alphanumeric, join_slash, InGrammar, split-join, Parts-of,
}
use gitlab_geo_sync.ProjectPath.{
  split_slash, is_alphanumeric, is_path_char, valid_path_re, starts_with_slash, check_segments,
  validate,
}

alphanumeric_path_char : (c : Char) → is_alphanumeric c ≡ true → is_path_char c ≡ true
unfolding is_path_char
alphanumeric_path_char c h = rw h

re_inv :
    (path : String)
    → valid_path_re path ≡ true
    → (starts_alphanumeric path ≡ true) × (all_char is_path_char path ≡ true)
unfolding valid_path_re
re_inv [] h = cc
re_inv (c ∷ s) h =
    let both = and_inv (is_alphanumeric c) _ h in
    (both.0, all_char_join is_path_char c s (alphanumeric_path_char c both.0) both.1)
  where
    and_inv : (a b : Bool) → (a && b) ≡ true → (a ≡ true) × (b ≡ true)
    and_inv a b h = ground arith

validate_inv :
    (path : String)
    → validate path ≡ ok tt
    → (check_segments (split_slash path) ≡ ok tt) × (valid_path_re path ≡ true)
unfolding validate
validate_inv path h = ground arith

segments_inv :
    (ss : List String)
    → check_segments ss ≡ ok tt
    → All (λ t. all_char is_segment_char t ≡ true) ss
    → All IsSegment ss
unfolding check_segments
segments_inv List.[] h k = tt
segments_inv (List.◌∷◌ s ss) h k = (
  record {
    filled = eq_false s "" (ground arith);
    chars = k.0;
    not_here = eq_false s "." (ground arith);
    not_up = eq_false s ".." (ground arith);
  },
  segments_inv ss (ground arith) k.1,
)

segments_ok : (ss : List String) → All IsSegment ss → check_segments ss ≡ ok tt
unfolding check_segments
segments_ok List.[] h = refl
segments_ok (List.◌∷◌ s ss) h = rw (eq_false_of_ne s "" h.0.filled) (
    rw (eq_false_of_ne s "." h.0.not_here)
      (rw (eq_false_of_ne s ".." h.0.not_up) (segments_ok ss h.1)))

-- A character that no path holds is in none.
any_char_none :
    (n : ℕ) (s : String)
    → ((c : Char) → is_path_char c ≡ true → same c n ≡ false)
    → all_char is_path_char s ≡ true
    → any_char (λ c. same c n) s ≡ false
unfolding any_char
any_char_none n [] k h = refl
any_char_none n (c ∷ s) k h =
    let (now, later) = all_char-cons is_path_char c s h in rw (k c now) (any_char_none n s k later)

no_backslash : (c : Char) → is_path_char c ≡ true → same c 92 ≡ false
unfolding is_path_char is_alphanumeric
no_backslash c h = ground arith

no_nul : (c : Char) → is_path_char c ≡ true → same c 0 ≡ false
unfolding is_path_char is_alphanumeric
no_nul c h = ground arith

segment_chars : (s : String) → all_char is_segment_char s ≡ true → all_char is_path_char s ≡ true
segment_chars [] h = unfold all_char in refl
segment_chars (c ∷ s) h =
    let (now, later) = all_char-cons is_segment_char c s h in
    all_char_join is_path_char c s (ground arith) (segment_chars s later)

slash_text : all_char is_path_char "/" ≡ true
unfolding all_char is_path_char is_alphanumeric
slash_text = refl

join_chars :
    (s : String) (ss : List String)
    → IsSegment s
    → All IsSegment ss
    → all_char is_path_char (join_slash s ss) ≡ true
unfolding join_slash
join_chars s List.[] h hs = segment_chars s h.chars
join_chars s (List.◌∷◌ t ts) h hs =
    all_char-append is_path_char s _ (segment_chars s h.chars)
      (all_char-append is_path_char "/" _ slash_text (join_chars t ts hs.0 hs.1))

re_ok :
    (path : String)
    → starts_alphanumeric path ≡ true
    → all_char is_path_char path ≡ true
    → valid_path_re path ≡ true
unfolding valid_path_re
re_ok [] s h = cc
re_ok (c ∷ p) s h = rw s (all_char-cons is_path_char c p h).1

no_first_slash : (path : String) → starts_alphanumeric path ≡ true → starts_with_slash path ≡ false
unfolding is_alphanumeric
no_first_slash [] h = refl
no_first_slash (c ∷ s) h = ground arith

not_empty : (path : String) → starts_alphanumeric path ≡ true → (path == "") ≡ false
not_empty [] h = cc
not_empty (c ∷ s) h = eq_false_of_ne (c ∷ s) "" (cons-ne-nil c s)

validate_ok :
    (path : String)
    → starts_alphanumeric path ≡ true
    → all_char is_path_char path ≡ true
    → check_segments (split_slash path) ≡ ok tt
    → validate path ≡ ok tt
unfolding validate
validate_ok path s h k = rw (
  not_empty path s,
  no_first_slash path s,
  any_char_none 92 path no_backslash h,
  any_char_none 0 path no_nul h,
  k,
  re_ok path s h,
)

-- `Validate` accepts exactly the paths of one or more segments joined by slashes that start with a
-- letter or a digit, where a segment is not empty, holds only letters, digits, `_`, `.` and `-`, and
-- is neither `.` nor `..`.
pub validate-InGrammar : (path : String) → (validate path ≡ ok tt) ↔ InGrammar path
validate-InGrammar path = (
  λ h.
      let (segments, re) = validate_inv path h in
      let (starts, chars) = re_inv path re in
      let p = Parts-of path chars in
      let good = segments_inv _ (rw p.split at segments) p.chars in
      record {
        first = p.first;
        rest = p.rest;
        joined = sym p.joined;
        first_segment = good.0;
        rest_segments = good.1;
        starts = starts;
      },
  λ g.
      validate_ok path g.starts
        (ap (all_char is_path_char) g.joined
          ∙ join_chars g.first g.rest g.first_segment g.rest_segments)
        (ap check_segments
            (ap split_slash g.joined ∙ split-join g.first g.rest g.first_segment g.rest_segments)
          ∙ segments_ok (List.◌∷◌ g.first g.rest) (g.first_segment, g.rest_segments)),
)
