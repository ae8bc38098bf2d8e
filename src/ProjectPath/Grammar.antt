-- ===== src/ProjectPath/Grammar.antt =====
-- Segments of a project path, and how paths split into them.
use Prim.Native.Char.{Char}
use Prim.Native.String.{[], ◌∷◌}
use text.Mathlib.TextLemmas.{nil-append, cons-append}
use gitlab_geo_sync.Prelude.{
  String, ◌≡◌, ◌≢◌, refl, sym, ap, ◌∙◌, Bool, true, false, not, ◌&&◌, List, All, arith, Bool-cases,
  inl, inr,
}
use gitlab_geo_sync.Go.Strings.{◌<>◌, same, all_char}
use gitlab_geo_sync.Go.Strings.Laws.{all_char-cons, all_char_join, same→eq}
use gitlab_geo_sync.ProjectPath.{split_slash, is_alphanumeric, is_path_char}

-- `[a-zA-Z0-9_.\-]`
abbrev pub is_segment_char : Char → Bool
is_segment_char c = is_path_char c && not (same c b'/')

-- A segment: not empty, of segment characters, and neither `.` nor `..`.
pub record IsSegment (s : String) : Type 0 where
  pub filled : s ≢ ""
  pub chars : all_char is_segment_char s ≡ true
  pub not_here : s ≢ "."
  pub not_up : s ≢ ".."

abbrev pub starts_alphanumeric : String → Bool
starts_alphanumeric [] = false
starts_alphanumeric (c ∷ s) = is_alphanumeric c

-- One or more segments joined by slashes.
unfoldable pub join_slash : String → List String → String
join_slash s List.[] = s
join_slash s (List.◌∷◌ t ts) = s <> ("/" <> join_slash t ts)

-- A path of one or more segments joined by slashes, which starts with a letter or a digit.
pub record InGrammar (path : String) : Type 0 where
  pub first : String
  pub rest : List String
  pub joined : path ≡ join_slash first rest
  pub first_segment : IsSegment first
  pub rest_segments : All IsSegment rest
  pub starts : starts_alphanumeric path ≡ true

no_slash : String → Bool
no_slash s = all_char (λ c. not (same c b'/')) s

-- Splitting at the slashes undoes joining.
split-cons :
    (c : Char) (s t : String) (ts : List String)
    → same c b'/' ≡ false
    → split_slash s ≡ List.◌∷◌ t ts
    → split_slash (c ∷ s) ≡ List.◌∷◌ (c ∷ t) ts
unfolding split_slash
split-cons c s t ts h e = rw (h, e)

pub slash-append : (r : String) → "/" <> r ≡ "/" ∷ r
slash-append r = cons-append "/" [] r ∙ ap (λ t. "/" ∷ t) (nil-append r)

split-slash : (r : String) → split_slash ("/" ∷ r) ≡ List.◌∷◌ [] (split_slash r)
unfolding split_slash
split-slash r = refl

segment_char_ne_slash : (c : Char) → is_segment_char c ≡ true → same c b'/' ≡ false
segment_char_ne_slash c h = ground arith

split-append :
    (s r : String)
    → all_char is_segment_char s ≡ true
    → split_slash (s <> ("/" <> r)) ≡ List.◌∷◌ s (split_slash r)
split-append [] r h = ap split_slash (nil-append ("/" <> r) ∙ slash-append r) ∙ split-slash r
split-append (c ∷ s) r h =
    let (now, later) = all_char-cons is_segment_char c s h in
    ap split_slash (cons-append c s ("/" <> r))
    ∙ split-cons c (s <> ("/" <> r)) s (split_slash r) (segment_char_ne_slash c now)
        (split-append s r later)

split-segment :
    (s : String) → all_char is_segment_char s ≡ true → split_slash s ≡ List.◌∷◌ s List.[]
split-segment [] h = unfold split_slash in refl
split-segment (c ∷ s) h =
    let (now, later) = all_char-cons is_segment_char c s h in
    split-cons c s s List.[] (segment_char_ne_slash c now) (split-segment s later)

pub split-join :
    (s : String) (ss : List String)
    → IsSegment s
    → All IsSegment ss
    → split_slash (join_slash s ss) ≡ List.◌∷◌ s ss
unfolding join_slash
split-join s List.[] h hs = split-segment s h.chars
split-join s (List.◌∷◌ t ts) h hs =
    split-append s (join_slash t ts) h.chars ∙ ap (List.◌∷◌ s) (split-join t ts hs.0 hs.1)

join-cons : (c : Char) (t : String) (ts : List String) → join_slash (c ∷ t) ts ≡ c ∷ join_slash t ts
unfolding join_slash
join-cons c t List.[] = refl
join-cons c t (List.◌∷◌ u us) = cons-append c t ("/" <> join_slash u us)

-- How a text splits: into parts that join to it, of the characters between the slashes.
pub record Parts (s : String) : Type 0 where
  pub first : String
  pub rest : List String
  pub split : split_slash s ≡ List.◌∷◌ first rest
  pub joined : join_slash first rest ≡ s
  pub chars : All (λ t. all_char is_segment_char t ≡ true) (List.◌∷◌ first rest)

Parts-slash : (c : Char) (s : String) → same c b'/' ≡ true → Parts s → Parts (c ∷ s)
unfolding split_slash join_slash all_char
Parts-slash c s h p = record {
  first = [];
  rest = List.◌∷◌ p.first p.rest;
  split = rw (h, p.split);
  joined =
      nil-append ("/" <> join_slash p.first p.rest)
      ∙ (slash-append (join_slash p.first p.rest)
          ∙ (ap (λ t. "/" ∷ t) p.joined ∙ ap (λ d. d ∷ s) (sym (same→eq c "/" h))));
  chars = (refl, p.chars);
}

Parts-cons :
    (c : Char) (s : String) → same c b'/' ≡ false → is_path_char c ≡ true → Parts s → Parts (c ∷ s)
Parts-cons c s h k p = record {
  first = c ∷ p.first;
  rest = p.rest;
  split = split-cons c s p.first p.rest h p.split;
  joined = join-cons c p.first p.rest ∙ ap (λ t. c ∷ t) p.joined;
  chars = (all_char_join is_segment_char c p.first (rw (k, h)) p.chars.0, p.chars.1);
}

pub Parts-of : (s : String) → all_char is_path_char s ≡ true → Parts s
Parts-of [] h = record {
  first = [];
  rest = List.[];
  split = unfold split_slash in refl;
  joined = unfold join_slash in refl;
  chars = (unfold all_char in refl, tt);
}
Parts-of (c ∷ s) h =
    let (now, later) = all_char-cons is_path_char c s h in
    let p = Parts-of s later in
    elim (Bool-cases (same c b'/')) [ inl e ↦ Parts-slash c s e p | inr e ↦ Parts-cons c s e now p ]
