-- ===== src/PgSetup/Lines.antt =====
-- Texts and their lines.
use Prim.Native.Char.{Char}
use Prim.Native.String.{[], ◌∷◌}
use text.Mathlib.TextLemmas.{append_assoc, nil-append, cons-append}
use gitlab_geo_sync.Prelude.{
  String, ◌≡◌, refl, sym, ap, ◌∙◌, Bool, true, false, ◌||◌, List, ◌++◌, All, if◌then◌else◌,
}
use gitlab_geo_sync.Go.Strings.{◌<>◌, same, any_char}
use gitlab_geo_sync.PgSetup.{split_lines, join_lines, cons_line, ends_line}

-- No line ends within the text.
abbrev pub IsPlain : String → Type 0
IsPlain s = any_char (λ c. same c 10) s ≡ false

pub or_false_inv : (a b : Bool) → a || b ≡ false → (a ≡ false) × (b ≡ false)
or_false_inv true b h = cc
or_false_inv false b h = (refl, h)

pub or_false_of : (a b : Bool) → a ≡ false → b ≡ false → a || b ≡ false
or_false_of a b h k = rw h k

pub IsPlain-append : (s t : String) → IsPlain s → IsPlain t → IsPlain (s <> t)
unfolding any_char
IsPlain-append [] t h k = rw (nil-append t) k
IsPlain-append (c ∷ s) t h k =
    let (a, b) = or_false_inv (same c 10) (any_char (λ x. same x 10) s) h in
    rw (cons-append c s t)
      (or_false_of (same c 10) (any_char (λ x. same x 10) (s <> t)) a (IsPlain-append s t b k))

line_end : (r : String) → split_lines ("\n" <> r) ≡ List.◌∷◌ "" (split_lines r)
unfolding split_lines
line_end r = ap split_lines (cons-append "\n" [] r ∙ ap (λ t. "\n" ∷ t) (nil-append r))

-- A line, and the lines after it.
split-line :
    (s r : String) → IsPlain s → split_lines (s <> ("\n" <> r)) ≡ List.◌∷◌ s (split_lines r)
unfolding split_lines any_char
split-line [] r h = ap split_lines (nil-append ("\n" <> r)) ∙ line_end r
split-line (c ∷ s) r h =
    let (a, b) = or_false_inv (same c 10) (any_char (λ x. same x 10) s) h in
    ap split_lines (cons-append c s ("\n" <> r))
    ∙ ap
        (λ q.
          if q
          then List.◌∷◌ "" (split_lines (s <> ("\n" <> r)))
          else cons_line c (split_lines (s <> ("\n" <> r))))
        a
    ∙ ap (cons_line c) (split-line s r b)

split-plain : (s : String) → IsPlain s → split_lines s ≡ List.◌∷◌ s List.[]
unfolding split_lines any_char
split-plain [] h = refl
split-plain (c ∷ s) h =
    let (a, b) = or_false_inv (same c 10) (any_char (λ x. same x 10) s) h in
    ap (λ q. if q then List.◌∷◌ "" (split_lines s) else cons_line c (split_lines s)) a
    ∙ ap (cons_line c) (split-plain s b)

-- Lines that are joined are found again.
pub split-join :
    (s : String) (ss : List String)
    → All IsPlain (List.◌∷◌ s ss)
    → split_lines (join_lines (List.◌∷◌ s ss)) ≡ List.◌∷◌ s ss
unfolding join_lines
split-join s List.[] h = split-plain s h.0
split-join s (List.◌∷◌ t ss) h =
    split-line s (join_lines (List.◌∷◌ t ss)) h.0 ∙ ap (List.◌∷◌ s) (split-join t ss h.1)

cons_line-All :
    (c : Char) (ls : List String)
    → same c 10 ≡ false
    → All IsPlain ls
    → All IsPlain (cons_line c ls)
unfolding any_char
cons_line-All c List.[] e h = (or_false_of (same c 10) false e refl, tt)
cons_line-All c (List.◌∷◌ l ls) e h =
    (or_false_of (same c 10) (any_char (λ x. same x 10) l) e h.0, h.1)

pub split_lines-All : (s : String) → All IsPlain (split_lines s)
unfolding split_lines any_char
split_lines-All [] = (refl, tt)
split_lines-All (c ∷ s) = by_end (same c 10) refl (split_lines-All s)
  where
    by_end :
        (b : Bool)
        → same c 10 ≡ b
        → All IsPlain (split_lines s)
        → All IsPlain (if b then List.◌∷◌ "" (split_lines s) else cons_line c (split_lines s))
    by_end true e h = (refl, h)
    by_end false e h = cons_line-All c (split_lines s) e h

ends_line-cons : (c : Char) (t : String) → ends_line t ≡ true → ends_line (c ∷ t) ≡ true
unfolding ends_line
ends_line-cons c [] h = cc
ends_line-cons c (d ∷ t) h = h

pub ends_line-newline : (s : String) → ends_line (s <> "\n") ≡ true
unfolding ends_line
ends_line-newline [] = ap ends_line (nil-append "\n")
ends_line-newline (c ∷ s) =
    ap ends_line (cons-append c s "\n") ∙ ends_line-cons c (s <> "\n") (ends_line-newline s)

-- An empty line more at the end is one line end more.
pub join-end :
    (s : String) (ss : List String)
    → join_lines (List.◌∷◌ s ss ++ List.◌∷◌ "" List.[]) ≡ join_lines (List.◌∷◌ s ss) <> "\n"
unfolding join_lines
join-end s List.[] = refl
join-end s (List.◌∷◌ t ss) =
    ap (λ x. s <> ("\n" <> x)) (join-end t ss)
    ∙ sym (
        append_assoc s ("\n" <> join_lines (List.◌∷◌ t ss)) "\n"
        ∙ ap (λ x. s <> x) (append_assoc "\n" (join_lines (List.◌∷◌ t ss)) "\n"))
