-- ===== src/Config/Dsn/Pair.antt =====
-- One `key=value` pair of a connection string reads back as it was.
use Prim.Native.Char.{Char}
use Prim.Native.String.{[], ◌∷◌}
use text.Mathlib.TextLemmas.{cons-ne-nil, nil-append, cons-append, append-nil, append_assoc}
use gitlab_geo_sync.Prelude.{
  String, ◌≡◌, refl, ap, ◌∙◌, Bool, true, false, ◌&&◌, ◌||◌, not, Option, none, some, List, arith,
  if◌then◌else◌, eq_false_of_ne, Bool-cases, inl, inr,
}
use gitlab_geo_sync.Go.Strings.{◌<>◌, same, all_char, any_char}
use gitlab_geo_sync.Go.Strings.Laws.{all_char-cons}
use gitlab_geo_sync.Config.Dsn.{quote, backslash, is_special, escape, quote_lib_pq_value}
use gitlab_geo_sync.Config.Dsn.Parse.{
  Mode, gap, key, value, bare, quoted, quoted_escape, push, is_space, Pairs, next, prepend, parse,
}

pub prepend_nil : (o : Option Pairs) → prepend List.[] o ≡ o
prepend_nil none = refl
prepend_nil (some qs) = refl

push-append : (v : String) (c : Char) (s : String) → push v c <> s ≡ v <> (c ∷ s)
push-append v c s =
    append_assoc v (c ∷ []) s
    ∙ ap (λ t. v <> t) (cons-append c [] s ∙ ap (λ t. c ∷ t) (nil-append s))

-- One character, with no pair ended and with one.
pub parse-cons :
    (m m' : Mode) (c : Char) (s : String) → next m c ≡ (m', List.[]) → parse m (c ∷ s) ≡ parse m' s
unfolding parse
parse-cons m m' c s e = rw e (prepend_nil (parse m' s))

parse-cons_emit :
    (m m' : Mode) (c : Char) (s : String) (out : Pairs)
    → next m c ≡ (m', out)
    → parse m (c ∷ s) ≡ prepend out (parse m' s)
unfolding parse
parse-cons_emit m m' c s out e = rw e

-- A mode that gathers the characters that pass `p` gathers a whole text of them.
module _ (m : String → Mode) (p : Char → Bool)
    (gathers : (v : String) (c : Char) → p c ≡ true → next (m v) c ≡ (m (push v c), List.[])) where
  gather :
      (v s rest : String) → all_char p s ≡ true → parse (m v) (s <> rest) ≡ parse (m (v <> s)) rest
  gather v [] rest h = rw (nil-append, append-nil)
  gather v (c ∷ s) rest h =
      let (now, later) = all_char-cons p c s h in
      rw cons-append (
        parse-cons (m v) (m (push v c)) c (s <> rest) (gathers v c now)
        ∙ (gather (push v c) s rest later ∙ ap (λ t. parse (m t) rest) (push-append v c s)))

unfoldable pub key_char : Char → Bool
key_char c = not (same c 61) && not (is_space c)

unfoldable pub bare_char : Char → Bool
bare_char c = not (is_space c) && not (same c 92)

key_gathers :
    (k : String) (c : Char) → key_char c ≡ true → next (key k) c ≡ (key (push k c), List.[])
unfolding next key_char
key_gathers k c h = ground arith

bare_gathers :
    (k v : String) (c : Char)
    → bare_char c ≡ true
    → next (bare k v) c ≡ (bare k (push v c), List.[])
unfolding next bare_char
bare_gathers k v c h = ground arith

next_quoted_plain :
    (k v : String) (c : Char)
    → (same c 92 || same c 39) ≡ false
    → next (quoted k v) c ≡ (quoted k (push v c), List.[])
unfolding next
next_quoted_plain k v c h = ground arith

next_quoted_backslash : (k v : String) → next (quoted k v) backslash ≡ (quoted_escape k v, List.[])
unfolding next
next_quoted_backslash k v = refl

next_quoted_escape :
    (k v : String) (c : Char) → next (quoted_escape k v) c ≡ (quoted k (push v c), List.[])
unfolding next
next_quoted_escape k v c = refl

gather_quoted :
    (k v s rest : String) → parse (quoted k v) (escape s <> rest) ≡ parse (quoted k (v <> s)) rest
unfolding escape
gather_quoted k v [] rest = rw (nil-append, append-nil)
gather_quoted k v (c ∷ s) rest =
    let ih =
      gather_quoted k (push v c) s rest ∙ ap (λ t. parse (quoted k t) rest) (push-append v c s) in
    elim (Bool-cases (same c 92 || same c 39)) [
      | inl special ↦ rw special (
          ap (parse (quoted k v)) (
            cons-append backslash (c ∷ escape s) rest
            ∙ ap (λ t. backslash ∷ t) (cons-append c (escape s) rest))
          ∙ (parse-cons _ _ backslash (c ∷ (escape s <> rest)) (next_quoted_backslash k v)
              ∙ (parse-cons _ _ c (escape s <> rest) (next_quoted_escape k v c) ∙ ih)))
      | inr plain ↦ rw plain (
          ap (parse (quoted k v)) (cons-append c (escape s) rest)
          ∙ (parse-cons _ _ c (escape s <> rest) (next_quoted_plain k v c plain) ∙ ih))
    ]

-- What may follow a bare value: nothing, or a blank.
pub data Ended : String → Type 0 where
  stops : Ended []
  blank : (r : String) → Ended (" " ∷ r)

bare_ends :
    (k v rest : String)
    → Ended rest
    → parse (bare k v) rest ≡ prepend (List.◌∷◌ (k, v) List.[]) (parse gap rest)
unfolding parse
bare_ends k v _ stops = refl
bare_ends k v _ (blank r) = rw (prepend_nil (parse gap r))

-- No white space but the blank.
unfoldable pub clean_char : Char → Bool
clean_char c = not (is_space c) || same c 32

abbrev pub Clean : String → Type 0
Clean v = all_char clean_char v ≡ true

bare_of_Clean : (v : String) → Clean v → any_char is_special v ≡ false → all_char bare_char v ≡ true
unfolding all_char any_char clean_char bare_char is_special
bare_of_Clean [] h e = refl
bare_of_Clean (c ∷ v) h e = ground (arith, bare_of_Clean v)

next_value_quote : (k : String) → next (value k) quote ≡ (quoted k [], List.[])
unfolding next
next_value_quote k = refl

next_quoted_quote : (k v : String) → next (quoted k v) quote ≡ (gap, List.◌∷◌ (k, v) List.[])
unfolding next
next_quoted_quote k v = refl

value_quoted :
    (k s rest : String)
    → parse (value k) ((quote ∷ (escape s <> (quote ∷ []))) <> rest)
      ≡ prepend (List.◌∷◌ (k, s) List.[]) (parse gap rest)
value_quoted k s rest =
    ap (parse (value k)) (
      cons-append quote (escape s <> (quote ∷ [])) rest
      ∙ ap (λ t. quote ∷ t)
          (append_assoc (escape s) (quote ∷ []) rest
            ∙ ap (λ t. escape s <> t)
                (cons-append quote [] rest ∙ ap (λ t. quote ∷ t) (nil-append rest))))
    ∙ (parse-cons _ _ quote (escape s <> (quote ∷ rest)) (next_value_quote k)
        ∙ (gather_quoted k [] s (quote ∷ rest)
            ∙ (ap (λ t. parse (quoted k t) (quote ∷ rest)) (nil-append s)
                ∙ parse-cons_emit _ _ quote rest _ (next_quoted_quote k s))))

next_value_bare :
    (k : String) (c : Char) (v : String)
    → all_char bare_char (c ∷ v) ≡ true
    → any_char is_special (c ∷ v) ≡ false
    → next (value k) c ≡ (bare k (c ∷ []), List.[])
unfolding next all_char any_char bare_char is_special
next_value_bare k c v h e = ground arith

value_bare :
    (k : String) (c : Char) (v rest : String)
    → all_char bare_char (c ∷ v) ≡ true
    → any_char is_special (c ∷ v) ≡ false
    → Ended rest
    → parse (value k) ((c ∷ v) <> rest) ≡ prepend (List.◌∷◌ (k, c ∷ v) List.[]) (parse gap rest)
value_bare k c v rest h e ended =
    ap (parse (value k)) (cons-append c v rest)
    ∙ (parse-cons _ _ c (v <> rest) (next_value_bare k c v h e)
        ∙ (gather (bare k) bare_char (bare_gathers k) (c ∷ []) v rest
              (all_char-cons bare_char c v h).1
            ∙ (ap (λ t. parse (bare k t) rest) (cons-append c [] v ∙ ap (λ t. c ∷ t) (nil-append v))
                ∙ bare_ends k (c ∷ v) rest ended)))

quote_cons :
    (c : Char) (v : String)
    → quote_lib_pq_value (c ∷ v) ≡ (
        if not (any_char is_special (c ∷ v))
        then c ∷ v
        else quote ∷ (escape (c ∷ v) <> (quote ∷ [])))
unfolding quote_lib_pq_value
quote_cons c v = rw (eq_false_of_ne (c ∷ v) "" (cons-ne-nil c v))

value_read :
    (k v rest : String)
    → Clean v
    → Ended rest
    → parse (value k) (quote_lib_pq_value v <> rest)
      ≡ prepend (List.◌∷◌ (k, v) List.[]) (parse gap rest)
value_read k [] rest h ended = unfold quote_lib_pq_value escape in value_quoted k [] rest
value_read k (c ∷ v) rest h ended = rw quote_cons (elim (Bool-cases (any_char is_special (c ∷ v))) [
  | inl special ↦ rw special (value_quoted k (c ∷ v) rest)
  | inr plain ↦ rw plain (value_bare k c v rest (bare_of_Clean (c ∷ v) h plain) plain ended)
])

-- A key of the format: not empty, without `=` or white space.
pub data IsKey : String → Type 0 where
  is_key : (c : Char) (k : String) → key_char c ≡ true → all_char key_char k ≡ true → IsKey (c ∷ k)

next_gap : (c : Char) → key_char c ≡ true → next gap c ≡ (key (c ∷ []), List.[])
unfolding next key_char
next_gap c h = ground arith

next_equals : (k : String) → next (key k) "=" ≡ (value k, List.[])
unfolding next
next_equals k = refl

key_read : (k rest : String) → IsKey k → parse gap (k <> ("=" <> rest)) ≡ parse (value k) rest
key_read _ rest (is_key c k h hs) =
    ap (parse gap) (cons-append c k ("=" <> rest))
    ∙ (parse-cons _ _ c (k <> ("=" <> rest)) (next_gap c h)
        ∙ (gather key key_char key_gathers (c ∷ []) k ("=" <> rest) hs
            ∙ (ap (λ t. parse (key t) ("=" <> rest))
                  (cons-append c [] k ∙ ap (λ t. c ∷ t) (nil-append k))
                ∙ (ap (parse (key (c ∷ k)))
                      (cons-append "=" [] rest ∙ ap (λ t. "=" ∷ t) (nil-append rest))
                    ∙ parse-cons _ _ "=" rest (next_equals (c ∷ k))))))

abbrev pub PairOk : String × String → Type 0
PairOk (k, v) = IsKey k × Clean v

pub next_blank : next gap " " ≡ (gap, List.[])
unfolding next
next_blank = refl

pub pair_read :
    (k v rest : String)
    → IsKey k
    → Clean v
    → Ended rest
    → parse gap (k <> ("=" <> (quote_lib_pq_value v <> rest)))
      ≡ prepend (List.◌∷◌ (k, v) List.[]) (parse gap rest)
pair_read k v rest ik cv ended =
    key_read k (quote_lib_pq_value v <> rest) ik ∙ value_read k v rest cv ended
