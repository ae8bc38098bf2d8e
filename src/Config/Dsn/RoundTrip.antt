-- ===== src/Config/Dsn/RoundTrip.antt =====
-- Every connection string that the program writes reads back as the pairs it was made of.
use Prim.Native.Char.{Char}
use Prim.Native.String.{[], ◌∷◌}
use mathlib.Core.List
use mathlib.Core.Path.{subst}
use text.Mathlib.TextLemmas.{nil-append, cons-append, append_assoc}
use gitlab_geo_sync.Prelude.{
  ◌/◌, ◌%◌, ℕ, zero, suc, String, ◌≡◌, refl, sym, ap, ◌∙◌, true, Option, none, some, List, arith,
  ltb, lt→ltb, if◌then◌else◌, ◌==◌, Bool-cases, inl, inr, All,
}
use gitlab_geo_sync.Go.Strings.{◌<>◌, all_char, digit, decimal, itoa}
use gitlab_geo_sync.Go.Int64.{ℤ, pos, negsuc}
use gitlab_geo_sync.Go.Strings.Laws.{all_char-cons, all_char-append}
use gitlab_geo_sync.Config.{PostgresConfig}
use gitlab_geo_sync.Config.Dsn.{
  quote_lib_pq_value, optional, effective_ssl_mode, dsn, replication_dsn, dsn_pairs, write_pairs,
  build_dsn,
}
use gitlab_geo_sync.Config.Dsn.Pair.{
  prepend_nil, parse-cons, next_blank, pair_read, Ended, stops, blank, IsKey, is_key, PairOk, Clean,
  clean_char, key_char,
}
use gitlab_geo_sync.Config.Dsn.Parse.{gap, is_space, Pairs, prepend, parse}

-- What the writer makes of one pair, with what follows.
pair_text : String → String → String → String
pair_text k v rest = k <> ("=" <> (quote_lib_pq_value v <> rest))

blank-append : (s : String) → " " <> s ≡ " " ∷ s
blank-append s = cons-append " " [] s ∙ ap (λ t. " " ∷ t) (nil-append s)

regroup :
    (k v rest tail : String)
    → (k <> ("=" <> (quote_lib_pq_value v <> rest))) <> tail ≡ pair_text k v (rest <> tail)
unfolding pair_text
regroup k v rest tail = simp append_assoc

write_first :
    (k v : String) (ps : Pairs) (tail : String)
    → write_pairs 0 (List.◌∷◌ (k, v) ps) <> tail ≡ pair_text k v (write_pairs 1 ps <> tail)
unfolding write_pairs
write_first k v ps tail =
    ap (λ t. t <> tail) (nil-append (k <> ("=" <> (quote_lib_pq_value v <> write_pairs 1 ps))))
    ∙ regroup k v (write_pairs 1 ps) tail

write_next :
    (i : ℕ) (k v : String) (ps : Pairs) (tail : String)
    → write_pairs (suc i) (List.◌∷◌ (k, v) ps) <> tail
      ≡ " " ∷ pair_text k v (write_pairs (suc (suc i)) ps <> tail)
unfolding write_pairs
write_next i k v ps tail =
    ap
      (λ b.
        ((if b then " " else "")
          <> (k <> ("=" <> (quote_lib_pq_value v <> write_pairs (suc (suc i)) ps))))
        <> tail)
      (lt→ltb 0 (suc i) (omega arith))
    ∙ (ap (λ t. t <> tail)
          (blank-append (k <> ("=" <> (quote_lib_pq_value v <> write_pairs (suc (suc i)) ps))))
        ∙ (cons-append " " _ tail
            ∙ ap (λ t. " " ∷ t) (regroup k v (write_pairs (suc (suc i)) ps) tail)))

write-nil : (i : ℕ) (tail : String) → write_pairs i List.[] <> tail ≡ tail
unfolding write_pairs
write-nil i tail = nil-append tail

write-Ended :
    (i : ℕ) (ps : Pairs) (tail : String) → Ended tail → Ended (write_pairs (suc i) ps <> tail)
write-Ended i List.[] tail h = subst Ended (sym (write-nil (suc i) tail)) h
write-Ended i (List.◌∷◌ (k, v) ps) tail h = subst Ended (sym (write_next i k v ps tail)) (blank _)

prepend-prepend :
    (p : String × String) (ps : Pairs) (o : Option Pairs)
    → prepend (List.◌∷◌ p List.[]) (prepend ps o) ≡ prepend (List.◌∷◌ p ps) o
prepend-prepend p ps none = refl
prepend-prepend p ps (some qs) = refl

text_read :
    (k v rest : String)
    → PairOk (k, v)
    → Ended rest
    → parse gap (pair_text k v rest) ≡ prepend (List.◌∷◌ (k, v) List.[]) (parse gap rest)
unfolding pair_text
text_read k v rest h ended = pair_read k v rest h.0 h.1 ended

pairs_read :
    (i : ℕ) (ps : Pairs) (tail : String)
    → All PairOk ps
    → Ended tail
    → parse gap (write_pairs i ps <> tail) ≡ prepend ps (parse gap tail)
pairs_read i List.[] tail h ended =
    ap (parse gap) (write-nil i tail) ∙ sym (prepend_nil (parse gap tail))
pairs_read zero (List.◌∷◌ (k, v) ps) tail h ended =
    ap (parse gap) (write_first k v ps tail)
    ∙ (text_read k v (write_pairs 1 ps <> tail) h.0 (write-Ended 0 ps tail ended)
        ∙ (ap (prepend (List.◌∷◌ (k, v) List.[])) (pairs_read 1 ps tail h.1 ended)
            ∙ prepend-prepend (k, v) ps (parse gap tail)))
pairs_read (suc i) (List.◌∷◌ (k, v) ps) tail h ended =
    ap (parse gap) (write_next i k v ps tail)
    ∙ (parse-cons gap gap " " _ next_blank
        ∙ (text_read k v (write_pairs (suc (suc i)) ps <> tail) h.0
              (write-Ended (suc i) ps tail ended)
            ∙ (ap (prepend (List.◌∷◌ (k, v) List.[])) (pairs_read (suc (suc i)) ps tail h.1 ended)
                ∙ prepend-prepend (k, v) ps (parse gap tail))))

-- The texts of a site's database settings hold no white space but the blank.
pub record CleanConfig (p : PostgresConfig) : Type 0 where
  pub host : Clean p.host
  pub db : Clean p.db
  pub user : Clean p.user
  pub password : Clean p.password
  pub replication_user : Clean p.replication_user
  pub replication_password : Clean p.replication_password
  pub ssl_mode : Clean p.ssl_mode
  pub ssl_root_cert : Clean p.ssl_root_cert
  pub ssl_cert : Clean p.ssl_cert
  pub ssl_key : Clean p.ssl_key

digit_clean : (n : ℕ) → clean_char (digit n) ≡ true
unfolding digit clean_char is_space
digit_clean zero = refl
digit_clean (suc zero) = refl
digit_clean (suc (suc zero)) = refl
digit_clean (suc (suc (suc zero))) = refl
digit_clean (suc (suc (suc (suc zero)))) = refl
digit_clean (suc (suc (suc (suc (suc zero))))) = refl
digit_clean (suc (suc (suc (suc (suc (suc zero)))))) = refl
digit_clean (suc (suc (suc (suc (suc (suc (suc zero))))))) = refl
digit_clean (suc (suc (suc (suc (suc (suc (suc (suc zero)))))))) = refl
digit_clean _ = refl

digit_text : (n : ℕ) → Clean (digit n ∷ "")
unfolding all_char
digit_text n = rw digit_clean

decimal-Clean : (f n : ℕ) → Clean (decimal f n)
unfolding decimal
decimal-Clean zero n = unfold all_char in refl
decimal-Clean (suc f) n =
    let tens = all_char-append clean_char _ _ (decimal-Clean f (n / 10)) (digit_text (n % 10)) in
    elim (Bool-cases (ltb n 10)) [ inl e ↦ rw e (digit_text n) | inr e ↦ rw e tens ]

minus-Clean : (s : String) → Clean s → Clean ("-" ∷ s)
unfolding all_char clean_char is_space
minus-Clean s h = h

itoa-Clean : (z : ℤ) → Clean (itoa z)
unfolding itoa
itoa-Clean (pos n) = decimal-Clean (suc n) n
itoa-Clean (negsuc n) = minus-Clean _ (decimal-Clean (suc (suc n)) (suc n))

All-append {ℓ κ} :
    {A : Type ℓ} (P : A → Type κ) (xs ys : List A) → All P xs → All P ys → All P (List.◌++◌ xs ys)
All-append P List.[] ys h k = k
All-append P (List.◌∷◌ x xs) ys h k = (h.0, All-append P xs ys h.1 k)

optional_ok : (k v : String) → IsKey k → Clean v → All PairOk (optional k v)
optional_ok k v ik cv = elim (Bool-cases (v == "")) [
  | inl e ↦ rw e tt
  | inr e ↦ rw e ((ik, cv), tt)
]

mode-Clean : (p : PostgresConfig) → Clean p.ssl_mode → Clean (effective_ssl_mode p)
unfolding effective_ssl_mode all_char clean_char is_space
mode-Clean p h = elim (Bool-cases (p.ssl_mode == "")) [ inl e ↦ rw e | inr e ↦ rw e h ]

IsKey-ok : (c : Char) (k : String) → all_char key_char (c ∷ k) ≡ true → IsKey (c ∷ k)
IsKey-ok c k h = let (now, later) = all_char-cons key_char c k h in is_key c k now later

pairs_ok :
    (p : PostgresConfig) (user password dbname : String)
    → CleanConfig p
    → Clean user
    → Clean password
    → Clean dbname
    → All PairOk (dsn_pairs p user password dbname)
unfolding dsn_pairs all_char key_char is_space
pairs_ok p user password dbname c hu hp hd =
    let ssl =
      All-append PairOk (optional "sslrootcert" p.ssl_root_cert) _
        (optional_ok "sslrootcert" _ (IsKey-ok _ _ refl) c.ssl_root_cert)
        (All-append PairOk (optional "sslcert" p.ssl_cert) (optional "sslkey" p.ssl_key)
          (optional_ok "sslcert" _ (IsKey-ok _ _ refl) c.ssl_cert)
          (optional_ok "sslkey" _ (IsKey-ok _ _ refl) c.ssl_key)) in
    (
      (IsKey-ok _ _ refl, c.host),
      (
        (IsKey-ok _ _ refl, itoa-Clean p.port),
        (
          (IsKey-ok _ _ refl, hu),
          (
            (IsKey-ok _ _ refl, hp),
            ((IsKey-ok _ _ refl, hd), ((IsKey-ok _ _ refl, mode-Clean p c.ssl_mode), ssl)),
          ),
        ),
      ),
    )

parse-nil : parse gap "" ≡ some List.[]
unfolding parse
parse-nil = refl

parse_application_name :
    parse gap " application_name=gitlab-geo-sync"
    ≡ some (List.◌∷◌ ("application_name", "gitlab-geo-sync") List.[])
unfolding parse is_space
parse_application_name = refl

replication-Clean : Clean "replication"
unfolding all_char clean_char is_space
replication-Clean = refl

-- The control connection string and the replication connection string read back, by libpq's rules,
-- as the pairs that they were built from, and the second names the application; the settings may
-- hold quotes, backslashes and blanks, but no other white space.
pub dsn-parse :
    (p : PostgresConfig)
    → CleanConfig p
    → (parse gap (dsn p) ≡ some (dsn_pairs p p.user p.password p.db))
      × (parse gap (replication_dsn p)
          ≡ some (
              List.◌++◌
                (dsn_pairs p p.replication_user p.replication_password "replication")
                (List.◌∷◌ ("application_name", "gitlab-geo-sync") List.[])))
unfolding dsn replication_dsn build_dsn
dsn-parse p c = (
  pairs_read 0 (dsn_pairs p p.user p.password p.db) ""
        (pairs_ok p p.user p.password p.db c c.user c.password c.db) stops
      ∙ (ap (prepend (dsn_pairs p p.user p.password p.db)) parse-nil
          ∙ ap some (List.append-nil (dsn_pairs p p.user p.password p.db))),
  pairs_read 0 (dsn_pairs p p.replication_user p.replication_password "replication")
        " application_name=gitlab-geo-sync"
        (pairs_ok p p.replication_user p.replication_password "replication" c c.replication_user
          c.replication_password replication-Clean)
        (blank "application_name=gitlab-geo-sync")
      ∙ ap (prepend (dsn_pairs p p.replication_user p.replication_password "replication"))
          parse_application_name,
)
