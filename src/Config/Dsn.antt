-- ===== src/Config/Dsn.antt =====
-- The connection strings of internal/config/config.go: `buildDSN` and the quoting of its values.
pub mod Parse
pub mod Pair
pub mod RoundTrip
use Prim.Native.Char.{Char}
use Prim.Native.String.{[], ◌∷◌}
use mathlib.Core.List
use gitlab_geo_sync.Prelude.{ℕ, zero, suc, String, Bool, ◌||◌, not, List, ltb, if◌then◌else◌, ◌==◌}
use gitlab_geo_sync.Go.Strings.{◌<>◌, same, any_char, itoa}
use gitlab_geo_sync.Config.{PostgresConfig}

abbrev pub quote : Char
quote = "'"

abbrev pub backslash : Char
backslash = "\\"

-- The characters of `" '\\"`.
unfoldable pub is_special : Char → Bool
is_special c = same c b' ' || same c 39 || same c 92

-- The replacer of `\` by `\\` and `'` by `\'`.
unfoldable pub escape : String → String
escape [] = []
escape (c ∷ s) = if same c 92 || same c 39 then backslash ∷ (c ∷ escape s) else c ∷ escape s

unfoldable pub quote_lib_pq_value : String → String
quote_lib_pq_value v =
    if v == ""
    then "''"
    else if not (any_char is_special v)
    then v
    else quote ∷ (escape v <> (quote ∷ []))

unfoldable pub effective_ssl_mode : PostgresConfig → String
effective_ssl_mode p = if p.ssl_mode == "" then "require" else p.ssl_mode

abbrev pub optional : String → String → List (String × String)
optional key v = if v == "" then List.[] else List.◌∷◌ (key, v) List.[]

unfoldable pub dsn_pairs : PostgresConfig → String → String → String → List (String × String)
dsn_pairs p user password dbname =
    List.◌++◌
      (List.◌∷◌ ("host", p.host)
        (List.◌∷◌ ("port", itoa p.port)
          (List.◌∷◌ ("user", user)
            (List.◌∷◌ ("password", password)
              (List.◌∷◌ ("dbname", dbname) (List.◌∷◌ ("sslmode", effective_ssl_mode p) List.[]))))))
      (List.◌++◌ (optional "sslrootcert" p.ssl_root_cert)
        (List.◌++◌ (optional "sslcert" p.ssl_cert) (optional "sslkey" p.ssl_key)))

-- The loop over the pairs; `i` is the index of the first one.
unfoldable pub write_pairs : ℕ → List (String × String) → String
write_pairs i List.[] = ""
write_pairs i (List.◌∷◌ (key, v) ps) =
    (if ltb 0 i then " " else "")
    <> (key <> ("=" <> (quote_lib_pq_value v <> write_pairs (suc i) ps)))

unfoldable pub build_dsn : PostgresConfig → String → String → String → String → String
build_dsn p user password dbname extra =
    write_pairs 0 (dsn_pairs p user password dbname) <> (if extra == "" then "" else " " <> extra)

unfoldable pub dsn : PostgresConfig → String
dsn p = build_dsn p p.user p.password p.db ""

unfoldable pub replication_dsn : PostgresConfig → String
replication_dsn p =
    build_dsn p p.replication_user p.replication_password "replication"
      "application_name=gitlab-geo-sync"
