-- ===== src/DbKey.antt =====
-- internal/dbkey: the parity of db_key_base on two sites. The regular expressions are matchers over
-- the characters; each expression leaves one way to match, so the matchers never go back.
pub mod Calm
pub mod Parity
use Prim.Native.Char.{Char, code}
use Prim.Native.String.{[], ◌∷◌}
use gitlab_geo_sync.Prelude.{
  String, Bool, true, false, ◌&&◌, ◌||◌, Option, none, some, leb, if◌then◌else◌, ◌==◌,
}
use gitlab_geo_sync.Go.Fmt.{Error, errorf, end, str, cause, Result, ok, err, panic, cancelled}
use gitlab_geo_sync.Go.Strings.{◌<>◌, same, strip_prefix, trim_space}
use gitlab_geo_sync.Go.Exec.{Exec, Env, pure, fail, panics, attempt, context_error, ◌>>=◌, ◌>>◌}
use gitlab_geo_sync.SshExec.{Runner, SshOptions, combined_output, check_host, default_options}

-- `\s`
unfoldable pub is_re_space : Char → Bool
is_re_space c = same c 32 || same c 9 || same c 10 || same c 12 || same c 13

-- `[A-Za-z0-9_-]`
unfoldable pub is_key_char : Char → Bool
is_key_char c =
    leb b'A' (code c) && leb (code c) b'Z'
    || leb b'a' (code c) && leb (code c) b'z'
    || leb b'0' (code c) && leb (code c) b'9'
    || same c b'_'
    || same c b'-'

-- `\s*`
unfoldable pub skip_space : String → String
skip_space [] = []
skip_space (c ∷ s) = let rest = skip_space s in if is_re_space c then rest else c ∷ s

unfoldable pub take_key : String → String
take_key [] = []
take_key (c ∷ s) = let rest = take_key s in if is_key_char c then c ∷ rest else []

-- `['"]?`
unfoldable pub drop_quote : String → String
drop_quote [] = []
drop_quote (c ∷ s) = if same c 39 || same c 34 then s else c ∷ s

-- `\s*['"]?([A-Za-z0-9_-]+)`
unfoldable pub key_after : String → Option String
key_after s = let k = take_key (drop_quote (skip_space s)) in if k == "" then none else some k

abbrev pub then_match : Option String → (String → Option String) → Option String
then_match none f = none
then_match (some s) f = f s

-- `^\s*gitlab_rails\['db_key_base'\]\s*=\s*['"]?([A-Za-z0-9_-]+)`
unfoldable pub db_key_re : String → Option String
db_key_re s =
    then_match (strip_prefix "gitlab_rails['db_key_base']" (skip_space s))
      λ t. then_match (strip_prefix "=" (skip_space t)) key_after

abbrev pub or_else : Option String → Option String → Option String
or_else none o = o
or_else (some k) o = some k

-- `db_key_base:\s*['"]?([A-Za-z0-9_-]+)`, at the leftmost place where it matches
unfoldable pub yaml_re : String → Option String
yaml_re [] = none
yaml_re (c ∷ s) = or_else (then_match (strip_prefix "db_key_base:" (c ∷ s)) key_after) (yaml_re s)

unfoldable pub find_key : String → Option String
find_key out = or_else (db_key_re out) (yaml_re out)

abbrev pub plain_grep : String
plain_grep =
    "grep 'db_key_base' /var/opt/gitlab/gitlab-rails/etc/secrets.yml 2>/dev/null || grep \"gitlab_rails\\['db_key_base'\\]\" /etc/gitlab/gitlab.rb 2>/dev/null || true"

abbrev pub sudo_grep : String
sudo_grep =
    "sudo grep 'db_key_base' /var/opt/gitlab/gitlab-rails/etc/secrets.yml 2>/dev/null || "
    <> plain_grep

abbrev pub grep_outcome : String → Option Error → Exec String
grep_outcome out none = pure out
grep_outcome out (some e) = fail e

unfoldable pub try_fetch_key : String → Runner → Bool → Exec String
try_fetch_key host runner with_sudo = do
  r ← runner host (if with_sudo then sudo_grep else plain_grep)
  grep_outcome r.output r.failure

abbrev pub second_outcome : String → Result String → Exec String
second_outcome host (ok key) = pure key
second_outcome host (err e) = fail (errorf "ssh %s: %w" (str host (cause e end)))
second_outcome host (panic m) = panics m

-- The second try, without sudo.
unfoldable pub try_plain : Env → String → Runner → Exec String
try_plain env host runner = do
  done ← context_error env
  if done
      then fail cancelled
      else do second ← attempt (try_fetch_key host runner false); second_outcome host second

unfoldable pub retry_plain : Env → String → Runner → Result String → Exec String
retry_plain env host runner (ok key) = pure key
retry_plain env host runner (err e) = try_plain env host runner
retry_plain env host runner (panic m) = panics m

abbrev pub found_key : String → Option String → Exec String
found_key host (some k) = pure (trim_space k)
found_key host none =
    fail (errorf "db_key_base not found in secrets.yml or gitlab.rb on %s" (str host end))

unfoldable pub fetch_key : Env → String → Runner → Exec String
fetch_key env host runner = do
  check_host host
  first ← attempt (try_fetch_key host runner true)
  key ← retry_plain env host runner first
  found_key host (find_key key)

-- `fmt.Errorf(prefix + " db_key_base: %w", err)`
abbrev pub wrap_error : String → Result String → Exec String
wrap_error format (ok k) = pure k
wrap_error format (err e) = fail (errorf format (cause e end))
wrap_error format (panic m) = panics m

abbrev pub keys_differ : Error
keys_differ =
    errorf
      "db_key_base mismatch: primary and secondary keys differ (update the secondary's /etc/gitlab/gitlab.rb and run `gitlab-ctl reconfigure`)"
      end

abbrev pub verdict : Bool → Exec (Unit {0})
verdict same_keys = if same_keys then pure tt else fail keys_differ

unfoldable pub check_with_runner : Env → String → String → Runner → Exec (Unit {0})
check_with_runner env primary_ssh secondary_ssh runner = do
  p ← attempt (fetch_key env primary_ssh runner)
  p_key ← wrap_error "primary db_key_base: %w" p
  s ← attempt (fetch_key env secondary_ssh runner)
  s_key ← wrap_error "secondary db_key_base: %w" s
  verdict (p_key == s_key)

unfoldable pub check_with_config : Env → String → String → SshOptions → Exec (Unit {0})
check_with_config env primary_ssh secondary_ssh cfg =
    check_with_runner env primary_ssh secondary_ssh (combined_output env cfg)

unfoldable pub check : Env → String → String → Exec (Unit {0})
check env primary_ssh secondary_ssh =
    check_with_config env primary_ssh secondary_ssh default_options
