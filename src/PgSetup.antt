-- ===== src/PgSetup.antt =====
-- internal/pgsetup: the bootstrap of a standby, and the application name in its connection
-- information. The directory, the run of pg_basebackup, the file it leaves and filepath.Join are
-- parameters; what is run and written is kept in order, and what is printed is left out.
pub mod Gates
pub mod Lines
pub mod Rewrite
pub mod ConnInfo
use Prim.Native.Char.{Char}
use Prim.Native.String.{[], ◌∷◌}
use mathlib.Core.List
use gitlab_geo_sync.Prelude.{
  ℕ, zero, suc, String, Bool, true, false, Option, none, some, List, ◌++◌, if◌then◌else◌, ◌==◌,
}
use gitlab_geo_sync.Go.Fmt.{Error, errorf, end, str, cause, Result, ok, err, panic}
use gitlab_geo_sync.Go.Strings.{◌<>◌, same, has_prefix, contains}
use gitlab_geo_sync.Config.{Config, SiteConfig}
use gitlab_geo_sync.Config.Dsn.{replication_dsn}

pub record Options : Type 0 where
  pub primary_dsn : String
  pub data_dir : String
  pub slot_name : String
  pub dry_run : Bool

-- A run of pg_basebackup with its arguments, and a file that is written.
pub data Act : Type 0 where
  basebackup : List String → Act
  written : String → String → Act

-- `os.ReadDir` of a directory gives an error or how many entries there are; `os.ReadFile` is asked
-- after the backup.
pub record Machine : Type 0 where
  pub join : String → String → String
  pub read_dir : String → Result ℕ
  pub run_basebackup : List String → Option Error
  pub read_file : String → Result String
  pub write_file : String → String → Option Error

unfoldable pub build_basebackup_args : Options → List String
build_basebackup_args opts =
    List.◌∷◌ "-D" (
      List.◌∷◌ opts.data_dir (
        List.◌∷◌ "-d" (
          List.◌∷◌ opts.primary_dsn (
            List.◌∷◌ "-X" (
              List.◌∷◌ "stream"
                (List.◌∷◌ "-c" (List.◌∷◌ "fast" (List.◌∷◌ "-R" (List.◌∷◌ "-P" List.[])))))))))
    ++ (if opts.slot_name == ""
        then List.[]
        else List.◌∷◌ "-S" (List.◌∷◌ opts.slot_name (List.◌∷◌ "--create-slot" List.[])))

abbrev pub entries_checked : String → Result ℕ → Result (Unit {0})
entries_checked dir (ok zero) = ok tt
entries_checked dir (ok (suc n)) =
    err (errorf "data_dir %s is not empty (refusing to overwrite)" (str dir end))
entries_checked dir (err e) = ok tt
entries_checked dir (panic m) = panic m

unfoldable pub check_data_dir : Machine → String → Result (Unit {0})
check_data_dir mc dir = entries_checked dir (mc.read_dir dir)

-- `line[:strings.LastIndex(line, "'")]`, if there is a quote.
abbrev pub last_found : Char → Option String → Option String
last_found c (some t) = some (c ∷ t)
last_found c none = if same c 39 then some "" else none

unfoldable pub before_last_quote : String → Option String
before_last_quote [] = none
before_last_quote (c ∷ s) = last_found c (before_last_quote s)

abbrev pub injected : String → String → Option String → String
injected line app none = line <> (" application_name=" <> (app <> "'"))
injected line app (some t) = t <> (" application_name=" <> (app <> "'"))

unfoldable pub inject_app_name : String → String → String
inject_app_name line app = injected line app (before_last_quote line)

abbrev pub cons_line : Char → List String → List String
cons_line c List.[] = List.◌∷◌ (c ∷ []) List.[]
cons_line c (List.◌∷◌ s ss) = List.◌∷◌ (c ∷ s) ss

-- strings.Split(content, "\n") and strings.Join(lines, "\n")
unfoldable pub split_lines : String → List String
split_lines [] = List.◌∷◌ [] List.[]
split_lines (c ∷ s) =
    let rest = split_lines s in if same c 10 then List.◌∷◌ [] rest else cons_line c rest

unfoldable pub join_lines : List String → String
join_lines List.[] = ""
join_lines (List.◌∷◌ s List.[]) = s
join_lines (List.◌∷◌ s (List.◌∷◌ t ss)) = s <> ("\n" <> join_lines (List.◌∷◌ t ss))

abbrev pub named_line : String → String → String
named_line app line = if contains line "application_name=" then line else inject_app_name line app

abbrev pub cons_lines : String → Option (List String) → Option (List String)
cons_lines line none = none
cons_lines line (some ls) = some (List.◌∷◌ line ls)

-- The loop over the lines; nothing where none is found.
unfoldable pub update_lines : String → List String → Option (List String)
update_lines app List.[] = none
update_lines app (List.◌∷◌ line lines) =
    let rest = update_lines app lines in
    if has_prefix line "primary_conninfo = "
    then some (List.◌∷◌ (named_line app line) lines)
    else cons_lines line rest

abbrev pub or_appended : String → List String → Option (List String) → List String
or_appended app lines (some ls) = ls
or_appended app lines none =
    lines ++ List.◌∷◌ ("primary_conninfo = 'application_name=" <> (app <> "'")) List.[]

-- `strings.HasSuffix(s, "\n")`
unfoldable pub ends_line : String → Bool
ends_line [] = false
ends_line (c ∷ []) = same c 10
ends_line (c ∷ d ∷ s) = ends_line (d ∷ s)

abbrev pub with_newline : String → String
with_newline out = if ends_line out then out else out <> "\n"

-- The text that is written, from the one that was read.
unfoldable pub conf_text : String → String → String
conf_text app content =
    let lines = split_lines content in
    with_newline (join_lines (or_appended app lines (update_lines app lines)))

abbrev pub write_done : List Act → Option Error → Result (Unit {0}) × List Act
write_done acts none = (ok tt, acts)
write_done acts (some e) = (err e, acts)

abbrev pub with_content :
    Machine → String → String → Result String → List Act → Result (Unit {0}) × List Act
with_content mc path app (ok content) acts =
    write_done (acts ++ List.◌∷◌ (written path (conf_text app content)) List.[])
      (mc.write_file path (conf_text app content))
with_content mc path app (err e) acts =
    (err (errorf "read postgresql.auto.conf: %w" (cause e end)), acts)
with_content mc path app (panic m) acts = (panic m, acts)

unfoldable pub append_conn_info_appname :
    Machine → String → String → List Act → Result (Unit {0}) × List Act
append_conn_info_appname mc data_dir app acts =
    if app == ""
    then (ok tt, acts)
    else with_content mc (mc.join data_dir "postgresql.auto.conf") app
        (mc.read_file (mc.join data_dir "postgresql.auto.conf")) acts

abbrev pub backup_done : Machine → Options → Option Error → List Act → Result (Unit {0}) × List Act
backup_done mc opts none acts = append_conn_info_appname mc opts.data_dir opts.slot_name acts
backup_done mc opts (some e) acts = (err (errorf "pg_basebackup: %w" (cause e end)), acts)

-- `Run` from the check of the directory on.
abbrev pub dir_checked : Machine → Options → Result (Unit {0}) → Result (Unit {0}) × List Act
dir_checked mc opts (ok u) =
    if opts.dry_run
    then (ok tt, List.[])
    else backup_done mc opts (mc.run_basebackup (build_basebackup_args opts))
        (List.◌∷◌ (basebackup (build_basebackup_args opts)) List.[])
dir_checked mc opts (err e) = (err e, List.[])
dir_checked mc opts (panic m) = (panic m, List.[])

unfoldable pub run : Machine → Options → Result (Unit {0}) × List Act
run mc opts =
    if opts.data_dir == ""
    then (err (errorf "data_dir is required" end), List.[])
    else (if opts.primary_dsn == ""
        then (err (errorf "primary_dsn is required" end), List.[])
        else dir_checked mc opts (check_data_dir mc opts.data_dir))
