-- ===== src/SshExec.antt =====
-- internal/sshexec: the options of every ssh command, and the interface through which other
-- packages run one.
use gitlab_geo_sync.Prelude.{String, List, [], ◌∷◌, ◌++◌, if◌then◌else◌, ◌==◌}
use gitlab_geo_sync.Go.Fmt.{errorf, end}
use gitlab_geo_sync.Go.Strings.{◌<>◌}
use gitlab_geo_sync.Go.Exec.{Exec, Env, Reply, Call, command, run, pure, fail}

pub record SshOptions : Type 0 where
  pub known_hosts_file : String
  pub strict_host_key_checking : String

unfoldable pub effective_strict_host_key_checking : SshOptions → String
effective_strict_host_key_checking c =
    if c.strict_host_key_checking == ""
    then (if c.known_hosts_file == "" then "accept-new" else "yes")
    else c.strict_host_key_checking

unfoldable pub extra_args : SshOptions → List String
extra_args c =
    ("-o" ∷ ("StrictHostKeyChecking=" <> effective_strict_host_key_checking c) ∷ [])
    ++ (if c.known_hosts_file == ""
        then []
        else "-o" ∷ ("UserKnownHostsFile=" <> c.known_hosts_file) ∷ [])

-- The command line of `Command`.
unfoldable pub ssh_command : SshOptions → String → String → Call
ssh_command c host remote_cmd = command "ssh" (extra_args c ++ (host ∷ remote_cmd ∷ [])) []

unfoldable pub combined_output : Env → SshOptions → String → String → Exec Reply
combined_output env c host remote_cmd = run env (ssh_command c host remote_cmd)

-- strings.Join with a blank.
unfoldable pub join_blank : List String → String
join_blank [] = ""
join_blank (s ∷ []) = s
join_blank (s ∷ t ∷ ss) = s <> (" " <> join_blank (t ∷ ss))

unfoldable pub ssh_string : SshOptions → String
ssh_string c = "ssh " <> join_blank (extra_args c)

abbrev pub default_options : SshOptions
default_options = record { known_hosts_file = ""; strict_host_key_checking = "" }

-- The interface `Runner`: a host and a remote command.
abbrev pub Runner : Type 0
Runner = String → String → Exec Reply

unfoldable pub check_host : String → Exec (Unit {0})
check_host host = if host == "" then fail (errorf "ssh_host not configured" end) else pure tt
