-- ===== src/Witnesses/EnvCases.antt =====
-- A text with a reference, and a loaded value with a string inside a map.
use gitlab_geo_sync.Prelude.{String, ◌≡◌, Option, none, some, all, if◌then◌else◌, ◌==◌, true}
use gitlab_geo_sync.Failover.Script.{is_ok}
use gitlab_geo_sync.Config.Env.{
  Value, text_value, pointer, map_values, struct_value, no_values, add_value, expand_env,
  expand_env_string, resolve_env_in_struct,
}
use gitlab_geo_sync.Config.Env.Expand.{expand_env-expand_env_string}
use gitlab_geo_sync.Config.Env.Walk.{strings_of, is_fine, resolve_env_in_struct-fine}

abbrev variables : String → Option String
variables name = if name == "PG_PASSWORD" then some "s3cret" else none

expand_env-expand_env_string_example :
    expand_env variables "host ${PG_PASSWORD} and ${OTHER}"
    ≡ expand_env_string variables "host ${PG_PASSWORD} and ${OTHER}"
expand_env-expand_env_string_example =
    expand_env-expand_env_string variables "host ${PG_PASSWORD} and ${OTHER}"

-- A failover section with one entry of dns_config.
abbrev with_dns_config : Value
with_dns_config = struct_value (
    add_value (text_value "${PG_PASSWORD}") (
      add_value
        (pointer
          (struct_value (add_value (map_values (add_value (text_value "eu") no_values)) no_values)))
        no_values))

resolve_env_in_struct-fine_example :
    is_ok (resolve_env_in_struct variables with_dns_config)
    ≡ all (is_fine variables) (strings_of true with_dns_config)
resolve_env_in_struct-fine_example = resolve_env_in_struct-fine variables with_dns_config
