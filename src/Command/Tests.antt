-- ===== src/Command/Tests.antt =====
-- A command line with two backends and a port.
use agentrun_openai.Prelude.{pos, ◌≡◌, refl, true, List, [], ◌∷◌, none, some}
use agentrun_openai.Prelude.Text.{
  Text, codes, text_eq, trim_space, trim_left, trim_right, is_space, contains_char, cut, member,
  join, contains_any, has_prefix, split_last,
}
use agentrun_openai.Types.{ok}
use agentrun_openai.Backend
use agentrun_openai.Backend.{parse_acp_backends, parse_from, parse_acp_backend, parse_trimmed}
use agentrun_openai.Command.Lists.{set_path, set_acp, split_acp_list, split_path_list}
use agentrun_openai.Command.Flags.{
  Machine, parse_args, move, argument_of, set_flag, flag_named, parse_bool,
}
use agentrun_openai.Command.Roots.{resolve_roots, resolve_root}
use agentrun_openai.Command.Environment.{acp_flags, with_list, acp_flags_as_environment}
use agentrun_openai.Command.Launches.{run_command_serves, IsLaunch}
use agentrun_openai.Command.{
  Start, serves, Launch, run_command, defaults, prepare, check_host, check_port, configure, env,
  env_int, env_duration, default_session_store,
}

abbrev machine : Machine
machine = record {
  getenv = λ key. [];
  user_config_dir = ok (codes "/c");
  getwd = ok (codes "/w");
  eval = λ path. ok path;
  stat = λ path. ok true;
  join_path = λ parts. join (codes "/") parts;
  atoi = λ s. none;
  parse_int = λ s. some (pos 80);
  parse_duration = λ s. none;
}

abbrev arguments : List Text
arguments =
    codes "-acp"
    ∷ codes "a=b c"
    ∷ codes "--port=80"
    ∷ codes "--allowed-root=/r"
    ∷ codes "--acp= d=e"
    ∷ []

abbrev launch_of : Start → Launch → Launch
launch_of (serves l) k = l
launch_of _ k = k

abbrev nothing : Launch
nothing = record {
  host = [];
  port = 0;
  backends = [];
  default_cwd = [];
  allowed_roots = [];
  api_key = [];
  turn_timeout = pos 0;
  session_ttl = pos 0;
  session_store = [];
  heartbeat = pos 0;
  shutdown_grace = pos 0;
}

abbrev started : Launch
started = launch_of (run_command machine arguments) nothing

starts : run_command machine arguments ≡ serves started
unfolding run_command defaults prepare check_host check_port configure env env_int env_duration
    default_session_store parse_args move argument_of set_flag flag_named parse_bool set_path
    set_acp split_path_list split_acp_list resolve_roots resolve_root parse_acp_backends parse_from
    parse_acp_backend parse_trimmed text_eq trim_space trim_left trim_right is_space cut has_prefix
    Backend.parse_standard Backend.validate_acp_id contains_char contains_any Backend.parse_command
    Backend.split_command_line Backend.scan_end Backend.scan_all Backend.unwrap_command split_last
    Backend.scan_rune Backend.comma_tokens member
starts = refl

run_command_serves_example : IsLaunch machine started
run_command_serves_example = run_command_serves machine arguments started starts

acp_flags_as_environment_example :
    run_command machine (acp_flags (codes "a=b c" ∷ codes "d=e" ∷ []))
    ≡ run_command (with_list machine (codes "a=b c" ∷ codes "d=e" ∷ [])) []
unfolding trim_space trim_left trim_right is_space
acp_flags_as_environment_example =
    acp_flags_as_environment machine (codes "a=b c") (codes "d=e" ∷ [])
      ((refl, refl, refl), ((refl, refl, refl), tt))
