-- ===== src/Command.antt =====
-- The command of cmd/agentrun-openai/main.go: its environment, its flags and what `run` checks before
-- it serves. What the machine and the standard library answer are the fields of `Machine`.
pub mod Lists
pub mod Flags
pub mod Roots
pub mod Roundtrip
pub mod Launches
pub mod Environment
mod Tests
use agentrun_openai.Prelude.{
  ℤ, pos, negsuc, ℕ, ◌*◌, Bool, true, false, not, ◌&&◌, ◌||◌, List, [], ◌∷◌, ◌++◌, Option, none,
  some, if◌then◌else◌, leb, ltb,
}
use agentrun_openai.Prelude.Text.{Text, codes, is_empty, text_eq, trim_space}
use agentrun_openai.Prelude.Dict.{Dict}
use agentrun_openai.Types.{GoError, plain, formatted, wrapped, Result, ok, err, ◌>>=◌}
use agentrun_openai.Backend.{AcpBackendConfig, parse_acp_backends}
use agentrun_openai.Command.Lists.{split_acp_list, split_path_list}
use agentrun_openai.Command.Flags.{Machine, Settings, Parsed, parse_args}
use agentrun_openai.Command.Roots.{resolve_roots}

abbrev pub seconds : ℕ → ℤ
seconds n = pos (n * 1000000000)

-- `env`, `envInt` and `envDuration`.
abbrev pub unless_unset : Text → Text → Text
unless_unset [] fallback = fallback
unless_unset (c ∷ s) fallback = c ∷ s

unfoldable pub env : Machine → Text → Text → Text
env m key fallback = unless_unset (m.getenv key) fallback

abbrev pub or_fallback : Option ℤ → ℤ → ℤ
or_fallback none fallback = fallback
or_fallback (some n) fallback = n

abbrev pub env_as : (Text → Option ℤ) → Text → ℤ → ℤ
env_as parse [] fallback = fallback
env_as parse (c ∷ s) fallback = or_fallback (parse (c ∷ s)) fallback

unfoldable pub env_int : Machine → Text → ℤ → ℤ
env_int m key fallback = env_as m.atoi (m.getenv key) fallback

unfoldable pub env_duration : Machine → Text → ℤ → ℤ
env_duration m key fallback = env_as m.parse_duration (m.getenv key) fallback

-- `defaultSessionStore`.
abbrev pub store_in : Machine → Result Text → Text
store_in m (err e) = []
store_in m (ok []) = []
store_in m (ok (c ∷ s)) =
    m.join_path ((c ∷ s) ∷ codes "agentrun-openai" ∷ codes "sessions.json" ∷ [])

unfoldable pub default_session_store : Machine → Text
default_session_store m = store_in m m.user_config_dir

-- What the flags are before they are parsed.
unfoldable pub defaults : Machine → Settings
unfolding env env_int env_duration default_session_store
defaults m = record {
  allowed_roots = split_path_list (m.getenv (codes "AGENTRUN_ALLOWED_ROOTS"));
  acp = [];
  host = env m (codes "AGENTRUN_HOST") (codes "127.0.0.1");
  port = env_int m (codes "AGENTRUN_PORT") (pos 8787);
  api_key = m.getenv (codes "AGENTRUN_API_KEY");
  default_cwd = m.getenv (codes "AGENTRUN_DEFAULT_CWD");
  turn_timeout = env_duration m (codes "AGENTRUN_TURN_TIMEOUT") (seconds 1800);
  session_ttl = env_duration m (codes "AGENTRUN_SESSION_TTL") (seconds 600);
  session_store = env m (codes "AGENTRUN_SESSION_STORE") (default_session_store m);
  heartbeat = env_duration m (codes "AGENTRUN_STREAM_HEARTBEAT") (seconds 20);
  shutdown_grace = seconds 10;
  show_version = false;
}

-- What `run` serves: the parts of the address, and the configuration of `gateway.New`.
pub record Launch : Type 0 where
  pub host : Text
  pub port : ℕ
  pub backends : List AcpBackendConfig
  pub default_cwd : Text
  pub allowed_roots : List Text
  pub api_key : Text
  pub turn_timeout : ℤ
  pub session_ttl : ℤ
  pub session_store : Text
  pub heartbeat : ℤ
  pub shutdown_grace : ℤ

-- How `run` goes on: as the bridge with its arguments, out of the program by package flag, with the
-- version, with an error, or as the server.
pub data Start : Type 0 where
  bridge : List Text → Start
  exits : Start
  shows_version : Start
  fails : GoError → Start
  serves : Launch → Start

-- Numbers in error texts are left out.
abbrev pub bad_port : ℤ → Result ℕ
bad_port n = err (formatted (codes "port must be between 1 and 65535, got %d") [])

unfoldable pub check_port : ℤ → Result ℕ
check_port (negsuc n) = bad_port (negsuc n)
check_port (pos n) = if ltb n 1 || ltb 65535 n then bad_port (pos n) else ok n

unfoldable pub check_host : Text → Result Text
check_host host =
    if is_empty (trim_space host) then err (plain (codes "host must not be empty")) else ok host

-- The specifications of the flags, or else of the environment.
abbrev pub specs_of : Machine → List Text → List Text
specs_of m [] = split_acp_list (m.getenv (codes "AGENTRUN_ACP"))
specs_of m (spec ∷ specs) = spec ∷ specs

abbrev pub configured : Result (List AcpBackendConfig) → Result (List AcpBackendConfig)
configured (ok bs) = ok bs
configured (err e) = err (wrapped (codes "configure acp backends: %w") [] e)

unfoldable pub configure : List Text → Result (List AcpBackendConfig)
configure [] = err (
    plain (
      codes
        "no ACP backends configured: specify at least one via --acp or AGENTRUN_ACP (e.g. --acp codex=\"npx @agentclientprotocol/codex-acp\")"))
configure (spec ∷ specs) = configured (parse_acp_backends (spec ∷ specs))

abbrev pub current_directory : Result Text → Result Text
current_directory (ok cwd) = ok cwd
current_directory (err e) = err (wrapped (codes "get current directory: %w") [] e)

abbrev pub choose_directory : Machine → Text → Result Text
choose_directory m [] = current_directory m.getwd
choose_directory m (c ∷ s) = ok (c ∷ s)

abbrev pub launch : Settings → Text → ℕ → List Text → List AcpBackendConfig → Text → Launch
launch s host port roots backends cwd = record {
  host = host;
  port = port;
  backends = backends;
  default_cwd = cwd;
  allowed_roots = roots;
  api_key = s.api_key;
  turn_timeout = s.turn_timeout;
  session_ttl = s.session_ttl;
  session_store = s.session_store;
  heartbeat = s.heartbeat;
  shutdown_grace = s.shutdown_grace;
}

-- `run` behind the parsing of the flags, up to `gateway.New`.
unfoldable pub prepare : Machine → Settings → Result Launch
unfolding check_port check_host configure
prepare m s = check_host s.host >>= λ host. check_port s.port >>= λ port.
    resolve_roots m s.allowed_roots >>= λ roots. configure (specs_of m s.acp) >>= λ backends.
    choose_directory m s.default_cwd >>= λ cwd. ok (launch s host port roots backends cwd)

abbrev pub start_of : Result Launch → Start
start_of (err e) = fails e
start_of (ok l) = serves l

abbrev pub start_with : Machine → Parsed → Start
start_with m Parsed.refused = exits
start_with m (Parsed.accepted s) = if s.show_version then shows_version else start_of (prepare m s)

-- `run` on the arguments behind the program's name.
unfoldable pub run_command : Machine → List Text → Start
unfolding prepare defaults
run_command m [] = start_with m (parse_args m (defaults m) [])
run_command m (a ∷ args) =
    if text_eq a (codes "__mcp-bridge")
    then bridge args
    else start_with m (parse_args m (defaults m) (a ∷ args))

-- What ends `run`: the listener fails or is closed, or a signal comes and `Shutdown` returns.
pub data ServeEnd : Type 0 where
  listener_failed : GoError → ServeEnd
  listener_closed : ServeEnd
  signalled : Option GoError → ServeEnd

pub data Step : Type 0 where
  handler_closed server_shut_down : Step

-- The steps at the end, with those deferred, and what `run` returns.
unfoldable pub finish_run : ServeEnd → List Step × Option GoError
finish_run (listener_failed e) = (handler_closed ∷ [], some e)
finish_run listener_closed = (handler_closed ∷ [], none)
finish_run (signalled e) = (handler_closed ∷ server_shut_down ∷ handler_closed ∷ [], e)
