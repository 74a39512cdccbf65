-- ===== src/Command/Flags.antt =====
-- The flags of cmd/agentrun-openai/main.go, as package flag parses them.
use agentrun_openai.Prelude.{
  ℤ, Bool, true, false, ◌||◌, List, [], ◌∷◌, Option, none, some, if◌then◌else◌, ◌==◌,
}
use agentrun_openai.Prelude.Text.{Text, codes, text_eq, cut, member}
use agentrun_openai.Types.{Result, ok, err}
use agentrun_openai.Command.Lists.{set_path, set_acp}

-- What the program asks the machine, `filepath.Join`, and the readers of package strconv and time:
-- `atoi` is `strconv.Atoi` and `parse_int` is `strconv.ParseInt` with base 0, both of 64 bits. `stat`
-- says whether a path is a directory.
pub record Machine : Type 0 where
  pub getenv : Text → Text
  pub user_config_dir : Result Text
  pub getwd : Result Text
  pub eval : Text → Result Text
  pub stat : Text → Result Bool
  pub join_path : List Text → Text
  pub atoi : Text → Option ℤ
  pub parse_int : Text → Option ℤ
  pub parse_duration : Text → Option ℤ

pub record Settings : Type 0 where
  pub allowed_roots : List Text
  pub acp : List Text
  pub host : Text
  pub port : ℤ
  pub api_key : Text
  pub default_cwd : Text
  pub turn_timeout : ℤ
  pub session_ttl : ℤ
  pub session_store : Text
  pub heartbeat : ℤ
  pub shutdown_grace : ℤ
  pub show_version : Bool

-- `strconv.ParseBool`.
unfoldable pub parse_bool : Text → Option Bool
parse_bool s =
    if member s
      (codes "1" ∷ codes "t" ∷ codes "T" ∷ codes "true" ∷ codes "TRUE" ∷ codes "True" ∷ [])
    then some true
    else if member s
        (codes "0" ∷ codes "f" ∷ codes "F" ∷ codes "false" ∷ codes "FALSE" ∷ codes "False" ∷ [])
    then some false
    else none

abbrev pub with_roots : Settings → Result (List Text) → Option Settings
with_roots s (err e) = none
with_roots s (ok roots) = some (record s { allowed_roots = roots })

abbrev pub with_acp : Settings → Result (List Text) → Option Settings
with_acp s (err e) = none
with_acp s (ok specs) = some (record s { acp = specs })

abbrev pub with_version : Settings → Option Bool → Option Settings
with_version s none = none
with_version s (some b) = some (record s { show_version = b })

abbrev pub with_port : Settings → Option ℤ → Option Settings
with_port s none = none
with_port s (some n) = some (record s { port = n })

-- The flags of type Duration.
pub data Span : Type 0 where
  turn ttl beat grace : Span

abbrev pub put_span : Settings → Span → ℤ → Settings
put_span s turn n = record s { turn_timeout = n }
put_span s ttl n = record s { session_ttl = n }
put_span s beat n = record s { heartbeat = n }
put_span s grace n = record s { shutdown_grace = n }

abbrev pub with_span : Settings → Span → Option ℤ → Option Settings
with_span s span none = none
with_span s span (some n) = some (put_span s span n)

-- The flags but for `version`, the one flag that takes no argument; `none` of `flag_named` is a flag
-- that is not defined.
pub data Flag : Type 0 where
  host port api_key default_cwd session_store allowed_root acp : Flag
  duration : Span → Flag

unfoldable pub flag_named : Text → Option Flag
flag_named name =
    if text_eq name (codes "host")
    then some host
    else if text_eq name (codes "port")
    then some port
    else if text_eq name (codes "api-key")
    then some api_key
    else if text_eq name (codes "default-cwd")
    then some default_cwd
    else if text_eq name (codes "turn-timeout")
    then some (duration turn)
    else if text_eq name (codes "session-ttl")
    then some (duration ttl)
    else if text_eq name (codes "session-store")
    then some session_store
    else if text_eq name (codes "stream-heartbeat")
    then some (duration beat)
    else if text_eq name (codes "shutdown-timeout")
    then some (duration grace)
    else if text_eq name (codes "allowed-root")
    then some allowed_root
    else if text_eq name (codes "acp")
    then some acp
    else none

-- `Set` of a flag; `none` is its error.
unfoldable pub set_flag : Machine → Settings → Flag → Text → Option Settings
set_flag m s host v = some (record s { host = v })
set_flag m s port v = with_port s (m.parse_int v)
set_flag m s api_key v = some (record s { api_key = v })
set_flag m s default_cwd v = some (record s { default_cwd = v })
set_flag m s session_store v = some (record s { session_store = v })
set_flag m s allowed_root v = with_roots s (set_path v s.allowed_roots)
set_flag m s acp v = with_acp s (set_acp v s.acp)
set_flag m s (duration span) v = with_span s span (m.parse_duration v)

-- An argument: the end of the flags, bad syntax, or a flag's name and the value behind a `=`.
pub data Argument : Type 0 where
  last malformed : Argument
  named : Text → Option Text → Argument

abbrev pub name_and_value : Text → Option (Text × Text) → Argument
name_and_value s none = named s none
name_and_value s (some (name, value)) = named name (some value)

abbrev pub argument_name : Text → Argument
argument_name [] = malformed
argument_name (c ∷ s) =
    if c == b'-' || c == b'=' then malformed else name_and_value (c ∷ s) (cut b'=' (c ∷ s))

-- Behind the first minus.
abbrev pub argument_tail : Text → Argument
argument_tail [] = last
argument_tail (c ∷ []) = if c == b'-' then last else argument_name (c ∷ [])
argument_tail (c ∷ d ∷ s) = if c == b'-' then argument_name (d ∷ s) else argument_name (c ∷ d ∷ s)

unfoldable pub argument_of : Text → Argument
argument_of [] = last
argument_of (c ∷ s) = if c == b'-' then argument_tail s else last

-- `flag.Parse`, which leaves the program at the first error or a call for help.
pub data Parsed : Type 0 where
  refused : Parsed
  accepted : Settings → Parsed

abbrev pub version_value : Option Text → Option Bool
version_value none = some true
version_value (some v) = parse_bool v

-- A step: the flags are at an end, refused, set, or a flag waits for the next argument.
pub data Move : Type 0 where
  ends refuses : Move
  sets : Settings → Move
  waits : Flag → Move

abbrev pub set_or_refuse : Option Settings → Move
set_or_refuse none = refuses
set_or_refuse (some s) = sets s

abbrev pub flag_move : Machine → Settings → Option Flag → Option Text → Move
flag_move m s none value = refuses
flag_move m s (some f) none = waits f
flag_move m s (some f) (some v) = set_or_refuse (set_flag m s f v)

unfoldable pub move : Machine → Settings → Argument → Move
unfolding set_flag flag_named parse_bool
move m s last = ends
move m s malformed = refuses
move m s (named name value) =
    if text_eq name (codes "version")
    then set_or_refuse (with_version s (version_value value))
    else flag_move m s (flag_named name) value

abbrev pub and_then : Option Settings → (Settings → Parsed) → Parsed
and_then none next = refused
and_then (some s) next = next s

unfoldable pub parse_args : Machine → Settings → List Text → Parsed
unfolding move argument_of
parse_args m s [] = accepted s
parse_args m s (a ∷ []) = elim (move m s (argument_of a)) [
  | ends ↦ accepted s
  | refuses ↦ refused
  | sets t ↦ accepted t
  | waits f ↦ refused
]
parse_args m s (a ∷ b ∷ args) = elim (move m s (argument_of a)) [
  | ends ↦ accepted s
  | refuses ↦ refused
  | sets t ↦ parse_args m t (b ∷ args)
  | waits f ↦ elim (set_flag m s f b) [ none ↦ refused | some t ↦ parse_args m t args ]
]
