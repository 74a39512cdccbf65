-- ===== src/Command/Environment.antt =====
-- The flag `acp` and the variable AGENTRUN_ACP of cmd/agentrun-openai/main.go say the same.
use agentrun_openai.Prelude.{
  ◌≡◌, refl, sym, ap, ◌∙◌, List, [], ◌∷◌, ◌++◌, if◌then◌else◌, All, append_assoc, append-nil,
}
use agentrun_openai.Prelude.Text.{Text, codes, text_eq, cut}
use agentrun_openai.Types.{ok}
use agentrun_openai.Command.Lists.{set_acp, acp_string}
use agentrun_openai.Command.Flags.{
  Machine, Settings, Parsed, parse_args, move, argument_of, set_flag, flag_named,
}
use agentrun_openai.Command.Roots.{resolve_roots, resolve_root}
use agentrun_openai.Command.Roundtrip.{IsEntry, split_acp_list-acp_string}
use agentrun_openai.Command.{
  run_command, start_with, start_of, prepare, defaults, specs_of, env, env_int, env_duration,
  default_session_store,
}

-- The flag once for each specification.
abbrev pub acp_flags : List Text → List Text
acp_flags [] = []
acp_flags (w ∷ ws) = codes "-acp" ∷ w ∷ acp_flags ws

-- A machine with the list in its environment.
abbrev pub with_list : Machine → List Text → Machine
with_list m ws = record m {
  getenv = λ key. if text_eq key (codes "AGENTRUN_ACP") then acp_string ws else m.getenv key;
}

abbrev pub with_specs : Settings → List Text → Settings
with_specs s ws = record s { acp = s.acp ++ ws }

pub set_acp-IsEntry :
    (w : Text) (values : List Text) → IsEntry w → set_acp w values ≡ ok (values ++ (w ∷ []))
unfolding set_acp
set_acp-IsEntry w values (same, filled, whole) = rw (same, filled)

-- The last argument is a flag's value.
pub parse_args-one :
    (m : Machine) (s : Settings) (w : Text) (args : List Text)
    → IsEntry w
    → parse_args m s (codes "-acp" ∷ w ∷ args) ≡ parse_args m (with_specs s (w ∷ [])) args
unfolding parse_args move argument_of cut text_eq flag_named set_flag
parse_args-one m s w args h = rw (parse_args, move, set_flag, set_acp-IsEntry w s.acp h)

pub parse_args-acp_flags :
    (m : Machine) (s : Settings) (ws : List Text)
    → All IsEntry ws
    → parse_args m s (acp_flags ws) ≡ Parsed.accepted (with_specs s ws)
unfolding parse_args
parse_args-acp_flags m s [] a =
    ap (λ acp. Parsed.accepted (record s { acp = acp })) (sym (append-nil s.acp))
parse_args-acp_flags m s (w ∷ ws) a =
    parse_args-one m s w (acp_flags ws) a.0
    ∙ parse_args-acp_flags m (with_specs s (w ∷ [])) ws a.1
    ∙ ap (λ acp. Parsed.accepted (record s { acp = acp })) (append_assoc s.acp (w ∷ []) ws)

pub resolve_roots-with_list :
    (m : Machine) (ws roots : List Text)
    → resolve_roots (with_list m ws) roots ≡ resolve_roots m roots
unfolding resolve_roots resolve_root
resolve_roots-with_list m ws [] = refl
resolve_roots-with_list m ws (root ∷ roots) = rw (resolve_roots-with_list m ws roots)

pub defaults-with_list : (m : Machine) (ws : List Text) → defaults (with_list m ws) ≡ defaults m
unfolding defaults text_eq env env_int env_duration default_session_store
defaults-with_list m ws = refl

pub specs_of-with_list :
    (m : Machine) (ws : List Text) → All IsEntry ws → specs_of (with_list m ws) [] ≡ ws
unfolding text_eq
specs_of-with_list m ws a = split_acp_list-acp_string ws a

pub prepare-with_list :
    (m : Machine) (s : Settings) (w : Text) (ws : List Text)
    → All IsEntry (w ∷ ws)
    → prepare (with_list m (w ∷ ws)) (record s { acp = [] }) ≡ prepare m (record s { acp = w ∷ ws })
unfolding prepare
prepare-with_list m s w ws a =
    rw (resolve_roots-with_list m (w ∷ ws) s.allowed_roots, specs_of-with_list m (w ∷ ws) a)

pub run_command-acp_flags :
    (m : Machine) (w : Text) (ws : List Text)
    → run_command m (acp_flags (w ∷ ws))
      ≡ start_with m (parse_args m (defaults m) (acp_flags (w ∷ ws)))
unfolding run_command text_eq
run_command-acp_flags m w ws = refl

pub starts_with_flags :
    (m : Machine) (ws : List Text)
    → start_with m (Parsed.accepted (with_specs (defaults m) ws))
      ≡ start_of (prepare m (record (defaults m) { acp = ws }))
unfolding defaults
starts_with_flags m ws = refl

pub starts_with_list :
    (m : Machine) (ws : List Text)
    → run_command (with_list m ws) []
      ≡ start_of (prepare (with_list m ws) (record (defaults m) { acp = [] }))
unfolding run_command defaults parse_args text_eq env env_int env_duration default_session_store
starts_with_list m ws = refl

-- Specifications that are not blank, have no space at their ends and no line feed and no semicolon
-- inside, may be given as flags or as a list in the environment: whatever else the environment says,
-- the command starts, or fails, in the same way.
pub acp_flags_as_environment :
    (m : Machine) (w : Text) (ws : List Text)
    → All IsEntry (w ∷ ws)
    → run_command m (acp_flags (w ∷ ws)) ≡ run_command (with_list m (w ∷ ws)) []
acp_flags_as_environment m w ws a =
    run_command-acp_flags m w ws
    ∙ ap (start_with m) (parse_args-acp_flags m (defaults m) (w ∷ ws) a)
    ∙ starts_with_flags m (w ∷ ws)
    ∙ ap start_of (sym (prepare-with_list m (defaults m) w ws a))
    ∙ sym (starts_with_list m (w ∷ ws))
