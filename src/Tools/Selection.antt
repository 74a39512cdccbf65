-- ===== src/Tools/Selection.antt =====
-- The tool_choice of a request (`normalizeTools` of internal/gateway/tools.go).
use agentrun_openai.Prelude.{
  Bool, true, false, ◌&&◌, List, [], ◌∷◌, Option, none, some, if◌then◌else◌,
}
use agentrun_openai.Prelude.Text.{Text, codes, text_eq, member}
use agentrun_openai.Types.{
  plain, formatted, Result, ok, err, ToolPolicy, Mode, auto, off, required, named,
}
use agentrun_openai.Json.{Json, null, string, object, Members, field, end}
use agentrun_openai.Json.Struct.{is_field, read_struct}

-- The struct of a tool_choice object: its type and the name in its function.
pub record Choice : Type 0 where
  pub kind : Text
  pub name : Text

abbrev pub with_name : Choice → Option Text → Option Choice
with_name c none = none
with_name c (some name) = some (record { kind = c.kind; name = name })

abbrev pub with_kind : Choice → Option Text → Option Choice
with_kind c none = none
with_kind c (some kind) = some (record { kind = kind; name = c.name })

abbrev pub kind_of_value : Text → Json → Option Text
kind_of_value now (string t) = some t
kind_of_value now null = some now
kind_of_value now _ = none

abbrev pub set_choice : Text → Choice → Json → Option Choice
set_choice k c v =
    if is_field k (codes "type")
    then with_kind c (kind_of_value c.kind v)
    else if is_field k (codes "function")
    then with_name c (read_struct (codes "name") c.name v)
    else some c

unfoldable pub read_choice_fields : Choice → Members → Option Choice
read_choice_fields c end = some c
read_choice_fields c (field k v fs) = elim (set_choice k c v) [
  | none ↦ none
  | some d ↦ read_choice_fields d fs
]

abbrev pub no_choice : Choice
no_choice = record { kind = []; name = [] }

unfoldable pub read_choice : Option Json → Option Choice
unfolding read_choice_fields
read_choice (some (object fs)) = read_choice_fields no_choice fs
read_choice (some null) = some no_choice
read_choice _ = none

abbrev pub policy_of : Mode → Text → ToolPolicy
policy_of mode name = record { mode = mode; name = name }

abbrev pub unavailable : Result ToolPolicy
unavailable = err (plain (codes "tool_choice must name an available function"))

abbrev pub named_policy : List Text → Option Choice → Result ToolPolicy
named_policy names none = unavailable
named_policy names (some c) =
    if text_eq c.kind (codes "function") && member c.name names
    then ok (policy_of named c.name)
    else unavailable

-- A tool_choice that is a string.
abbrev pub mode_policy : Text → Result ToolPolicy
mode_policy s =
    if text_eq s (codes "named")
    then err (plain (codes "named tool_choice must use the function object form"))
    else if text_eq s (codes "auto")
    then ok (policy_of auto [])
    else if text_eq s (codes "none")
    then ok (policy_of off [])
    else if text_eq s (codes "required")
    then ok (policy_of required [])
    else err (formatted (codes "unsupported tool_choice %q") (s ∷ []))

-- `json.Unmarshal(choice, &policy.Mode)`, which sets a string, leaves `auto` for null, and fails else.
abbrev pub choice_policy : List Text → Option Json → Result ToolPolicy
choice_policy names (some (string s)) = mode_policy s
choice_policy names (some null) = ok (policy_of auto [])
choice_policy names v = named_policy names (read_choice v)

abbrev pub needs_tools : Mode → Bool
needs_tools required = true
needs_tools named = true
needs_tools auto = false
needs_tools off = false
