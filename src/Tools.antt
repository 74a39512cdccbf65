-- ===== src/Tools.antt =====
-- `normalizeTools` of internal/gateway/tools.go: the tools and the tool_choice of a request. Texts of
-- JSON are read by `decode`, the decoder of encoding/json; `digest` is SHA-256 in hexadecimal.
pub mod Selection
pub mod Order
pub mod Sound
pub mod Swap
pub mod Alike
mod Tests
use agentrun_openai.Tools.Selection.{
  Choice, with_name, with_kind, kind_of_value, set_choice, read_choice_fields, no_choice,
  read_choice, policy_of, unavailable, named_policy, mode_policy, choice_policy, needs_tools,
}
use agentrun_openai.Prelude.{
  ℕ, Bool, true, false, not, ◌&&◌, ◌||◌, List, [], ◌∷◌, ◌++◌, map, Option, none, some,
  if◌then◌else◌, ◌==◌, leb, length,
}
use agentrun_openai.Prelude.Text.{Text, codes, text_eq, is_empty, member}
use agentrun_openai.Types.{
  plain, formatted, Result, ok, err, ◌>>=◌, ToolPolicy, Mode, auto, off, required, named,
}
use agentrun_openai.Json.{Json, null, string, object, quoted, canonical_json, Members, field, end}
use agentrun_openai.Json.Order.{text_lt}
use agentrun_openai.Json.Struct.{is_field, read_string, read_struct}

pub record FunctionDefinition : Type 0 where
  pub name : Text
  pub description : Text
  pub parameters : Text
  pub strict : Option Bool

pub record FunctionTool : Type 0 where
  pub kind : Text
  pub function : FunctionDefinition

-- `functionName`: 1 to 64 of the characters a-z, A-Z, 0-9, _ and -.
abbrev pub is_name_char : ℕ → Bool
is_name_char c =
    (leb b'a' c && leb c b'z')
    || (leb b'A' c && leb c b'Z')
    || (leb b'0' c && leb c b'9')
    || c == b'_'
    || c == b'-'

abbrev pub name_chars : Text → Bool
name_chars [] = true
name_chars (c ∷ s) = is_name_char c && name_chars s

unfoldable pub is_function_name : Text → Bool
is_function_name s = not (is_empty s) && leb (length s) 64 && name_chars s

-- `raw[0] == '{'` on a text that may be empty.
abbrev pub opens_object : Text → Bool
opens_object [] = false
opens_object (c ∷ s) = c == b'{'

abbrev pub default_parameters : Text
default_parameters = codes "{\"type\":\"object\",\"properties\":{}}"

abbrev pub unless_absent : Text → Text
unless_absent [] = default_parameters
unless_absent (c ∷ s) = c ∷ s

abbrev pub read_type : Option Json → Option Text
read_type none = none
read_type (some v) = read_struct (codes "type") [] v

abbrev pub with_parameters : FunctionTool → Text → FunctionTool
with_parameters t raw = record {
  kind = t.kind;
  function = record {
    name = t.function.name;
    description = t.function.description;
    parameters = raw;
    strict = t.function.strict;
  };
}

-- The canonical schema of a tool, which must be an object of type "object".
abbrev pub no_object : FunctionTool → Result FunctionTool
no_object t =
    err (formatted (codes "tool %q parameters must be a JSON Schema object") (t.function.name ∷ []))

abbrev pub no_type : FunctionTool → Result FunctionTool
no_type t =
    err (formatted (codes "tool %q parameters must have type object") (t.function.name ∷ []))

abbrev pub typed : FunctionTool → Text → Option Text → Result FunctionTool
typed t raw none = no_type t
typed t raw (some kind) =
    if text_eq kind (codes "object") then ok (with_parameters t raw) else no_type t

abbrev pub checked_schema : (Text → Option Json) → FunctionTool → Option Text → Result FunctionTool
checked_schema decode t none = no_object t
checked_schema decode t (some raw) =
    if opens_object raw then typed t raw (read_type (decode raw)) else no_object t

unfoldable pub normalize_tool : (Text → Option Json) → FunctionTool → Result FunctionTool
normalize_tool decode t =
    checked_schema decode t (canonical_json decode (unless_absent t.function.parameters))

-- A tool whose name is no function name, or that of a tool before it.
abbrev pub is_refused : List Text → FunctionTool → Bool
is_refused names t =
    not (text_eq t.kind (codes "function"))
    || not (is_function_name t.function.name)
    || member t.function.name names

abbrev pub bad_name : Result (List FunctionTool)
bad_name = err (
    plain (
      codes
        "tools must contain unique function names (letters, digits, underscores or hyphens, 1–64 characters)"))

unfoldable pub normalize_each :
    (Text → Option Json) → List Text → List FunctionTool → Result (List FunctionTool)
unfolding normalize_tool
normalize_each decode names [] = ok []
normalize_each decode names (t ∷ ts) =
    let rest = normalize_each decode (t.function.name ∷ names) ts in
    if is_refused names t
    then bad_name
    else normalize_tool decode t >>= λ u. rest >>= λ us. ok (u ∷ us)

-- `sort.Slice` by name. Names are unique, so any sort gives this list.
unfoldable pub put_tool : FunctionTool → List FunctionTool → List FunctionTool
put_tool t [] = t ∷ []
put_tool t (u ∷ us) =
    let rest = put_tool t us in
    if text_lt t.function.name u.function.name then t ∷ u ∷ us else u ∷ rest

unfoldable pub sort_tools : List FunctionTool → List FunctionTool
sort_tools [] = []
sort_tools (t ∷ ts) = put_tool t (sort_tools ts)

-- The names, of which the source keeps a map from before the sort on.
abbrev pub names_of : List FunctionTool → List Text
names_of [] = []
names_of (t ∷ ts) = t.function.name ∷ names_of ts

-- `json.Marshal` of the tools, whose parameters stand there as they are.
abbrev pub strict_text : Option Bool → Text
strict_text none = []
strict_text (some true) = codes ",\"strict\":true"
strict_text (some false) = codes ",\"strict\":false"

abbrev pub description_text : Text → Text
description_text [] = []
description_text (c ∷ s) = codes ",\"description\":" ++ quoted (c ∷ s)

unfoldable pub tool_text : FunctionTool → Text
tool_text t =
    codes "{\"type\":"
    ++ (quoted t.kind
        ++ (codes ",\"function\":{\"name\":"
            ++ (quoted t.function.name
                ++ (description_text t.function.description
                    ++ (codes ",\"parameters\":"
                        ++ (t.function.parameters
                            ++ (strict_text t.function.strict ++ codes "}}")))))))

unfoldable pub more_tools_text : List FunctionTool → Text
more_tools_text [] = codes "]"
more_tools_text (t ∷ ts) = b',' ∷ (tool_text t ++ more_tools_text ts)

unfoldable pub tools_text : List FunctionTool → Text
tools_text [] = codes "[]"
tools_text (t ∷ ts) = b'[' ∷ (tool_text t ++ more_tools_text ts)

unfoldable pub tools_hash : (Text → Text) → List FunctionTool → Text
tools_hash digest [] = []
tools_hash digest (t ∷ ts) = digest (tools_text (t ∷ ts))

abbrev pub counted_policy : List FunctionTool → ToolPolicy → Result ToolPolicy
counted_policy [] policy =
    if needs_tools policy.mode then err (plain (codes "tool_choice requires tools")) else ok policy
counted_policy (t ∷ ts) policy = ok policy

abbrev pub is_absent : Text → Bool
is_absent choice = is_empty choice || text_eq choice (codes "null")

unfoldable pub chosen_policy : (Text → Option Json) → List FunctionTool → Text → Result ToolPolicy
unfolding read_choice
chosen_policy decode ts choice =
    if is_absent choice then ok (policy_of auto []) else choice_policy (names_of ts) (decode choice)

unfoldable pub normalize_choice :
    (Text → Option Json) → List FunctionTool → Text → Result ToolPolicy
unfolding chosen_policy
normalize_choice decode ts choice = chosen_policy decode ts choice >>= counted_policy ts

-- The tools, their hash and the policy of a request.
pub record Normalized : Type 0 where
  pub tools : List FunctionTool
  pub hash : Text
  pub policy : ToolPolicy

abbrev pub normalized : (Text → Text) → List FunctionTool → ToolPolicy → Normalized
normalized digest ts policy = record { tools = ts; hash = tools_hash digest ts; policy = policy }

abbrev pub with_choice :
    (Text → Option Json) → (Text → Text) → Text → List FunctionTool → Result Normalized
with_choice decode digest choice ts =
    normalize_choice decode ts choice >>= λ policy. ok (normalized digest ts policy)

unfoldable pub normalize_tools :
    (Text → Option Json) → (Text → Text) → List FunctionTool → Text → Result Normalized
unfolding normalize_each
normalize_tools decode digest tools choice =
    normalize_each decode [] tools >>= λ ts. with_choice decode digest choice (sort_tools ts)
