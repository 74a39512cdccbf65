-- ===== src/Messages.antt =====
-- `normalizeMessages` and `textContent` of internal/gateway/history.go: the messages of a request
-- become a transcript. Texts of JSON are read by `decode`, the decoder of encoding/json.
pub mod Content
pub mod Sound
pub mod Echo
mod Tests
use agentrun_openai.Messages.Content.{
  Part, no_part, part_kind, part_text, fill_part, read_part_fields, read_part, read_parts,
  join_parts, not_text, parts_text, value_text, text_content,
}
use agentrun_openai.Prelude.{
  ℕ, ◌+◌, Bool, true, false, not, ◌&&◌, ◌||◌, List, [], ◌∷◌, ◌++◌, Option, none, some,
  if◌then◌else◌,
}
use agentrun_openai.Prelude.Text.{Text, codes, text_eq, is_empty, trim_space, to_lower, member}
use agentrun_openai.Types.{
  Role, system, developer, user, assistant, tool, role_eq, ToolCall, TranscriptMessage, GoError,
  plain, formatted, wrapped, Result, ok, err, ◌>>=◌,
}
use agentrun_openai.Json.{
  Json, Items, Members, null, string, array, object, nil, cons, end, field, canonical_json,
}
use agentrun_openai.Json.Struct.{is_field, set_string}
use agentrun_openai.Tools.{is_function_name, opens_object}

pub record ChatMessage : Type 0 where
  pub tool_calls : List ToolCall
  pub tool_call_id : Text
  pub role : Text
  pub content : Text

-- The switch over the roles.
unfoldable pub role_of : Text → Option Role
role_of r =
    if text_eq r (codes "system")
    then some system
    else if text_eq r (codes "developer")
    then some developer
    else if text_eq r (codes "user")
    then some user
    else if text_eq r (codes "assistant")
    then some assistant
    else if text_eq r (codes "tool")
    then some tool
    else none

abbrev pub with_arguments : ToolCall → Text → ToolCall
with_arguments c raw = record {
  id = c.id;
  kind = c.kind;
  function = record { name = c.function.name; arguments = raw };
}

-- The test on a call whose arguments are `raw` in canonical form; `none` is the error of the source.
abbrev pub is_call : List Text → ToolCall → Text → Bool
is_call seen c raw =
    not (is_empty c.id)
    && not (member c.id seen)
    && text_eq c.kind (codes "function")
    && is_function_name c.function.name
    && opens_object raw

abbrev pub checked_call : List Text → ToolCall → Option Text → Option ToolCall
checked_call seen c none = none
checked_call seen c (some raw) = if is_call seen c raw then some (with_arguments c raw) else none

abbrev pub call_before : ToolCall → Option (List ToolCall) → Option (List ToolCall)
call_before c none = none
call_before c (some cs) = some (c ∷ cs)

abbrev pub go_on : Option ToolCall → Option (List ToolCall) → Option (List ToolCall)
go_on none rest = none
go_on (some c) rest = call_before c rest

unfoldable pub normalize_calls :
    (Text → Option Json) → List Text → List ToolCall → Option (List ToolCall)
normalize_calls decode seen [] = some []
normalize_calls decode seen (c ∷ cs) =
    go_on (checked_call seen c (canonical_json decode c.function.arguments))
      (normalize_calls decode (c.id ∷ seen) cs)

-- The content of a message that calls tools may be left out.
abbrev pub raw_content : Role → List ToolCall → Text → Text
raw_content role calls raw =
    if role_eq role assistant
      && not (is_empty calls)
      && (is_empty raw || text_eq raw (codes "null"))
    then codes "\"\""
    else raw

abbrev pub transcript_message : Role → Text → List ToolCall → Text → TranscriptMessage
transcript_message role content calls id = record {
  tool_calls = calls;
  tool_call_id = id;
  role = role;
  content = content;
}

-- Numbers in error texts are formatted by `digits`.
abbrev pub bad_content : Text → Result Text → Result Text
bad_content digits (ok t) = ok t
bad_content digits (err e) = err (wrapped (codes "messages[%d].content: %w") (digits ∷ []) e)

abbrev pub with_calls :
    (Text → Option Json)
    → Text
    → ChatMessage
    → Role
    → Option (List ToolCall)
    → Result TranscriptMessage
with_calls decode digits m role none = err (plain (codes "invalid assistant tool call"))
with_calls decode digits m role (some calls) =
    bad_content digits (text_content decode (raw_content role calls m.content)) >>= λ content.
    ok (transcript_message role content calls m.tool_call_id)

abbrev pub same_test : Bool → Bool → Bool
same_test true b = b
same_test false b = not b

abbrev pub with_role :
    (Text → Option Json) → Text → ChatMessage → Option Role → Result TranscriptMessage
with_role decode digits m none =
    err (formatted (codes "messages[%d].role %q is not supported") (digits ∷ m.role ∷ []))
with_role decode digits m (some role) =
    if not (is_empty m.tool_calls) && not (role_eq role assistant)
    then err (plain (codes "tool_calls requires role assistant"))
    else if not (same_test (role_eq role tool) (not (is_empty m.tool_call_id)))
    then err (plain (codes "role tool requires tool_call_id; other roles must omit it"))
    else with_calls decode digits m role (normalize_calls decode [] m.tool_calls)

unfoldable pub normalize_message :
    (Text → Option Json) → Text → ChatMessage → Result TranscriptMessage
unfolding normalize_calls role_of text_content
normalize_message decode digits m =
    with_role decode digits m (role_of (to_lower (trim_space m.role)))

unfoldable pub normalize_from :
    (Text → Option Json) → (ℕ → Text) → ℕ → List ChatMessage → Result (List TranscriptMessage)
unfolding normalize_message
normalize_from decode digits i [] = ok []
normalize_from decode digits i (m ∷ ms) =
    let rest = normalize_from decode digits (i + 1) ms in
    normalize_message decode (digits i) m >>= λ t. rest >>= λ ts. ok (t ∷ ts)

unfoldable pub normalize_messages :
    (Text → Option Json) → (ℕ → Text) → List ChatMessage → Result (List TranscriptMessage)
unfolding normalize_from
normalize_messages decode digits [] =
    err (plain (codes "messages must contain at least one message"))
normalize_messages decode digits (m ∷ ms) = normalize_from decode digits 0 (m ∷ ms)
