-- ===== src/History.antt =====
-- The transcript functions of internal/gateway/history.go behind the decoding of the request:
-- the prompt of a turn, the system prompt and the comparison of histories.
pub mod Prefix
pub mod Prompt
mod Tests
use agentrun_openai.Prelude.{
  ℕ, ◌+◌, ◌-◌, suc, Bool, true, false, not, ◌&&◌, ◌||◌, List, [], ◌∷◌, ◌++◌, reverse, Option, none,
  some, if◌then◌else◌, ◌==◌, ltb, length,
}
use agentrun_openai.Prelude.Text.{Text, codes, is_empty, trim_space, join}
use agentrun_openai.Types.{
  TranscriptMessage, Role, system, developer, user, assistant, tool, role_eq, role_name, message_eq,
  Result, ok, err, plain,
}

-- The loop of `hasPrefix`.
unfoldable pub same_start : List TranscriptMessage → List TranscriptMessage → Bool
same_start ms [] = true
same_start [] (p ∷ ps) = false
same_start (m ∷ ms) (p ∷ ps) = message_eq m p && same_start ms ps

unfoldable pub has_prefix : List TranscriptMessage → List TranscriptMessage → Bool
has_prefix messages prefix =
    if ltb (length messages) (length prefix) then false else same_start messages prefix

abbrev pub is_system : Role → Bool
is_system system = true
is_system developer = true
is_system user = false
is_system assistant = false
is_system tool = false

unfoldable pub system_parts : List TranscriptMessage → List Text
system_parts [] = []
system_parts (m ∷ ms) =
    let rest = system_parts ms in if is_system m.role then m.content ∷ rest else rest

unfoldable pub system_prompt : List TranscriptMessage → Text
system_prompt ms = join (codes "\n\n") (system_parts ms)

-- The first loop of `turnPrompt`, from the last message on: is the last non-system message, if there
-- is one, the user's?
unfoldable pub ends_with_user : List TranscriptMessage → Bool
ends_with_user [] = true
ends_with_user (m ∷ ms) = if is_system m.role then ends_with_user ms else role_eq m.role user

-- What the second loop keeps.
abbrev pub is_spoken : TranscriptMessage → Bool
is_spoken m = not (is_system m.role) && not (role_eq m.role tool) && is_empty m.tool_calls

unfoldable pub filtered : List TranscriptMessage → List TranscriptMessage
filtered [] = []
filtered (m ∷ ms) = let rest = filtered ms in if is_spoken m then m ∷ rest else rest

-- The index of the last message of the user; `none` is -1.
unfoldable pub last_user : List TranscriptMessage → Option ℕ
last_user [] = none
last_user (m ∷ ms) = elim (last_user ms) [
  | some i ↦ some (i + 1)
  | none ↦ if role_eq m.role user then some 0 else none
]

abbrev pub is_last : Option ℕ → List TranscriptMessage → Bool
is_last none ms = false
is_last (some i) ms = i == length ms - 1

unfoldable pub render : List TranscriptMessage → Text
render [] = []
render (m ∷ ms) =
    codes "\n[" ++ (role_name m.role ++ (codes "]\n" ++ (m.content ++ (codes "\n" ++ render ms))))

abbrev pub not_user_last : Result Text
not_user_last = err (plain (codes "the last non-system message must have role user"))

abbrev pub prompt_of : List TranscriptMessage → Result Text
prompt_of [] = err (plain (codes "messages must contain a user turn"))
prompt_of (m ∷ []) =
    if not (is_last (last_user (m ∷ [])) (m ∷ []))
    then not_user_last
    else if is_empty (trim_space m.content)
    then err (plain (codes "the user turn must not be empty"))
    else ok m.content
prompt_of (m ∷ n ∷ ms) =
    if not (is_last (last_user (m ∷ n ∷ ms)) (m ∷ n ∷ ms))
    then not_user_last
    else ok (codes "Conversation context:\n" ++ render (m ∷ n ∷ ms))

unfoldable pub turn_prompt : List TranscriptMessage → Result Text
turn_prompt messages =
    if not (ends_with_user (reverse messages)) then not_user_last else prompt_of (filtered messages)
