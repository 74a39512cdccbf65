-- ===== src/Messages/Tests.antt =====
-- A user asks, the assistant calls a tool, and the client sends the result.
use agentrun_openai.Prelude.{ℕ, ◌≡◌, refl, inr, true, List, [], ◌∷◌, ◌++◌, Option, length}
use agentrun_openai.Prelude.Text.{
  Text, codes, text_eq, member, trim_space, trim_left, trim_right, is_space, to_lower,
}
use agentrun_openai.Prelude.Dict.{Dict, lookup}
use agentrun_openai.Types.{user, assistant, tool, ToolCall, TranscriptMessage, ok}
use agentrun_openai.Session.{new_state, matches_history_prefix, remember}
use agentrun_openai.Json.{Json, string, object, end, escapes, encode, canonical}
use agentrun_openai.Tools.{is_function_name}
use agentrun_openai.Messages.{
  ChatMessage, transcript_message, role_of, normalize_calls, normalize_message, normalize_from,
  normalize_messages,
}
use agentrun_openai.Messages.Content.{text_content}
use agentrun_openai.Messages.Sound.{normalize_messages_ok, IsMessage}
use agentrun_openai.Messages.Echo.{conversation_continues, IsReadable}

abbrev documents : Dict Json
documents =
    (codes "\"hi\"", string (codes "hi"))
    ∷ (codes "\"I look\"", string (codes "I look"))
    ∷ (codes "\"done\"", string (codes "done"))
    ∷ (codes "{}", object end)
    ∷ []

abbrev decode : Text → Option Json
decode t = lookup t documents

abbrev digits : ℕ → Text
digits n = []

abbrev no_hash : List TranscriptMessage → Text
no_hash ms = []

abbrev asked : List ChatMessage
asked =
    record { tool_calls = []; tool_call_id = []; role = codes " User"; content = codes "\"hi\"" }
    ∷ []

abbrev asked_messages : List TranscriptMessage
asked_messages = transcript_message user (codes "hi") [] [] ∷ []

abbrev call : ToolCall
call = record {
  id = codes "c";
  kind = codes "function";
  function = record { name = codes "look"; arguments = codes "{}" };
}

abbrev answer : TranscriptMessage
answer = transcript_message assistant (codes "I look") (call ∷ []) []

abbrev more : List ChatMessage
more =
    record {
      tool_calls = [];
      tool_call_id = codes "c";
      role = codes "tool";
      content = codes "\"done\"";
    }
    ∷ []

abbrev more_messages : List TranscriptMessage
more_messages = transcript_message tool (codes "done") [] (codes "c") ∷ []

asked-normal : normalize_messages decode digits asked ≡ ok asked_messages
unfolding normalize_messages normalize_from normalize_message normalize_calls role_of text_content
    to_lower trim_space trim_left trim_right is_space text_eq lookup
asked-normal = refl

more-normal : normalize_messages decode digits more ≡ ok more_messages
unfolding normalize_messages normalize_from normalize_message normalize_calls role_of text_content
    to_lower trim_space trim_left trim_right is_space text_eq lookup
more-normal = refl

answer-IsMessage : IsMessage answer
unfolding is_function_name encode canonical member
answer-IsMessage = (inr refl, refl, (((refl, refl, refl, refl, object end, refl), tt), (refl, tt)))

answer-IsReadable : IsReadable decode answer
unfolding lookup text_eq escapes encode canonical
answer-IsReadable = (refl, ((object end, refl, refl), tt))

normalize_messages_ok_example :
    (length more_messages ≡ 1) × (IsMessage (transcript_message tool (codes "done") [] (codes "c")))
normalize_messages_ok_example =
    let (all, count, least) = normalize_messages_ok decode digits more more_messages more-normal in
    (count, all.0)

conversation_continues_example :
    matches_history_prefix no_hash
      (remember no_hash asked_messages answer (new_state 0))
      (asked_messages ++ (answer ∷ more_messages))
    ≡ true
conversation_continues_example =
    let (whole, known, new) =
      conversation_continues decode digits no_hash asked more asked_messages more_messages answer
        (new_state 0) asked-normal answer-IsMessage answer-IsReadable more-normal in
    known
