-- ===== src/Facade/Answers.antt =====
-- What an agent gets back from the call of a tool, through internal/gateway/mcp_facade.go and
-- internal/mcpbridge/bridge.go.
use agentrun_openai.Prelude.{◌++◌, [], ◌*◌, ltb, if◌then◌else◌}
use agentrun_openai.Prelude.Text.{Text, codes, byte_len}
use agentrun_openai.Prelude.Dict.{Dict}
use agentrun_openai.Prelude.Distinct.{Distinct}
use agentrun_openai.Types.{GoError, Result, ok, err, plain}
use agentrun_openai.Json.{escapes}
use agentrun_openai.Turn.Accepts.{Answers}
use agentrun_openai.Facade.Bridge.{Response, CallResult}
use agentrun_openai.Facade.{written_result}

-- The facade's response to a call that was registered: its status was sent at once.
abbrev pub response : (GoError → Text) → Result Text → Response CallResult
response error_text r = record { status = 200; text = []; body = ok (written_result error_text r) }

-- What a bridge makes of a content: an error, if `{"content":"…"}` with the content's quotes, control
-- characters, `<`, `>` and `&` escaped has more than 4 MiB in UTF-8.
abbrev pub content_read : Text → Result Text
content_read content =
    if ltb (4 * 1024 * 1024)
      (byte_len (codes "{\"content\":\"" ++ (escapes content ++ codes "\"}")))
    then err (plain (codes "unexpected EOF"))
    else ok content
