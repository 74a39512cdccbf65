-- ===== src/Facade/Tests.antt =====
-- A call by a bridge with the token, and its result.
use agentrun_openai.Prelude.{◌≡◌, refl, ◌⊎◌, Option, none, some, true, false, [], ◌∷◌}
use agentrun_openai.Prelude.Text.{Text, codes, byte_len, text_eq}
use agentrun_openai.Types.{ToolCall, TranscriptMessage, GoError, plain, tool, auto, ok}
use agentrun_openai.Json.{Json, null, object, end, canonical_json, canonical, encode, escapes}
use agentrun_openai.Tools.Selection.{policy_of}
use agentrun_openai.Turn.{ActiveTurn, cancel, register, call_of, resolve, resolved, Outcome}
use agentrun_openai.Facade.Bridge.{call_tool, forwarded}
use agentrun_openai.Facade.{
  McpFacade, Request, waits, refuses, serve, bridge_left, end_watch, abort,
}
use agentrun_openai.Facade.Guard.{Permitted, Watched, serve_guarded}
use agentrun_openai.Facade.Answers.{response}

abbrev decode : Text → Option Json
decode t = some (object end)

abbrev turn : ActiveTurn
turn = record {
  cause = none;
  events = [];
  pending =
      (
        codes "c",
        record { call = call_of (codes "c") (codes "look") (codes "{}"); delivered = true },
      )
      ∷ [];
  answers = [];
  policy = policy_of auto [];
  saw_delta = false;
  saw_thinking = false;
}

abbrev facade : McpFacade
facade = record {
  canceled = false;
  command = codes "/bin/a";
  args = [];
  token = codes "t";
  tools = record { name = codes "look"; description = []; input_schema = codes "{}" } ∷ [];
  active = some turn;
}

abbrev request : Request
request = record {
  method = codes "POST";
  authorization = codes "Bearer t";
  path = codes "/call";
  call = some (record { name = codes "look"; arguments = [] });
}

serve_guarded_example :
    ((serve decode facade (codes "d") bridge_left request).1 ≡ facade)
    ⊎ ((call : ToolCall) × (g : McpFacade) × (serve decode facade (codes "d") bridge_left request
          ≡ (waits call, g))
        × Permitted decode facade (codes "d") request call g)
    ⊎ Watched facade bridge_left request (serve decode facade (codes "d") bridge_left request).1
serve_guarded_example = serve_guarded decode facade (codes "d") bridge_left request

-- The request does reach the turn.
reaches_turn :
    (serve decode facade (codes "d") bridge_left request).0
    ≡ waits (call_of (codes "d") (codes "look") (codes "{}"))
unfolding serve text_eq register canonical_json canonical encode
reaches_turn = refl

abbrev told : TranscriptMessage
told = record { tool_calls = []; tool_call_id = codes "c"; role = tool; content = codes "found" }

abbrev turn_of : Outcome → ActiveTurn → ActiveTurn
turn_of (resolved u) t = u
turn_of _ t = t

abbrev answered : ActiveTurn
answered = turn_of (resolve (told ∷ []) (policy_of auto []) turn) turn

abbrev look : ToolCall
look = call_of (codes "c") (codes "look") (codes "{}")

abbrev error_text : GoError → Text
error_text e = codes "error"

got : call_tool (ok (response error_text (ok (codes "found")))) ≡ ok (codes "found")
unfolding call_tool encode escapes byte_len
got = refl

-- A bridge that leaves takes the turn with it.
watch_ends :
    (serve decode facade (codes "d") bridge_left (record request { path = codes "/watch" })).1
    ≡ record facade {
      canceled = true;
      active = some (record turn { cause = some (plain (codes "MCP bridge disconnected")) });
    }
unfolding serve text_eq end_watch abort cancel
watch_ends = refl

-- A call that the bridge forwards without arguments is refused, though the facade has a default for
-- arguments that are left out.
abbrev bare : Request
bare = record request { call = some (forwarded (codes "look") []) }

bare_refused :
    serve (λ t. some null) facade (codes "d") bridge_left bare
    ≡ (refuses (plain (codes "tool arguments must be a JSON object")), facade)
unfolding serve text_eq register canonical_json canonical encode
bare_refused = refl
