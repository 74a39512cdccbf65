-- ===== src/Facade.antt =====
-- The MCP facade of internal/gateway/mcp_facade.go, through which an agent calls the client's tools:
-- a server on loopback, guarded by a token, that is bound to the turn that runs. A request is one step,
-- a watch up to its end and a call up to its wait, whose end is a relation. Bodies are the values that
-- they encode.
pub mod Bridge
pub mod Guard
pub mod Answers
mod Tests
use agentrun_openai.Prelude.{
  ℕ, ◌≡◌, Bool, true, false, not, ◌&&◌, ◌||◌, List, [], ◌∷◌, ◌++◌, Option, none, some,
  if◌then◌else◌,
}
use agentrun_openai.Prelude.Text.{Text, codes, text_eq, is_empty}
use agentrun_openai.Prelude.Dict.{lookup}
use agentrun_openai.Types.{ToolCall, GoError, plain, wrapped, canceled, Result, ok, err, ◌>>=◌}
use agentrun_openai.Json.{Json, canonical_json}
use agentrun_openai.Tools.{FunctionTool}
use agentrun_openai.Turn.{ActiveTurn, Emits, TurnEvent, called, Registered, register, cancel}
use agentrun_openai.Facade.Bridge.{Tool, Call, CallResult}

pub record McpFacade : Type 0 where
  pub canceled : Bool
  pub command : Text
  pub args : List Text
  pub token : Text
  pub tools : List Tool
  pub active : Option ActiveTurn

-- `newMCPFacade`: what `os.Executable` returns, a token of 32 random bytes in hexadecimal, and the
-- address of the listener. `over` says whether the parent's context is at its end.
abbrev pub offered : List FunctionTool → List Tool
offered [] = []
offered (t ∷ ts) =
    record {
      name = t.function.name;
      description = t.function.description;
      input_schema = t.function.parameters;
    }
    ∷ offered ts

unfoldable pub new_facade :
    Bool → List FunctionTool → Result Text → Result Text → Result Text → Result McpFacade
new_facade over tools executable secret listener = executable >>= λ exe. secret >>= λ token.
    listener >>= λ address. ok (record {
      canceled = over;
      command = exe;
      args = codes "__mcp-bridge" ∷ address ∷ token ∷ [];
      token = token;
      tools = offered tools;
      active = none;
    })

unfoldable pub bind_turn : Option ActiveTurn → McpFacade → McpFacade
bind_turn t f = record f { active = t }

abbrev pub cancel_turn : GoError → Option ActiveTurn → Option ActiveTurn
cancel_turn e none = none
cancel_turn e (some t) = some (cancel e t)

unfoldable pub abort : GoError → McpFacade → McpFacade
abort e f = record f { active = cancel_turn e f.active }

unfoldable pub close_facade : McpFacade → McpFacade
unfolding abort
close_facade f = abort (plain (codes "MCP session closed")) (record f { canceled = true })

-- A request: `call` is its body, if that decodes.
pub record Request : Type 0 where
  pub method : Text
  pub authorization : Text
  pub path : Text
  pub call : Option Call

-- The answer: a status and a text, the tools, a stream that was watched to its end, a call that is registered in
-- the turn and waits, or a call that is refused with its error behind status 200.
pub data Served : Type 0 where
  rejects : ℕ → Text → Served
  lists : List Tool → Served
  watches : Served
  waits : ToolCall → Served
  refuses : GoError → Served

abbrev pub is_known : Text → List Tool → Bool
is_known name [] = false
is_known name (t ∷ ts) = text_eq t.name name || is_known name ts

abbrev pub unless_none : Text → Text
unless_none [] = codes "{}"
unless_none (c ∷ s) = c ∷ s

abbrev pub registered_in : McpFacade → Registered → Served × McpFacade
registered_in f (Registered.refused e) = (refuses e, f)
registered_in f (Registered.registered call t) = (waits call, record f { active = some t })

-- The end of a watch: the facade's own, or that of the bridge's request.
pub data WatchEnd : Type 0 where
  facade_ended bridge_left : WatchEnd

unfoldable pub end_watch : WatchEnd → McpFacade → McpFacade
unfolding abort
end_watch facade_ended f = f
end_watch bridge_left f = record (abort (plain (codes "MCP bridge disconnected")) f) {
  canceled = true;
}

module _ (decode : Text → Option Json) where
  -- `/call`, up to the wait for the result; `id` is the random ID of the call.
  abbrev pub call_turn : McpFacade → Text → Call → Option ActiveTurn → Served × McpFacade
  call_turn f id c none = (rejects 409 (codes "no active turn"), f)
  call_turn f id c (some t) =
      registered_in f (register (canonical_json decode (unless_none c.arguments)) id c.name t)

  abbrev pub serve_call : McpFacade → Text → Option Call → Served × McpFacade
  serve_call f id none = (rejects 400 (codes "invalid tool call"), f)
  serve_call f id (some c) =
      if is_known c.name f.tools
      then call_turn f id c f.active
      else (rejects 400 (codes "unknown tool name"), f)

  abbrev pub is_authorized : McpFacade → Request → Bool
  is_authorized f q =
      text_eq q.method (codes "POST") && text_eq q.authorization (codes "Bearer " ++ f.token)

  -- `ServeHTTP`; `over` is how the watch of a bridge ends, and `id` the random ID of a call.
  unfoldable pub serve : McpFacade → Text → WatchEnd → Request → Served × McpFacade
  serve f id over q =
      if not (is_authorized f q)
      then (rejects 401 (codes "unauthorized"), f)
      else if text_eq q.path (codes "/tools")
      then (lists f.tools, f)
      else if text_eq q.path (codes "/watch")
      then (watches, end_watch over f)
      else if text_eq q.path (codes "/call")
      then serve_call f id q.call
      else (rejects 404 (codes "404 page not found"), f)

-- The end of `call` behind its registration, in the turn at that time; `client` is the error of the
-- request's context when that is at its end. The emission fails, or one of the three cases of the
-- `select` is taken, any that is ready.
pub data Returns (call : ToolCall) (t : ActiveTurn) (client : Option GoError)
    : Result Text → ActiveTurn → Type 0 where
  unheard : (c : GoError) → Emits t (called call) t (some c) → Returns call t client (err c) t
  given :
      (content : Text)
      → lookup call.id t.answers ≡ some content
      → Returns call t client (ok content) t
  over : (c : GoError) → t.cause ≡ some c → Returns call t client (err c) t
  disconnected :
      (e : GoError)
      → client ≡ some e
      → Returns call t client (err e) (cancel (wrapped (codes "MCP call disconnected: %w") [] e) t)

-- What the facade writes when `call` returns; the text of an error is a parameter.
abbrev pub written_result : (GoError → Text) → Result Text → CallResult
written_result error_text (ok content) = record { content = content; error = [] }
written_result error_text (err e) = record { content = []; error = error_text e }
