-- ===== src/ToolChat.antt =====
-- The entry of `handleToolChat` of internal/gateway/tool_chat.go, an exchange of a session with tools:
-- it is refused, or attached to a turn. What the agent, the client, the disk and the clock do is a list
-- of wakes of the handler's loop and the fields of `ToolAgent`.
pub mod Select
pub mod Ending
pub mod Policy
pub mod Synced
pub mod Unsaved
pub mod Calls
pub mod Results
pub mod Progress
mod Tests
use agentrun_openai.Prelude.{
  ℕ, Bool, true, false, not, ◌&&◌, ◌||◌, List, [], ◌∷◌, ◌++◌, Option, none, some, if◌then◌else◌,
  ◌==◌, drop,
}
use agentrun_openai.Prelude.Text.{Text, codes, is_empty, text_eq}
use agentrun_openai.Types.{
  TranscriptMessage, Role, assistant, tool, role_eq, GoError, plain, Result, ok, err, ToolPolicy,
  Mode, auto, off, required, named,
}
use agentrun_openai.History.{turn_prompt, system_prompt}
use agentrun_openai.Session.{
  SessionState, LiveTurn, Facade, matches_history_prefix, persisted_history_count, remember,
}
use agentrun_openai.Session.Registry.{is_some}
use agentrun_openai.Session.Store.{Fault, delete}
use agentrun_openai.Stream.{
  Collector, new_collector, start_stream, stream_error, finish_stream, write_completion,
}
use agentrun_openai.Turn.{ActiveTurn, new_active_turn, Outcome, refused, resolved, panics, resolve}
use agentrun_openai.Chat.{
  World, clear_session, StartRequest, unless_empty, Reply, answered, invalid_request, server_error,
  failure_status,
}
use agentrun_openai.Chat.Exchange.{Exchange, kept_resume_id, is_none}
use agentrun_openai.ToolChat.Select.{Wake, Loop, waiting, failed, called_out, completed, loop}

-- A request, with the hash of its tools, whether there are any, and its tool_choice.
pub record ToolExchange : Type 0 where
  pub base : Exchange
  pub tool_hash : Text
  pub has_tools : Bool
  pub policy : ToolPolicy

-- `bridge` is what `newMCPFacade` returns. A request deletes its session's record at most once at the
-- beginning and once at the end.
pub record ToolAgent : Type 0 where
  pub start : StartRequest → Result ℕ
  pub bridge : Result ℕ
  pub turn_serial : ℕ
  pub wakes : List (ℕ × Wake)
  pub delete_fault : Option Fault
  pub end_fault : Option Fault
  pub heartbeat : ℕ
  pub begins : ℕ
  pub ends : ℕ

abbrev pub ends_with_tool : List TranscriptMessage → Bool
ends_with_tool [] = false
ends_with_tool (m ∷ []) = role_eq m.role tool
ends_with_tool (m ∷ n ∷ ms) = ends_with_tool (n ∷ ms)

unfoldable pub has_tool : List TranscriptMessage → Bool
has_tool [] = false
has_tool (m ∷ ms) = role_eq m.role tool || has_tool ms

-- What is added to a prompt. A tool's name is made of characters that `%q` leaves alone.
abbrev pub policy_suffix : Mode → Text → Text
policy_suffix auto name = []
policy_suffix required name =
    codes "\n\nCall at least one of the provided MCP function tools before answering."
policy_suffix named name =
    codes "\n\nCall the provided MCP function tool \"" ++ (name ++ codes "\" before answering.")
policy_suffix off name = codes "\n\nDo not call the provided MCP function tools for this response."

-- `state.facade == nil || state.facade.ctx.Err() == nil`.
abbrev pub facade_works : Option Facade → Bool
facade_works none = true
facade_works (some f) = f.alive

abbrev pub facade_serial : Option Facade → Option ℕ
facade_serial none = none
facade_serial (some f) = some f.serial

abbrev pub bind : Option ℕ → Option Facade → Option Facade
bind turn none = none
bind turn (some f) = some (record f { bound = turn })

abbrev pub lost_result : Option GoError → GoError
lost_result none = plain (
    codes
      "tool result does not belong to an active session; preserve session affinity, history and tools")
lost_result (some e) = e

-- The exchange up to the loop: refused, attached to a turn, or a panic of `resolve`.
pub data Entry : Type 0 where
  crashed : World → Entry
  turned_away : World → Reply → Entry
  attached : World → LiveTurn → Entry

module _ (hash : List TranscriptMessage → Text) (a : ToolAgent) (x : ToolExchange) where
  abbrev pub same_place : SessionState → Bool
  same_place s = text_eq s.cwd x.base.cwd && text_eq s.tool_hash x.tool_hash

  abbrev pub is_same : SessionState → Bool
  is_same s = same_place s && matches_history_prefix hash s x.base.messages

  abbrev pub clear : World → World
  clear w = clear_session a.delete_fault x.base.key w

  abbrev pub known_news : SessionState → List TranscriptMessage
  known_news s = drop (persisted_history_count s) x.base.messages

  -- Tool results for the active turn.
  abbrev pub resolve_entry : World → LiveTurn → Outcome → Entry
  resolve_entry w live (refused e) =
      turned_away w (invalid_request 400 e (codes "invalid_tool_result"))
  resolve_entry w live (resolved t) =
      let next : LiveTurn = record live { turn = t } in
      attached (record w { state = record w.state { active = some next } }) next
  resolve_entry w live panics = crashed w

  abbrev pub result_entry : Bool → World → Option LiveTurn → Entry
  result_entry same w none =
      turned_away w
        (invalid_request 400 (lost_result w.state.turn_err) (codes "invalid_tool_result"))
  result_entry same w (some live) =
      if not same
      then turned_away w
          (invalid_request 400 (lost_result w.state.turn_err) (codes "invalid_tool_result"))
      else resolve_entry w live (resolve (known_news w.state) x.policy live.turn)

  unfoldable pub enter_result : World → Entry
  enter_result w =
      let v = if is_some w.state.active && not (same_place w.state) then clear w else w in
      result_entry (is_same w.state) v v.state.active

  -- A new prompt for the session: the news of a session that goes on, or everything.
  abbrev pub goes_on : SessionState → Bool
  goes_on s = is_same s && is_some s.process && facade_works s.facade

  abbrev pub request : Text → SessionState → StartRequest
  request prompt s = record {
    cwd = x.base.cwd;
    model = x.base.route.backend_model;
    prompt = prompt;
    resume_id = none;
    system_prompt = unless_empty (system_prompt x.base.messages);
    mcp_server = facade_serial s.facade;
  }

  -- The session that a turn is made active in.
  abbrev pub with_turn : LiveTurn → World → World
  with_turn live w = record w {
    state = record w.state {
      active = some live;
      tool_hash = x.tool_hash;
      cwd = x.base.cwd;
      facade = bind (some live.serial) w.state.facade;
    };
  }

  abbrev pub launched : World → LiveTurn → Result ℕ → Entry
  launched w live (err e) =
      turned_away (clear_session a.end_fault x.base.key w)
        (server_error 502 e (codes "agent_start_failed"))
  launched w live (ok p) = attached (record w { state = record w.state { process = some p } }) live

  abbrev pub new_turn : LiveTurn
  new_turn = record { serial = a.turn_serial; turn = new_active_turn none x.policy }

  abbrev pub begin_turn : Bool → Text → World → Entry
  begin_turn true prompt w =
      let v = with_turn new_turn w in launched v new_turn (a.start (request prompt v.state))
  begin_turn false prompt w = attached (with_turn new_turn w) new_turn

  abbrev pub with_facade : Text → World → Result ℕ → Entry
  with_facade prompt w (err e) =
      turned_away (record w { state = record w.state { facade = none } })
        (server_error 502 e (codes "bridge_start_failed"))
  with_facade prompt w (ok serial) =
      let f : Facade = record { serial = serial; alive = true; bound = none } in
      begin_turn true prompt (record w { state = record w.state { facade = some f } })

  abbrev pub with_prompt : World → Result Text → Entry
  with_prompt w (err e) = turned_away w (invalid_request 400 e (codes "invalid_messages"))
  with_prompt w (ok text) =
      let prompt = text ++ policy_suffix x.policy.mode x.policy.name in
      let v = record w { state = record w.state { turn_err = none } } in
      if is_none w.state.process && x.has_tools
      then with_facade prompt v a.bridge
      else begin_turn (is_none w.state.process) prompt v

  unfoldable pub enter_prompt : World → Entry
  enter_prompt w =
      let same = is_same w.state in
      let v = if goes_on w.state then w else clear w in
      let delta = if goes_on w.state then known_news w.state else x.base.messages in
      if same && is_some w.state.active
      then turned_away w (
          invalid_request 409 (plain (codes "the active turn is waiting for tool results"))
            (codes "turn_pending"))
      else if has_tool delta && same
      then turned_away v (
          invalid_request 400 (plain (codes "unexpected tool result"))
            (codes "invalid_tool_result"))
      else with_prompt v (turn_prompt delta)

  unfoldable pub enter : World → Entry
  enter w = if ends_with_tool x.base.messages then enter_result w else enter_prompt w
