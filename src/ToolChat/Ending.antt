-- ===== src/ToolChat/Ending.antt =====
-- The exchange of `handleToolChat` (internal/gateway/tool_chat.go) behind its entry: the collector, the
-- loop, both ends, and the goroutine that watches a turn.
use agentrun_openai.Prelude.{
  ℕ, Bool, false, List, [], ◌∷◌, ◌++◌, Option, none, some, if◌then◌else◌, ◌==◌,
}
use agentrun_openai.Prelude.Text.{Text, codes, is_empty}
use agentrun_openai.Types.{TranscriptMessage, assistant, GoError, canceled}
use agentrun_openai.Session.{SessionState, LiveTurn, cancels_turn, remember}
use agentrun_openai.Session.Store.{delete}
use agentrun_openai.Stream.{
  Collector, new_collector, start_stream, stream_error, finish_stream, write_completion,
}
use agentrun_openai.Turn.{ActiveTurn}
use agentrun_openai.Chat.{World, clear_session, Reply, answered, server_error, failure_status}
use agentrun_openai.ToolChat.Select.{Loop, waiting, failed, called_out, completed, loop}
use agentrun_openai.ToolChat.{
  ToolExchange, ToolAgent, bind, Entry, crashed, turned_away, attached, clear, enter,
}

module _ (hash : List TranscriptMessage → Text) (a : ToolAgent) (x : ToolExchange) where
  -- The collector of the exchange, which goes on where the turn's last one stopped.
  abbrev pub collector : ActiveTurn → Collector
  collector t =
      record (new_collector x.base.w x.base.stream x.base.id x.base.created x.base.model false
        x.base.route.effective_ids) { saw_delta = t.saw_delta; saw_thinking = t.saw_thinking }

  abbrev pub opened : ActiveTurn → Collector
  opened t = if x.base.stream then (start_stream a.begins (collector t)).0 else collector t

  abbrev pub set_turn : Option LiveTurn → World → World
  set_turn o w = record w { state = record w.state { active = o } }

  -- The ends of the exchange.
  abbrev pub fail : Collector → GoError → World → World × Reply
  fail c e w =
      let v = clear_session a.end_fault x.base.key w in
      (
        record v { state = record v.state { turn_err = some e } },
        if x.base.stream
            then answered (stream_error e c)
            else server_error (failure_status e) e (codes "agent_turn_failed"),
      )

  abbrev pub answer_of : Collector → TranscriptMessage
  answer_of c = record {
    tool_calls = c.calls;
    tool_call_id = [];
    role = assistant;
    content = c.text;
  }

  abbrev pub settled : Collector → SessionState → SessionState
  settled c s = record (remember hash x.base.messages (answer_of c) s) {
    resume_id = if is_empty c.resume_id then s.resume_id else c.resume_id;
    last_access = a.ends;
  }

  abbrev pub succeed : Collector → World → World × Reply
  succeed c w = (
    record w { state = settled c w.state; store = (delete a.end_fault x.base.key w.store).0 },
    answered (if x.base.stream then finish_stream a.ends c else write_completion c),
  )

  abbrev pub unless_stopped :
      Option GoError → LiveTurn → ActiveTurn → Collector → World → World × Reply
  unless_stopped (some e) live t c w = fail c e (set_turn (some (record live { turn = t })) w)
  unless_stopped none live t c w = succeed c (
      set_turn
        (some (record live {
          turn = record t { saw_delta = c.saw_delta; saw_thinking = c.saw_thinking };
        }))
        w)

  -- A turn that completed is taken off the session and its facade, and its context cancelled.
  abbrev pub without_turn : LiveTurn → World → World
  without_turn live w = record w {
    state = record w.state { active = none; facade = bind none w.state.facade };
    effects = w.effects ++ (cancels_turn live.serial canceled ∷ []);
  }

  -- The goroutine that waits for the end of a turn's context, whose cause is `e`.
  abbrev pub is_turn : ℕ → Option LiveTurn → Bool
  is_turn serial none = false
  is_turn serial (some live) = live.serial == serial

  unfoldable pub watch : ℕ → GoError → World → World
  watch serial e w =
      let v = clear hash a x w in
      if is_turn serial w.state.active
      then record v { state = record v.state { turn_err = some e } }
      else w

  -- `none` is an exchange that still waits.
  abbrev pub conclude : World → LiveTurn → Loop → Option (World × Reply)
  conclude w live (waiting t c) = none
  conclude w live (failed t c e) = some (fail c e (set_turn (some (record live { turn = t })) w))
  conclude w live (called_out t c) = some (unless_stopped t.cause live t c w)
  conclude w live (completed t c) = some (succeed c (without_turn live w))

  abbrev pub exchange : Entry → Option (World × Reply)
  exchange (crashed w) = none
  exchange (turned_away w reply) = some (w, reply)
  exchange (attached w live) =
      conclude w live (loop x.policy x.base.stream a.heartbeat a.wakes live.turn (opened live.turn))

  unfoldable pub handle_tool_chat : World → Option (World × Reply)
  handle_tool_chat w = exchange (enter hash a x w)
