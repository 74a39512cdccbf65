-- ===== src/ToolChat/Select.antt =====
-- The event loop of `handleToolChat` (internal/gateway/tool_chat.go), over the wakes of its `select`.
use agentrun_openai.Prelude.{
  ℕ, Bool, true, false, not, ◌&&◌, List, [], ◌∷◌, ◌++◌, Option, none, some, if◌then◌else◌, ◌==◌,
}
use agentrun_openai.Prelude.Text.{codes}
use agentrun_openai.Types.{
  GoError, formatted, plain, ToolPolicy, Mode, auto, off, required, named, forbids,
}
use agentrun_openai.Stream.{Collector, handle, beat}
use agentrun_openai.Turn.{ActiveTurn, TurnEvent, said, called, done, deliver}

-- A case of the `select` that is taken, a tick of the heartbeat, or a change of the turn by its own
-- goroutines. A case that is not ready leaves everything as it is.
pub data Wake : Type 0 where
  client_gone : GoError → Wake
  turn_stopped : Wake
  event_taken : Wake
  ticked : Wake
  moved : ActiveTurn → Wake

-- How the loop stands: still waiting, ended by an error, by a call for the client, or by the end of the
-- turn.
pub data Loop : Type 0 where
  waiting : ActiveTurn → Collector → Loop
  failed : ActiveTurn → Collector → GoError → Loop
  called_out : ActiveTurn → Collector → Loop
  completed : ActiveTurn → Collector → Loop

abbrev pub demands : Mode → Bool
demands required = true
demands named = true
demands auto = false
demands off = false

module _ (policy : ToolPolicy) (stream : Bool) (interval : ℕ) where
  abbrev pub after_handle : ActiveTurn → Collector × Option GoError → Loop
  after_handle t (c, none) = waiting t c
  after_handle t (c, some e) = failed t c e

  abbrev pub take_event : TurnEvent → ℕ → ActiveTurn → Collector → Loop
  take_event (said m) now t c = after_handle t (handle now m c)
  take_event (called call) now t c =
      if forbids policy call.function.name
      then failed t c (
          formatted (codes "pending call to %q conflicts with tool_choice")
            (call.function.name ∷ []))
      else called_out (deliver call.id t) (record c { calls = c.calls ++ (call ∷ []) })
  take_event (done (some e)) now t c = failed t c e
  take_event (done none) now t c =
      if demands policy.mode
      then failed t c
          (plain (codes "ACP turn completed without the tool call required by tool_choice"))
      else completed t c

  abbrev pub take_first : List TurnEvent → ℕ → ActiveTurn → Collector → Loop
  take_first [] now t c = waiting t c
  take_first (e ∷ es) now t c = take_event e now (record t { events = es }) c

  abbrev pub stopped_by : Option GoError → ActiveTurn → Collector → Loop
  stopped_by none t c = waiting t c
  stopped_by (some e) t c = failed t c e

  unfoldable pub awake : Wake → ℕ → ActiveTurn → Collector → Loop
  awake (client_gone e) now t c = failed t c e
  awake turn_stopped now t c = stopped_by t.cause t c
  awake event_taken now t c = take_first t.events now t c
  awake ticked now t c =
      waiting t (if stream && not (interval == 0) then beat interval now c else c)
  awake (moved u) now t c = waiting u c

  unfoldable pub loop : List (ℕ × Wake) → ActiveTurn → Collector → Loop
  loop [] t c = waiting t c
  loop ((now, w) ∷ ws) t c = elim (awake w now t c) [
    | waiting u d ↦ loop ws u d
    | failed u d e ↦ failed u d e
    | called_out u d ↦ called_out u d
    | completed u d ↦ completed u d
  ]
