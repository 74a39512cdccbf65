-- ===== src/Stream/Run.antt =====
-- What may happen to a collector of stream.go between its start and its end: messages of the turn,
-- beats of the heartbeat goroutine, and the reset that `handleChat` makes while no text has come
-- (internal/gateway/server.go). The ends are `finishStream` and `streamError`.
use agentrun_openai.Prelude.{ℕ, Bool, true, List, [], ◌∷◌, if◌then◌else◌}
use agentrun_openai.Prelude.Text.{Text, is_empty}
use agentrun_openai.Types.{GoError}
use agentrun_openai.Stream.{
  Collector, Message, Writer, handle, beat, reset_for_fresh_session, finish_stream, stream_error,
  start_stream, new_collector,
}

pub data Event : Type 0 where
  message : Message → Event
  heartbeat : ℕ → Event
  fresh : Event

pub data End : Type 0 where
  finish : End
  fail : GoError → End

-- An event at a time. An error of `handle` ends the turn; the handler then calls `streamError`.
unfoldable pub step : Event → ℕ → Collector → Collector
step (message m) now c = (handle now m c).0
step (heartbeat interval) now c = beat interval now c
step fresh now c = if is_empty c.text then reset_for_fresh_session c else c

unfoldable pub run : List (ℕ × Event) → Collector → Collector
run [] c = c
run ((now, e) ∷ es) c = run es (step e now c)

unfoldable pub end : End → ℕ → Collector → Collector
end finish now c = finish_stream now c
end (fail e) now c = stream_error e c

-- The collector of a streaming request, behind `startStream`.
unfoldable pub started : Writer → Text → ℕ → Text → Bool → List Text → ℕ → Collector
started w id created model resumed effective_ids now =
    (start_stream now (new_collector w true id created model resumed effective_ids)).0
