-- ===== src/Stream/Content.antt =====
-- A client that puts the content deltas of a stream together has the answer (stream.go).
use agentrun_openai.Prelude.{
  ℕ, ◌≡◌, refl, Bool, true, false, List, [], ◌∷◌, ◌++◌, arith, append-nil, Option, none, some,
}
use agentrun_openai.Prelude.Text.{Text}
use agentrun_openai.Stream.{
  content, reasoning_content, Collector, Message, MessageType, init, text_delta, text,
  thinking_delta, thinking, write_chunk, append_text, append_reasoning, handle_as, handle_init,
  heartbeat_marker, beat, reset_for_fresh_session, start_stream, new_collector, Writer, write_calls,
  close_with, failure, Frame, finish_stream, stream_error, turn_failed, nothing, tool_calls,
  numbered, finish_reason,
}
use agentrun_openai.Stream.Run.{
  Event, message, heartbeat, fresh, step, run, started, End, end, finish, fail,
}
use agentrun_openai.Stream.Deltas.{
  content_of, collect, collect-close_with, collect-write_chunk, write_chunk-keeps,
}

-- The content that was written is the text so far, and the stream is open.
pub record Faithful (c : Collector) : Type 0 where
  pub streams : c.stream ≡ true
  pub is_open : c.closed ≡ false
  pub written : collect content_of c.w.frames ≡ c.text

append_text-Faithful :
    (now : ℕ) (s : Text) (c : Collector) → Faithful c → Faithful (append_text now s c)
unfolding append_text
append_text-Faithful now [] c f = ground (arith, append-nil c.text)
append_text-Faithful now (x ∷ s) c f =
    let grown = record c { text = c.text ++ (x ∷ s) } in
    ground (
      arith,
      collect-write_chunk content_of now (content (x ∷ s)) none none grown,
      write_chunk-keeps now (content (x ∷ s)) none none grown,
    )

append_reasoning-Faithful :
    (now : ℕ) (s : Text) (c : Collector) → Faithful c → Faithful (append_reasoning now s c)
unfolding append_reasoning
append_reasoning-Faithful now s c f =
    let grown = record c { reasoning = c.reasoning ++ s } in
    ground (
      arith,
      collect-write_chunk content_of now (reasoning_content s) none none grown,
      write_chunk-keeps now (reasoning_content s) none none grown,
      append-nil (collect content_of c.w.frames),
    )

beat-Faithful : (interval now : ℕ) (c : Collector) → Faithful c → Faithful (beat interval now c)
unfolding beat
beat-Faithful interval now c f = ground (
  arith,
  collect-write_chunk content_of now (reasoning_content heartbeat_marker) none none c,
  write_chunk-keeps now (reasoning_content heartbeat_marker) none none c,
  append-nil (collect content_of c.w.frames),
)

handle_init-Faithful :
    (r : Option Text) (m : Message) (c : Collector) → Faithful c → Faithful (handle_init r m c).0
handle_init-Faithful r m c f = ground arith

handle_as-Faithful :
    (k : MessageType) (now : ℕ) (m : Message) (c : Collector)
    → Faithful c
    → Faithful (handle_as k now m c).0
unfolding handle_as
handle_as-Faithful init now m c f = handle_init-Faithful _ m c f
handle_as-Faithful text_delta now m c f =
    ground (arith, append_text-Faithful now m.content (record c { saw_delta = true }))
handle_as-Faithful text now m c f = ground (arith, append_text-Faithful now m.content c)
handle_as-Faithful thinking_delta now m c f =
    ground (arith, append_reasoning-Faithful now m.content (record c { saw_thinking = true }))
handle_as-Faithful thinking now m c f = ground (arith, append_reasoning-Faithful now m.content c)
handle_as-Faithful _ now m c f = ground arith

step-Faithful : (e : Event) (now : ℕ) (c : Collector) → Faithful c → Faithful (step e now c)
unfolding step reset_for_fresh_session
step-Faithful (message m) now c f = handle_as-Faithful m.kind now m c f
step-Faithful (heartbeat interval) now c f = beat-Faithful interval now c f
step-Faithful fresh now c f = ground arith

run-Faithful : (es : List (ℕ × Event)) (c : Collector) → Faithful c → Faithful (run es c)
unfolding run
run-Faithful [] c f = f
run-Faithful ((now, e) ∷ es) c f = run-Faithful es (step e now c) (step-Faithful e now c f)

started-Faithful :
    (w : Writer) (id : Text) (created : ℕ) (model : Text) (resumed : Bool) (ids : List Text)
    (now : ℕ)
    → w.flusher ≡ true
    → w.frames ≡ []
    → Faithful (started w id created model resumed ids now)
unfolding started start_stream new_collector write_chunk
started-Faithful w id created model resumed ids now h k = ground arith

write_calls-Faithful : (now : ℕ) (c : Collector) → Faithful c → Faithful (write_calls now c)
unfolding write_calls
write_calls-Faithful now c f = ground (
  arith,
  collect-write_chunk content_of now (tool_calls (numbered 0 c.calls)) none none c,
  write_chunk-keeps now (tool_calls (numbered 0 c.calls)) none none c,
  append-nil (collect content_of c.w.frames),
)

write_calls-text : (now : ℕ) (c : Collector) → (write_calls now c).text ≡ c.text
unfolding write_calls write_chunk
write_calls-text now c = ground arith

close_with-content :
    (fs : List Frame) (c : Collector)
    → collect content_of fs ≡ []
    → collect content_of (close_with fs c).w.frames ≡ collect content_of c.w.frames
close_with-content fs c h =
    rw (collect-close_with content_of fs c, h) (append-nil (collect content_of c.w.frames))

end-content :
    (x : End) (now : ℕ) (c : Collector)
    → Faithful c
    → collect content_of (end x now c).w.frames ≡ c.text
unfolding end finish_stream stream_error
end-content finish now c f =
    let last =
      write_chunk now nothing (some (finish_reason c)) (some c.usage) (write_calls now c) in
    ground (
      arith,
      close_with-content [] last refl,
      write_calls-Faithful now c f,
      write_calls-text now c,
      collect-write_chunk content_of now nothing (some (finish_reason c)) (some c.usage)
          (write_calls now c),
      append-nil (collect content_of (write_calls now c).w.frames),
    )
end-content (fail e) now c f =
    ground (arith, close_with-content (failure (turn_failed e) ∷ []) c refl)

-- A streaming answer over a response writer that can flush and that nothing was written to, however
-- messages, heartbeats and a fresh start interleave, and whether it ends well or by an error: the
-- content deltas of the whole stream, put together, are the text that the collector holds.
pub contents-end :
    (w : Writer) (id : Text) (created : ℕ) (model : Text) (resumed : Bool) (ids : List Text)
    (now : ℕ) (es : List (ℕ × Event)) (x : End) (last : ℕ)
    → w.flusher ≡ true
    → w.frames ≡ []
    → let c = run es (started w id created model resumed ids now) in
      collect content_of (end x last c).w.frames ≡ c.text
contents-end w id created model resumed ids now es x last h k =
    end-content x last _
      (run-Faithful es _ (started-Faithful w id created model resumed ids now h k))
