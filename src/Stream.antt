-- ===== src/Stream.antt =====
-- The collector of internal/gateway/stream.go: what a turn's messages add to the answer, and what is
-- written to the response, at which time. JSON payloads are values; write errors are ignored, as in
-- the source. A call holds the mutex from its first to its last write, so calls do not interleave.
pub mod Run
pub mod Deltas
pub mod Content
pub mod Reasoning
pub mod Close
pub mod Blocks
pub mod Silence
mod Tests
use agentrun_openai.Prelude.{
  ℕ, ◌+◌, ◌-◌, ◌/◌, ◌%◌, ◌^◌, zero, suc, Bool, true, false, not, ◌&&◌, ◌||◌, List, [], ◌∷◌, ◌++◌,
  Option, none, some, if◌then◌else◌, ltb,
}
use agentrun_openai.Prelude.Text.{Text, codes, is_empty, member, text_eq}
use agentrun_openai.Types.{ToolCall, CompletionUsage, ApiError, GoError, formatted, plain}

-- The `delta` of a chunk.
pub data Delta : Type 0 where
  role : Text → Delta
  content : Text → Delta
  reasoning_content : Text → Delta
  tool_calls : List (ℕ × ToolCall) → Delta
  nothing : Delta

-- A payload with object "chat.completion.chunk" and one choice.
pub record Chunk : Type 0 where
  pub id : Text
  pub created : ℕ
  pub model : Text
  pub delta : Delta
  pub finish_reason : Option Text
  pub usage : Option CompletionUsage

-- A payload with object "chat.completion" and one choice; `none` is a key left out.
pub record Completion : Type 0 where
  pub id : Text
  pub created : ℕ
  pub model : Text
  pub content : Text
  pub tool_calls : Option (List ToolCall)
  pub reasoning_content : Option Text
  pub finish_reason : Text
  pub usage : CompletionUsage

-- What is written to the body, and flushes.
pub data Frame : Type 0 where
  chunk : Chunk → Frame
  failure : ApiError → Frame
  done : Frame
  completion : Completion → Frame
  flush : Frame

-- The `http.ResponseWriter`: whether it is a `Flusher`, its headers and what was written.
pub record Writer : Type 0 where
  pub flusher : Bool
  pub headers : List (Text × Text)
  pub frames : List Frame

-- `agentrun.Message`, as far as the collector reads it.
pub data MessageType : Type 0 where
  init text_delta text thinking_delta thinking result error other : MessageType

pub record Message : Type 0 where
  pub kind : MessageType
  pub content : Text
  pub init_model : Option Text
  pub resume_id : Text
  pub usage : Option (ℕ × ℕ)

pub record Collector : Type 0 where
  pub w : Writer
  pub stream : Bool
  pub id : Text
  pub created : ℕ
  pub model : Text
  pub calls : List ToolCall
  pub text : Text
  pub reasoning : Text
  pub usage : CompletionUsage
  pub saw_delta : Bool
  pub saw_thinking : Bool
  pub stream_started : Bool
  pub resume_id : Text
  pub waiting_for_init : Bool
  pub effective_ids : List Text
  pub closed : Bool
  pub last_write : ℕ

abbrev pub no_usage : CompletionUsage
no_usage = record { prompt_tokens = 0; completion_tokens = 0; total_tokens = 0 }

-- `lastWrite` starts at the zero time.
unfoldable pub new_collector : Writer → Bool → Text → ℕ → Text → Bool → List Text → Collector
new_collector w stream id created model resumed effective_ids = record {
  w = w;
  stream = stream;
  id = id;
  created = created;
  model = model;
  calls = [];
  text = [];
  reasoning = [];
  usage = no_usage;
  saw_delta = false;
  saw_thinking = false;
  stream_started = false;
  resume_id = [];
  waiting_for_init = resumed;
  effective_ids = effective_ids;
  closed = false;
  last_write = 0;
}

-- U+200B, what a keep-alive delta carries.
abbrev pub heartbeat_marker : Text
heartbeat_marker = 0x200b ∷ []

abbrev pub emit : List Frame → Collector → Collector
emit fs c = record c { w = record c.w { frames = c.w.frames ++ fs } }

-- `flushLocked`, as the frames that it adds.
abbrev pub flushed : Collector → List Frame
flushed c = if c.w.flusher then flush ∷ [] else []

abbrev pub chunk_of : Delta → Option Text → Option CompletionUsage → Collector → Chunk
chunk_of delta finish_reason usage c = record {
  id = c.id;
  created = c.created;
  model = c.model;
  delta = delta;
  finish_reason = finish_reason;
  usage = usage;
}

-- `writeChunk` and `writeChunkLocked`, at the time `now` of the write.
unfoldable pub write_chunk :
    ℕ → Delta → Option Text → Option CompletionUsage → Collector → Collector
write_chunk now delta finish_reason usage c =
    if c.closed
    then c
    else record (emit (chunk (chunk_of delta finish_reason usage c) ∷ flushed c) c) {
      last_write = now;
    }

unfoldable pub set_header : Text → Text → List (Text × Text) → List (Text × Text)
set_header k v [] = (k, v) ∷ []
set_header k v ((j, u) ∷ hs) = if text_eq j k then (k, v) ∷ hs else (j, u) ∷ set_header k v hs

abbrev pub with_header : Text → Text → Collector → Collector
with_header k v c = record c { w = record c.w { headers = set_header k v c.w.headers } }

unfoldable pub start_stream : ℕ → Collector → Collector × Option GoError
start_stream now c =
    if not c.w.flusher
    then (c, some (plain (codes "response writer does not support flushing")))
    else (
      write_chunk now (role (codes "assistant")) none none
          (record (with_header (codes "Connection") (codes "keep-alive") (
            with_header (codes "Cache-Control") (codes "no-cache")
              (with_header (codes "Content-Type") (codes "text/event-stream") c))) {
                stream_started = true;
              }),
      none,
    )

unfoldable pub append_text : ℕ → Text → Collector → Collector
append_text now s c =
    let grown = record c { text = c.text ++ s } in
    if c.stream && not (is_empty s) then write_chunk now (content s) none none grown else grown

unfoldable pub append_reasoning : ℕ → Text → Collector → Collector
append_reasoning now s c =
    let grown = record c { reasoning = c.reasoning ++ s } in
    if is_empty s
    then c
    else if c.stream
    then write_chunk now (reasoning_content s) none none grown
    else grown

-- The guard of a `MessageInit`: the backend runs another model than the one asked for.
unfoldable pub rejects_model : List Text → Option Text → Option Text
rejects_model effective_ids none = none
rejects_model effective_ids (some model) =
    if not (is_empty model) && not (is_empty effective_ids) && not (member model effective_ids)
    then some model
    else none

-- `int` addition of 64 bits.
abbrev pub add_int : ℕ → ℕ → ℕ
add_int a b = (a + b) % 2 ^ 64

abbrev pub usage_of : Option (ℕ × ℕ) → CompletionUsage → CompletionUsage
usage_of none u = u
usage_of (some (input, output)) u = record {
  prompt_tokens = input;
  completion_tokens = output;
  total_tokens = add_int input output;
}

abbrev pub handle_init : Option Text → Message → Collector → Collector × Option GoError
handle_init (some model) m c = (
  c,
  some
      (formatted (codes "backend selected model %q; expected one of %q") (model ∷ c.effective_ids)),
)
handle_init none m c = (
  record c {
    resume_id = if is_empty m.resume_id then c.resume_id else m.resume_id;
    waiting_for_init = false;
  },
  none,
)

-- The switch of `handle` behind `waitingForInit`.
unfoldable pub handle_as : MessageType → ℕ → Message → Collector → Collector × Option GoError
handle_as init now m c = handle_init (rejects_model c.effective_ids m.init_model) m c
handle_as text_delta now m c =
    if c.waiting_for_init
    then (c, none)
    else (append_text now m.content (record c { saw_delta = true }), none)
handle_as text now m c = if c.waiting_for_init then (c, none) else (
  record (if not c.saw_delta then append_text now m.content c else c) { saw_delta = false },
  none,
)
handle_as thinking_delta now m c =
    if c.waiting_for_init
    then (c, none)
    else (append_reasoning now m.content (record c { saw_thinking = true }), none)
handle_as thinking now m c = if c.waiting_for_init then (c, none) else (
  record (if not c.saw_thinking then append_reasoning now m.content c else c) {
    saw_thinking = false;
  },
  none,
)
handle_as result now m c = (record c { usage = usage_of m.usage c.usage }, none)
handle_as error now m c = (c, some (formatted (codes "agent: %s") (m.content ∷ [])))
handle_as other now m c = (c, none)

abbrev pub handle : ℕ → Message → Collector → Collector × Option GoError
handle now m c = handle_as m.kind now m c

-- `time.Since(lastWrite) < interval`; times are on the monotonic clock, so `now` is not earlier.
unfoldable pub beat : ℕ → ℕ → Collector → Collector
beat interval now c =
    if c.closed || ltb (now - c.last_write) interval
    then c
    else write_chunk now (reasoning_content heartbeat_marker) none none c

unfoldable pub reset_for_fresh_session : Collector → Collector
reset_for_fresh_session c = record c {
  text = [];
  reasoning = [];
  usage = no_usage;
  saw_delta = false;
  saw_thinking = false;
  resume_id = [];
  waiting_for_init = false;
}

abbrev pub finish_reason : Collector → Text
finish_reason c = if not (is_empty c.calls) then codes "tool_calls" else codes "stop"

unfoldable pub write_completion : Collector → Collector
write_completion c =
    emit (completion response ∷ [])
      (with_header (codes "Content-Type") (codes "application/json") c)
  where
    response : Completion
    response = record {
      id = c.id;
      created = c.created;
      model = c.model;
      content = c.text;
      tool_calls = if not (is_empty c.calls) then some c.calls else none;
      reasoning_content = if not (is_empty c.reasoning) then some c.reasoning else none;
      finish_reason = finish_reason c;
      usage = c.usage;
    }

abbrev pub numbered : ℕ → List ToolCall → List (ℕ × ToolCall)
numbered i [] = []
numbered i (call ∷ calls) = (i, call) ∷ numbered (i + 1) calls

-- Behind the guard of `finishStream` and `streamError`: the end marker, a flush, and `closed`.
abbrev pub close_with : List Frame → Collector → Collector
close_with fs c = record (emit (fs ++ (done ∷ flushed c)) c) { closed = true }

unfoldable pub write_calls : ℕ → Collector → Collector
write_calls now c =
    if not (is_empty c.calls)
    then write_chunk now (tool_calls (numbered 0 c.calls)) none none c
    else c

unfoldable pub finish_stream : ℕ → Collector → Collector
finish_stream now c =
    if c.closed
    then c
    else close_with []
        (write_chunk now nothing (some (finish_reason c)) (some c.usage) (write_calls now c))

abbrev pub turn_failed : GoError → ApiError
turn_failed e = record {
  message = e;
  kind = codes "server_error";
  code = codes "agent_turn_failed";
}

unfoldable pub stream_error : GoError → Collector → Collector
stream_error e c =
    if not c.stream_started || c.closed then c else close_with (failure (turn_failed e) ∷ []) c

-- How often the heartbeat goroutine ticks, in nanoseconds: twice an interval, but not more often than
-- each millisecond.
abbrev pub millisecond : ℕ
millisecond = 1000000

unfoldable pub tick_of : ℕ → ℕ
tick_of interval = if ltb (interval / 2) millisecond then millisecond else interval / 2
