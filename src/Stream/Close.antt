-- ===== src/Stream/Close.antt =====
-- The end of a stream (stream.go): the end marker is written once, and nothing behind it, whatever
-- the turn and the heartbeat goroutine still do.
use agentrun_openai.Prelude.{
  ℕ, ◌+◌, suc, ◌≡◌, refl, Bool, true, false, List, [], ◌∷◌, ◌++◌, arith, append_assoc, sym, subst,
  ◌∙◌, Option, none, some,
}
use agentrun_openai.Prelude.Text.{Text}
use agentrun_openai.Types.{CompletionUsage, GoError}
use agentrun_openai.Stream.{
  Frame, chunk, failure, done, completion, flush, Delta, nothing, Collector, Message, MessageType,
  init, text_delta, text, thinking_delta, thinking, Writer, write_chunk, write_calls, finish_reason,
  flushed, close_with, append_text, append_reasoning, handle_as, handle_init, beat,
  reset_for_fresh_session, start_stream, new_collector, finish_stream, stream_error, turn_failed,
  chunk_of, content, reasoning_content, tool_calls, numbered, heartbeat_marker, rejects_model,
}
use agentrun_openai.Stream.Run.{
  Event, message, heartbeat, fresh, step, run, started, End, end, finish, fail,
}

-- How many end markers were written.
abbrev pub ends : List Frame → ℕ
ends [] = 0
ends (done ∷ fs) = suc (ends fs)
ends (chunk k ∷ fs) = ends fs
ends (failure e ∷ fs) = ends fs
ends (completion r ∷ fs) = ends fs
ends (flush ∷ fs) = ends fs

ends-append : (fs gs : List Frame) → ends (fs ++ gs) ≡ ends fs + ends gs
ends-append [] gs = omega arith
ends-append (done ∷ fs) gs = omega (arith, ends-append fs gs)
ends-append (chunk k ∷ fs) gs = ends-append fs gs
ends-append (failure e ∷ fs) gs = ends-append fs gs
ends-append (completion r ∷ fs) gs = ends-append fs gs
ends-append (flush ∷ fs) gs = ends-append fs gs

ends-flushed : (c : Collector) → ends (flushed c) ≡ 0
ends-flushed c = ground arith

-- An open stream with no end marker.
record Open (c : Collector) : Type 0 where
  is_open : c.closed ≡ false
  begun : c.stream_started ≡ true
  endless : ends c.w.frames ≡ 0

write_chunk-Open :
    (now : ℕ) (d : Delta) (r : Option Text) (u : Option CompletionUsage) (c : Collector)
    → Open c
    → Open (write_chunk now d r u c)
unfolding write_chunk
write_chunk-Open now d r u c o =
    ground (arith, ends-append c.w.frames (chunk (chunk_of d r u c) ∷ flushed c), ends-flushed c)

append_text-Open : (now : ℕ) (s : Text) (c : Collector) → Open c → Open (append_text now s c)
unfolding append_text
append_text-Open now s c o =
    ground (arith, write_chunk-Open now (content s) none none (record c { text = c.text ++ s }))

append_reasoning-Open :
    (now : ℕ) (s : Text) (c : Collector) → Open c → Open (append_reasoning now s c)
unfolding append_reasoning
append_reasoning-Open now s c o = ground (
  arith,
  write_chunk-Open now (reasoning_content s) none none (record c { reasoning = c.reasoning ++ s }),
)

handle_init-Open :
    (r : Option Text) (m : Message) (c : Collector) → Open c → Open (handle_init r m c).0
handle_init-Open r m c o = ground arith

handle_as-Open :
    (k : MessageType) (now : ℕ) (m : Message) (c : Collector)
    → Open c
    → Open (handle_as k now m c).0
unfolding handle_as
handle_as-Open init now m c o = handle_init-Open _ m c o
handle_as-Open text_delta now m c o =
    ground (arith, append_text-Open now m.content (record c { saw_delta = true }))
handle_as-Open text now m c o = ground (arith, append_text-Open now m.content c)
handle_as-Open thinking_delta now m c o =
    ground (arith, append_reasoning-Open now m.content (record c { saw_thinking = true }))
handle_as-Open thinking now m c o = ground (arith, append_reasoning-Open now m.content c)
handle_as-Open _ now m c o = ground arith

step-Open : (e : Event) (now : ℕ) (c : Collector) → Open c → Open (step e now c)
unfolding step beat reset_for_fresh_session
step-Open (message m) now c o = handle_as-Open m.kind now m c o
step-Open (heartbeat interval) now c o =
    ground (arith, write_chunk-Open now (reasoning_content heartbeat_marker) none none c)
step-Open fresh now c o = ground arith

run-Open : (es : List (ℕ × Event)) (c : Collector) → Open c → Open (run es c)
unfolding run
run-Open [] c o = o
run-Open ((now, e) ∷ es) c o = run-Open es (step e now c) (step-Open e now c o)

started-Open :
    (w : Writer) (id : Text) (created : ℕ) (model : Text) (resumed : Bool) (ids : List Text)
    (now : ℕ)
    → w.flusher ≡ true
    → w.frames ≡ []
    → Open (started w id created model resumed ids now)
unfolding started start_stream new_collector write_chunk
started-Open w id created model resumed ids now h k = ground arith

-- The stream is over: its one end marker is the last thing written, but for a flush.
pub record Over (c : Collector) : Type 0 where
  pub is_closed : c.closed ≡ true
  pub before : List Frame
  pub splits : c.w.frames ≡ before ++ (done ∷ flushed c)
  pub endless : ends before ≡ 0

close_with-Over : (fs : List Frame) (c : Collector) → Open c → ends fs ≡ 0 → Over (close_with fs c)
close_with-Over fs c o h = record {
  is_closed = refl;
  before = c.w.frames ++ fs;
  splits = sym (append_assoc c.w.frames fs (done ∷ flushed c));
  endless = omega (arith, ends-append c.w.frames fs, o.endless);
}

write_calls-Open : (now : ℕ) (c : Collector) → Open c → Open (write_calls now c)
unfolding write_calls
write_calls-Open now c o =
    ground (arith, write_chunk-Open now (tool_calls (numbered 0 c.calls)) none none c)

finish_stream_open :
    (now : ℕ) (c : Collector)
    → c.closed ≡ false
    → finish_stream now c
      ≡ close_with []
          (write_chunk now nothing (some (finish_reason c)) (some c.usage) (write_calls now c))
unfolding finish_stream
finish_stream_open now c h = ground arith

stream_error_open :
    (e : GoError) (c : Collector)
    → c.closed ≡ false
    → c.stream_started ≡ true
    → stream_error e c ≡ close_with (failure (turn_failed e) ∷ []) c
unfolding stream_error
stream_error_open e c h k = ground arith

end-Over : (x : End) (now : ℕ) (c : Collector) → Open c → Over (end x now c)
unfolding end
end-Over finish now c o =
    subst Over (sym (finish_stream_open now c o.is_open))
      (close_with-Over [] _ (write_chunk-Open now nothing _ _ _ (write_calls-Open now c o)) refl)
end-Over (fail e) now c o =
    subst Over (sym (stream_error_open e c o.is_open o.begun))
      (close_with-Over (failure (turn_failed e) ∷ []) c o refl)

-- Nothing but the flags and texts of a closed collector changes.
abbrev Still : Collector → Collector → Type 0
Still c d = (d.closed ≡ true) × (d.w.frames ≡ c.w.frames)

handle_as_frozen :
    (k : MessageType) (now : ℕ) (m : Message) (c : Collector)
    → c.closed ≡ true
    → Still c (handle_as k now m c).0
unfolding handle_as append_text append_reasoning write_chunk
handle_as_frozen init now m c h = frozen (rejects_model c.effective_ids m.init_model)
  where
    frozen : (r : Option Text) → Still c (handle_init r m c).0
    frozen none = (h, refl)
    frozen (some r) = (h, refl)
handle_as_frozen _ now m c h = ground arith

step_frozen : (e : Event) (now : ℕ) (c : Collector) → c.closed ≡ true → Still c (step e now c)
unfolding step write_chunk beat reset_for_fresh_session
step_frozen (message m) now c h = handle_as_frozen m.kind now m c h
step_frozen (heartbeat interval) now c h = ground arith
step_frozen fresh now c h = ground arith

run_frozen : (es : List (ℕ × Event)) (c : Collector) → c.closed ≡ true → Still c (run es c)
unfolding run
run_frozen [] c h = (h, refl)
run_frozen ((now, e) ∷ es) c h =
    let (still, same) = step_frozen e now c h in
    let (closed, more) = run_frozen es (step e now c) still in (closed, more ∙ same)

end_frozen : (x : End) (now : ℕ) (c : Collector) → c.closed ≡ true → Still c (end x now c)
unfolding end finish_stream stream_error
end_frozen finish now c h = ground arith
end_frozen (fail e) now c h = ground arith

-- A stream over a response writer that can flush and that nothing was written to, with any messages,
-- heartbeats and fresh start, ended well or by an error. Its one end marker is then the last thing
-- written but for a flush, and whatever messages, beats and second end still come, not one frame
-- more is written.
pub end_once :
    (w : Writer) (id : Text) (created : ℕ) (model : Text) (resumed : Bool) (ids : List Text)
    (now : ℕ) (es : List (ℕ × Event)) (x : End) (t : ℕ) (late : List (ℕ × Event)) (y : End) (u : ℕ)
    → w.flusher ≡ true
    → w.frames ≡ []
    → let c = end x t (run es (started w id created model resumed ids now)) in
      Over c × ((end y u (run late c)).w.frames ≡ c.w.frames)
end_once w id created model resumed ids now es x t late y u h k =
    let over =
      end-Over x t _ (run-Open es _ (started-Open w id created model resumed ids now h k)) in
    let (still, same) = run_frozen late _ over.is_closed in
    (over, (end_frozen y u _ still).1 ∙ same)
