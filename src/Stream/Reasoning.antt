-- ===== src/Stream/Reasoning.antt =====
-- Thinking of the agent on the stream, and the heartbeats among it (stream.go). A beat is a reasoning
-- delta too; its zero-width space is the only trace of it.
use agentrun_openai.Prelude.{
  ℕ, ◌≡◌, ◌≢◌, refl, Bool, true, false, List, [], ◌∷◌, ◌++◌, arith, append-nil, Option, none,
  if◌then◌else◌, ◌==◌, All,
}
use agentrun_openai.Prelude.Text.{Text}
use agentrun_openai.Stream.{
  content, reasoning_content, Collector, Message, MessageType, init, text_delta, text,
  thinking_delta, thinking, write_chunk, append_text, append_reasoning, handle_as, handle_init,
  heartbeat_marker, beat, start_stream, new_collector, Writer,
}
use agentrun_openai.Stream.Run.{Event, message, heartbeat, fresh, step, run, started}
use agentrun_openai.Stream.Deltas.{thought_of, collect, collect-write_chunk, write_chunk-keeps}

-- A text without its zero-width spaces, which render as nothing.
abbrev pub visible : Text → Text
visible [] = []
visible (c ∷ s) = if c == 0x200b then visible s else c ∷ visible s

visible-append : (s t : Text) → visible (s ++ t) ≡ visible s ++ visible t
visible-append [] t = refl
visible-append (c ∷ s) t = ground (arith, visible-append s t)

pub record Thinks (c : Collector) : Type 0 where
  pub streams : c.stream ≡ true
  pub is_open : c.closed ≡ false
  pub written : visible (collect thought_of c.w.frames) ≡ visible c.reasoning

append_text-Thinks : (now : ℕ) (s : Text) (c : Collector) → Thinks c → Thinks (append_text now s c)
unfolding append_text
append_text-Thinks now s c f =
    let grown = record c { text = c.text ++ s } in
    ground (
      arith,
      collect-write_chunk thought_of now (content s) none none grown,
      write_chunk-keeps now (content s) none none grown,
      append-nil (collect thought_of c.w.frames),
    )

append_reasoning-Thinks :
    (now : ℕ) (s : Text) (c : Collector) → Thinks c → Thinks (append_reasoning now s c)
unfolding append_reasoning
append_reasoning-Thinks now s c f =
    let grown = record c { reasoning = c.reasoning ++ s } in
    ground (
      arith,
      collect-write_chunk thought_of now (reasoning_content s) none none grown,
      write_chunk-keeps now (reasoning_content s) none none grown,
      visible-append (collect thought_of c.w.frames) s,
      visible-append c.reasoning s,
    )

beat-Thinks : (interval now : ℕ) (c : Collector) → Thinks c → Thinks (beat interval now c)
unfolding beat
beat-Thinks interval now c f = ground (
  arith,
  collect-write_chunk thought_of now (reasoning_content heartbeat_marker) none none c,
  write_chunk-keeps now (reasoning_content heartbeat_marker) none none c,
  visible-append (collect thought_of c.w.frames) heartbeat_marker,
  append-nil (visible (collect thought_of c.w.frames)),
)

handle_init-Thinks :
    (r : Option Text) (m : Message) (c : Collector) → Thinks c → Thinks (handle_init r m c).0
handle_init-Thinks r m c f = ground arith

handle_as-Thinks :
    (k : MessageType) (now : ℕ) (m : Message) (c : Collector)
    → Thinks c
    → Thinks (handle_as k now m c).0
unfolding handle_as
handle_as-Thinks init now m c f = handle_init-Thinks _ m c f
handle_as-Thinks text_delta now m c f =
    ground (arith, append_text-Thinks now m.content (record c { saw_delta = true }))
handle_as-Thinks text now m c f = ground (arith, append_text-Thinks now m.content c)
handle_as-Thinks thinking_delta now m c f =
    ground (arith, append_reasoning-Thinks now m.content (record c { saw_thinking = true }))
handle_as-Thinks thinking now m c f = ground (arith, append_reasoning-Thinks now m.content c)
handle_as-Thinks _ now m c f = ground arith

step-Thinks : (e : Event) (now : ℕ) (c : Collector) → e ≢ fresh → Thinks c → Thinks (step e now c)
unfolding step
step-Thinks (message m) now c h f = handle_as-Thinks m.kind now m c f
step-Thinks (heartbeat interval) now c h f = beat-Thinks interval now c f
step-Thinks fresh now c h f = absurd (h refl)

run-Thinks :
    (es : List (ℕ × Event)) (c : Collector)
    → All (λ e. e.1 ≢ fresh) es
    → Thinks c
    → Thinks (run es c)
unfolding run
run-Thinks [] c h f = f
run-Thinks ((now, e) ∷ es) c h f = run-Thinks es (step e now c) h.1 (step-Thinks e now c h.0 f)

started-Thinks :
    (w : Writer) (id : Text) (created : ℕ) (model : Text) (resumed : Bool) (ids : List Text)
    (now : ℕ)
    → w.flusher ≡ true
    → w.frames ≡ []
    → Thinks (started w id created model resumed ids now)
unfolding started start_stream new_collector write_chunk
started-Thinks w id created model resumed ids now h k = ground arith

-- A streaming answer over a response writer that can flush and that nothing was written to, in a
-- turn with no fresh start: however messages and heartbeats interleave, the reasoning deltas read
-- without zero-width spaces are the collected reasoning without them.
pub reasoning-run :
    (w : Writer) (id : Text) (created : ℕ) (model : Text) (resumed : Bool) (ids : List Text)
    (now : ℕ) (es : List (ℕ × Event))
    → w.flusher ≡ true
    → w.frames ≡ []
    → All (λ e. e.1 ≢ fresh) es
    → let c = run es (started w id created model resumed ids now) in
      visible (collect thought_of c.w.frames) ≡ visible c.reasoning
reasoning-run w id created model resumed ids now es h k live =
    (run-Thinks es _ live (started-Thinks w id created model resumed ids now h k)).written
