-- ===== src/ToolChat/Policy.antt =====
-- tool_choice in `handleToolChat` (internal/gateway/tool_chat.go).
use agentrun_openai.Prelude.{
  ◌≡◌, refl, subst, ℕ, Bool, true, false, List, [], ◌∷◌, ◌++◌, arith, Option, none, some, inl, inr,
  Bool-cases,
}
use agentrun_openai.Prelude.Text.{Text}
use agentrun_openai.Types.{CompletionUsage, ToolCall, GoError, ToolPolicy, forbids}
use agentrun_openai.Stream.{
  Delta, content, reasoning_content, heartbeat_marker, Collector, Message, MessageType, init,
  text_delta, text, thinking_delta, thinking, result, error, other, handle, handle_as, handle_init,
  beat, write_chunk, append_text, append_reasoning, rejects_model,
}
use agentrun_openai.Turn.{ActiveTurn, TurnEvent, said, called, done}
use agentrun_openai.ToolChat.Select.{
  Wake, client_gone, turn_stopped, event_taken, ticked, moved, Loop, waiting, failed, called_out,
  completed, demands, after_handle, take_event, take_first, stopped_by, awake, loop,
}

write_chunk-calls :
    (now : ℕ) (d : Delta) (r : Option Text) (u : Option CompletionUsage) (c : Collector)
    → (write_chunk now d r u c).calls ≡ c.calls
unfolding write_chunk
write_chunk-calls now d r u c = ground arith

append_text-calls : (now : ℕ) (s : Text) (c : Collector) → (append_text now s c).calls ≡ c.calls
unfolding append_text
append_text-calls now s c =
    ground (arith, write_chunk-calls now (content s) none none (record c { text = c.text ++ s }))

append_reasoning-calls :
    (now : ℕ) (s : Text) (c : Collector) → (append_reasoning now s c).calls ≡ c.calls
unfolding append_reasoning
append_reasoning-calls now s c = ground (
  arith,
  write_chunk-calls now (reasoning_content s) none none (record c { reasoning = c.reasoning ++ s }),
)

handle_init-calls :
    (o : Option Text) (m : Message) (c : Collector) → (handle_init o m c).0.calls ≡ c.calls
handle_init-calls none m c = refl
handle_init-calls (some t) m c = refl

handle-calls :
    (k : MessageType) (now : ℕ) (m : Message) (c : Collector)
    → (handle_as k now m c).0.calls ≡ c.calls
unfolding handle_as
handle-calls init now m c = handle_init-calls (rejects_model c.effective_ids m.init_model) m c
handle-calls text_delta now m c =
    ground (arith, append_text-calls now m.content (record c { saw_delta = true }))
handle-calls text now m c = ground (arith, append_text-calls now m.content c)
handle-calls thinking_delta now m c =
    ground (arith, append_reasoning-calls now m.content (record c { saw_thinking = true }))
handle-calls thinking now m c = ground (arith, append_reasoning-calls now m.content c)
handle-calls result now m c = refl
handle-calls error now m c = refl
handle-calls other now m c = refl

beat-calls : (interval now : ℕ) (c : Collector) → (beat interval now c).calls ≡ c.calls
unfolding beat
beat-calls interval now c =
    ground (arith, write_chunk-calls now (reasoning_content heartbeat_marker) none none c)

module _ (policy : ToolPolicy) (stream : Bool) (interval : ℕ) where
  -- What the loop adds to the calls of its collector, by how it ends.
  abbrev pub Obeys : Loop → List ToolCall → Type 0
  Obeys (waiting t d) calls = d.calls ≡ calls
  Obeys (failed t d e) calls = Unit
  Obeys (called_out t d) calls =
      (call : ToolCall) × (d.calls ≡ calls ++ (call ∷ []))
      × (forbids policy call.function.name ≡ false)
  Obeys (completed t d) calls = (d.calls ≡ calls) × (demands policy.mode ≡ false)

  after_handle-Obeys :
      (t : ActiveTurn) (r : Collector × Option GoError)
      → Obeys (after_handle policy stream interval t r) r.0.calls
  after_handle-Obeys t (c, none) = refl
  after_handle-Obeys t (c, some e) = tt

  take_event-Obeys :
      (e : TurnEvent) (now : ℕ) (t : ActiveTurn) (c : Collector)
      → Obeys (take_event policy stream interval e now t c) c.calls
  take_event-Obeys (said m) now t c =
      subst (λ calls. Obeys (after_handle policy stream interval t (handle now m c)) calls)
        (handle-calls m.kind now m c) (after_handle-Obeys t (handle now m c))
  take_event-Obeys (called call) now t c = elim (Bool-cases (forbids policy call.function.name)) [
    | inl e ↦ rw e tt
    | inr e ↦ rw e (call, refl, e)
  ]
  take_event-Obeys (done (some e)) now t c = tt
  take_event-Obeys (done none) now t c = elim (Bool-cases (demands policy.mode)) [
    | inl e ↦ rw e tt
    | inr e ↦ rw e (refl, e)
  ]

  take_first-Obeys :
      (es : List TurnEvent) (now : ℕ) (t : ActiveTurn) (c : Collector)
      → Obeys (take_first policy stream interval es now t c) c.calls
  take_first-Obeys [] now t c = refl
  take_first-Obeys (e ∷ es) now t c = take_event-Obeys e now (record t { events = es }) c

  stopped_by-Obeys :
      (o : Option GoError) (t : ActiveTurn) (c : Collector)
      → Obeys (stopped_by policy stream interval o t c) c.calls
  stopped_by-Obeys none t c = refl
  stopped_by-Obeys (some e) t c = tt

  awake-Obeys :
      (w : Wake) (now : ℕ) (t : ActiveTurn) (c : Collector)
      → Obeys (awake policy stream interval w now t c) c.calls
  unfolding awake
  awake-Obeys (client_gone e) now t c = tt
  awake-Obeys turn_stopped now t c = stopped_by-Obeys t.cause t c
  awake-Obeys event_taken now t c = take_first-Obeys t.events now t c
  awake-Obeys ticked now t c = ground (arith, beat-calls interval now c)
  awake-Obeys (moved u) now t c = refl

  pub loop-Obeys :
      (ws : List (ℕ × Wake)) (t : ActiveTurn) (c : Collector)
      → Obeys (loop policy stream interval ws t c) c.calls
  unfolding loop
  loop-Obeys [] t c = refl
  loop-Obeys ((now, w) ∷ ws) t c =
      go (awake policy stream interval w now t c) (awake-Obeys w now t c) (λ u d. loop-Obeys ws u d)
    where
      go :
          (l : Loop)
          → Obeys l c.calls
          → ((u : ActiveTurn) (d : Collector) → Obeys (loop policy stream interval ws u d) d.calls)
          → Obeys
              (elim l [
                | waiting u d ↦ loop policy stream interval ws u d
                | failed u d e ↦ failed u d e
                | called_out u d ↦ called_out u d
                | completed u d ↦ completed u d
              ])
              c.calls
      go (waiting u d) o rest =
          subst (λ calls. Obeys (loop policy stream interval ws u d) calls) o (rest u d)
      go (failed u d e) o rest = tt
      go (called_out u d) o rest = o
      go (completed u d) o rest = o
