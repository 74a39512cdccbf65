-- ===== src/Stream/Deltas.antt =====
-- The deltas of stream.go that a client reads, put together: the content and the reasoning.
use agentrun_openai.Prelude.{
  ℕ, ◌≡◌, refl, sym, List, [], ◌∷◌, ◌++◌, arith, append_assoc, append-nil, Option, false,
}
use agentrun_openai.Prelude.Text.{Text}
use agentrun_openai.Types.{CompletionUsage}
use agentrun_openai.Stream.{
  Frame, chunk, failure, done, completion, flush, Delta, role, content, reasoning_content,
  tool_calls, nothing, Collector, write_chunk, flushed, close_with,
}

abbrev pub content_of : Delta → Text
content_of (content s) = s
content_of (role s) = []
content_of (reasoning_content s) = []
content_of (tool_calls cs) = []
content_of nothing = []

abbrev pub thought_of : Delta → Text
thought_of (reasoning_content s) = s
thought_of (role s) = []
thought_of (content s) = []
thought_of (tool_calls cs) = []
thought_of nothing = []

module _ (part : Delta → Text) where
  abbrev pub collect : List Frame → Text
  collect [] = []
  collect (chunk k ∷ fs) = part k.delta ++ collect fs
  collect (failure e ∷ fs) = collect fs
  collect (done ∷ fs) = collect fs
  collect (completion r ∷ fs) = collect fs
  collect (flush ∷ fs) = collect fs

  pub collect-append : (fs gs : List Frame) → collect (fs ++ gs) ≡ collect fs ++ collect gs
  collect-append [] gs = refl
  collect-append (chunk k ∷ fs) gs =
      rw (collect-append fs gs) (sym (append_assoc (part k.delta) (collect fs) (collect gs)))
  collect-append (failure e ∷ fs) gs = collect-append fs gs
  collect-append (done ∷ fs) gs = collect-append fs gs
  collect-append (completion r ∷ fs) gs = collect-append fs gs
  collect-append (flush ∷ fs) gs = collect-append fs gs

  pub collect-flushed : (c : Collector) → collect (flushed c) ≡ []
  collect-flushed c = ground arith

  pub collect-write_chunk :
      (now : ℕ) (d : Delta) (r : Option Text) (u : Option CompletionUsage) (c : Collector)
      → c.closed ≡ false
      → collect (write_chunk now d r u c).w.frames ≡ collect c.w.frames ++ part d
  unfolding write_chunk
  collect-write_chunk now d r u c h =
      rw (h, write_chunk, collect-append c.w.frames, collect-flushed c, append-nil (part d))

  pub collect-close_with :
      (fs : List Frame) (c : Collector)
      → collect (close_with fs c).w.frames ≡ collect c.w.frames ++ collect fs
  collect-close_with fs c =
      rw (collect-append c.w.frames, collect-append fs, collect-flushed c, append-nil (collect fs))

-- Every field but the frames and the time of the last write.
pub write_chunk-keeps :
    (now : ℕ) (d : Delta) (r : Option Text) (u : Option CompletionUsage) (c : Collector)
    → ((write_chunk now d r u c).stream ≡ c.stream)
      × ((write_chunk now d r u c).closed ≡ c.closed)
      × ((write_chunk now d r u c).text ≡ c.text)
      × ((write_chunk now d r u c).reasoning ≡ c.reasoning)
      × ((write_chunk now d r u c).saw_delta ≡ c.saw_delta)
      × ((write_chunk now d r u c).saw_thinking ≡ c.saw_thinking)
      × ((write_chunk now d r u c).waiting_for_init ≡ c.waiting_for_init)
      × ((write_chunk now d r u c).stream_started ≡ c.stream_started)
      × ((write_chunk now d r u c).w.flusher ≡ c.w.flusher)
unfolding write_chunk
write_chunk-keeps now d r u c = ground arith
