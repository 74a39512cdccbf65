-- ===== src/Stream/Blocks.antt =====
-- Deduplication (stream.go): a backend that streams a block and then repeats it whole, and the gate
-- that a resumed session's replay has to wait behind.
use agentrun_openai.Prelude.{
  ℕ, ◌≡◌, refl, ap, sym, ◌∙◌, true, false, List, [], ◌∷◌, ◌++◌, arith, append_assoc, append-nil,
  if◌then◌else◌, All, ◌≢◌,
}
use agentrun_openai.Prelude.Text.{Text, is_empty}
use agentrun_openai.Stream.{
  Collector, Message, MessageType, init, text_delta, text, result, write_chunk, append_text, handle,
  handle_as,
}

-- Messages handled at one time each; the turn goes on while `handle` returns no error.
abbrev pub deliver : List (ℕ × Message) → Collector → Collector
deliver [] c = c
deliver ((now, m) ∷ ms) c = deliver ms (handle now m c).0

abbrev pub said : List (ℕ × Message) → Text
said [] = []
said ((now, m) ∷ ms) = m.content ++ said ms

append_text-text : (now : ℕ) (s : Text) (c : Collector) → (append_text now s c).text ≡ c.text ++ s
unfolding append_text write_chunk
append_text-text now s c = ground arith

append_text-keeps :
    (now : ℕ) (s : Text) (c : Collector)
    → ((append_text now s c).saw_delta ≡ c.saw_delta)
      × ((append_text now s c).waiting_for_init ≡ c.waiting_for_init)
unfolding append_text write_chunk
append_text-keeps now s c = ground arith

delta_lem :
    (now : ℕ) (m : Message) (c : Collector)
    → m.kind ≡ text_delta
    → c.waiting_for_init ≡ false
    → ((handle now m c).0.text ≡ c.text ++ m.content)
      × ((handle now m c).0.waiting_for_init ≡ false)
      × ((handle now m c).0.saw_delta ≡ true)
unfolding handle_as
delta_lem now m c k w =
    let marked = record c { saw_delta = true } in
    rw k (
      ground (arith, append_text-text now m.content marked, append_text-keeps now m.content marked))

-- Inside a block of deltas.
deltas-text :
    (ds : List (ℕ × Message)) (c : Collector)
    → All (λ d. d.1.kind ≡ text_delta) ds
    → c.waiting_for_init ≡ false
    → ((deliver ds c).text ≡ c.text ++ said ds)
      × ((deliver ds c).waiting_for_init ≡ false)
      × ((deliver ds c).saw_delta ≡ (if is_empty ds then c.saw_delta else true))
deltas-text [] c h w = (sym (append-nil c.text), w, refl)
deltas-text ((now, m) ∷ ds) c h w =
    let (grown, open', saw) = delta_lem now m c h.0 w in
    let (all, still, seen) = deltas-text ds (handle now m c).0 h.1 open' in
    (
      all ∙ ap (λ t. t ++ said ds) grown ∙ append_assoc c.text m.content (said ds),
      still,
      seen ∙ ground (arith, is_empty ds),
    )

full_lem :
    (now : ℕ) (m : Message) (c : Collector)
    → m.kind ≡ text
    → c.waiting_for_init ≡ false
    → ((handle now m c).0.text ≡ c.text ++ (if c.saw_delta then [] else m.content))
      × ((handle now m c).0.saw_delta ≡ false)
unfolding handle_as
full_lem now m c k w = rw k (ground (arith, append_text-text now m.content c, append-nil c.text))

deliver-append :
    (xs ys : List (ℕ × Message)) (c : Collector) → deliver (xs ++ ys) c ≡ deliver ys (deliver xs c)
deliver-append [] ys c = refl
deliver-append ((now, m) ∷ xs) ys c = deliver-append xs ys (handle now m c).0

-- A block of text that the backend streams as any number of deltas and then repeats as a whole, to a
-- collector that does not wait for a session and is between blocks, adds the deltas once; if there
-- were none, it adds the whole. Behind it the collector is between blocks again.
pub block_once :
    (ds : List (ℕ × Message)) (now : ℕ) (m : Message) (c : Collector)
    → All (λ d. d.1.kind ≡ text_delta) ds
    → m.kind ≡ text
    → c.waiting_for_init ≡ false
    → c.saw_delta ≡ false
    → let d = deliver (ds ++ ((now, m) ∷ [])) c in
      (d.text ≡ c.text ++ (if is_empty ds then m.content else said ds)) × (d.saw_delta ≡ false)
block_once ds now m c h k w s =
    let (grown, open', saw) = deltas-text ds c h w in
    let (whole, between) = full_lem now m (deliver ds c) k open' in
    rw (deliver-append ds ((now, m) ∷ []) c) (block ds grown saw whole, between)
  where
    block :
        (es : List (ℕ × Message))
        → (deliver es c).text ≡ c.text ++ said es
        → (deliver es c).saw_delta ≡ (if is_empty es then c.saw_delta else true)
        → (handle now m (deliver es c)).0.text
          ≡ (deliver es c).text ++ (if (deliver es c).saw_delta then [] else m.content)
        → (handle now m (deliver es c)).0.text
          ≡ c.text ++ (if is_empty es then m.content else said es)
    block [] a b e = ground arith
    block (x ∷ es) a b e = ground (arith, append-nil (c.text ++ said (x ∷ es)))

replay_as :
    (k : MessageType) (now : ℕ) (m : Message) (c : Collector)
    → c.waiting_for_init ≡ true
    → k ≢ init
    → k ≢ result
    → (handle_as k now m c).0 ≡ c
unfolding handle_as
replay_as init now m c w h k = absurd (h refl)
replay_as result now m c w h k = absurd (k refl)
replay_as _ now m c w h k = ground arith

-- What a resumed session replays before its `MessageInit` adds nothing: while the collector waits, no
-- message but a `MessageInit` and a `MessageResult` changes a field of it, so text, reasoning and the
-- stream stay as they were.
pub replay_ignored :
    (now : ℕ) (m : Message) (c : Collector)
    → c.waiting_for_init ≡ true
    → m.kind ≢ init
    → m.kind ≢ result
    → (handle now m c).0 ≡ c
replay_ignored now m c w h k = replay_as m.kind now m c w h k
