-- ===== src/Chat/Rerun.antt =====
-- A native session that turns out to be lost in its first turn, in `handleChat` of
-- internal/gateway/server.go.
use agentrun_openai.Prelude.{◌≡◌, refl, ap, ◌∙◌, ℕ, true, false, List, [], ◌++◌, none, some}
use agentrun_openai.Prelude.Text.{Text, is_empty}
use agentrun_openai.Types.{TranscriptMessage, GoError, ok}
use agentrun_openai.History.{turn_prompt}
use agentrun_openai.Session.{stop, cleared}
use agentrun_openai.Session.Eviction.{ending, stop-ending}
use agentrun_openai.Stream.{Collector, no_usage, reset_for_fresh_session}
use agentrun_openai.Chat.{World, is_missing_native_session, clear_session}
use agentrun_openai.Chat.Exchange.{
  Exchange, Agent, listen, start, take_turn, handle_chat, opened, clear, rerun, launched,
}
use agentrun_openai.Chat.Known.{touched}
use agentrun_openai.Chat.Lost.{Dormant, restarted}
use agentrun_openai.Chat.Resumed.{
  asked_start, first_heard, Told, resumed, resumed_turn, well, told_lem,
}

module _ (hash : List TranscriptMessage → Text) (show : GoError → Text) (a : Agent)
    (x : Exchange) where
  -- What is collected of the second try: the first one leaves nothing but what went out on the stream.
  abbrev pub heard_again : Collector → ℕ → Text → Collector
  heard_again c q full = listen x.stream a.heartbeat (a.turn true true q full).heard (record c {
    text = [];
    reasoning = [];
    usage = no_usage;
    saw_delta = false;
    saw_thinking = false;
    resume_id = [];
    waiting_for_init = false;
  })

  take_turn_again :
      (w : World) (c : Collector) (p q : ℕ) (prompt full : Text) (e : GoError)
      → (a.turn false true p prompt).failed ≡ some e
      → is_missing_native_session show e ≡ true
      → is_empty (listen x.stream a.heartbeat (a.turn false true p prompt).heard c).text ≡ true
      → turn_prompt x.messages ≡ ok full
      → a.start true (asked_start x none full) ≡ ok q
      → (a.turn true true q full).failed ≡ none
      → take_turn hash show a x true true p prompt w c
        ≡ well hash show a x
            (restarted hash show a x w q)
            (heard_again (listen x.stream a.heartbeat (a.turn false true p prompt).heard c) q full)
  unfolding take_turn start reset_for_fresh_session
  take_turn_again w c p q prompt full e lost missing silent tf fresh good =
      rw (lost, missing, silent, tf)
        (ap
            (λ r.
              rerun hash show a x (clear hash show a x w)
                (listen x.stream a.heartbeat (a.turn false true p prompt).heard c) full
                (launched hash show a x (clear hash show a x w) r))
            fresh
          ∙ rw good refl)

  -- A session in the request's directory has a native session, no process and no transcript in memory;
  -- the request's messages are its history, by length and fingerprint, with news of which a prompt can
  -- be made; and the writer can flush. An agent starts when it is asked to resume the native session, but
  -- the turn fails because that session is missing, before any text was collected, and the whole of the request's messages makes a prompt. An
  -- agent is then started without a native session and told all the messages, and that turn goes well.
  -- Then the client gets what was collected of the second turn: of the first one's text, reasoning, usage
  -- and native session nothing is left. The session has the text behind the request's messages. The session has the second
  -- process and the native session that its agent named or none: the ID of the lost one is forgotten;
  -- and the first process was stopped.
  pub handle_chat_reruns :
      (w : World) (h news : List TranscriptMessage) (p q : ℕ) (prompt full : Text) (e : GoError)
      → Dormant hash show a x h w.state
      → is_empty h ≡ false
      → is_empty (hash h) ≡ false
      → x.messages ≡ h ++ news
      → turn_prompt news ≡ ok prompt
      → turn_prompt x.messages ≡ ok full
      → a.start false (asked_start x (some w.state.resume_id) prompt) ≡ ok p
      → (a.turn false true p prompt).failed ≡ some e
      → is_missing_native_session show e ≡ true
      → is_empty (first_heard hash show a x true p prompt).text ≡ true
      → a.start true (asked_start x none full) ≡ ok q
      → (a.turn true true q full).failed ≡ none
      → x.w.flusher ≡ true
      → Told hash show a x []
          (w.effects ++ ending (record w.state { process = some p }))
          q
          (heard_again (first_heard hash show a x true p prompt) q full)
          (handle_chat hash show a x w)
  unfolding clear_session cleared stop
  handle_chat_reruns w h news p q prompt full e d n f m t tf starts lost missing silent fresh good
        fl =
      let v = resumed hash show a x (touched hash show a x w) p in
      rw
        (
          resumed_turn hash show a x w h news p prompt d n f m t starts fl,
          take_turn_again v (opened hash show a x true).0 p q prompt full e lost missing silent tf
              fresh good,
          ← stop-ending (record w.state { process = some p }),
        )
        (told_lem hash show a x (restarted hash show a x v q)
          (heard_again (first_heard hash show a x true p prompt) q full) q refl refl)
