-- ===== src/Chat/Known.antt =====
-- What the agent is told of a conversation by `handleChat` of internal/gateway/server.go: while it is
-- known, what is new; after a lost process, what is new to the resumed native session; after a lost
-- native session, all of it.
use agentrun_openai.Prelude.{
  ◌≡◌, refl, ap, ◌∙◌, ℕ, Bool, true, false, List, [], ◌∷◌, ◌++◌, arith, Option, none, some, length,
  drop, drop-length-append,
}
use agentrun_openai.Prelude.Text.{Text, text_eq_refl}
use agentrun_openai.Types.{assistant, TranscriptMessage, GoError, Result, ok}
use agentrun_openai.History.{turn_prompt, has_prefix}
use agentrun_openai.History.Prefix.{has_prefix_iff}
use agentrun_openai.Session.{
  SessionState, remember, matches_history_prefix, matches_as, persisted_history_count,
}
use agentrun_openai.Stream.{Collector, start_stream, new_collector}
use agentrun_openai.Chat.{answered, World}
use agentrun_openai.Chat.Exchange.{
  Exchange, Agent, Ended, begin, begin_with, take_turn, run_turn, conclude, handle_chat, resets,
  resumes, is_continuation, delta, is_none, opened, prepared, prompt_or_refuse, converse,
  converse_with, save, settled, finished, conclude_with,
}

module _ (hash : List TranscriptMessage → Text) (show : GoError → Text) (a : Agent)
    (x : Exchange) where
  -- The session at the beginning of the request.
  abbrev pub touched : World → World
  touched w = record w { state = record w.state { last_access = a.begins } }

  known-is_continuation :
      (s : SessionState) (h news : List TranscriptMessage)
      → s.history ≡ some h
      → s.cwd ≡ x.cwd
      → x.messages ≡ h ++ news
      → is_continuation hash show a x s ≡ true
  unfolding matches_history_prefix
  known-is_continuation s h news k c e =
      rw (k, c, text_eq_refl x.cwd, e) ((has_prefix_iff (h ++ news) h).1 (news, refl))

  live-resets :
      (s : SessionState) (p : ℕ)
      → is_continuation hash show a x s ≡ true
      → s.process ≡ some p
      → (resets hash show a x s ≡ false) × (resumes hash show a x s ≡ false)
  live-resets s p known lives = (rw (known, lives) refl, rw lives refl)

  pub kept_lem :
      (w : World) (resume : Bool) (prompt : Result Text)
      → resets hash show a x w.state ≡ false
      → resumes hash show a x w.state ≡ resume
      → turn_prompt (drop (persisted_history_count w.state) x.messages) ≡ prompt
      → prompt_or_refuse hash show a x
          (prepared hash show a x w)
          (resumes hash show a x w.state)
          (turn_prompt (delta hash show a x w.state))
        ≡ prompt_or_refuse hash show a x w resume prompt
  kept_lem w resume prompt r u t = rw (r, u, t) refl

  pub news-delta :
      (s : SessionState) (h news : List TranscriptMessage)
      → persisted_history_count s ≡ length h
      → x.messages ≡ h ++ news
      → drop (persisted_history_count s) x.messages ≡ news
  news-delta s h news c e = rw (c, e) (drop-length-append h news)

  pub opened_stream : (resume : Bool) → x.w.flusher ≡ true → (opened hash show a x resume).1 ≡ none
  unfolding start_stream new_collector
  opened_stream resume f = rw f (ground arith)

  pub converse_open :
      (first : Bool) (w : World) (p : ℕ) (resume : Bool) (prompt : Text)
      → (o : Collector × Option GoError) → o.1 ≡ none
      → converse_with hash show a x first w p resume prompt o
        ≡ conclude hash show a x (take_turn hash show a x first resume p prompt w o.0)
  converse_open first w p resume prompt (c, none) e = refl
  converse_open first w p resume prompt (c, some d) e = cc

  -- The answer of a turn, heard by a collector that was opened.
  abbrev pub heard : Bool → Bool → ℕ → Text → World → Bool → Ended hash show a x
  heard again first p prompt w resume =
      run_turn hash show a x again first p prompt w (opened hash show a x resume).0

  live_lem :
      (w : World) (p : ℕ) (prompt : Text)
      → w.state.process ≡ some p
      → x.w.flusher ≡ true
      → prompt_or_refuse hash show a x w false (ok prompt)
        ≡ conclude hash show a x (heard false false p prompt w false)
  unfolding begin take_turn
  live_lem w p prompt lives f =
      ap (λ o. converse hash show a x (is_none o) (begin_with hash show a x o w false prompt)) lives
      ∙ converse_open false w p false prompt (opened hash show a x false) (opened_stream false f)

  -- The session has a process, in the request's directory, and the request's messages are the history
  -- with news behind it, of which a prompt can be made. Then the process, and no new one, is told the
  -- news alone, and the request ends with its answer, whether that went well or not.
  pub handle_chat_continues :
      (w : World) (h news : List TranscriptMessage) (p : ℕ) (prompt : Text)
      → w.state.process ≡ some p
      → w.state.history ≡ some h
      → w.state.cwd ≡ x.cwd
      → x.messages ≡ h ++ news
      → turn_prompt news ≡ ok prompt
      → x.w.flusher ≡ true
      → handle_chat hash show a x w
        ≡ conclude hash show a x (heard false false p prompt (touched w) false)
  unfolding handle_chat persisted_history_count
  handle_chat_continues w h news p prompt lives k c e t f =
      let s = (touched w).state in
      let known = known-is_continuation s h news k c e in
      let (stays, fresh) = live-resets s p known lives in
      let said = ap turn_prompt (news-delta s h news (rw k refl) e) ∙ t in
      kept_lem (touched w) false (ok prompt) stays fresh said
      ∙ live_lem (touched w) p prompt lives f

  pub save-state : (w : World) → (save hash show a x w).state ≡ w.state
  unfolding save
  save-state w = ground arith

  -- What the session remembers after a turn that went well.
  abbrev pub transcript : Collector → List TranscriptMessage
  transcript c =
      x.messages
      ++ (record { tool_calls = []; tool_call_id = []; role = assistant; content = c.text } ∷ [])

  pub concluded :
      (t : Ended hash show a x)
      → t.failed ≡ none
      → conclude hash show a x t ≡ (
        save hash show a x
            (record t.world { state = settled hash show a x t.collector t.world.state }),
        answered (finished hash show a x t.collector),
      )
  unfolding conclude
  concluded t f = ap (λ o. conclude_with hash show a x o t) f

  -- The session has a process, in the request's directory, the request's messages are the history with
  -- news behind it, of which a prompt can be made, and the turn goes well. Then the client gets what
  -- the collector heard; the session keeps its process and its directory; its history is the request's
  -- messages and the answer behind them; and a later request is recognised exactly when its messages
  -- start with these.
  pub handle_chat_remembers :
      (w : World) (h news : List TranscriptMessage) (p : ℕ) (prompt : Text)
      → w.state.process ≡ some p
      → w.state.history ≡ some h
      → w.state.cwd ≡ x.cwd
      → x.messages ≡ h ++ news
      → turn_prompt news ≡ ok prompt
      → x.w.flusher ≡ true
      → (a.turn false false p prompt).failed ≡ none
      → let c = (heard false false p prompt (touched w) false).collector in
        let (after, reply) = handle_chat hash show a x w in
        (reply ≡ answered (finished hash show a x c))
        × (after.state.process ≡ some p)
        × (after.state.cwd ≡ x.cwd)
        × (after.state.history ≡ some (transcript c))
        × ((ms : List TranscriptMessage)
            → matches_history_prefix hash after.state ms ≡ has_prefix ms (transcript c))
  unfolding matches_history_prefix remember
  handle_chat_remembers w h news p prompt lives k c e t f good =
      let ended = heard false false p prompt (touched w) false in
      let s = settled hash show a x ended.collector (touched w).state in
      let same = handle_chat_continues w h news p prompt lives k c e t f ∙ concluded ended good in
      let state : (handle_chat hash show a x w).0.state ≡ s =
        ap (λ r. r.0.state) same ∙ save-state (record (touched w) { state = s }) in
      (
        ap (λ r. r.1) same,
        ap (λ v. v.process) state ∙ lives,
        ap (λ v. v.cwd) state ∙ c,
        ap (λ v. v.history) state,
        λ ms. ap (λ v. matches_as hash v.history v.history_count v.history_hash ms) state,
      )
