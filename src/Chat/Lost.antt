-- ===== src/Chat/Lost.antt =====
-- Lost processes and lost native sessions in `handleChat` of internal/gateway/server.go.
use agentrun_openai.Prelude.{
  ◌≡◌, refl, ap, subst, ◌∙◌, ℕ, true, false, List, ◌++◌, arith, none, some, length, length-append,
  take-length-append,
}
use agentrun_openai.Prelude.Text.{Text, is_empty, text_eq_refl}
use agentrun_openai.Types.{TranscriptMessage, GoError, ok, err}
use agentrun_openai.History.{turn_prompt}
use agentrun_openai.Session.{
  SessionState, stop_of, matches_history_prefix, matches_fingerprint, persisted_history_count,
}
use agentrun_openai.Chat.{World, is_missing_native_session}
use agentrun_openai.Chat.Recorded.{Counted}
use agentrun_openai.Chat.Exchange.{
  Exchange, Agent, Ended, begun, start, begin, begin_with, begin_first, started_as, launched,
  take_turn, conclude, conclude_with, handle_chat, resets, resumes, is_continuation, delta, is_none,
  opened, request, clear, converse,
}
use agentrun_openai.Chat.Known.{touched, heard, kept_lem, news-delta, converse_open, opened_stream}

module _ (hash : List TranscriptMessage → Text) (show : GoError → Text) (a : Agent)
    (x : Exchange) where
  -- A session without a process whose history is kept as its length and fingerprint.
  pub record Dormant (h : List TranscriptMessage) (s : SessionState) : Type 0 where
    pub no_process : s.process ≡ none
    pub no_history : s.history ≡ none
    pub counted : s.history_count ≡ length h
    pub printed : s.history_hash ≡ hash h
    pub native : is_empty s.resume_id ≡ false
    pub place : s.cwd ≡ x.cwd

  Dormant-continues :
      (h news : List TranscriptMessage) (s : SessionState)
      → Dormant h s
      → is_empty h ≡ false
      → is_empty (hash h) ≡ false
      → x.messages ≡ h ++ news
      → is_continuation hash show a x s ≡ true
  unfolding matches_history_prefix matches_fingerprint
  Dormant-continues h news s d n f e =
      rw
        (
          d.place,
          text_eq_refl x.cwd,
          d.no_history,
          d.counted,
          d.printed,
          e,
          take-length-append h news,
          text_eq_refl (hash h),
          f,
        )
        (ground (arith, length-append h news))

  pub Dormant-resumes :
      (h news : List TranscriptMessage) (s : SessionState)
      → Dormant h s
      → is_empty h ≡ false
      → is_empty (hash h) ≡ false
      → x.messages ≡ h ++ news
      → (resumes hash show a x s ≡ true)
        × (resets hash show a x s ≡ false)
        × (delta hash show a x s ≡ news)
  unfolding persisted_history_count
  Dormant-resumes h news s d n f e =
      let known = Dormant-continues h news s d n f e in
      rw (known, d.no_process, d.native)
        (refl, refl, news-delta hash show a x s h news (rw (d.no_history, d.counted) refl) e)

  -- A session that was cleared and has a new process.
  abbrev pub restarted : World → ℕ → World
  restarted w p =
      let v = clear hash show a x w in
      record v { state = record v.state { process = some p; cwd = x.cwd } }

  begin_restart :
      (w : World) (p : ℕ) (prompt full : Text) (e : GoError)
      → w.state.process ≡ none
      → turn_prompt x.messages ≡ ok full
      → a.start false (request hash show a x (some w.state.resume_id) prompt) ≡ err e
      → is_missing_native_session show e ≡ true
      → a.start true (request hash show a x none full) ≡ ok p
      → begin hash show a x w true prompt ≡ begun (restarted w p) p false full
  unfolding begin start
  begin_restart w p prompt full e d tf lost missing fresh =
      ap (λ o. begin_with hash show a x o w true prompt) d
      ∙ ap (λ r. begin_first hash show a x w true prompt (launched hash show a x w r)) lost
      ∙ rw (missing, tf)
          (ap
            (λ r.
              started_as hash show a x (clear hash show a x w) false full
                (launched hash show a x (clear hash show a x w) r))
            fresh)

  -- A session is resumed, its native session is gone at the start, and a new one starts: the request ends
  -- with the first turn of the new one.
  pub restarts_lem :
      (w : World) (h news : List TranscriptMessage) (p : ℕ) (prompt full : Text) (e : GoError)
      → Dormant h w.state
      → is_empty h ≡ false
      → is_empty (hash h) ≡ false
      → x.messages ≡ h ++ news
      → turn_prompt news ≡ ok prompt
      → turn_prompt x.messages ≡ ok full
      → a.start false (request hash show a x (some w.state.resume_id) prompt) ≡ err e
      → is_missing_native_session show e ≡ true
      → a.start true (request hash show a x none full) ≡ ok p
      → x.w.flusher ≡ true
      → handle_chat hash show a x w
        ≡ conclude hash show a x
            (heard hash show a x false true p full (restarted (touched hash show a x w) p) false)
  unfolding handle_chat persisted_history_count take_turn
  restarts_lem w h news p prompt full e d n f m t tf lost missing fresh fl =
      let s = (touched hash show a x w).state in
      let dormant : Dormant h s = record {
        no_process = d.no_process;
        no_history = d.no_history;
        counted = d.counted;
        printed = d.printed;
        native = d.native;
        place = d.place;
      } in
      let (resumed, stays, said) = Dormant-resumes h news s dormant n f m in
      kept_lem hash show a x (touched hash show a x w) true (ok prompt) stays resumed (
        ap turn_prompt (news-delta hash show a x s h news (rw (d.no_history, d.counted) refl) m)
        ∙ t)
      ∙ ap (converse hash show a x (is_none s.process)) (
          begin_restart (touched hash show a x w) p prompt full e d.no_process tf lost missing
            fresh)
      ∙ ap
          (λ o.
            converse hash show a x (is_none o)
              (begun (restarted (touched hash show a x w) p) p false full))
          d.no_process
      ∙ converse_open hash show a x true (restarted (touched hash show a x w) p) p false full
          (opened hash show a x false) (opened_stream hash show a x false fl)

pub conclude_failed :
    (hash : List TranscriptMessage → Text) (show : GoError → Text) (a : Agent) (x : Exchange)
    → (t : Ended hash show a x) (e : GoError) → t.failed ≡ some e
    → (conclude hash show a x t).0 ≡ record t.world {
      state = record t.world.state { process = none; history = none };
      effects = t.world.effects ++ stop_of t.world.state.process;
    }
unfolding conclude
conclude_failed hash show a x t e f = ap (λ o. (conclude_with hash show a x o t).0) f

pub Counted-known :
    (hash : List TranscriptMessage → Text) (s : SessionState) (h : List TranscriptMessage)
    → s.history ≡ some h
    → Counted hash s.history s.history_count s.history_hash
    → (s.history_count ≡ length h) × (s.history_hash ≡ hash h)
Counted-known hash s h k c = subst (λ o. Counted hash o s.history_count s.history_hash) k c
