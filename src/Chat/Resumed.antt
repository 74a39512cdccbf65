-- ===== src/Chat/Resumed.antt =====
-- What a request gets from a session whose process or native session was lost, in `handleChat` of
-- internal/gateway/server.go.
use agentrun_openai.Prelude.{
  ◌≡◌, refl, ap, sym, ◌∙◌, ℕ, Bool, true, false, List, [], ◌∷◌, ◌++◌, Option, arith, none, some,
  if◌then◌else◌,
}
use agentrun_openai.Prelude.Text.{Text, is_empty}
use agentrun_openai.Types.{TranscriptMessage, GoError, ok, err}
use agentrun_openai.History.{turn_prompt, system_prompt}
use agentrun_openai.Session.{
  Effect, stops_process, stop_of, stop, cleared, persisted_history_count, remember,
}
use agentrun_openai.Session.Eviction.{ending, stop-ending}
use agentrun_openai.Stream.{Collector}
use agentrun_openai.Chat.{
  World, Reply, answered, StartRequest, unless_empty, is_missing_native_session, clear_session,
}
use agentrun_openai.Chat.Recorded.{Counted}
use agentrun_openai.Chat.Exchange.{
  Exchange, Agent, Ended, listen, begun, start, begin, begin_with, begin_first, launched, take_turn,
  conclude, handle_chat, is_none, opened, converse, finished, settled, save, kept_resume_id,
}
use agentrun_openai.Chat.Known.{
  touched, heard, transcript, handle_chat_continues, kept_lem, news-delta, converse_open,
  opened_stream, concluded, save-state,
}
use agentrun_openai.Chat.Lost.{
  Dormant, Dormant-resumes, restarted, restarts_lem, conclude_failed, Counted-known,
}

-- What an agent is asked to start, with the native session to resume.
abbrev pub asked_start : Exchange → Option Text → Text → StartRequest
asked_start x resume_id prompt = record {
  cwd = x.cwd;
  model = x.route.backend_model;
  prompt = prompt;
  resume_id = resume_id;
  system_prompt = unless_empty (system_prompt x.messages);
  mcp_server = none;
}

module _ (hash : List TranscriptMessage → Text) (show : GoError → Text) (a : Agent)
    (x : Exchange) where
  -- What is collected of the first turn of the process `p`.
  abbrev pub first_heard : Bool → ℕ → Text → Collector
  first_heard resume p prompt =
      listen x.stream a.heartbeat (a.turn false true p prompt).heard (opened hash show a x resume).0

  -- The client got what was collected, the session has it behind the request's messages, in the
  -- request's directory with this process, its native session is the one that the agent named or else
  -- this one, and this is all that happened to turns, facades and processes.
  abbrev pub Told : Text → List Effect → ℕ → Collector → World × Reply → Type 0
  Told old effects p c (after, reply) =
      (reply ≡ answered (finished hash show a x c))
      × (after.state.process ≡ some p)
      × (after.state.cwd ≡ x.cwd)
      × (after.state.history ≡ some (transcript hash show a x c))
      × (after.state.resume_id ≡ (if is_empty c.resume_id then old else c.resume_id))
      × (after.effects ≡ effects)

  save-effects : (w : World) → (save hash show a x w).effects ≡ w.effects
  unfolding save
  save-effects w = ground arith

  -- A resumed session with its new process.
  abbrev pub resumed : World → ℕ → World
  resumed w p = record w { state = record w.state { process = some p; cwd = x.cwd } }

  begin-resumed :
      (w : World) (p : ℕ) (prompt : Text)
      → w.state.process ≡ none
      → a.start false (asked_start x (some w.state.resume_id) prompt) ≡ ok p
      → begin hash show a x w true prompt ≡ begun (resumed w p) p true prompt
  unfolding begin start
  begin-resumed w p prompt d starts =
      ap (λ o. begin_with hash show a x o w true prompt) d
      ∙ ap (λ r. begin_first hash show a x w true prompt (launched hash show a x w r)) starts

  take_turn_well :
      (p : ℕ) (prompt : Text) (w : World) (c : Collector)
      → (a.turn false true p prompt).failed ≡ none
      → take_turn hash show a x true true p prompt w c ≡ record {
        world = w;
        collector = listen x.stream a.heartbeat (a.turn false true p prompt).heard c;
        failed = none;
      }
  unfolding take_turn
  take_turn_well p prompt w c good = rw good refl

  -- A dormant session is resumed, and its process gets the news as its first turn.
  pub resumed_turn :
      (w : World) (h news : List TranscriptMessage) (p : ℕ) (prompt : Text)
      → Dormant hash show a x h w.state
      → is_empty h ≡ false
      → is_empty (hash h) ≡ false
      → x.messages ≡ h ++ news
      → turn_prompt news ≡ ok prompt
      → a.start false (asked_start x (some w.state.resume_id) prompt) ≡ ok p
      → x.w.flusher ≡ true
      → handle_chat hash show a x w
        ≡ conclude hash show a x (
            take_turn hash show a x true true p prompt
              (resumed (touched hash show a x w) p)
              (opened hash show a x true).0)
  unfolding handle_chat persisted_history_count
  resumed_turn w h news p prompt d n f m t starts fl =
      let v = touched hash show a x w in
      let dormant : Dormant hash show a x h v.state = record {
        no_process = d.no_process;
        no_history = d.no_history;
        counted = d.counted;
        printed = d.printed;
        native = d.native;
        place = d.place;
      } in
      let (resumed_now, stays, said) = Dormant-resumes hash show a x h news v.state dormant n f m in
      kept_lem hash show a x v true (ok prompt) stays resumed_now (
        ap turn_prompt
          (news-delta hash show a x v.state h news (rw (d.no_history, d.counted) refl) m)
        ∙ t)
      ∙ ap (converse hash show a x (is_none v.state.process))
          (begin-resumed v p prompt d.no_process starts)
      ∙ ap (λ o. converse hash show a x (is_none o) (begun (resumed v p) p true prompt))
          d.no_process
      ∙ converse_open hash show a x true (resumed v p) p true prompt (opened hash show a x true)
          (opened_stream hash show a x true fl)

  -- A dormant session is resumed, and the turn goes well.
  resumes_lem :
      (w : World) (h news : List TranscriptMessage) (p : ℕ) (prompt : Text)
      → Dormant hash show a x h w.state
      → is_empty h ≡ false
      → is_empty (hash h) ≡ false
      → x.messages ≡ h ++ news
      → turn_prompt news ≡ ok prompt
      → a.start false (asked_start x (some w.state.resume_id) prompt) ≡ ok p
      → (a.turn false true p prompt).failed ≡ none
      → x.w.flusher ≡ true
      → handle_chat hash show a x w
        ≡ conclude hash show a x (record {
          world = resumed (touched hash show a x w) p;
          collector = first_heard true p prompt;
          failed = none;
        })
  resumes_lem w h news p prompt d n f m t starts good fl =
      resumed_turn w h news p prompt d n f m t starts fl
      ∙ ap (conclude hash show a x) (
          take_turn_well p prompt (resumed (touched hash show a x w) p)
            (opened hash show a x true).0 good)

  native_id :
      (new old : Text) → kept_resume_id hash show a x new old ≡ (if is_empty new then old else new)
  native_id [] old = refl
  native_id (c ∷ new) old = refl

  -- A turn that went well in this world.
  abbrev pub well : World → Collector → Ended hash show a x
  well w c = record { world = w; collector = c; failed = none }

  well-state :
      (w : World) (c : Collector)
      → (conclude hash show a x (well w c)).0.state ≡ settled hash show a x c w.state
  well-state w c =
      ap (λ r. r.0.state) (concluded hash show a x (well w c) refl)
      ∙ save-state hash show a x (record w { state = settled hash show a x c w.state })

  pub told_lem :
      (w : World) (c : Collector) (p : ℕ)
      → w.state.process ≡ some p
      → w.state.cwd ≡ x.cwd
      → Told w.state.resume_id w.effects p c (conclude hash show a x (well w c))
  unfolding remember
  told_lem w c p lives place =
      let state = well-state w c in
      (
        ap (λ r. r.1) (concluded hash show a x (well w c) refl),
        ap (λ s. s.process) state ∙ lives,
        ap (λ s. s.cwd) state ∙ place,
        ap (λ s. s.history) state,
        ap (λ s. s.resume_id) state ∙ native_id c.resume_id w.state.resume_id,
        ap (λ r. r.0.effects) (concluded hash show a x (well w c) refl)
            ∙ save-effects (record w { state = settled hash show a x c w.state }),
      )

  -- A session in the request's directory has a native session, no process and no transcript in memory;
  -- the request's messages are its history, by length and fingerprint, with news of which a prompt can
  -- be made; and the writer can flush. The native session is gone when the agent is asked to resume it,
  -- and the whole of the request's messages makes a prompt. An agent is then started without a native session and told all the messages, and the
  -- turn goes well. Then the client gets what was collected, and the session has it behind the
  -- request's messages. It has the native session that the agent named or none: the ID of the lost one
  -- is forgotten, and so are its turn, its facade, its tools and its last error, and the turn was
  -- cancelled and the facade closed.
  pub handle_chat_restarts :
      (w : World) (h news : List TranscriptMessage) (p : ℕ) (prompt full : Text) (e : GoError)
      → Dormant hash show a x h w.state
      → is_empty h ≡ false
      → is_empty (hash h) ≡ false
      → x.messages ≡ h ++ news
      → turn_prompt news ≡ ok prompt
      → turn_prompt x.messages ≡ ok full
      → a.start false (asked_start x (some w.state.resume_id) prompt) ≡ err e
      → is_missing_native_session show e ≡ true
      → a.start true (asked_start x none full) ≡ ok p
      → (a.turn false true p full).failed ≡ none
      → x.w.flusher ≡ true
      → let r = handle_chat hash show a x w in
        Told [] (w.effects ++ ending w.state) p (first_heard false p full) r
        × (r.0.state.active ≡ none)
        × (r.0.state.facade ≡ none)
        × (r.0.state.tool_hash ≡ [])
        × (r.0.state.turn_err ≡ none)
  unfolding clear_session cleared remember stop
  handle_chat_restarts w h news p prompt full e d n f m t tf lost missing fresh good fl =
      let v = restarted hash show a x (touched hash show a x w) p in
      let c = first_heard false p full in
      let failed : (heard hash show a x false true p full v false) ≡ well v c =
        ap (λ o. record { world = v; collector = c; failed = o }) good in
      let same =
        restarts_lem hash show a x w h news p prompt full e d n f m t tf lost missing fresh fl
        ∙ ap (conclude hash show a x) failed in
      let state = well-state v c in
      rw same (
        rw (← stop-ending w.state) (told_lem v c p refl refl),
        ap (λ s. s.active) state,
        ap (λ s. s.facade) state,
        ap (λ s. s.tool_hash) state,
        ap (λ s. s.turn_err) state,
      )

-- A session has a process and a native session, in the request's directory, and a history that is not
-- empty and has its fingerprint; the request's messages are the history with news behind it, of which a
-- prompt can be made; and the writers can flush. The turn fails: the process is stopped and the session
-- is without one. Then comes a request in the same directory whose messages start with the same history, the news behind it make a
-- prompt, the agent starts when it is asked to resume the session's native session with this prompt,
-- and the turn goes well. Then the client gets what was collected, the session has it behind the
-- request's messages and keeps the native session unless the agent named another, and nothing else was
-- stopped or closed.
pub failed_turn_resumes :
    (hash : List TranscriptMessage → Text) (show : GoError → Text) (a b : Agent) (x y : Exchange)
    → (w : World) (h news more : List TranscriptMessage) (p q : ℕ) (prompt told : Text)
      (e : GoError)
    → w.state.process ≡ some p
    → w.state.history ≡ some h
    → w.state.cwd ≡ x.cwd
    → x.messages ≡ h ++ news
    → turn_prompt news ≡ ok prompt
    → x.w.flusher ≡ true
    → Counted hash w.state.history w.state.history_count w.state.history_hash
    → is_empty h ≡ false
    → is_empty (hash h) ≡ false
    → is_empty w.state.resume_id ≡ false
    → (a.turn false false p prompt).failed ≡ some e
    → y.cwd ≡ x.cwd
    → y.messages ≡ h ++ more
    → turn_prompt more ≡ ok told
    → b.start false (asked_start y (some w.state.resume_id) told) ≡ ok q
    → (b.turn false true q told).failed ≡ none
    → y.w.flusher ≡ true
    → let lost = (handle_chat hash show a x w).0 in
      let stopped = w.effects ++ (stops_process p ∷ []) in
      (lost.state.process ≡ none)
      × (lost.effects ≡ stopped)
      × Told hash show b y w.state.resume_id stopped q
          (first_heard hash show b y true q told)
          (handle_chat hash show b y lost)
failed_turn_resumes hash show a b x y w h news more p q prompt told e lives k c m t f cn n nf i
      fails yc ym mt starts good yf =
    let lost : World = record (touched hash show a x w) {
      state = record (touched hash show a x w).state { process = none; history = none };
      effects = w.effects ++ (stops_process p ∷ []);
    } in
    let same : (handle_chat hash show a x w).0 ≡ lost =
      ap (λ r. r.0) (handle_chat_continues hash show a x w h news p prompt lives k c m t f)
      ∙ conclude_failed hash show a x _ e fails
      ∙ ap
          (λ o. record (touched hash show a x w) {
            state = record (touched hash show a x w).state { process = none; history = none };
            effects = w.effects ++ stop_of o;
          })
          lives in
    let (count, print) = Counted-known hash w.state h k cn in
    let dormant : Dormant hash show b y h lost.state = record {
      no_process = refl;
      no_history = refl;
      counted = count;
      printed = print;
      native = i;
      place = c ∙ sym yc;
    } in
    let back = resumes_lem hash show b y lost h more q told dormant n nf ym mt starts good yf in
    rw (same, back)
      (
        refl,
        refl,
        told_lem hash show b y (resumed hash show b y (touched hash show b y lost) q)
            (first_heard hash show b y true q told) q refl refl,
      )
