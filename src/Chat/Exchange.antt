-- ===== src/Chat/Exchange.antt =====
-- `handleChat` of internal/gateway/server.go behind the lock of its session, for a request without
-- tools: continuation, resumption or reset of the session, the start of the agent, the turn and what is
-- remembered. What the agent answers and what goes wrong in the store are arguments. A request clears
-- its session at most once, so there is one deletion that may fail.
use agentrun_openai.Prelude.{
  ℕ, Bool, true, false, not, ◌&&◌, ◌||◌, List, [], ◌∷◌, ◌++◌, Option, none, some, if◌then◌else◌,
  ◌==◌, drop,
}
use agentrun_openai.Prelude.Text.{Text, codes, is_empty, text_eq}
use agentrun_openai.Types.{TranscriptMessage, assistant, GoError, Result, ok, err}
use agentrun_openai.History.{turn_prompt, system_prompt}
use agentrun_openai.Models.{ModelRoute}
use agentrun_openai.Session.{
  SessionState, stop_of, matches_history_prefix, persisted_history_count, remember,
}
use agentrun_openai.Session.Registry.{saved}
use agentrun_openai.Session.Store.{Fault, put}
use agentrun_openai.Stream.{
  Collector, Message, Writer, new_collector, start_stream, handle, beat, reset_for_fresh_session,
  finish_stream, write_completion, stream_error,
}
use agentrun_openai.Chat.{
  World, clear_session, StartRequest, unless_empty, is_missing_native_session, Reply, answered,
  invalid_request, server_error, failure_status,
}

-- A request behind the checks in front of the lock.
pub record Exchange : Type 0 where
  pub messages : List TranscriptMessage
  pub key : Text
  pub cwd : Text
  pub model : Text
  pub route : ModelRoute
  pub stream : Bool
  pub id : Text
  pub created : ℕ
  pub w : Writer

-- What a turn brings: at each time a message of the agent, or (`none`) a tick of the heartbeat, and the
-- error with which `RunTurn` returns.
pub record Answer : Type 0 where
  pub heard : List (ℕ × Option Message)
  pub failed : Option GoError

-- The agent behind the route's engine, the store's disk and the clock. The Boolean says whether it is
-- the second attempt of the request; a turn is also asked whether it is the process's first.
pub record Agent : Type 0 where
  pub start : Bool → StartRequest → Result ℕ
  pub turn : Bool → Bool → ℕ → Text → Answer
  pub delete_fault : Option Fault
  pub save_fault : Option Fault
  pub heartbeat : ℕ
  pub begins : ℕ
  pub ends : ℕ

abbrev pub is_none {ℓ} : {A : Type ℓ} → Option A → Bool
is_none none = true
is_none (some a) = false

-- The collector during a turn. The heartbeat ticks for a stream whose interval is positive.
unfoldable pub listen : Bool → ℕ → List (ℕ × Option Message) → Collector → Collector
listen stream interval [] c = c
listen stream interval ((now, some m) ∷ rest) c = listen stream interval rest (handle now m c).0
listen stream interval ((now, none) ∷ rest) c =
    listen stream interval rest (if stream && not (interval == 0) then beat interval now c else c)

module _ (hash : List TranscriptMessage → Text) (show : GoError → Text) (a : Agent)
    (x : Exchange) where
  abbrev pub is_continuation : SessionState → Bool
  is_continuation s = text_eq s.cwd x.cwd && matches_history_prefix hash s x.messages

  abbrev pub resumes : SessionState → Bool
  resumes s = is_none s.process && not (is_empty s.resume_id) && is_continuation s

  abbrev pub resets : SessionState → Bool
  resets s = not (is_continuation s) || (is_none s.process && not (resumes s))

  abbrev pub clear : World → World
  clear w = clear_session a.delete_fault x.key w

  -- `delta`, and the session that it is for.
  abbrev pub delta : SessionState → List TranscriptMessage
  delta s = if resets s then x.messages else drop (persisted_history_count s) x.messages

  abbrev pub prepared : World → World
  prepared w = if resets w.state then clear w else w

  abbrev pub request : Option Text → Text → StartRequest
  request resume_id prompt = record {
    cwd = x.cwd;
    model = x.route.backend_model;
    prompt = prompt;
    resume_id = resume_id;
    system_prompt = unless_empty (system_prompt x.messages);
    mcp_server = none;
  }

  abbrev pub launched : World → Result ℕ → Result (World × ℕ)
  launched w (err e) = err e
  launched w (ok p) = ok (record w { state = record w.state { process = some p; cwd = x.cwd } }, p)

  -- The function `start`.
  unfoldable pub start : Bool → Bool → Text → World → Result (World × ℕ)
  start again use_resume prompt w =
      launched w
        (a.start again (request (if use_resume then some w.state.resume_id else none) prompt))

  -- The session before the turn: failed to start, or with its process, whether it is resumed and the
  -- prompt.
  pub data Begun : Type 0 where
    not_begun : World → GoError → Begun
    begun : World → ℕ → Bool → Text → Begun

  abbrev pub started_as : World → Bool → Text → Result (World × ℕ) → Begun
  started_as w resume prompt (err e) = not_begun w e
  started_as w resume prompt (ok (v, p)) = begun v p resume prompt

  -- The fall-back when the native session is gone at the start.
  abbrev pub begin_fresh : World → GoError → Result Text → Begun
  begin_fresh w e (err _) = not_begun w e
  begin_fresh w e (ok prompt) = started_as w false prompt (start true false prompt w)

  abbrev pub begin_first : World → Bool → Text → Result (World × ℕ) → Begun
  begin_first w resume prompt (ok (v, p)) = begun v p resume prompt
  begin_first w resume prompt (err e) =
      if resume && is_missing_native_session show e
      then begin_fresh (clear w) e (turn_prompt x.messages)
      else not_begun w e

  abbrev pub begin_with : Option ℕ → World → Bool → Text → Begun
  begin_with none w resume prompt = begin_first w resume prompt (start false resume prompt w)
  begin_with (some p) w resume prompt = begun w p resume prompt

  unfoldable pub begin : World → Bool → Text → Begun
  begin w resume prompt = begin_with w.state.process w resume prompt

  -- A turn that ended, with the error it ended with.
  pub record Ended : Type 0 where
    pub world : World
    pub collector : Collector
    pub failed : Option GoError

  -- `RunTurn` or `RunFirstTurn` with the process `p`.
  abbrev pub run_turn : Bool → Bool → ℕ → Text → World → Collector → Ended
  run_turn again first p prompt w c =
      let answer = a.turn again first p prompt in
      record {
        world = w;
        collector = listen x.stream a.heartbeat answer.heard c;
        failed = answer.failed;
      }

  abbrev pub rerun : World → Collector → Text → Result (World × ℕ) → Ended
  rerun w c prompt (err e) = record { world = w; collector = c; failed = some e }
  rerun w c prompt (ok (v, p)) = run_turn true true p prompt v (reset_for_fresh_session c)

  abbrev pub rerun_fresh : World → Collector → Result Text → Ended
  rerun_fresh w c (err e) = record { world = w; collector = c; failed = some e }
  rerun_fresh w c (ok prompt) = rerun w c prompt (start true false prompt w)

  abbrev pub is_missing : Option GoError → Bool
  is_missing none = false
  is_missing (some e) = is_missing_native_session show e

  -- The turn, with the fall-back when the native session is gone and nothing was said.
  unfoldable pub take_turn : Bool → Bool → ℕ → Text → World → Collector → Ended
  take_turn first resume p prompt w c =
      let once = run_turn false first p prompt w c in
      if resume && is_missing once.failed && is_empty once.collector.text
      then rerun_fresh (clear once.world) once.collector (turn_prompt x.messages)
      else once

  abbrev pub kept_resume_id : Text → Text → Text
  kept_resume_id [] old = old
  kept_resume_id (c ∷ new) old = c ∷ new

  -- The session behind a turn that went well.
  abbrev pub settled : Collector → SessionState → SessionState
  settled c s =
      let answer : TranscriptMessage = record {
        tool_calls = [];
        tool_call_id = [];
        role = assistant;
        content = c.text;
      } in
      record (remember hash x.messages answer s) {
        resume_id = kept_resume_id c.resume_id s.resume_id;
        last_access = a.ends;
      }

  unfoldable pub save : World → World
  save w =
      if is_empty w.state.resume_id
      then w
      else record w { store = (put a.save_fault x.key (saved w.state) w.store).0 }

  abbrev pub finished : Collector → Collector
  finished c = if x.stream then finish_stream a.ends c else write_completion c

  abbrev pub after_error : GoError → Ended → World × Reply
  after_error e t = (
    record t.world {
      state = record t.world.state { process = none; history = none };
      effects = t.world.effects ++ stop_of t.world.state.process;
    },
    if x.stream
        then answered (stream_error e t.collector)
        else server_error (failure_status e) e (codes "agent_turn_failed"),
  )

  abbrev pub conclude_with : Option GoError → Ended → World × Reply
  conclude_with (some e) t = after_error e t
  conclude_with none t = (
    save (record t.world { state = settled t.collector t.world.state }),
    answered (finished t.collector),
  )

  unfoldable pub conclude : Ended → World × Reply
  conclude t = conclude_with t.failed t

  abbrev pub collector : Bool → Collector
  collector resume = new_collector x.w x.stream x.id x.created x.model resume x.route.effective_ids

  abbrev pub opened : Bool → Collector × Option GoError
  opened resume =
      if x.stream then start_stream a.begins (collector resume) else (collector resume, none)

  abbrev pub converse_with :
      Bool → World → ℕ → Bool → Text → Collector × Option GoError → World × Reply
  converse_with first w p resume prompt (c, some e) =
      (w, server_error 500 e (codes "streaming_unsupported"))
  converse_with first w p resume prompt (c, none) = conclude (take_turn first resume p prompt w c)

  abbrev pub converse : Bool → Begun → World × Reply
  converse first (not_begun w e) = (w, server_error 502 e (codes "agent_start_failed"))
  converse first (begun w p resume prompt) = converse_with first w p resume prompt (opened resume)

  abbrev pub prompt_or_refuse : World → Bool → Result Text → World × Reply
  prompt_or_refuse w resume (err e) = (w, invalid_request 400 e (codes "invalid_messages"))
  prompt_or_refuse w resume (ok prompt) = converse (is_none w.state.process) (begin w resume prompt)

  -- The handler from the lock on.
  unfoldable pub handle_chat : World → World × Reply
  handle_chat v =
      let w = record v { state = record v.state { last_access = a.begins } } in
      prompt_or_refuse (prepared w) (resumes w.state) (turn_prompt (delta w.state))
