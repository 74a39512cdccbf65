-- ===== src/Chat/Tests.antt =====
-- Conversations with `handleChat`.
use agentrun_openai.Prelude.{
  ◌≡◌, refl, inl, inr, ℕ, Bool, true, false, List, [], ◌∷◌, ◌++◌, some, none,
}
use agentrun_openai.Prelude.Text.{Text, codes, trim_space}
use agentrun_openai.Prelude.Dict.{lookup}
use agentrun_openai.Types.{
  TranscriptMessage, Role, user, assistant, role_name, plain, GoError, session_not_found, Result,
  ok, err,
}
use agentrun_openai.History.{turn_prompt, filtered, ends_with_user, last_user, render, has_prefix}
use agentrun_openai.Models.{no_route}
use agentrun_openai.Session.{new_state, matches_history_prefix, stops_process}
use agentrun_openai.Session.Store.{missing}
use agentrun_openai.Stream.{Message, text, start_stream, new_collector, write_chunk}
use agentrun_openai.Chat.{
  World, answered, is_missing_native_session, is_session_not_found, StartRequest,
}
use agentrun_openai.Chat.Recorded.{Synced}
use agentrun_openai.Chat.Exchange.{Answer, listen, Exchange, Agent, handle_chat, conclude, finished}
use agentrun_openai.Chat.Known.{
  touched, heard, handle_chat_continues, handle_chat_remembers, transcript,
}
use agentrun_openai.Chat.Lost.{Dormant}
use agentrun_openai.Chat.Resumed.{Told, first_heard, handle_chat_restarts, failed_turn_resumes}
use agentrun_openai.Chat.Rerun.{heard_again, handle_chat_reruns}
use agentrun_openai.Session.Eviction.{ending}

abbrev says : Role → Text → TranscriptMessage
says r t = record { tool_calls = []; tool_call_id = []; role = r; content = t }

abbrev known : List TranscriptMessage
known = says user (codes "hi") ∷ says assistant (codes "hello") ∷ []

abbrev news : List TranscriptMessage
news = says user (codes "bye") ∷ []

abbrev constant_hash : List TranscriptMessage → Text
constant_hash ms = codes "x"

abbrev no_text : GoError → Text
no_text e = []

abbrev exchange : Exchange
exchange = record {
  messages = known ++ news;
  key = codes "a:m";
  cwd = codes "/work";
  model = codes "m";
  route = no_route;
  stream = true;
  id = codes "chatcmpl-1";
  created = 0;
  w = record { flusher = true; headers = []; frames = [] };
}

abbrev reply_text : Message
reply_text = record {
  kind = text;
  content = codes "see you";
  init_model = none;
  resume_id = [];
  usage = none;
}

-- An agent that answers, one that fails, and one that has lost its native sessions.
abbrev speaker : Agent
speaker = record {
  start = λ again r. ok 8;
  turn = λ again first p prompt. record { heard = (5, some reply_text) ∷ []; failed = none };
  delete_fault = none;
  save_fault = none;
  heartbeat = 0;
  begins = 1;
  ends = 9;
}

abbrev crasher : Agent
crasher = record speaker {
  turn = λ again first p prompt. record { heard = []; failed = some (plain (codes "exit 1")) };
}

abbrev forget : Bool → StartRequest → Result ℕ
forget false r = err session_not_found
forget true r = ok 8

abbrev forgetful : Agent
forgetful = record speaker { start = forget }

abbrev live : World
live = record {
  state = record (new_state 0) {
    process = some 7;
    history = some known;
    history_count = 2;
    history_hash = codes "x";
    resume_id = codes "native-1";
    cwd = codes "/work";
  };
  store = record { path = codes "/s.json"; records = []; file = missing };
  effects = [];
}

news_prompt : turn_prompt news ≡ ok (codes "bye")
unfolding turn_prompt ends_with_user filtered last_user trim_space
news_prompt = refl

handle_chat_continues_example :
    handle_chat constant_hash no_text speaker exchange live
    ≡ conclude constant_hash no_text speaker exchange (
        heard constant_hash no_text speaker exchange false false 7
          (codes "bye")
          (touched constant_hash no_text speaker exchange live)
          false)
handle_chat_continues_example =
    handle_chat_continues constant_hash no_text speaker exchange live known news 7 (codes "bye")
      refl refl refl refl news_prompt refl

abbrev seen_you : List TranscriptMessage
seen_you = known ++ (news ++ (says assistant (codes "see you") ∷ []))

handle_chat_remembers_example :
    let (after, reply) = handle_chat constant_hash no_text speaker exchange live in
    let c =
      (heard constant_hash no_text speaker exchange false false 7
        (codes "bye")
        (touched constant_hash no_text speaker exchange live)
        false).collector in
    (reply ≡ answered (finished constant_hash no_text speaker exchange c))
    × (after.state.process ≡ some 7)
    × (after.state.cwd ≡ codes "/work")
    × (after.state.history ≡ some (transcript constant_hash no_text speaker exchange c))
    × ((ms : List TranscriptMessage)
        → matches_history_prefix constant_hash after.state ms
          ≡ has_prefix ms (transcript constant_hash no_text speaker exchange c))
handle_chat_remembers_example =
    handle_chat_remembers constant_hash no_text speaker exchange live known news 7 (codes "bye")
      refl refl refl refl news_prompt refl refl

-- An agent that starts only where it is asked to resume this native session.
abbrev resume_only : Bool → StartRequest → Result ℕ
resume_only again r = elim r.resume_id [ none ↦ err session_not_found | some id ↦ ok 9 ]

abbrev resumer : Agent
resumer = record speaker { start = resume_only }

failed_turn_resumes_example :
    let lost = (handle_chat constant_hash no_text crasher exchange live).0 in
    let stopped = stops_process 7 ∷ [] in
    (lost.state.process ≡ none)
    × (lost.effects ≡ stopped)
    × Told constant_hash no_text resumer exchange
        (codes "native-1")
        stopped
        9
        (first_heard constant_hash no_text resumer exchange true 9 (codes "bye"))
        (handle_chat constant_hash no_text resumer exchange lost)
failed_turn_resumes_example =
    failed_turn_resumes constant_hash no_text crasher resumer exchange exchange live known news news
      7 9 (codes "bye") (codes "bye") (plain (codes "exit 1")) refl refl refl refl news_prompt refl
      (refl, refl) refl refl refl refl refl refl news_prompt refl refl refl

-- The session after a restart of the gateway.
abbrev slept : World
slept = record live { state = record live.state { process = none; history = none } }

slept-Dormant : Dormant constant_hash no_text forgetful exchange known slept.state
slept-Dormant = record {
  no_process = refl;
  no_history = refl;
  counted = refl;
  printed = refl;
  native = refl;
  place = refl;
}

abbrev whole : Text
whole = codes "Conversation context:\n\n[user]\nhi\n\n[assistant]\nhello\n\n[user]\nbye\n"

whole_prompt : turn_prompt (known ++ news) ≡ ok whole
unfolding turn_prompt ends_with_user filtered last_user trim_space render role_name
whole_prompt = refl

handle_chat_restarts_example :
    let r = handle_chat constant_hash no_text forgetful exchange slept in
    Told constant_hash no_text forgetful exchange []
      (slept.effects ++ ending slept.state)
      8
      (first_heard constant_hash no_text forgetful exchange false 8 whole)
      r
    × (r.0.state.active ≡ none)
    × (r.0.state.facade ≡ none)
    × (r.0.state.tool_hash ≡ [])
    × (r.0.state.turn_err ≡ none)
unfolding is_missing_native_session is_session_not_found
handle_chat_restarts_example =
    handle_chat_restarts constant_hash no_text forgetful exchange slept known news 8 (codes "bye")
      whole session_not_found slept-Dormant refl refl refl news_prompt whole_prompt refl refl refl
      refl refl

-- An agent whose native session turns out to be missing in its first turn.
abbrev vanish_start : Bool → StartRequest → Result ℕ
vanish_start again r = elim r.resume_id [ none ↦ ok 9 | some id ↦ ok 8 ]

abbrev vanish_turn : Bool → Bool → ℕ → Text → Answer
vanish_turn false first p prompt = record { heard = []; failed = some session_not_found }
vanish_turn true first p prompt = record { heard = (5, some reply_text) ∷ []; failed = none }

abbrev vanishing : Agent
vanishing = record speaker { start = vanish_start; turn = vanish_turn }

handle_chat_reruns_example :
    Told constant_hash no_text vanishing exchange []
      (slept.effects ++ ending (record slept.state { process = some 8 }))
      9
      (heard_again constant_hash no_text vanishing exchange
        (first_heard constant_hash no_text vanishing exchange true 8 (codes "bye"))
        9
        whole)
      (handle_chat constant_hash no_text vanishing exchange slept)
unfolding is_missing_native_session is_session_not_found listen start_stream new_collector
    write_chunk
handle_chat_reruns_example =
    handle_chat_reruns constant_hash no_text vanishing exchange slept known news 8 9 (codes "bye")
      whole session_not_found
      (record {
        no_process = refl;
        no_history = refl;
        counted = refl;
        printed = refl;
        native = refl;
        place = refl;
      })
      refl refl refl news_prompt whole_prompt refl refl refl refl refl refl refl

live-Synced : Synced constant_hash exchange.key live
unfolding lookup
live-Synced = record {
  counted = (refl, refl);
  recorded = inl refl;
  store_ok = inr (refl, tt, λ j. refl);
}
