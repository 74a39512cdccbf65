-- ===== src/ToolChat/Tests.antt =====
-- A turn with one tool call, its result, and its end.
use agentrun_openai.Prelude.{
  ◌≡◌, refl, inl, inr, true, false, List, [], ◌∷◌, ◌++◌, arith, some, none, Option,
}
use agentrun_openai.Prelude.Text.{Text, codes, text_eq, text_eq_iff, trim_space, member}
use agentrun_openai.Prelude.Dict.{lookup, insert}
use agentrun_openai.Types.{
  TranscriptMessage, Role, user, assistant, tool, canceled, ok, ToolPolicy, named, auto,
}
use agentrun_openai.History.{turn_prompt, filtered, ends_with_user, last_user}
use agentrun_openai.Models.{no_route}
use agentrun_openai.Session.{
  cleared, LiveTurn, new_state, matches_history_prefix, matches_fingerprint,
}
use agentrun_openai.Session.Store.{
  missing, stored, PersistedSession, new_session_store, valid_records,
}
use agentrun_openai.Turn.{ActiveTurn, new_active_turn, call_of, called, is_delivered}
use agentrun_openai.Turn.Answers.{answers_of}
use agentrun_openai.Turn.Accepts.{Complete}
use agentrun_openai.Chat.{World, Reply, refused, clear_session}
use agentrun_openai.Chat.Recorded.{Synced}
use agentrun_openai.Chat.Exchange.{Exchange}
use agentrun_openai.ToolChat.{
  ToolAgent, ToolExchange, Entry, attached, turned_away, crashed, enter, enter_prompt, has_tool,
}
use agentrun_openai.ToolChat.Ending.{handle_tool_chat, set_turn}
use agentrun_openai.ToolChat.Select.{loop, awake, moved, event_taken}
use agentrun_openai.ToolChat.Calls.{Over, handle_tool_chat-Over}
use agentrun_openai.ToolChat.Unsaved.{handle_tool_chat_forgotten}
use agentrun_openai.Session.Durable.{IsSound, reopened}
use agentrun_openai.Session.Registry.{restored}
use agentrun_openai.ToolChat.Results.{Waiting, tool_results_resolve}

abbrev says : Role → Text → TranscriptMessage
says r t = record { tool_calls = []; tool_call_id = []; role = r; content = t }

abbrev no_hash : List TranscriptMessage → Text
no_hash ms = codes "x"

abbrev question : List TranscriptMessage
question = says user (codes "hi") ∷ []

abbrev base : Exchange
base = record {
  messages = question;
  key = codes "a:m";
  cwd = codes "/work";
  model = codes "m";
  route = no_route;
  stream = false;
  id = codes "chatcmpl-1";
  created = 0;
  w = record { flusher = true; headers = []; frames = [] };
}

abbrev must_look : ToolPolicy
must_look = record { mode = named; name = codes "look" }

abbrev first_exchange : ToolExchange
first_exchange = record { base = base; tool_hash = codes "t"; has_tools = true; policy = must_look }

-- The turn after the agent has called the tool.
abbrev calling : ActiveTurn
calling = record (new_active_turn none must_look) {
  events = called (call_of (codes "c1") (codes "look") (codes "{}")) ∷ [];
  pending =
      (
        codes "c1",
        record { call = call_of (codes "c1") (codes "look") (codes "{}"); delivered = false },
      )
      ∷ [];
}

abbrev agent : ToolAgent
agent = record {
  start = λ r. ok 8;
  bridge = ok 3;
  turn_serial = 4;
  wakes = (1, moved calling) ∷ (2, event_taken) ∷ [];
  delete_fault = none;
  end_fault = none;
  heartbeat = 0;
  begins = 1;
  ends = 9;
}

abbrev empty_world : World
empty_world = record {
  state = new_state 0;
  store = record { path = codes "/s.json"; records = []; file = missing };
  effects = [];
}

empty_world-Synced : Synced no_hash base.key empty_world
unfolding lookup
empty_world-Synced = record {
  counted = tt;
  recorded = inl refl;
  store_ok = inr (refl, tt, λ j. refl);
}

-- The world and the turn that a request is attached to, and how an exchange ended.
abbrev world_of : Entry → World
world_of (attached w live) = w
world_of (turned_away w r) = w
world_of (crashed w) = w

abbrev turn_of : Entry → LiveTurn
turn_of (attached w live) = live
turn_of (turned_away w r) = record { serial = 0; turn = calling }
turn_of (crashed w) = record { serial = 0; turn = calling }

abbrev end_of : Option (World × Reply) → World × Reply
end_of none = (empty_world, refused 0 canceled [] [])
end_of (some r) = r

abbrev begun : Entry
begun = enter no_hash agent first_exchange empty_world

abbrev ended : World × Reply
ended = end_of (handle_tool_chat no_hash agent first_exchange empty_world)

begins : begun ≡ attached (world_of begun) (turn_of begun)
unfolding enter enter_prompt has_tool turn_prompt ends_with_user filtered last_user trim_space
    matches_history_prefix text_eq clear_session cleared
begins = refl

ends : handle_tool_chat no_hash agent first_exchange empty_world ≡ some ended
unfolding handle_tool_chat enter enter_prompt has_tool turn_prompt ends_with_user filtered last_user
    trim_space matches_history_prefix text_eq clear_session cleared loop awake
ends = refl

handle_tool_chat-Over_example : Over no_hash agent first_exchange ended
handle_tool_chat-Over_example =
    handle_tool_chat-Over no_hash agent first_exchange empty_world (world_of begun) (turn_of begun)
      ended begins ends

-- A session that an ordinary turn saved, with its record in the file, gets a request with tools.
abbrev before : PersistedSession
before = record {
  resume_id = codes "native";
  cwd = codes "/work";
  history_count = 1;
  history_hash = codes "x";
}

abbrev saved_world : World
saved_world = record {
  state = restored 0 before;
  store = record {
    path = codes "/s.json";
    records = (base.key, before) ∷ [];
    file = stored 1 ((base.key, before) ∷ []);
  };
  effects = [];
}

saved_world-IsSound : IsSound saved_world.store
unfolding lookup text_eq
saved_world-IsSound = (refl, (refl, tt), λ j. ground (arith, text_eq_iff base.key j))

abbrev from_saved : Entry
from_saved = enter no_hash agent first_exchange saved_world

abbrev saved_ended : World × Reply
saved_ended = end_of (handle_tool_chat no_hash agent first_exchange saved_world)

saved_begins : from_saved ≡ attached (world_of from_saved) (turn_of from_saved)
unfolding enter enter_prompt has_tool turn_prompt ends_with_user filtered last_user trim_space
    matches_history_prefix matches_fingerprint text_eq clear_session cleared
saved_begins = refl

saved_ends : handle_tool_chat no_hash agent first_exchange saved_world ≡ some saved_ended
unfolding handle_tool_chat enter enter_prompt has_tool turn_prompt ends_with_user filtered last_user
    trim_space matches_history_prefix matches_fingerprint text_eq clear_session cleared loop awake
saved_ends = refl

handle_tool_chat_forgotten_example :
    (lookup base.key saved_ended.0.store.records ≡ none)
    × (lookup base.key (reopened saved_ended.0.store).records ≡ none)
unfolding new_session_store valid_records lookup insert text_eq
handle_tool_chat_forgotten_example =
    handle_tool_chat_forgotten no_hash agent first_exchange refl refl saved_world
      (world_of from_saved) (turn_of from_saved) saved_ended saved_world-IsSound refl saved_begins
      saved_ends

-- The result comes back.
abbrev waiting : LiveTurn
waiting = record {
  serial = 4;
  turn = record (new_active_turn none must_look) {
    pending =
        (
          codes "c1",
          record { call = call_of (codes "c1") (codes "look") (codes "{}"); delivered = true },
        )
        ∷ [];
  };
}

abbrev asked : List TranscriptMessage
asked =
    question
    ++ (record (says assistant []) {
      tool_calls = call_of (codes "c1") (codes "look") (codes "{}") ∷ [];
    }
        ∷ [])

abbrev results : List TranscriptMessage
results = record (says tool (codes "42")) { tool_call_id = codes "c1" } ∷ []

abbrev second_exchange : ToolExchange
second_exchange = record first_exchange {
  base = record base { messages = asked ++ results };
  policy = record { mode = auto; name = [] };
}

abbrev waiting_world : World
waiting_world = record empty_world {
  state = record (new_state 0) {
    active = some waiting;
    history = some asked;
    cwd = codes "/work";
    tool_hash = codes "t";
    process = some 8;
  };
}

results-Complete : Complete results waiting.turn
unfolding new_active_turn lookup text_eq member
results-Complete = record {
  running = refl;
  given = λ e. cc;
  answering = ((refl, refl), tt);
  distinct = (refl, tt);
  covering = λ id d. ground arith;
}

waiting-Waiting : Waiting no_hash agent second_exchange asked waiting waiting_world.state
waiting-Waiting = record { active = refl; history = refl; place = refl; tools = refl }

tool_results_resolve_example :
    (t : ActiveTurn) × (enter no_hash agent second_exchange waiting_world
      ≡ attached
          (set_turn no_hash agent second_exchange
            (some (record waiting { turn = t }))
            waiting_world)
          (record waiting { turn = t }))
    × (t.answers ≡ waiting.turn.answers ++ answers_of results)
    × (t.policy ≡ second_exchange.policy)
    × ((id : Text) → is_delivered (lookup id t.pending) ≡ false)
unfolding new_active_turn lookup
tool_results_resolve_example =
    tool_results_resolve no_hash agent second_exchange waiting_world asked results waiting
      waiting-Waiting refl refl (refl, tt) results-Complete
