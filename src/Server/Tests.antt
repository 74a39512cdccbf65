-- ===== src/Server/Tests.antt =====
-- A request for an allowed directory.
use agentrun_openai.Prelude.{
  ap, ◌∙◌, inl, inr, none, List, suc, pos, ◌≤◌, ◌+◌, arith, ◌≡◌, refl, subst, [], ◌∷◌, true, false,
  ℕ, Option, some,
}
use agentrun_openai.Prelude.Text.{
  Text, codes, text_eq, is_control, byte_len, trim_space, to_lower, trim_left, trim_right, is_space,
  split_on, join, has_prefix,
}
use agentrun_openai.Prelude.Dict.{lookup}
use agentrun_openai.Types.{Result, ok, auto, user, TranscriptMessage, GoError, canceled}
use agentrun_openai.Json.{Json, string}
use agentrun_openai.Tools.{
  normalize_tools, normalize_each, sort_tools, normalize_choice, chosen_policy, tools_hash,
}
use agentrun_openai.Tools.Selection.{policy_of}
use agentrun_openai.Messages.{
  normalize_messages, normalize_from, normalize_message, normalize_calls, role_of,
}
use agentrun_openai.Messages.Content.{text_content}
use agentrun_openai.Models.{Catalog, no_lister, no_route, resolve_model, select_reasoning_effort}
use agentrun_openai.Session.Store.{is_abs}
use agentrun_openai.Server.Paths.{search_roots, relative, components, filled, resolve_allowed_cwd}
use agentrun_openai.Server.{
  Config, ChatRequest, Admitted, pass, admit, affinity_id, valid_session_id, has_control, state_key,
  takes_tools, last_role,
}
use agentrun_openai.Session.{SessionState, new_state}
use agentrun_openai.Session.Store.{missing}
use agentrun_openai.Session.Registry.{Registry}
use agentrun_openai.Server.Lifetime.{
  interval, tick_time, second, minute, Beat, tick, stops, janitor,
}
use agentrun_openai.Server.Janitor.{late_tick, ticks, SweptTo, janitor_evicts, janitor_in_time}
use agentrun_openai.Stream.{Message, text}
use agentrun_openai.Chat.{World, Reply, refused}
use agentrun_openai.Chat.Recorded.{Synced}
use agentrun_openai.Server.Handling.{
  Backing, handle_admitted, handle_checked, handle_request, handle_request-Synced,
}
use agentrun_openai.Server.Admission.{HasPlace, HasRequest, admit-Confined}

abbrev no_links : Text → Result Text
no_links path = ok path

no_links-absolute : (p q : Text) → is_abs p ≡ true → no_links p ≡ ok q → is_abs q ≡ true
no_links-absolute p q a e = subst (λ t. is_abs t ≡ true) (ok-injective e) a
  where
    ok-injective : no_links p ≡ ok q → p ≡ q
    ok-injective h = cc

-- A decoder that takes every text for a string.
abbrev decode : Text → Option Json
decode t = some (string t)

abbrev digest : Text → Text
digest t = t

abbrev digits : ℕ → Text
digits n = []

abbrev config : Config
config = record { default_cwd = codes "/w"; allowed_roots = codes "/w" ∷ [] }

abbrev catalog : Catalog
catalog = record {
  engines = (codes "cc", 1) ∷ [];
  details = [];
  models = codes "cc" ∷ [];
  routes = [];
}

abbrev ask : ChatRequest
ask = record {
  model = codes "cc";
  reasoning_effort = [];
  stream = false;
  tools = [];
  tool_choice = codes "auto";
  messages =
      record { tool_calls = []; tool_call_id = []; role = codes "user"; content = codes "hi" } ∷ [];
  affinity = codes " s1" ∷ [];
  agent_cwd = codes "/w/a";
  random_id = codes "session-1";
  flusher = true;
}

abbrev entered : Admitted
entered = record {
  route = record no_route { engine = some 1; engine_id = codes "cc" };
  tools = record { tools = []; hash = []; policy = policy_of auto [] };
  messages = record { tool_calls = []; tool_call_id = []; role = user; content = codes "hi" } ∷ [];
  session_id = codes "s1";
  key = codes "s1:cc";
  cwd = codes "/w/a";
}

enters : admit no_links decode digest digits (λ id. no_lister) config catalog ask ≡ pass entered
unfolding admit resolve_model lookup text_eq select_reasoning_effort affinity_id valid_session_id
    has_control is_control byte_len trim_space trim_left trim_right is_space resolve_allowed_cwd
    search_roots relative components filled split_on join has_prefix state_key normalize_tools
    normalize_each sort_tools normalize_choice chosen_policy tools_hash normalize_messages
    normalize_from normalize_message normalize_calls role_of text_content to_lower
enters = refl

random_valid : valid_session_id ask.random_id ≡ true
unfolding valid_session_id has_control is_control byte_len
random_valid = refl

admit-Confined_example :
    HasPlace no_links no_links-absolute config ask entered
    × HasRequest no_links no_links-absolute decode ask entered
admit-Confined_example =
    admit-Confined no_links no_links-absolute decode digest digits (λ id. no_lister) config catalog
      ask entered random_valid enters

inside_w : resolve_allowed_cwd no_links (codes "/w/a") (codes "/w" ∷ []) ≡ ok (codes "/w/a", true)
unfolding resolve_allowed_cwd search_roots relative components filled split_on join has_prefix
    text_eq
inside_w = refl

abbrev constant_hash : List TranscriptMessage → Text
constant_hash ms = codes "x"

-- A session with a time to live of four seconds, used at 10 s; the ticker was started at 0.
abbrev idle : SessionState
idle = record (new_state 10000000000) { process = some 3 }

abbrev sessions : Registry
sessions = record {
  sessions = (codes "s1:cc", idle) ∷ [];
  ttl = 4000000000;
  store = record { path = []; records = []; file = missing };
}

-- Told to stop behind a tick in time and a late one.
abbrev beats : List Beat
beats = tick 12000000000 ∷ tick 16000000000 ∷ stops ∷ []

janitor_evicts_example :
    SweptTo constant_hash
      (late_tick 14000000000 beats)
      (codes "s1:cc")
      idle
      (janitor beats sessions)
unfolding lookup text_eq
janitor_evicts_example =
    janitor_evicts constant_hash 3999999999 (codes "s1:cc") idle beats sessions refl refl refl

comes_late : late_tick 14000000000 beats ≡ true
comes_late = refl

janitor_in_time_example :
    (k : ℕ) × SweptTo constant_hash true
      (codes "s1:cc")
      idle
      (janitor (ticks 0 (interval (pos 4000000000)) (suc k)) sessions)
    × (tick_time 0 (interval (pos 4000000000)) (suc k)
        ≤ idle.last_access + 4000000000 + interval (pos 4000000000))
    × (second ≤ interval (pos 4000000000))
    × (interval (pos 4000000000) ≤ minute)
unfolding lookup text_eq
janitor_in_time_example =
    janitor_in_time constant_hash 3999999999 0 (codes "s1:cc") idle sessions refl refl refl
      (omega arith)

-- A request that runs through the gateway, from its checks to its reply.
abbrev no_words : GoError → Text
no_words e = []

abbrev hello : Message
hello = record {
  kind = text;
  content = codes "hello";
  init_model = none;
  resume_id = codes "native-1";
  usage = none;
}

abbrev backing : Backing
backing = record {
  agent = record {
    start = λ again r. ok 8;
    turn = λ again first p prompt. record { heard = (5, some hello) ∷ []; failed = none };
    delete_fault = none;
    save_fault = none;
    heartbeat = 0;
    begins = 1;
    ends = 9;
  };
  tool_agent = record {
    start = λ r. ok 8;
    bridge = ok 3;
    turn_serial = 4;
    wakes = [];
    delete_fault = none;
    end_fault = none;
    heartbeat = 0;
    begins = 1;
    ends = 9;
  };
  id = codes "chatcmpl-1";
  created = 0;
  w = record { flusher = true; headers = []; frames = [] };
}

abbrev world : World
world = record {
  state = new_state 0;
  store = record { path = codes "/s.json"; records = []; file = missing };
  effects = [];
}

world-Synced : Synced constant_hash entered.key world
unfolding lookup
world-Synced = record { counted = tt; recorded = inl refl; store_ok = inr (refl, tt, λ j. refl) }

abbrev end_of : Option (World × Reply) → World × Reply
end_of none = (world, refused 0 canceled [] [])
end_of (some r) = r

abbrev ended : World × Reply
ended = end_of (handle_admitted constant_hash no_words backing ask entered world)

runs : handle_admitted constant_hash no_words backing ask entered world ≡ some ended
unfolding handle_admitted takes_tools last_role
runs = refl

ends :
    handle_request constant_hash no_words backing no_links decode digest digits
      (λ id. no_lister)
      config
      catalog
      ask
      world
    ≡ some ended
unfolding handle_request
ends = ap (λ c. handle_checked constant_hash no_words backing ask c world) enters ∙ runs

handle_request-Synced_example : Synced constant_hash entered.key ended.0
handle_request-Synced_example =
    handle_request-Synced constant_hash no_words backing no_links no_links-absolute decode digest
      digits (λ id. no_lister) config catalog (λ ms. refl) ask entered world ended random_valid
      enters world-Synced ends
