-- ===== src/Session/Tests.antt =====
-- Sessions and stores for registry.go and session_store.go.
use agentrun_openai.Prelude.{
  ◌≡◌, refl, ap, ◌∙◌, true, false, ◌&&◌, List, [], ◌∷◌, ◌++◌, arith, some, none, if◌then◌else◌,
  ◌==◌, length,
}
use agentrun_openai.Prelude.Text.{Text, codes, is_empty, text_eq}
use agentrun_openai.Prelude.Dict.{Dict, lookup, insert}
use agentrun_openai.Types.{TranscriptMessage, Role, user, assistant, plain}
use agentrun_openai.History.{has_prefix}
use agentrun_openai.History.Prefix.{has_prefix_iff}
use agentrun_openai.Session.{
  SessionState, new_state, matches_history_prefix, remember, persisted_history_count,
}
use agentrun_openai.Session.Store.{
  is_valid, PersistedSession, missing, stored, SessionStore, Fault, put, delete, fault_error,
}
use agentrun_openai.Session.Registry.{saved, Registry, evict_idle, new_registry}
use agentrun_openai.Session.Contract.{
  StoreCall, puts, deletes, restarts, run_store, run_spec, Shows, view,
}
use agentrun_openai.Session.Contract.Refines.{store_refines}
use agentrun_openai.Session.Durable.{IsSound, put-IsSound, delete_forgotten}
use agentrun_openai.Session.Resume.{Unmistaken, restart_resumes}
use agentrun_openai.Session.Eviction.{Left, Stopped, evict_idle_lem}

abbrev says : Role → Text → TranscriptMessage
says r t = record { tool_calls = []; tool_call_id = []; role = r; content = t }

abbrev asked : List TranscriptMessage
asked = says user (codes "hi") ∷ []

abbrev answer : TranscriptMessage
answer = says assistant (codes "hello")

-- A fingerprint that marks one transcript.
abbrev marking : List TranscriptMessage → Text
marking ms =
    if has_prefix ms (asked ++ (answer ∷ [])) && (length ms == 2) then codes "x" else codes "y"

marking-filled : (ms : List TranscriptMessage) → is_empty (marking ms) ≡ false
marking-filled ms = ground arith

marking_x :
    (ms : List TranscriptMessage)
    → marking ms ≡ codes "x"
    → (has_prefix ms (asked ++ (answer ∷ [])) ≡ true) × (length ms ≡ 2)
marking_x ms e = ground arith

rest_empty :
    (ms rest : List TranscriptMessage)
    → length ms ≡ 2
    → ms ≡ asked ++ (answer ∷ []) ++ rest
    → ms ≡ asked ++ (answer ∷ [])
rest_empty ms [] n e = e
rest_empty ms (r ∷ rest) n e = ground (arith, ap length e)

marked : marking (asked ++ (answer ∷ [])) ≡ codes "x"
marked = rw ((has_prefix_iff (asked ++ (answer ∷ [])) (asked ++ (answer ∷ []))).1 ([], refl)) refl

marking-Unmistaken : Unmistaken marking (asked ++ (answer ∷ []))
marking-Unmistaken ms e =
    let (p, n) = marking_x ms (e ∙ marked) in
    let (rest, q) = (has_prefix_iff ms (asked ++ (answer ∷ []))).0 p in rest_empty ms rest n q

abbrev record_one : PersistedSession
record_one = record {
  resume_id = codes "native-1";
  cwd = codes "/work";
  history_count = 2;
  history_hash = codes "x";
}

abbrev empty_store : SessionStore
empty_store = record { path = codes "/s.json"; records = []; file = missing }

abbrev one_store : SessionStore
one_store = record {
  path = codes "/s.json";
  records = (codes "a:m", record_one) ∷ [];
  file = stored 1 ((codes "a:m", record_one) ∷ []);
}

empty_store-IsSound : IsSound empty_store
unfolding lookup
empty_store-IsSound = (refl, tt, λ j. refl)

one_store-IsSound : IsSound one_store
unfolding put insert
one_store-IsSound = put-IsSound none (codes "a:m") record_one empty_store refl empty_store-IsSound

abbrev loaded : Dict PersistedSession
loaded = (codes "a:m", record_one) ∷ (codes "b:m", record record_one { cwd = codes "work" }) ∷ []

abbrev disk_full : Fault
disk_full = Fault.write (plain (codes "no space left on device"))

delete_forgotten_example :
    let (failed, e) = delete (some disk_full) (codes "a:m") one_store in
    (e ≡ some (fault_error disk_full))
    × (delete none (codes "a:m") failed ≡ (failed, none))
    × (failed.file ≡ one_store.file)
unfolding lookup text_eq
delete_forgotten_example =
    delete_forgotten disk_full none (codes "a:m") record_one one_store refl refl

abbrev native : SessionState
native = record (new_state 0) {
  resume_id = codes "native-1";
  cwd = codes "/work";
  process = some 7;
}

restart_resumes_example :
    let before = remember marking asked answer native in
    let file = (put none (codes "b:m") (saved before) one_store).0.file in
    (after : SessionState) × (lookup
        (codes "b:m")
        (new_registry 100 one_store.path file 5).0.sessions
      ≡ some after)
    × (after.process ≡ none)
    × (after.resume_id ≡ before.resume_id)
    × (after.cwd ≡ before.cwd)
    × (persisted_history_count after ≡ persisted_history_count before)
    × ((ns : List TranscriptMessage)
        → matches_history_prefix marking after ns ≡ matches_history_prefix marking before ns)
restart_resumes_example =
    restart_resumes marking marking-filled 100 5 (codes "b:m") one_store asked answer native
      marking-Unmistaken one_store-IsSound refl refl refl

abbrev with_tools : SessionState
with_tools = record native { facade = some (record { serial = 1; alive = true; bound = none }) }

abbrev pool : Registry
pool = record {
  sessions = (codes "a:m", native) ∷ (codes "b:m", with_tools) ∷ [];
  ttl = 100;
  store = one_store;
}

evict_idle_lem_example :
    (after : SessionState) × (lookup (codes "b:m") (evict_idle 200 pool).0.sessions ≡ some after)
    × Left marking false true with_tools after
    × Stopped false with_tools (evict_idle 200 pool).1
unfolding lookup text_eq
evict_idle_lem_example = evict_idle_lem marking 200 pool (codes "b:m") with_tools refl

-- A record is saved, its deletion fails at the write, and the gateway is started again.
abbrev calls : List StoreCall
calls = puts none (codes "b:m") record_one ∷ deletes (some disk_full) (codes "b:m") ∷ restarts ∷ []

record_one-valid : is_valid (codes "b:m") record_one ≡ true
record_one-valid = refl

store_refines_example :
    Shows (run_store calls one_store).0 (run_spec calls (view one_store)).0
    × ((run_store calls one_store).1 ≡ (run_spec calls (view one_store)).1)
store_refines_example =
    store_refines calls one_store (record_one-valid, (tt, (tt, tt))) one_store-IsSound

-- The record is there again.
comes_back : (run_spec calls (view one_store)).0.memory (codes "b:m") ≡ some record_one
unfolding text_eq
comes_back = refl
