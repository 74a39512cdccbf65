-- ===== src/Session/Registry.antt =====
-- The registry of internal/gateway/registry.go: sessions by key, restored from the store, locked,
-- evicted when idle and closed. A duration is kept as its nanoseconds, and one that is not positive
-- as 0.
use agentrun_openai.Prelude.{
  ℕ, ◌+◌, Bool, true, false, not, ◌&&◌, ◌||◌, List, [], ◌∷◌, ◌++◌, Option, none, some,
  if◌then◌else◌, ◌==◌, ltb,
}
use agentrun_openai.Prelude.Text.{Text}
use agentrun_openai.Prelude.Dict.{Dict, lookup, insert}
use agentrun_openai.Types.{GoError}
use agentrun_openai.Session.{SessionState, new_state, Effect, stop}
use agentrun_openai.Session.Store.{PersistedSession, SessionStore, File, new_session_store}

pub record Registry : Type 0 where
  pub sessions : Dict SessionState
  pub ttl : ℕ
  pub store : SessionStore

abbrev pub restored : ℕ → PersistedSession → SessionState
restored now saved = record (new_state now) {
  resume_id = saved.resume_id;
  cwd = saved.cwd;
  history_count = saved.history_count;
  history_hash = saved.history_hash;
}

unfoldable pub restore_all : ℕ → Dict PersistedSession → Dict SessionState
restore_all now [] = []
restore_all now ((key, saved) ∷ rest) = (key, restored now saved) ∷ restore_all now rest

-- What `handleChat` saves of a session.
abbrev pub saved : SessionState → PersistedSession
saved s = record {
  resume_id = s.resume_id;
  cwd = s.cwd;
  history_count = s.history_count;
  history_hash = s.history_hash;
}

abbrev pub registry_over : ℕ → ℕ → SessionStore × Option GoError → Registry × Option GoError
registry_over ttl now (store, e) =
    (record { sessions = restore_all now store.records; ttl = ttl; store = store }, e)

unfoldable pub new_registry : ℕ → Text → File → ℕ → Registry × Option GoError
new_registry ttl path file now = registry_over ttl now (new_session_store path file)

abbrev pub or_new : ℕ → Option SessionState → SessionState
or_new now none = new_state now
or_new now (some s) = s

-- `lock`: `none` is a wait for the holder of the state's mutex.
unfoldable pub lock : Text → ℕ → Registry → Option (SessionState × Registry)
lock key now r =
    let s = or_new now (lookup key r.sessions) in
    let taken = record s { locked = true } in
    if s.locked then none else some (taken, record r { sessions = insert key taken r.sessions })

abbrev pub is_some {ℓ} : {A : Type ℓ} → Option A → Bool
is_some none = false
is_some (some a) = true

-- The loop over the stale states: a session with tools loses its identity too.
abbrev pub evict : SessionState → SessionState
evict s =
    let stopped = (stop s).0 in
    if is_some s.facade || is_some s.active
    then record stopped {
      history = none;
      history_count = 0;
      history_hash = [];
      resume_id = [];
      tool_hash = [];
      process = none;
    }
    else record stopped { process = none }

abbrev pub is_stale : ℕ → ℕ → SessionState → Bool
is_stale now ttl s = not s.locked && ltb (s.last_access + ttl) now

unfoldable pub evict_all : ℕ → ℕ → Dict SessionState → Dict SessionState
evict_all now ttl [] = []
evict_all now ttl ((key, s) ∷ rest) =
    (key, if is_stale now ttl s then evict s else s) ∷ evict_all now ttl rest

unfoldable pub eviction_effects : ℕ → ℕ → Dict SessionState → List Effect
eviction_effects now ttl [] = []
eviction_effects now ttl ((key, s) ∷ rest) =
    (if is_stale now ttl s then (stop s).1 else []) ++ eviction_effects now ttl rest

unfoldable pub evict_idle : ℕ → Registry → Registry × List Effect
evict_idle now r = if r.ttl == 0 then (r, []) else (
  record r { sessions = evict_all now r.ttl r.sessions },
  eviction_effects now r.ttl r.sessions,
)

unfoldable pub closing_effects : Dict SessionState → List Effect
closing_effects [] = []
closing_effects ((key, s) ∷ rest) = (stop s).1 ++ closing_effects rest

unfoldable pub close : Registry → Registry × List Effect
close r = (record r { sessions = [] }, closing_effects r.sessions)
