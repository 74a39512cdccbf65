-- ===== src/Session.antt =====
-- A session of internal/gateway/registry.go: its state, how it is stopped, and how its history is
-- compared with the messages of a request. `transcriptHash`, SHA-256 over the JSON of the messages, is
-- the parameter `hash`. Processes and facades are handles; what happens to them outside the state is
-- a list of effects, in order.
pub mod Store
pub mod Registry
pub mod Resume
pub mod Durable
pub mod Contract
pub mod Eviction
mod Tests
use agentrun_openai.Prelude.{
  ℕ, Bool, true, false, not, ◌&&◌, ◌||◌, List, [], ◌∷◌, ◌++◌, Option, none, some, if◌then◌else◌,
  ◌==◌, ltb, length, take,
}
use agentrun_openai.Prelude.Text.{Text, is_empty, text_eq}
use agentrun_openai.Types.{TranscriptMessage, GoError, canceled}
use agentrun_openai.History.{has_prefix}
use agentrun_openai.Turn.{ActiveTurn}

-- A turn in progress; the serial tells one turn's pointer from another's.
pub record LiveTurn : Type 0 where
  pub serial : ℕ
  pub turn : ActiveTurn

-- A facade: whether its context is still alive, and the serial of the turn that it is bound to.
pub record Facade : Type 0 where
  pub serial : ℕ
  pub alive : Bool
  pub bound : Option ℕ

pub record SessionState : Type 0 where
  pub active : Option LiveTurn
  pub facade : Option Facade
  pub tool_hash : Text
  pub turn_err : Option GoError
  pub locked : Bool
  pub process : Option ℕ
  pub history : Option (List TranscriptMessage)
  pub history_count : ℕ
  pub history_hash : Text
  pub resume_id : Text
  pub cwd : Text
  pub last_access : ℕ

abbrev pub new_state : ℕ → SessionState
new_state now = record {
  active = none;
  facade = none;
  tool_hash = [];
  turn_err = none;
  locked = false;
  process = none;
  history = none;
  history_count = 0;
  history_hash = [];
  resume_id = [];
  cwd = [];
  last_access = now;
}

pub data Effect : Type 0 where
  cancels_turn : ℕ → GoError → Effect
  closes_facade : ℕ → Effect
  stops_process : ℕ → Effect
  awaits_turn : ℕ → Effect

abbrev pub cancel_of : Option LiveTurn → List Effect
cancel_of none = []
cancel_of (some t) = cancels_turn t.serial canceled ∷ []

abbrev pub close_of : Option Facade → List Effect
close_of none = []
close_of (some f) = closes_facade f.serial ∷ []

abbrev pub stop_of : Option ℕ → List Effect
stop_of none = []
stop_of (some p) = stops_process p ∷ []

abbrev pub await_of : Option LiveTurn → List Effect
await_of none = []
await_of (some t) = awaits_turn t.serial ∷ []

-- `stop`: the turn is cancelled, the facade closed, the process stopped and the turn awaited.
unfoldable pub stop : SessionState → SessionState × List Effect
stop s = (
  record s { active = none; facade = none; process = none },
  cancel_of s.active ++ (close_of s.facade ++ (stop_of s.process ++ await_of s.active)),
)

abbrev pub count_of : Option (List TranscriptMessage) → ℕ → ℕ
count_of none count = count
count_of (some h) count = length h

unfoldable pub persisted_history_count : SessionState → ℕ
persisted_history_count s = count_of s.history s.history_count

module _ (hash : List TranscriptMessage → Text) where
  -- The comparison by count and fingerprint.
  unfoldable pub matches_fingerprint : ℕ → Text → List TranscriptMessage → Bool
  matches_fingerprint count fingerprint ms =
      if count == 0 || ltb (length ms) count || is_empty fingerprint
      then false
      else text_eq (hash (take count ms)) fingerprint

  abbrev pub matches_as : Option (List TranscriptMessage) → ℕ → Text → List TranscriptMessage → Bool
  matches_as (some h) count fingerprint ms = has_prefix ms h
  matches_as none count fingerprint ms = matches_fingerprint count fingerprint ms

  unfoldable pub matches_history_prefix : SessionState → List TranscriptMessage → Bool
  matches_history_prefix s ms = matches_as s.history s.history_count s.history_hash ms

  -- What both handlers do to the history at the end of a turn that went well.
  unfoldable pub remember : List TranscriptMessage → TranscriptMessage → SessionState → SessionState
  remember ms answer s = record s {
    history = some (ms ++ (answer ∷ []));
    history_count = length (ms ++ (answer ∷ []));
    history_hash = hash (ms ++ (answer ∷ []));
  }

-- The fields that `clearSession` of internal/gateway/server.go resets, behind `stop`.
unfoldable pub cleared : SessionState → SessionState
cleared s = record (stop s).0 {
  tool_hash = [];
  turn_err = none;
  process = none;
  history = none;
  history_count = 0;
  history_hash = [];
  resume_id = [];
}
