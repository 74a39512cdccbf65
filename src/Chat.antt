-- ===== src/Chat.antt =====
-- What the chat handlers of internal/gateway/server.go share: the session under the request's key with
-- the store and the effects so far, the clearing of a session, the errors that mean a lost native
-- session, and the request to an agent. `show` is the text of an error.
pub mod Exchange
pub mod Recorded
pub mod Ready
pub mod Known
pub mod Lost
pub mod Resumed
pub mod Rerun
pub mod Synced
mod Tests
use agentrun_openai.Prelude.{
  ℕ, Bool, true, false, not, ◌&&◌, ◌||◌, List, [], ◌∷◌, ◌++◌, Option, none, some, if◌then◌else◌,
}
use agentrun_openai.Prelude.Text.{Text, codes, is_empty, to_lower, contains}
use agentrun_openai.Types.{
  TranscriptMessage, GoError, formatted, wrapped, canceled, deadline_exceeded, session_not_found,
  discovery_unsupported, foreign, Result,
}
use agentrun_openai.Session.{SessionState, Effect, stop, cleared, stop_of}
use agentrun_openai.Session.Store.{SessionStore, Fault, delete}
use agentrun_openai.Stream.{Collector, Message}

pub record World : Type 0 where
  pub state : SessionState
  pub store : SessionStore
  pub effects : List Effect

-- `clearSession`; an error of the store is only logged.
unfoldable pub clear_session : Option Fault → Text → World → World
clear_session fault key w = record {
  state = cleared w.state;
  store = (delete fault key w.store).0;
  effects = w.effects ++ (stop w.state).1;
}

-- `errors.Is` with `ErrSessionNotFound` and with `context.DeadlineExceeded`.
unfoldable pub is_session_not_found : GoError → Bool
is_session_not_found session_not_found = true
is_session_not_found (wrapped f args e) = is_session_not_found e
is_session_not_found (formatted f args) = false
is_session_not_found canceled = false
is_session_not_found deadline_exceeded = false
is_session_not_found discovery_unsupported = false
is_session_not_found (foreign t) = false

unfoldable pub is_deadline_exceeded : GoError → Bool
is_deadline_exceeded deadline_exceeded = true
is_deadline_exceeded (wrapped f args e) = is_deadline_exceeded e
is_deadline_exceeded (formatted f args) = false
is_deadline_exceeded canceled = false
is_deadline_exceeded session_not_found = false
is_deadline_exceeded discovery_unsupported = false
is_deadline_exceeded (foreign t) = false

unfoldable pub contains_one_of : List Text → Text → Bool
contains_one_of [] message = false
contains_one_of (marker ∷ markers) message =
    contains message marker || contains_one_of markers message

abbrev pub missing_markers : List Text
missing_markers =
    codes "no conversation found"
    ∷ codes "session not found"
    ∷ codes "could not find session"
    ∷ codes "unknown session"
    ∷ []

unfoldable pub is_missing_native_session : (GoError → Text) → GoError → Bool
is_missing_native_session show e =
    is_session_not_found e || contains_one_of missing_markers (to_lower (show e))

-- `agentrun.Session`: HITL is off in every request; `none` is an option left out. The MCP server is the
-- facade's, by its serial.
pub record StartRequest : Type 0 where
  pub cwd : Text
  pub model : Text
  pub prompt : Text
  pub resume_id : Option Text
  pub system_prompt : Option Text
  pub mcp_server : Option ℕ

abbrev pub unless_empty : Text → Option Text
unless_empty [] = none
unless_empty (c ∷ s) = some (c ∷ s)

-- What the client gets: an error response or the collector's.
pub data Reply : Type 0 where
  refused : ℕ → GoError → Text → Text → Reply
  answered : Collector → Reply

abbrev pub invalid_request : ℕ → GoError → Text → Reply
invalid_request status e code = refused status e (codes "invalid_request_error") code

abbrev pub server_error : ℕ → GoError → Text → Reply
server_error status e code = refused status e (codes "server_error") code

-- The status of a turn that failed before anything was written.
abbrev pub failure_status : GoError → ℕ
failure_status e = if is_deadline_exceeded e then 504 else 502
