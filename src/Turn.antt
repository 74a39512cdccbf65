-- ===== src/Turn.antt =====
-- The active turn of internal/gateway/active_turn.go: what outlives one HTTP exchange while the agent
-- waits for tool results. Each method runs under the turn's mutex, so a method is one step. The
-- contexts are the field `cause`, and a call's result channel, which has room for the one result that
-- is sent to it, is an entry of `answers`.
pub mod Answers
pub mod Accepts
pub mod Steps
mod Tests
use agentrun_openai.Prelude.{
  ℕ, ◌≡◌, Bool, true, false, not, ◌&&◌, ◌||◌, List, [], ◌∷◌, ◌++◌, Option, none, some,
  if◌then◌else◌, ◌==◌, ◌<◌, length,
}
use agentrun_openai.Prelude.Text.{Text, codes, is_empty, member}
use agentrun_openai.Prelude.Dict.{Dict, lookup, insert, remove, adjust}
use agentrun_openai.Types.{
  ToolCall, CalledFunction, ToolPolicy, forbids, TranscriptMessage, role_eq, tool, GoError,
  formatted, plain,
}
use agentrun_openai.Stream.{Message}

pub data TurnEvent : Type 0 where
  said : Message → TurnEvent
  called : ToolCall → TurnEvent
  done : Option GoError → TurnEvent

pub record PendingCall : Type 0 where
  pub call : ToolCall
  pub delivered : Bool

pub record ActiveTurn : Type 0 where
  pub cause : Option GoError
  pub events : List TurnEvent
  pub pending : Dict PendingCall
  pub answers : List (Text × Text)
  pub policy : ToolPolicy
  pub saw_delta : Bool
  pub saw_thinking : Bool

unfoldable pub new_active_turn : Option GoError → ToolPolicy → ActiveTurn
new_active_turn parent policy = record {
  cause = parent;
  events = [];
  pending = [];
  answers = [];
  policy = policy;
  saw_delta = false;
  saw_thinking = false;
}

-- The room of the channel `events`.
abbrev pub event_room : ℕ
event_room = 64

-- `emit` waits for either case of its `select`, and takes any that is ready.
pub data Emits (t : ActiveTurn) (e : TurnEvent) : ActiveTurn → Option GoError → Type 0 where
  stopped : (c : GoError) → t.cause ≡ some c → Emits t e t (some c)
  queued :
      length t.events < event_room → Emits t e (record t { events = t.events ++ (e ∷ []) }) none

-- The front of `call`, up to the emission: the check of the arguments, which `raw` is the canonical
-- form of, the check of the policy, and the new entry under a random ID.
pub data Registered : Type 0 where
  refused : GoError → Registered
  registered : ToolCall → ActiveTurn → Registered

abbrev pub is_object : Option Text → Option Text
is_object none = none
is_object (some []) = none
is_object (some (c ∷ raw)) = if c == b'{' then some (c ∷ raw) else none

abbrev pub call_of : Text → Text → Text → ToolCall
call_of id name raw = record {
  id = id;
  kind = codes "function";
  function = record { name = name; arguments = raw };
}

abbrev pub register_raw : Option Text → Text → Text → ActiveTurn → Registered
register_raw none id name t = refused (plain (codes "tool arguments must be a JSON object"))
register_raw (some raw) id name t =
    if forbids t.policy name
    then refused (formatted (codes "tool %q is disallowed by tool_choice") (name ∷ []))
    else registered (call_of id name raw) (record t {
      pending = insert id (record { call = call_of id name raw; delivered = false }) t.pending;
    })

unfoldable pub register : Option Text → Text → Text → ActiveTurn → Registered
register raw id name t = register_raw (is_object raw) id name t

abbrev pub mark_delivered : PendingCall → PendingCall
mark_delivered p = record p { delivered = true }

unfoldable pub deliver : Text → ActiveTurn → ActiveTurn
deliver id t = record t { pending = adjust id mark_delivered t.pending }

-- `cancel` of a context with a cause: the first cause stays.
abbrev pub first_cause : Option GoError → GoError → Option GoError
first_cause none e = some e
first_cause (some c) e = some c

unfoldable pub cancel : GoError → ActiveTurn → ActiveTurn
cancel e t = record t { cause = first_cause t.cause e }

-- `resolve`. `panics` is the nil dereference that a missing entry would be at the release.
pub data Outcome : Type 0 where
  refused : GoError → Outcome
  resolved : ActiveTurn → Outcome
  panics : Outcome

abbrev pub is_delivered : Option PendingCall → Bool
is_delivered none = false
is_delivered (some p) = p.delivered

-- The first loop: the IDs of the messages, or the ID of the first that does not fit.
pub data Seen : Type 0 where
  seen : List Text → Seen
  unfit : Text → Seen

-- The first loop's test of a message.
abbrev pub fits : Dict PendingCall → List Text → TranscriptMessage → Bool
fits pending ids m =
    role_eq m.role tool
    && is_delivered (lookup m.tool_call_id pending)
    && not (member m.tool_call_id ids)

unfoldable pub seen_ids : Dict PendingCall → List Text → List TranscriptMessage → Seen
seen_ids pending ids [] = seen ids
seen_ids pending ids (m ∷ ms) =
    let rest = seen_ids pending (m.tool_call_id ∷ ids) ms in
    if fits pending ids m then rest else unfit m.tool_call_id

-- The second loop: a delivered call with no result among those seen.
unfoldable pub first_missing : List Text → Dict PendingCall → Option Text
first_missing ids [] = none
first_missing ids ((id, p) ∷ m) =
    if p.delivered && not (member id ids) then some id else first_missing ids m

-- The third loop.
unfoldable pub release : List TranscriptMessage → ActiveTurn → Outcome
release [] t = resolved t
release (m ∷ ms) t =
    let rest = release ms (record t {
      pending = remove m.tool_call_id t.pending;
      answers = t.answers ++ ((m.tool_call_id, m.content) ∷ []);
    }) in
    elim (lookup m.tool_call_id t.pending) [ none ↦ panics | some p ↦ rest ]

abbrev pub resolve_missing :
    Option Text → List TranscriptMessage → ToolPolicy → ActiveTurn → Outcome
resolve_missing (some id) ms policy t =
    refused (formatted (codes "missing tool result for %q") (id ∷ []))
resolve_missing none ms policy t = release ms (record t { policy = policy })

abbrev pub resolve_seen : Seen → List TranscriptMessage → ToolPolicy → ActiveTurn → Outcome
resolve_seen (unfit id) ms policy t =
    refused (formatted (codes "unknown, duplicate or undelivered tool_call_id %q") (id ∷ []))
resolve_seen (seen []) ms policy t = refused (plain (codes "active turn requires tool results"))
resolve_seen (seen (id ∷ ids)) ms policy t =
    resolve_missing (first_missing (id ∷ ids) t.pending) ms policy t

abbrev pub resolve_running :
    Option GoError → List TranscriptMessage → ToolPolicy → ActiveTurn → Outcome
resolve_running (some c) ms policy t = refused c
resolve_running none ms policy t = resolve_seen (seen_ids t.pending [] ms) ms policy t

unfoldable pub resolve : List TranscriptMessage → ToolPolicy → ActiveTurn → Outcome
resolve ms policy t = resolve_running t.cause ms policy t
