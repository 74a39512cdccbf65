-- ===== src/Server.antt =====
-- The front of internal/gateway/server.go: authorization, the routing of a request, and what
-- `handleChat` checks before it locks a session. The decoded body is an argument; `eval` is
-- `filepath.EvalSymlinks`, and `decode`, `digest` and `digits` are those of Tools and Messages.
pub mod Paths
pub mod Admission
pub mod Lifetime
pub mod Janitor
pub mod Handling
mod Tests
use agentrun_openai.Prelude.{
  ℕ, Bool, true, false, not, ◌&&◌, ◌||◌, List, [], ◌∷◌, ◌++◌, Option, none, some, if◌then◌else◌,
  leb,
}
use agentrun_openai.Prelude.Text.{Text, codes, is_empty, text_eq, trim_space, is_control, byte_len}
use agentrun_openai.Types.{
  formatted, plain, wrapped, Result, ok, err, TranscriptMessage, Role, tool, role_eq,
}
use agentrun_openai.Json.{Json}
use agentrun_openai.Tools.{FunctionTool, Normalized, normalize_tools}
use agentrun_openai.Messages.{ChatMessage, normalize_messages}
use agentrun_openai.Session.{SessionState}
use agentrun_openai.Session.Registry.{is_some}
use agentrun_openai.Models.{
  Catalog, ModelRoute, Listing, resolve_model, discover_models, select_reasoning_effort,
  route_or_none,
}
use agentrun_openai.Session.Store.{is_abs}
use agentrun_openai.Chat.{Reply, refused, invalid_request, server_error}
use agentrun_openai.Server.Paths.{resolve_allowed_cwd}

-- `authorized`, on the key and the header Authorization.
unfoldable pub authorized : Text → Text → Bool
authorized api_key authorization =
    if is_empty api_key then true else text_eq authorization (codes "Bearer " ++ api_key)

-- The handlers of `ServeHTTP`.
pub data Handler : Type 0 where
  unavailable unauthorized health models chat not_found : Handler

unfoldable pub serve_http : Bool → Text → Text → Text → Text → Handler
serve_http closed api_key authorization method path =
    if closed
    then unavailable
    else if not (authorized api_key authorization)
    then unauthorized
    else if text_eq method (codes "GET") && text_eq path (codes "/healthz")
    then health
    else if text_eq method (codes "GET")
        && (text_eq path (codes "/v1/models") || text_eq path (codes "/models"))
    then models
    else if text_eq method (codes "POST") && text_eq path (codes "/v1/chat/completions")
    then chat
    else not_found

-- `affinityID`: the first header that is not blank, and then the body's value.
unfoldable pub affinity_id : List Text → Text
affinity_id [] = []
affinity_id (value ∷ values) =
    let rest = affinity_id values in
    if not (is_empty (trim_space value)) then trim_space value else rest

unfoldable pub has_control : Text → Bool
has_control [] = false
has_control (c ∷ s) = is_control c || has_control s

unfoldable pub valid_session_id : Text → Bool
valid_session_id value = leb (byte_len value) 512 && not (has_control value)

-- A request: its headers, its decoded body, and an ID that `randomID` makes. `affinity` is the headers
-- X-Session-Affinity, Session-ID, session_id and X-Client-Request-ID, and the body's session_id.
pub record ChatRequest : Type 0 where
  pub model : Text
  pub reasoning_effort : Text
  pub stream : Bool
  pub tools : List FunctionTool
  pub tool_choice : Text
  pub messages : List ChatMessage
  pub affinity : List Text
  pub agent_cwd : Text
  pub random_id : Text
  pub flusher : Bool

pub record Config : Type 0 where
  pub default_cwd : Text
  pub allowed_roots : List Text

-- What the session is locked with.
pub record Admitted : Type 0 where
  pub route : ModelRoute
  pub tools : Normalized
  pub messages : List TranscriptMessage
  pub session_id : Text
  pub key : Text
  pub cwd : Text

-- A step that may end the request.
pub data Check {ℓ} (A : Type ℓ) : Type ℓ where
  stop : Reply → Check A
  pass : A → Check A

abbrev pub then_check {ℓ κ} : {A : Type ℓ} {B : Type κ} → Check A → (A → Check B) → Check B
then_check (stop r) f = stop r
then_check (pass a) f = f a

-- The error's code beside its message, with status 400.
abbrev pub or_400 {ℓ} : {A : Type ℓ} → Text → Result A → Check A
or_400 code (err e) = stop (invalid_request 400 e code)
or_400 code (ok a) = pass a

-- The route of a backend's model that was never listed is looked up again after a discovery.
abbrev pub is_unlisted : ModelRoute → Bool
is_unlisted route =
    not (is_empty route.backend_model)
    && is_empty route.effective_ids
    && is_empty route.effort_variants

abbrev pub find_route : (Text → Listing) → Catalog → Text → Option ModelRoute → Check ModelRoute
find_route listing k model none = stop (
    invalid_request 404 (formatted (codes "model %q was not found") (model ∷ []))
      (codes "model_not_found"))
find_route listing k model (some route) =
    if is_unlisted route
    then pass (route_or_none (resolve_model (discover_models listing k) model))
    else pass route

abbrev pub choose_session : Text → Text → Check Text
choose_session [] random = pass random
choose_session (c ∷ id) random =
    if not (valid_session_id (c ∷ id))
    then stop (
        invalid_request 400
          (plain (
            codes
              "session affinity must be at most 512 characters and contain no control characters"))
          (codes "invalid_session_id"))
    else pass (c ∷ id)

abbrev pub default_to : Text → Text → Text
default_to default [] = default
default_to default (c ∷ s) = c ∷ s

abbrev pub allow_cwd : Result (Text × Bool) → Check Text
allow_cwd (err e) =
    stop
      (invalid_request 400 (wrapped (codes "invalid X-Agent-CWD: %s") [] e) (codes "invalid_cwd"))
allow_cwd (ok (resolved, true)) = pass resolved
allow_cwd (ok (resolved, false)) = stop (
    invalid_request 403 (plain (codes "X-Agent-CWD is outside the configured allowed roots"))
      (codes "cwd_not_allowed"))

abbrev pub choose_cwd : (Text → Result Text) → Config → Text → Check Text
choose_cwd eval config cwd =
    if not (is_abs cwd)
    then stop (
        invalid_request 400 (plain (codes "X-Agent-CWD must be an absolute path"))
          (codes "invalid_cwd"))
    else if is_empty config.allowed_roots
    then pass cwd
    else allow_cwd (resolve_allowed_cwd eval cwd config.allowed_roots)

unfoldable pub state_key : Text → Text → Text → Text
state_key session_id model effort =
    let key = session_id ++ (b':' ∷ model) in
    if is_empty effort then key else key ++ (b':' ∷ effort)

abbrev pub check_flusher : Bool → Bool → Check Bool
check_flusher stream flusher =
    if stream && not flusher
    then stop (
        server_error 500 (plain (codes "response writer does not support flushing"))
          (codes "streaming_unsupported"))
    else pass true

module _ (eval : Text → Result Text) (decode : Text → Option Json) (digest : Text → Text)
    (digits : ℕ → Text) (listing : Text → Listing) (config : Config) (k : Catalog) where
  abbrev pub place :
      ChatRequest → ModelRoute → Normalized → List TranscriptMessage → Text → Text → Check Admitted
  place q route tools messages session_id cwd = pass (record {
    route = route;
    tools = tools;
    messages = messages;
    session_id = session_id;
    key = state_key session_id q.model route.selected_effort;
    cwd = cwd;
  })

  -- `handleChat` from the decoded body to the lock.
  unfoldable pub admit : ChatRequest → Check Admitted
  admit q = then_check (find_route listing k q.model (resolve_model k q.model)) (λ found.
      then_check
        (or_400 (codes "reasoning_effort_not_supported")
          (select_reasoning_effort found q.reasoning_effort))
        (λ route.
          then_check
            (or_400 (codes "invalid_tools") (normalize_tools decode digest q.tools q.tool_choice))
            (λ tools.
              then_check
                (or_400 (codes "invalid_messages") (normalize_messages decode digits q.messages))
                (λ messages. then_check (check_flusher q.stream q.flusher) (λ flushes.
                  then_check (choose_session (affinity_id q.affinity) q.random_id) (λ session_id.
                    then_check
                      (choose_cwd eval config
                        (default_to config.default_cwd (trim_space q.agent_cwd)))
                      (place q route tools messages session_id)))))))

-- `messages[len(messages)-1].Role`; `none` is out of range.
unfoldable pub last_role : List TranscriptMessage → Option Role
last_role [] = none
last_role (m ∷ []) = some m.role
last_role (m ∷ n ∷ ms) = last_role (n ∷ ms)

abbrev pub is_tool : Option Role → Bool
is_tool none = false
is_tool (some role) = role_eq role tool

-- Which of the two handlers goes on once the session is locked.
unfoldable pub takes_tools : Admitted → SessionState → Bool
takes_tools d s =
    not (is_empty d.tools.tools)
    || is_some s.facade
    || is_some s.active
    || is_tool (last_role d.messages)
