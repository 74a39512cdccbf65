-- ===== src/Server/Handling.antt =====
-- A chat request as a whole (`handleChat` of internal/gateway/server.go): it is refused, or its session
-- is locked and one of the two handlers goes on. The world is that of the request's session.
use agentrun_openai.Prelude.{
  ℕ, ◌≡◌, sym, ap, ◌∙◌, subst, Bool, true, false, not, List, Option, some, if◌then◌else◌,
}
use agentrun_openai.Prelude.Text.{Text, is_empty}
use agentrun_openai.Types.{TranscriptMessage, GoError, Result, ok}
use agentrun_openai.Json.{Json}
use agentrun_openai.Models.{Catalog, Listing}
use agentrun_openai.Stream.{Writer}
use agentrun_openai.Session.Store.{is_abs}
use agentrun_openai.Chat.{World, Reply}
use agentrun_openai.Chat.Exchange.{Exchange, Agent, handle_chat}
use agentrun_openai.Chat.Recorded.{Synced}
use agentrun_openai.Chat.Synced.{handle_chat-Synced}
use agentrun_openai.ToolChat.{ToolExchange, ToolAgent}
use agentrun_openai.ToolChat.Ending.{handle_tool_chat}
use agentrun_openai.ToolChat.Synced.{handle_tool_chat-Synced}
use agentrun_openai.Server.{
  Check, pass, stop, Config, ChatRequest, Admitted, admit, takes_tools, valid_session_id,
}
use agentrun_openai.Server.Admission.{admit-Confined}

-- The agent that either handler meets, and the completion's ID, its time and the writer.
pub record Backing : Type 0 where
  pub agent : Agent
  pub tool_agent : ToolAgent
  pub id : Text
  pub created : ℕ
  pub w : Writer

abbrev pub exchange_of : Backing → ChatRequest → Admitted → Exchange
exchange_of b q d = record {
  messages = d.messages;
  key = d.key;
  cwd = d.cwd;
  model = q.model;
  route = d.route;
  stream = q.stream;
  id = b.id;
  created = b.created;
  w = b.w;
}

abbrev pub tool_exchange_of : Backing → ChatRequest → Admitted → ToolExchange
tool_exchange_of b q d = record {
  base = exchange_of b q d;
  tool_hash = d.tools.hash;
  has_tools = not (is_empty d.tools.tools);
  policy = d.tools.policy;
}

by_handler :
    (P : World → Type 0) (tools : Bool) (o : Option (World × Reply)) (p r : World × Reply)
    → (o ≡ some r → P r.0)
    → P p.0
    → (if tools then o else some p) ≡ some r
    → P r.0
by_handler P true o p r f g h = f h
by_handler P false o p r f g h = subst (λ x. P x.0) (some-injective h) g
  where
    some-injective : some p ≡ some r → p ≡ r
    some-injective e = cc

module _ (hash : List TranscriptMessage → Text) (show : GoError → Text) (b : Backing) where
  -- From the lock on. `none` is a panic.
  unfoldable pub handle_admitted : ChatRequest → Admitted → World → Option (World × Reply)
  handle_admitted q d w =
      if takes_tools d w.state
      then handle_tool_chat hash b.tool_agent (tool_exchange_of b q d) w
      else some (handle_chat hash show b.agent (exchange_of b q d) w)

  abbrev pub handle_checked : ChatRequest → Check Admitted → World → Option (World × Reply)
  handle_checked q (stop reply) w = some (w, reply)
  handle_checked q (pass d) w = handle_admitted q d w

  module _ (eval : Text → Result Text) (decode : Text → Option Json) (digest : Text → Text)
      (digits : ℕ → Text) (listing : Text → Listing) (config : Config) (k : Catalog) where
    unfoldable pub handle_request : ChatRequest → World → Option (World × Reply)
    unfolding handle_admitted
    handle_request q w = handle_checked q (admit eval decode digest digits listing config k q) w

  admitted-Synced :
      (hashes : (ms : List TranscriptMessage) → is_empty (hash ms) ≡ false) (q : ChatRequest)
      (d : Admitted) (w : World) (r : World × Reply)
      → is_abs d.cwd ≡ true
      → is_empty d.key ≡ false
      → Synced hash d.key w
      → handle_admitted q d w ≡ some r
      → Synced hash d.key r.0
  unfolding handle_admitted
  admitted-Synced hashes q d w r absolute named synced h =
      by_handler (Synced hash d.key) (takes_tools d w.state)
        (handle_tool_chat hash b.tool_agent (tool_exchange_of b q d) w)
        (handle_chat hash show b.agent (exchange_of b q d) w) r
        (λ e. handle_tool_chat-Synced hash b.tool_agent (tool_exchange_of b q d) w r synced e)
        (handle_chat-Synced hash show b.agent (exchange_of b q d) hashes absolute named w synced) h

  -- Symbolic links of absolute paths resolve to absolute paths, the IDs that the gateway makes are
  -- valid, and no fingerprint is empty. A chat request that reaches its session, in whichever handler,
  -- and does not panic, keeps what the session needs to be resumed: whatever the agent, the client and
  -- the disk do, the history of the running gateway has its length and fingerprint beside it, the
  -- record under the session's key, if there is one, says what the session would save, and every
  -- record of the store is valid.
  pub handle_request-Synced :
      (eval : Text → Result Text)
      (absolute : (p q : Text) → is_abs p ≡ true → eval p ≡ ok q → is_abs q ≡ true)
      (decode : Text → Option Json) (digest : Text → Text) (digits : ℕ → Text)
      (listing : Text → Listing) (config : Config) (k : Catalog)
      (hashes : (ms : List TranscriptMessage) → is_empty (hash ms) ≡ false) (q : ChatRequest)
      (d : Admitted) (w : World) (r : World × Reply)
      → valid_session_id q.random_id ≡ true
      → admit eval decode digest digits listing config k q ≡ pass d
      → Synced hash d.key w
      → handle_request eval decode digest digits listing config k q w ≡ some r
      → Synced hash d.key r.0
  unfolding handle_request
  handle_request-Synced eval absolute decode digest digits listing config k hashes q d w r v e s h =
      let ((abs, inside, valid, named), asked) =
        admit-Confined eval absolute decode digest digits listing config k q d v e in
      admitted-Synced hashes q d w r abs named s (ap (λ c. handle_checked q c w) (sym e) ∙ h)
