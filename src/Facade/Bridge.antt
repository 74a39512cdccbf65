-- ===== src/Facade/Bridge.antt =====
-- The MCP bridge of internal/mcpbridge/bridge.go, a subprocess of the agent that passes its calls on to
-- the facade. The agent's side, package mcp, and HTTP are outside: a request's outcome is an argument.
use agentrun_openai.Prelude.{
  ℕ, Bool, false, not, List, [], ◌∷◌, Option, none, some, if◌then◌else◌, ◌==◌, ltb,
}
use agentrun_openai.Prelude.Text.{Text, codes, is_empty, byte_len}
use agentrun_openai.Json.{Json, string, object, Members, end, field, encode}
use agentrun_openai.Types.{plain, formatted, Result, ok, err, ◌>>=◌}

pub record Tool : Type 0 where
  pub name : Text
  pub description : Text
  pub input_schema : Text

pub record Call : Type 0 where
  pub name : Text
  pub arguments : Text

pub record CallResult : Type 0 where
  pub content : Text
  pub error : Text

-- The host of an address by `net.SplitHostPort`, and whether it is an IP by `net.ParseIP` and of
-- loopback.
abbrev pub is_loopback : (Text → Option Bool) → Option Text → Bool
is_loopback ip none = false
is_loopback ip (some host) = elim (ip host) [ none ↦ false | some loopback ↦ loopback ]

-- A response: its status and its body.
pub record Response {ℓ} (A : Type ℓ) : Type ℓ where
  pub status : ℕ
  pub text : Text
  pub body : Result A

-- The closure `request` behind the exchange.
abbrev pub accept {ℓ} : {A : Type ℓ} → Result (Response A) → Result (Response A)
accept (err e) = err e
accept (ok r) =
    if r.status == 200 then ok r else err (formatted (codes "bridge IPC: %s") (r.text ∷ []))

-- `Run` on its arguments and the responses of /watch and /tools, up to the tools that it offers the
-- agent.
abbrev pub check_address : (Text → Option Text) → (Text → Option Bool) → Text → Bool
check_address split ip address = is_loopback ip (split address)

unfoldable pub run_bridge :
    (Text → Option Text)
    → (Text → Option Bool)
    → Result (Response Text)
    → Result (Response (List Tool))
    → List Text
    → Result (List Tool)
run_bridge split ip watched listed (address ∷ token ∷ []) =
    if not (check_address split ip address)
    then err (plain (codes "bridge address must be numeric loopback"))
    else accept watched >>= λ w. accept listed >>= λ r. r.body
run_bridge split ip watched listed _ =
    err (plain (codes "__mcp-bridge requires address and session token"))

-- The call as the facade reads it: arguments that package mcp leaves out are marshalled as null.
abbrev pub marshalled : Text → Text
marshalled [] = codes "null"
marshalled (c ∷ s) = c ∷ s

abbrev pub forwarded : Text → Text → Call
forwarded name arguments = record { name = name; arguments = marshalled arguments }

-- The body of a result, as encoding/json writes it, and what is left of it behind a reader that stops
-- after 4 MiB.
abbrev pub error_field : Text → Members
error_field [] = end
error_field (c ∷ s) = field (codes "error") (string (c ∷ s)) end

abbrev pub result_json : CallResult → Json
result_json r = object (field (codes "content") (string r.content) (error_field r.error))

abbrev pub ipc_limit : ℕ
ipc_limit = 4194304

abbrev pub read_limited : CallResult → Result CallResult
read_limited r =
    if ltb ipc_limit (byte_len (encode (result_json r)))
    then err (plain (codes "unexpected EOF"))
    else ok r

-- The handler of a tool, on the response of /call.
abbrev pub result_of : CallResult → Result Text
result_of r =
    if not (is_empty r.error) then err (formatted (codes "%s") (r.error ∷ [])) else ok r.content

unfoldable pub call_tool : Result (Response CallResult) → Result Text
call_tool response = accept response >>= λ r.
    r.body >>= λ written. read_limited written >>= λ result. result_of result
