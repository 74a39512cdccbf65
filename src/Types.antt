-- ===== src/Types.antt =====
-- The wire and transcript types of internal/gateway/types.go and tools.go, with `reflect.DeepEqual` on
-- transcript messages. A slice that is nil and one that is empty are one list: the gateway builds
-- every transcript message with nil for no calls.
use agentrun_openai.Prelude.{ℕ, ◌≡◌, refl, ◌↔◌, Bool, true, false, not, ◌&&◌, List, [], ◌∷◌, arith}
use agentrun_openai.Prelude.Text.{Text, codes, text_eq, text_eq_iff}

-- The five roles that `normalizeMessages` lets into a transcript.
pub data Role : Type 0 where
  system developer user assistant tool : Role

unfoldable pub role_name : Role → Text
role_name system = codes "system"
role_name developer = codes "developer"
role_name user = codes "user"
role_name assistant = codes "assistant"
role_name tool = codes "tool"

abbrev pub role_eq : Role → Role → Bool
role_eq system system = true
role_eq developer developer = true
role_eq user user = true
role_eq assistant assistant = true
role_eq tool tool = true
role_eq _ _ = false

pub role_eq_iff : (a b : Role) → (role_eq a b ≡ true) ↔ (a ≡ b)
role_eq_iff system b = ground arith
role_eq_iff _ b = ground arith

pub record CalledFunction : Type 0 where
  pub name : Text
  pub arguments : Text

pub record ToolCall : Type 0 where
  pub id : Text
  pub kind : Text
  pub function : CalledFunction

pub record TranscriptMessage : Type 0 where
  pub tool_calls : List ToolCall
  pub tool_call_id : Text
  pub role : Role
  pub content : Text

-- `int` fields are kept as 64-bit two's-complement patterns.
pub record CompletionUsage : Type 0 where
  pub prompt_tokens : ℕ
  pub completion_tokens : ℕ
  pub total_tokens : ℕ

-- Go errors. `fmt.Errorf` is kept as its format and arguments, `%w` as the error that it wraps; the
-- sentinels are those that the gateway asks for by `errors.Is`. `foreign` is any other error of a
-- library, with its text.
pub data GoError : Type 0 where
  formatted : Text → List Text → GoError
  wrapped : Text → List Text → GoError → GoError
  canceled deadline_exceeded session_not_found discovery_unsupported : GoError
  foreign : Text → GoError

-- A Go pair of a value and an error.
pub data Result {ℓ} (A : Type ℓ) : Type ℓ where
  err : GoError → Result A
  ok : A → Result A

module _ {ℓ κ} {A : Type ℓ} {B : Type κ} where
  -- `if err != nil { return err }` behind a step.
  infixl 5 ◌>>=◌
  abbrev pub ◌>>=◌ : Result A → (A → Result B) → Result B
  err failure >>= next = err failure
  ok value >>= next = next value

  pub bind-eq-ok :
      (step : Result A) (next : A → Result B) {final : B}
      → (step >>= next) ≡ ok final
      → (value : A) × (step ≡ ok value) × (next value ≡ ok final)
  bind-eq-ok (err failure) next h = cc
  bind-eq-ok (ok value) next h = (value, refl, h)

-- A message of the gateway with no arguments.
abbrev pub plain : Text → GoError
plain s = formatted s []

-- `toolPolicy.Mode`, behind the checks of `normalizeTools`; `off` is "none".
pub data Mode : Type 0 where
  auto off required named : Mode

pub record ToolPolicy : Type 0 where
  pub mode : Mode
  pub name : Text

-- A call of the tool `name` is against the policy (active_turn.go, `call`, and tool_chat.go).
abbrev pub forbids_as : Mode → Text → Text → Bool
forbids_as off chosen name = true
forbids_as named chosen name = not (text_eq chosen name)
forbids_as auto chosen name = false
forbids_as required chosen name = false

abbrev pub forbids : ToolPolicy → Text → Bool
forbids policy name = forbids_as policy.mode policy.name name

pub record ApiError : Type 0 where
  pub message : GoError
  pub kind : Text
  pub code : Text

unfoldable pub call_eq : ToolCall → ToolCall → Bool
call_eq a b =
    text_eq a.id b.id
    && text_eq a.kind b.kind
    && text_eq a.function.name b.function.name
    && text_eq a.function.arguments b.function.arguments

pub call_eq_iff : (a b : ToolCall) → (call_eq a b ≡ true) ↔ (a ≡ b)
unfolding call_eq
call_eq_iff a b = ground (
  arith,
  text_eq_iff a.id b.id,
  text_eq_iff a.kind b.kind,
  text_eq_iff a.function.name b.function.name,
  text_eq_iff a.function.arguments b.function.arguments,
)

unfoldable pub calls_eq : List ToolCall → List ToolCall → Bool
unfolding call_eq
calls_eq [] [] = true
calls_eq (a ∷ as') (b ∷ bs) = call_eq a b && calls_eq as' bs
calls_eq _ _ = false

pub calls_eq_iff : (as' bs : List ToolCall) → (calls_eq as' bs ≡ true) ↔ (as' ≡ bs)
unfolding calls_eq
calls_eq_iff (a ∷ as') (b ∷ bs) = ground (arith, call_eq_iff a b, calls_eq_iff as' bs)
calls_eq_iff _ _ = ground arith

unfoldable pub message_eq : TranscriptMessage → TranscriptMessage → Bool
unfolding calls_eq
message_eq a b =
    calls_eq a.tool_calls b.tool_calls
    && text_eq a.tool_call_id b.tool_call_id
    && role_eq a.role b.role
    && text_eq a.content b.content

pub message_eq_iff : (a b : TranscriptMessage) → (message_eq a b ≡ true) ↔ (a ≡ b)
unfolding message_eq
message_eq_iff a b = ground (
  arith,
  calls_eq_iff a.tool_calls b.tool_calls,
  text_eq_iff a.tool_call_id b.tool_call_id,
  role_eq_iff a.role b.role,
  text_eq_iff a.content b.content,
)
