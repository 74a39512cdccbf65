-- ===== src/Backend.antt =====
-- The backend specifications of internal/gateway/acp_backend.go: the command-line splitter and the
-- two formats of a specification.
pub mod Quoting
pub mod Valid
mod Tests
use agentrun_openai.Prelude.{
  ℕ, Bool, true, false, not, ◌&&◌, ◌||◌, List, [], ◌∷◌, ◌++◌, map, Option, none, some,
  if◌then◌else◌, ◌==◌,
}
use agentrun_openai.Prelude.Text.{
  Text, codes, is_empty, is_space, trim_space, has_prefix, contains, contains_char, contains_any,
  cut, split_on, split_last, text_eq, member,
}
use agentrun_openai.Types.{GoError, formatted, wrapped, plain, Result, ok, err, ◌>>=◌}

pub record AcpBackendConfig : Type 0 where
  pub id : Text
  pub binary : Text
  pub args : List Text

-- The loop of `splitCommandLine`, its variables and one round for each rune. No quote is rune 0.
pub record Scan : Type 0 where
  pub tokens : List Text
  pub current : Text
  pub in_quote : ℕ
  pub escaped : Bool
  pub has_token : Bool

abbrev pub write_rune : ℕ → Scan → Scan
write_rune r s = record s { current = s.current ++ (r ∷ []); has_token = true }

abbrev pub is_quote : ℕ → Bool
is_quote r = r == b'"' || r == b'\''

unfoldable pub scan_rune : Scan → ℕ → Scan
scan_rune s r =
    if s.escaped
    then record (write_rune r s) { escaped = false }
    else if r == b'\\'
    then record s { escaped = true }
    else if not (s.in_quote == 0)
    then (if r == s.in_quote then record s { in_quote = 0; has_token = true } else write_rune r s)
    else if is_quote r
    then record s { in_quote = r; has_token = true }
    else if is_space r
    then (if s.has_token
        then record s { tokens = s.tokens ++ (s.current ∷ []); current = []; has_token = false }
        else s)
    else write_rune r s

unfoldable pub scan_all : Scan → Text → Scan
scan_all s [] = s
scan_all s (r ∷ rs) = scan_all (scan_rune s r) rs

abbrev pub scan_start : Scan
scan_start = record { tokens = []; current = []; in_quote = 0; escaped = false; has_token = false }

unfoldable pub scan_end : Scan → Result (List Text)
scan_end s =
    if s.escaped
    then err (plain (codes "incomplete escape sequence in command line"))
    else if not (s.in_quote == 0)
    then err (formatted (codes "unterminated quote %c in command line") ((s.in_quote ∷ []) ∷ []))
    else ok (if s.has_token then s.tokens ++ (s.current ∷ []) else s.tokens)

unfoldable pub split_command_line : Text → Result (List Text)
split_command_line cmd = scan_end (scan_all scan_start cmd)

unfoldable pub validate_acp_id : Text → Option GoError
validate_acp_id id =
    if is_empty id
    then some (plain (codes "acp backend ID must not be empty"))
    else if contains_char b'/' id
    then some (formatted (codes "acp backend ID %q must not contain '/'") (id ∷ []))
    else if contains_any id (codes " \t\r\n:")
    then some (formatted (codes "acp backend ID %q contains invalid characters") (id ∷ []))
    else none

abbrev pub checked {ℓ} : {A : Type ℓ} → Option GoError → Result A → Result A
checked (some e) r = err e
checked none r = r

abbrev pub no_binary : Text → GoError
no_binary id = formatted (codes "acp backend %q: binary must not be empty") (id ∷ [])

-- The end of both formats.
abbrev pub backend : Text → Text → List Text → Result AcpBackendConfig
backend id binary args =
    if is_empty binary
    then err (no_binary id)
    else ok (record { id = id; binary = binary; args = args })

-- The variables of `parseStructuredACPBackend`, and one round for each part.
pub record Fields : Type 0 where
  pub id : Text
  pub binary : Text
  pub args : List Text

abbrev pub wrap_error {ℓ} : {A : Type ℓ} → Text → List Text → Result A → Result A
wrap_error format args (ok a) = ok a
wrap_error format args (err e) = err (wrapped format args e)

unfoldable pub set_field : Text → Text → Text → Fields → Result Fields
set_field spec k v f =
    if text_eq k (codes "id")
    then ok (record f { id = v })
    else if text_eq k (codes "binary") || text_eq k (codes "bin")
    then ok (record f { binary = v })
    else if text_eq k (codes "args")
    then (wrap_error (codes "acp backend args in %q: %w") (spec ∷ []) (split_command_line v)
        >>= λ args. ok (record f { args = args }))
    else err (formatted (codes "unknown acp key %q in %q") (k ∷ spec ∷ []))

unfoldable pub set_part : Text → Text → Fields → Result Fields
set_part spec part f = if is_empty part then ok f else elim (cut b'=' part) [
  | none ↦ err (formatted (codes "invalid acp key-value pair %q in %q") (part ∷ spec ∷ []))
  | some (k, v) ↦ set_field spec (trim_space k) (trim_space v) f
]

unfoldable pub set_parts : Text → List Text → Fields → Result Fields
set_parts spec [] f = ok f
set_parts spec (part ∷ parts) f = set_part spec (trim_space part) f >>= set_parts spec parts

unfoldable pub parse_structured : Text → Result AcpBackendConfig
parse_structured spec =
    set_parts spec (split_on b',' spec) (record { id = []; binary = []; args = [] }) >>= λ f.
    checked (validate_acp_id f.id) (backend f.id f.binary f.args)

-- A command that is one quoted string is unwrapped.
abbrev pub unwrap_tail : Text → ℕ → Option (Text × ℕ) → Text
unwrap_tail cmd c none = cmd
unwrap_tail cmd c (some (inner, d)) =
    if (c == b'"' && d == b'"') || (c == b'\'' && d == b'\'') then trim_space inner else cmd

unfoldable pub unwrap_command : Text → Text
unwrap_command [] = []
unwrap_command (c ∷ cmd) = unwrap_tail (c ∷ cmd) c (split_last cmd)

unfoldable pub non_empty : List Text → List Text
non_empty [] = []
non_empty (w ∷ ws) = let rest = non_empty ws in if is_empty w then rest else w ∷ rest

abbrev pub or_else : List Text → List Text → List Text
or_else [] ws = ws
or_else (v ∷ vs) ws = v ∷ vs

-- One token with commas, of a command without spaces and quotes, is a list.
unfoldable pub comma_tokens : Text → List Text → List Text
comma_tokens cmd [] = []
comma_tokens cmd (w ∷ v ∷ ws) = w ∷ v ∷ ws
comma_tokens cmd (w ∷ []) =
    if contains_char b',' w && not (contains_any cmd (codes " \t\"'"))
    then or_else (non_empty (map trim_space (split_on b',' w))) (w ∷ [])
    else w ∷ []

abbrev pub backend_of_tokens : Text → List Text → Result AcpBackendConfig
backend_of_tokens id [] = err (no_binary id)
backend_of_tokens id (w ∷ ws) = backend id (trim_space w) ws

unfoldable pub parse_command : Text → Text → Result AcpBackendConfig
parse_command id cmd =
    wrap_error (codes "acp backend %q: %w") (id ∷ []) (split_command_line cmd) >>= λ tokens.
    backend_of_tokens id (comma_tokens cmd tokens)

unfoldable pub parse_standard : Text → Option (Text × Text) → Result AcpBackendConfig
parse_standard spec none = err (
    formatted (codes "invalid acp backend specification %q: expected id=command [args...]")
      (spec ∷ []))
parse_standard spec (some (id, cmd)) =
    checked (validate_acp_id (trim_space id))
      (parse_command (trim_space id) (unwrap_command (trim_space cmd)))

abbrev pub is_structured : Text → Bool
is_structured spec =
    has_prefix spec (codes "id=")
    && (contains spec (codes ",binary=") || contains spec (codes ",bin="))

unfoldable pub parse_trimmed : Text → Result AcpBackendConfig
parse_trimmed spec =
    if is_empty spec
    then err (plain (codes "acp backend specification must not be empty"))
    else if is_structured spec
    then parse_structured spec
    else parse_standard spec (cut b'=' spec)

unfoldable pub parse_acp_backend : Text → Result AcpBackendConfig
parse_acp_backend spec = parse_trimmed (trim_space spec)

-- `ParseACPBackends`, with the IDs seen and the backends so far.
unfoldable pub parse_from :
    List Text → List AcpBackendConfig → List Text → Result (List AcpBackendConfig)
parse_from seen backends [] = ok backends
parse_from seen backends (spec ∷ specs) = parse_acp_backend spec >>= λ b.
    let rest = parse_from (b.id ∷ seen) (backends ++ (b ∷ [])) specs in
    if member b.id seen
    then err (formatted (codes "duplicate acp backend ID %q") (b.id ∷ []))
    else rest

unfoldable pub parse_acp_backends : List Text → Result (List AcpBackendConfig)
parse_acp_backends = parse_from [] []
