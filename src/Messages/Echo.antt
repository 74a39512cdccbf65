-- ===== src/Messages/Echo.antt =====
-- A client that sends back the messages of a session: `normalizeMessages` of internal/gateway/history.go
-- gives the messages that the session keeps.
use agentrun_openai.Prelude.{
  ◌≡◌, ◌⊎◌, inl, inr, refl, sym, ap, ◌∙◌, subst, Bool, true, false, not, ◌&&◌, List, [], ◌∷◌, ◌++◌,
  Option, some, arith, All, ℕ, ◌+◌, drop, length, append_assoc,
}
use agentrun_openai.Prelude.Text.{
  Text, codes, text_eq, text_eq_refl, member, is_empty, is_space, trim_left, trim_right, trim_space,
  to_lower,
}
use agentrun_openai.Prelude.Distinct.{Distinct, Apart, cons-Apart}
use agentrun_openai.Types.{
  Role, system, developer, user, assistant, tool, role_name, role_eq, role_eq_iff, ToolCall,
  TranscriptMessage, ok,
}
use agentrun_openai.Json.{Json, string, canonical, encode, canonical_json, encoded, quoted, escapes}
use agentrun_openai.Json.Settled.{canonical_idem}
use agentrun_openai.Messages.{
  ChatMessage, normalize_calls, normalize_message, normalize_from, normalize_messages, role_of,
  is_call, same_test, raw_content,
}
use agentrun_openai.Messages.Content.{text_content}
use agentrun_openai.History.Prefix.{has_prefix_iff}
use agentrun_openai.Session.{
  SessionState, matches_history_prefix, remember, persisted_history_count,
}
use agentrun_openai.Messages.Sound.{IsCall, IsMessage, ids_of, normalize_from_step}

-- The message as a client sends it back: its content is the string that it was sent.
abbrev pub echo : TranscriptMessage → ChatMessage
echo m = record {
  tool_calls = m.tool_calls;
  tool_call_id = m.tool_call_id;
  role = role_name m.role;
  content = quoted m.content;
}

-- The decoder reads these arguments as the value that they encode.
abbrev pub IsRead : (Text → Option Json) → ToolCall → Type 0
IsRead decode c =
    (v : Json) × (c.function.arguments ≡ encode (canonical v))
    × (decode c.function.arguments ≡ some (canonical v))

-- The decoder reads the content of the message, and the arguments of its calls.
abbrev pub IsReadable : (Text → Option Json) → TranscriptMessage → Type 0
IsReadable decode m =
    (decode (quoted m.content) ≡ some (string m.content)) × All (IsRead decode) m.tool_calls

pub role_of_name : (r : Role) → role_of (to_lower (trim_space (role_name r))) ≡ some r
unfolding role_of role_name to_lower trim_space trim_left trim_right is_space text_eq
role_of_name system = refl
role_of_name developer = refl
role_of_name user = refl
role_of_name assistant = refl
role_of_name tool = refl

pub trim_right-first :
    (c : ℕ) (s : Text) → is_space c ≡ false → trim_right (c ∷ s) ≡ c ∷ trim_right s
unfolding trim_right
trim_right-first c s h = rw (h)

pub trim_space-quoted :
    (t : Text) → trim_space (quoted t) ≡ b'"' ∷ trim_right (escapes t ++ (b'"' ∷ []))
unfolding trim_space trim_left is_space
trim_space-quoted t = trim_right-first b'"' (escapes t ++ (b'"' ∷ [])) refl

pub text_content-quoted :
    (decode : Text → Option Json) (t : Text)
    → decode (quoted t) ≡ some (string t)
    → text_content decode (quoted t) ≡ ok t
unfolding text_content text_eq
text_content-quoted decode t h = rw (trim_space-quoted t, h)

pub canonical_json-IsRead :
    (decode : Text → Option Json) (c : ToolCall)
    → IsRead decode c
    → canonical_json decode c.function.arguments ≡ some c.function.arguments
unfolding canonical_json
canonical_json-IsRead decode c (v, same, e) =
    ap encoded e ∙ ap (λ w. some (encode w)) (canonical_idem v) ∙ ap some (sym same)

pub is_call-IsCall :
    (seen : List Text) (c : ToolCall)
    → IsCall c
    → member c.id seen ≡ false
    → is_call seen c c.function.arguments ≡ true
is_call-IsCall seen c (id, kind, name, opens, v, same) fresh =
    rw (id, fresh, kind, name, opens, text_eq_refl (codes "function"))

pub normalize_calls_same :
    (decode : Text → Option Json) (seen : List Text) (cs : List ToolCall)
    → All IsCall cs
    → Distinct (ids_of cs)
    → Apart seen (ids_of cs)
    → All (IsRead decode) cs
    → normalize_calls decode seen cs ≡ some cs
unfolding normalize_calls
normalize_calls_same decode seen [] calls d a r = refl
normalize_calls_same decode seen (c ∷ cs) calls d a r =
    let e = canonical_json-IsRead decode c r.0 in
    let f = is_call-IsCall seen c calls.0 a.0 in
    let rest =
      normalize_calls_same decode (c.id ∷ seen) cs calls.1 d.1
        (cons-Apart c.id seen (ids_of cs) d.0 a.1) r.1 in
    rw (e, f, rest)

pub Apart-none : (ys : List Text) → Apart [] ys
unfolding member
Apart-none [] = tt
Apart-none (y ∷ ys) = (refl, Apart-none ys)

pub callers_pass :
    (calls : List ToolCall) (role : Role)
    → (calls ≡ []) ⊎ (role ≡ assistant)
    → (not (is_empty calls) && not (role_eq role assistant)) ≡ false
callers_pass [] role h = refl
callers_pass (c ∷ cs) role (inl h) = ground (arith, h)
callers_pass (c ∷ cs) role (inr h) = ground (arith, role_eq_iff role assistant)

pub same_test_refl : (a b : Bool) → a ≡ b → not (same_test a b) ≡ false
same_test_refl true b h = ground (arith, h)
same_test_refl false b h = ground (arith, h)

pub raw_content-quoted :
    (role : Role) (calls : List ToolCall) (t : Text) → raw_content role calls (quoted t) ≡ quoted t
unfolding text_eq
raw_content-quoted role calls t = ground arith

pub normalize_message-echo :
    (decode : Text → Option Json) (digits : Text) (m : TranscriptMessage)
    → IsMessage m
    → IsReadable decode m
    → normalize_message decode digits (echo m) ≡ ok m
unfolding normalize_message
normalize_message-echo decode digits m (callers, ids, (calls, distinct)) (content, arguments) =
    let a = role_of_name m.role in
    let b = callers_pass m.tool_calls m.role callers in
    let c = same_test_refl (role_eq m.role tool) (not (is_empty m.tool_call_id)) ids in
    let d =
      normalize_calls_same decode [] m.tool_calls calls distinct (Apart-none (ids_of m.tool_calls))
        arguments in
    let e = raw_content-quoted m.role m.tool_calls m.content in
    let f = text_content-quoted decode m.content content in rw (a, b, c, d, e, f)

-- The index counts in errors only.
pub normalize_message_index :
    (decode : Text → Option Json) (digits others : Text) (m : ChatMessage) (t : TranscriptMessage)
    → normalize_message decode digits m ≡ ok t
    → normalize_message decode others m ≡ ok t
unfolding normalize_message
normalize_message_index decode digits others m t h = ground (arith, h)

pub normalize_from_index :
    (decode : Text → Option Json) (digits : ℕ → Text) (i j : ℕ) (ms : List ChatMessage)
    (ts : List TranscriptMessage)
    → normalize_from decode digits i ms ≡ ok ts
    → normalize_from decode digits j ms ≡ ok ts
unfolding normalize_from
normalize_from_index decode digits i j [] ts h = h
normalize_from_index decode digits i j (m ∷ ms) ts h =
    let (t, us, e, f, same) = normalize_from_step decode digits i m ms ts h in
    let e' = normalize_message_index decode (digits i) (digits j) m t e in
    let f' = normalize_from_index decode digits (i + 1) (j + 1) ms us f in rw (e', f', same)

pub normalize_from-append :
    (decode : Text → Option Json) (digits : ℕ → Text) (i : ℕ) (ms more : List ChatMessage)
    (ts us : List TranscriptMessage)
    → normalize_from decode digits i ms ≡ ok ts
    → normalize_from decode digits i more ≡ ok us
    → normalize_from decode digits i (ms ++ more) ≡ ok (ts ++ us)
unfolding normalize_from
normalize_from-append decode digits i [] more ts us h k =
    let same : [] ≡ ts = ground (arith, h) in
    subst (λ xs. normalize_from decode digits i more ≡ ok (xs ++ us)) same k
normalize_from-append decode digits i (m ∷ ms) more ts us h k =
    let (t, rest, e, f, same) = normalize_from_step decode digits i m ms ts h in
    let k' = normalize_from_index decode digits i (i + 1) more us k in
    let f' = normalize_from-append decode digits (i + 1) ms more rest us f k' in
    subst (λ xs. normalize_from decode digits i (m ∷ (ms ++ more)) ≡ ok (xs ++ us)) same
      (rw (e, f'))

pub normalize_messages-from :
    (decode : Text → Option Json) (digits : ℕ → Text) (ms more : List ChatMessage)
    (ts : List TranscriptMessage)
    → normalize_messages decode digits ms ≡ ok ts
    → (normalize_from decode digits 0 ms ≡ ok ts)
      × (normalize_messages decode digits (ms ++ more)
          ≡ normalize_from decode digits 0 (ms ++ more))
unfolding normalize_messages
normalize_messages-from decode digits [] more ts h = ground (arith, h)
normalize_messages-from decode digits (m ∷ ms) more ts h = (h, refl)

pub normalize_from-cons :
    (decode : Text → Option Json) (digits : ℕ → Text) (i : ℕ) (m : ChatMessage)
    (ms : List ChatMessage) (t : TranscriptMessage) (ts : List TranscriptMessage)
    → normalize_message decode (digits i) m ≡ ok t
    → normalize_from decode digits (i + 1) ms ≡ ok ts
    → normalize_from decode digits i (m ∷ ms) ≡ ok (t ∷ ts)
unfolding normalize_from
normalize_from-cons decode digits i m ms t ts h k = rw (h, k)

pub drop-remembered :
    (ms rest : List TranscriptMessage) (m : TranscriptMessage)
    → drop (length (ms ++ (m ∷ []))) (ms ++ (m ∷ rest)) ≡ rest
drop-remembered [] rest m = refl
drop-remembered (t ∷ ms) rest m = drop-remembered ms rest m

-- The next request of a conversation: the messages of a request that was let through, the answer as
-- the client was sent it, and more messages that are let through by themselves. Where the answer is a
-- message of a transcript whose content and arguments the decoder reads as what they encode, the
-- request is normalised to the messages that the session keeps and the new ones, the session knows
-- these as its own, and the new ones are what stands behind the messages that it has counted.
pub conversation_continues :
    (decode : Text → Option Json) (digits : ℕ → Text) (hash : List TranscriptMessage → Text)
    (asked more : List ChatMessage) (ms rest : List TranscriptMessage) (answer : TranscriptMessage)
    (s : SessionState)
    → normalize_messages decode digits asked ≡ ok ms
    → IsMessage answer
    → IsReadable decode answer
    → normalize_messages decode digits more ≡ ok rest
    → (normalize_messages decode digits (asked ++ (echo answer ∷ more))
        ≡ ok (ms ++ (answer ∷ rest)))
      × (matches_history_prefix hash (remember hash ms answer s) (ms ++ (answer ∷ rest)) ≡ true)
      × (drop (persisted_history_count (remember hash ms answer s)) (ms ++ (answer ∷ rest)) ≡ rest)
unfolding matches_history_prefix remember persisted_history_count
conversation_continues decode digits hash asked more ms rest answer s h a r k =
    let (from, whole) = normalize_messages-from decode digits asked (echo answer ∷ more) ms h in
    let (new, _) = normalize_messages-from decode digits more [] rest k in
    let said = normalize_message-echo decode (digits 0) answer a r in
    let behind =
      normalize_from-cons decode digits 0 (echo answer) more answer rest said
        (normalize_from_index decode digits 0 1 more rest new) in
    (
      whole
          ∙ normalize_from-append decode digits 0 asked (echo answer ∷ more) ms (answer ∷ rest) from
              behind,
      (has_prefix_iff (ms ++ (answer ∷ rest)) (ms ++ (answer ∷ []))).1
          (rest, sym (append_assoc ms (answer ∷ []) rest)),
      drop-remembered ms rest answer,
    )
