-- ===== src/Messages/Sound.antt =====
-- What `normalizeMessages` of internal/gateway/history.go lets through.
use agentrun_openai.Prelude.{
  ◌≡◌, ◌⊎◌, inl, inr, refl, sym, ap, ◌∙◌, subst, Bool, true, false, not, ◌&&◌, List, [], ◌∷◌,
  Option, none, some, if◌then◌else◌, arith, All, ℕ, ◌+◌, ◌≤◌, suc, length,
}
use agentrun_openai.Prelude.Text.{Text, codes, text_eq_iff, member, is_empty, trim_space, to_lower}
use agentrun_openai.Prelude.Distinct.{Distinct, Apart, Apart-cons}
use agentrun_openai.Types.{
  GoError, Role, assistant, tool, role_eq, role_eq_iff, ToolCall, TranscriptMessage, Result, ok,
  err, ◌>>=◌, bind-eq-ok,
}
use agentrun_openai.Json.{Json, canonical, encode, canonical_json, encoded}
use agentrun_openai.Tools.{is_function_name, opens_object}
use agentrun_openai.Messages.{
  ChatMessage, is_call, checked_call, go_on, normalize_calls, bad_content, raw_content,
  transcript_message, with_calls, with_role, same_test, role_of, normalize_message, normalize_from,
  normalize_messages,
}
use agentrun_openai.Messages.Content.{text_content}

abbrev pub ids_of : List ToolCall → List Text
ids_of [] = []
ids_of (c ∷ cs) = c.id ∷ ids_of cs

-- A call of a function by a valid name, with an object in canonical form.
abbrev pub IsCall : ToolCall → Type 0
IsCall c =
    (is_empty c.id ≡ false)
    × (c.kind ≡ codes "function")
    × (is_function_name c.function.name ≡ true)
    × (opens_object c.function.arguments ≡ true)
    × (v : Json) × (c.function.arguments ≡ encode (canonical v))

abbrev pub AreCalls : List ToolCall → Type 0
AreCalls cs = All IsCall cs × Distinct (ids_of cs)

abbrev pub IsMessage : TranscriptMessage → Type 0
IsMessage m =
    ((m.tool_calls ≡ []) ⊎ (m.role ≡ assistant))
    × (role_eq m.role tool ≡ not (is_empty m.tool_call_id))
    × AreCalls m.tool_calls

pub is_call_ok :
    (seen : List Text) (c : ToolCall) (raw : Text)
    → is_call seen c raw ≡ true
    → (is_empty c.id ≡ false)
      × (member c.id seen ≡ false)
      × (c.kind ≡ codes "function")
      × (is_function_name c.function.name ≡ true)
      × (opens_object raw ≡ true)
is_call_ok seen c raw h = ground (arith, text_eq_iff c.kind (codes "function"))

pub if_some {ℓ} :
    {A : Type ℓ} (b : Bool) {a d : A} → (if b then some a else none) ≡ some d → (b ≡ true) × (a ≡ d)
if_some true h = (refl, ground (arith, h))
if_some false h = ground (arith, h)

pub checked_call_ok :
    (seen : List Text) (c d : ToolCall) (o : Option Json)
    → checked_call seen c (encoded o) ≡ some d
    → (d.id ≡ c.id) × (member c.id seen ≡ false) × IsCall d
checked_call_ok seen c d none h = ground (arith, h)
checked_call_ok seen c d (some v) h =
    let (fits, same) = if_some (is_call seen c (encode (canonical v))) h in
    let (id, fresh, kind, name, opens) = is_call_ok seen c (encode (canonical v)) fits in
    subst (λ (e : ToolCall). (e.id ≡ c.id) × (member c.id seen ≡ false) × IsCall e) same
      (refl, fresh, (id, kind, name, opens, v, refl))

-- One turn of the loop over the calls.
pub normalize_calls_step :
    (o : Option ToolCall) (rest : Option (List ToolCall)) (ds : List ToolCall)
    → go_on o rest ≡ some ds
    → (d : ToolCall) × (es : List ToolCall) × (o ≡ some d) × (rest ≡ some es) × (d ∷ es ≡ ds)
normalize_calls_step none rest ds h = ground (arith, h)
normalize_calls_step (some d) none ds h = ground (arith, h)
normalize_calls_step (some d) (some es) ds h = (d, es, refl, refl, ground (arith, h))

pub normalize_calls_ok :
    (decode : Text → Option Json) (seen : List Text) (cs ds : List ToolCall)
    → normalize_calls decode seen cs ≡ some ds
    → AreCalls ds × Apart seen (ids_of ds)
unfolding normalize_calls canonical_json
normalize_calls_ok decode seen [] ds h =
    let same : [] ≡ ds = ground (arith, h) in
    subst (λ es. AreCalls es × Apart seen (ids_of es)) same ((tt, tt), tt)
normalize_calls_ok decode seen (c ∷ cs) ds h =
    let (d, es, e, f, same) =
      normalize_calls_step (checked_call seen c (encoded (decode c.function.arguments)))
        (normalize_calls decode (c.id ∷ seen) cs) ds h in
    let (id, fresh, call) = checked_call_ok seen c d (decode c.function.arguments) e in
    let ((calls, distinct), apart) = normalize_calls_ok decode (c.id ∷ seen) cs es f in
    let (off, rest) = Apart-cons c.id seen (ids_of es) apart in
    subst (λ xs. AreCalls xs × Apart seen (ids_of xs)) same
      (
        ((call, calls), (ap (λ i. member i (ids_of es)) id ∙ off, distinct)),
        (ap (λ i. member i seen) id ∙ fresh, rest),
      )

pub with_calls_ok :
    (decode : Text → Option Json) (digits : Text) (m : ChatMessage) (role : Role)
    (o : Option (List ToolCall)) (t : TranscriptMessage)
    → with_calls decode digits m role o ≡ ok t
    → (o ≡ some t.tool_calls) × (t.role ≡ role) × (t.tool_call_id ≡ m.tool_call_id)
with_calls_ok decode digits m role none t h = ground (arith, h)
with_calls_ok decode digits m role (some calls) t h =
    let (content, e, f) =
      bind-eq-ok (bad_content digits (text_content decode (raw_content role calls m.content)))
        (λ content. ok (transcript_message role content calls m.tool_call_id)) h in
    let same : transcript_message role content calls m.tool_call_id ≡ t = ground (arith, f) in
    (
      ap (λ (x : TranscriptMessage). some x.tool_calls) same,
      ap (λ (x : TranscriptMessage). x.role) (sym same),
      ap (λ (x : TranscriptMessage). x.tool_call_id) (sym same),
    )

pub guarded_ok {ℓ} :
    {A : Type ℓ} (a b : Bool) (e f : GoError) (r : Result A) {t : A}
    → (if a then err e else if b then err f else r) ≡ ok t
    → (a ≡ false) × (b ≡ false) × (r ≡ ok t)
guarded_ok true b e f r h = ground (arith, h)
guarded_ok false true e f r h = ground (arith, h)
guarded_ok false false e f r h = (refl, refl, h)

pub may_call :
    (calls : List ToolCall) (role : Role)
    → (not (is_empty calls) && not (role_eq role assistant)) ≡ false
    → (calls ≡ []) ⊎ (role ≡ assistant)
may_call [] role h = inl refl
may_call (c ∷ cs) role h = inr (ground (arith, role_eq_iff role assistant))

pub same_test_true : (a b : Bool) → not (same_test a b) ≡ false → a ≡ b
same_test_true true b h = ground (arith, h)
same_test_true false b h = ground (arith, h)

pub with_role_ok :
    (decode : Text → Option Json) (digits : Text) (m : ChatMessage) (o : Option Role)
    (t : TranscriptMessage)
    → with_role decode digits m o ≡ ok t
    → (role : Role) × (with_calls decode digits m role (normalize_calls decode [] m.tool_calls)
        ≡ ok t)
      × ((m.tool_calls ≡ []) ⊎ (role ≡ assistant))
      × (role_eq role tool ≡ not (is_empty m.tool_call_id))
with_role_ok decode digits m none t h = ground (arith, h)
with_role_ok decode digits m (some role) t h =
    let (calls, ids, done) =
      guarded_ok (not (is_empty m.tool_calls) && not (role_eq role assistant))
        (not (same_test (role_eq role tool) (not (is_empty m.tool_call_id)))) _ _
        (with_calls decode digits m role (normalize_calls decode [] m.tool_calls)) h in
    (
      role,
      done,
      may_call m.tool_calls role calls,
      same_test_true (role_eq role tool) (not (is_empty m.tool_call_id)) ids,
    )

pub normalize_calls_none :
    (decode : Text → Option Json) (cs ds : List ToolCall)
    → cs ≡ []
    → normalize_calls decode [] cs ≡ some ds
    → ds ≡ []
unfolding normalize_calls
normalize_calls_none decode [] ds e h = ground (arith, h)
normalize_calls_none decode (c ∷ cs) ds e h = ground (arith, e)

pub normalize_message_ok :
    (decode : Text → Option Json) (digits : Text) (m : ChatMessage) (t : TranscriptMessage)
    → normalize_message decode digits m ≡ ok t
    → IsMessage t
unfolding normalize_message
normalize_message_ok decode digits m t h =
    let (role, e, callers, ids) =
      with_role_ok decode digits m (role_of (to_lower (trim_space m.role))) t h in
    let (calls, same, id) =
      with_calls_ok decode digits m role (normalize_calls decode [] m.tool_calls) t e in
    (
      elim callers [
        | inl none_given ↦
            inl (normalize_calls_none decode m.tool_calls t.tool_calls none_given calls)
        | inr speaks ↦ inr (same ∙ speaks)
      ],
      ap (λ r. role_eq r tool) same ∙ ids ∙ ap (λ i. not (is_empty i)) (sym id),
      (normalize_calls_ok decode [] m.tool_calls t.tool_calls calls).0,
    )

-- One turn of the loop over the messages.
pub normalize_from_step :
    (decode : Text → Option Json) (digits : ℕ → Text) (i : ℕ) (m : ChatMessage)
    (ms : List ChatMessage) (ts : List TranscriptMessage)
    → normalize_from decode digits i (m ∷ ms) ≡ ok ts
    → (t : TranscriptMessage) × (us : List TranscriptMessage) × (normalize_message decode
          (digits i)
          m
        ≡ ok t)
      × (normalize_from decode digits (i + 1) ms ≡ ok us)
      × (t ∷ us ≡ ts)
unfolding normalize_from
normalize_from_step decode digits i m ms ts h =
    let (t, e, f) =
      bind-eq-ok (normalize_message decode (digits i) m)
        (λ t. normalize_from decode digits (i + 1) ms >>= λ us. ok (t ∷ us)) h in
    let (us, g, k) = bind-eq-ok (normalize_from decode digits (i + 1) ms) (λ us. ok (t ∷ us)) f in
    (t, us, e, g, ground (arith, k))

pub normalize_from_ok :
    (decode : Text → Option Json) (digits : ℕ → Text) (i : ℕ) (ms : List ChatMessage)
    (ts : List TranscriptMessage)
    → normalize_from decode digits i ms ≡ ok ts
    → All IsMessage ts × (length ts ≡ length ms)
normalize_from_ok decode digits i [] ts h =
    let same : [] ≡ ts = unfold normalize_from in ground (arith, h) in
    subst (λ us. All IsMessage us × (length us ≡ 0)) same (tt, refl)
normalize_from_ok decode digits i (m ∷ ms) ts h =
    let (t, us, e, g, same) = normalize_from_step decode digits i m ms ts h in
    let (all, count) = normalize_from_ok decode digits (i + 1) ms us g in
    subst (λ xs. All IsMessage xs × (length xs ≡ suc (length ms))) same
      ((normalize_message_ok decode (digits i) m t e, all), ap suc count)

-- The transcript of a request that is let through has one message for each of the request, and at
-- least one. Only an assistant calls tools, only a tool's answer names a call, the calls of a message
-- have different ids that are not empty, and each is a call of a function by a valid name with an
-- object in canonical form as its arguments.
pub normalize_messages_ok :
    (decode : Text → Option Json) (digits : ℕ → Text) (ms : List ChatMessage)
    (ts : List TranscriptMessage)
    → normalize_messages decode digits ms ≡ ok ts
    → All IsMessage ts × (length ts ≡ length ms) × (1 ≤ length ts)
unfolding normalize_messages
normalize_messages_ok decode digits [] ts h = ground (arith, h)
normalize_messages_ok decode digits (m ∷ ms) ts h =
    let (all, count) = normalize_from_ok decode digits 0 (m ∷ ms) ts h in
    (all, count, omega (arith, count))
