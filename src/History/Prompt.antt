-- ===== src/History/Prompt.antt =====
-- `turnPrompt` of internal/gateway/history.go.
use mathlib.Core.List.{reverse-cons, reverse-append}
use agentrun_openai.Prelude.{
  ◌≡◌, refl, ap, ◌∙◌, true, false, not, ◌&&◌, List, [], ◌∷◌, ◌++◌, reverse, arith, if◌then◌else◌,
  length, length-append, some, append_assoc, Bool-cases, inl, inr, ◌⊎◌, All, All-append,
}
use agentrun_openai.Prelude.Text.{Text, codes, is_empty, trim_space}
use agentrun_openai.Types.{
  TranscriptMessage, ToolCall, Role, system, developer, user, assistant, tool, role_eq, role_eq_iff,
  role_name, Result, ok, err, plain,
}
use agentrun_openai.History.{
  is_system, ends_with_user, filtered, last_user, is_last, render, prompt_of, turn_prompt,
  not_user_last,
}

filtered-append :
    (ms ns : List TranscriptMessage) → filtered (ms ++ ns) ≡ filtered ms ++ filtered ns
unfolding filtered
filtered-append [] ns = refl
filtered-append (m ∷ ms) ns = ground (arith, filtered-append ms ns)

last_user-append :
    (ms : List TranscriptMessage) (m : TranscriptMessage)
    → last_user (ms ++ (m ∷ [])) ≡ (if role_eq m.role user then some (length ms) else last_user ms)
unfolding last_user
last_user-append [] m = refl
last_user-append (x ∷ ms) m = ground (arith, last_user-append ms m)

render-append : (ms ns : List TranscriptMessage) → render (ms ++ ns) ≡ render ms ++ render ns
unfolding render
render-append [] ns = refl
render-append (m ∷ ms) ns = rw (render-append ms ns) (simp append_assoc)

-- System and developer messages.
abbrev pub Systems : List TranscriptMessage → Type 0
Systems = All (λ m. is_system m.role ≡ true)

Systems-reverse : (ms : List TranscriptMessage) → Systems ms → Systems (reverse ms)
Systems-reverse [] a = tt
Systems-reverse (m ∷ ms) a = rw (reverse-cons m ms) (
    All-append (λ x. is_system x.role ≡ true) (reverse ms) (m ∷ []) (Systems-reverse ms a.1)
      (a.0, tt))

ends_with_user-skip :
    (xs ys : List TranscriptMessage) (m : TranscriptMessage)
    → Systems xs
    → is_system m.role ≡ false
    → ends_with_user (xs ++ (m ∷ ys)) ≡ role_eq m.role user
unfolding ends_with_user
ends_with_user-skip [] ys m a h = rw h
ends_with_user-skip (x ∷ xs) ys m a h = rw a.0 (ends_with_user-skip xs ys m a.1 h)

filtered-Systems : (ms : List TranscriptMessage) → Systems ms → filtered ms ≡ []
unfolding filtered
filtered-Systems [] a = refl
filtered-Systems (m ∷ ms) a = rw a.0 (filtered-Systems ms a.1)

filtered_user :
    (m : TranscriptMessage) (after : List TranscriptMessage)
    → m.role ≡ user
    → m.tool_calls ≡ []
    → Systems after
    → filtered (m ∷ after) ≡ m ∷ []
unfolding filtered
filtered_user m after u c a = ground (arith, filtered-Systems after a)

reverse-around :
    (before after : List TranscriptMessage) (m : TranscriptMessage)
    → reverse (before ++ (m ∷ after)) ≡ reverse after ++ (m ∷ reverse before)
reverse-around before after m = rw (
  reverse-append before (m ∷ after),
  reverse-cons m after,
  append_assoc (reverse after) (m ∷ []) (reverse before),
)

-- How a message is shown among others.
abbrev pub shown : TranscriptMessage → Text
shown m = render (m ∷ [])

abbrev pub context : Text
context = codes "Conversation context:\n"

user_last :
    (said : List TranscriptMessage) (m : TranscriptMessage)
    → m.role ≡ user
    → is_last (last_user (said ++ (m ∷ []))) (said ++ (m ∷ [])) ≡ true
user_last said m u =
    ground (arith, last_user-append said m, role_eq_iff m.role user, length-append said (m ∷ []))

-- The prompt for what was said, and the user's message behind it.
abbrev pub prompt_with : List TranscriptMessage → TranscriptMessage → Result Text
prompt_with [] m =
    if is_empty (trim_space m.content)
    then err (plain (codes "the user turn must not be empty"))
    else ok m.content
prompt_with (x ∷ said) m = ok (context ++ (render (x ∷ said) ++ shown m))

prompt_of-with :
    (said : List TranscriptMessage) (m : TranscriptMessage)
    → m.role ≡ user
    → prompt_of (said ++ (m ∷ [])) ≡ prompt_with said m
prompt_of-with [] m u = rw (user_last [] m u)
prompt_of-with (x ∷ []) m u =
    rw (user_last (x ∷ []) m u) (ap (λ t. ok (context ++ t)) (render-append (x ∷ []) (m ∷ [])))
prompt_of-with (x ∷ y ∷ said) m u =
    rw (user_last (x ∷ y ∷ said) m u)
      (ap (λ t. ok (context ++ t)) (render-append (x ∷ y ∷ said) (m ∷ [])))

-- A message in a prompt, by its role and its tool calls: only what the user and the assistant said.
abbrev pub line : Role → List ToolCall → Text → Text
line user [] t = codes "\n[user]\n" ++ (t ++ codes "\n")
line assistant [] t = codes "\n[assistant]\n" ++ (t ++ codes "\n")
line _ _ t = []

-- What was said in a transcript.
abbrev pub told : List TranscriptMessage → Text
told [] = []
told (m ∷ ms) = line m.role m.tool_calls m.content ++ told ms

-- The prompt of a user's message behind what was said.
abbrev pub prompt_after : Text → TranscriptMessage → Result Text
prompt_after [] m =
    if is_empty (trim_space m.content)
    then err (plain (codes "the user turn must not be empty"))
    else ok m.content
prompt_after (c ∷ said) m =
    ok (codes "Conversation context:\n" ++ (c ∷ said ++ line user [] m.content))

line_lem :
    (r : Role) (calls : List ToolCall) (t rest : Text)
    → (if not (is_system r) && not (role_eq r tool) && is_empty calls
        then codes "\n[" ++ (role_name r ++ (codes "]\n" ++ (t ++ (codes "\n" ++ rest))))
        else rest)
      ≡ line r calls t ++ rest
unfolding role_name
line_lem system [] t rest = refl
line_lem system (c ∷ calls) t rest = refl
line_lem developer [] t rest = refl
line_lem developer (c ∷ calls) t rest = refl
line_lem user [] t rest = rw (append_assoc t (codes "\n") rest) refl
line_lem user (c ∷ calls) t rest = refl
line_lem assistant [] t rest = rw (append_assoc t (codes "\n") rest) refl
line_lem assistant (c ∷ calls) t rest = refl
line_lem tool [] t rest = refl
line_lem tool (c ∷ calls) t rest = refl

render-filtered : (ms : List TranscriptMessage) → render (filtered ms) ≡ told ms
unfolding render filtered
render-filtered [] = refl
render-filtered (m ∷ ms) =
    ground (arith, line_lem m.role m.tool_calls m.content (told ms), render-filtered ms)

prompt_with-after :
    (said : List TranscriptMessage) (m : TranscriptMessage)
    → m.role ≡ user
    → prompt_with said m ≡ prompt_after (render said) m
unfolding render role_name
prompt_with-after [] m u = refl
prompt_with-after (x ∷ said) m u = rw u refl

-- A transcript whose last message that is no system or developer message is `m`, where `m` has tool
-- calls only if it is the assistant's. If `m` is not the user's, there is no prompt. If it is, and
-- nothing else was said, the prompt is its content, and blank content is refused. If something was said
-- before, the prompt is that and the user's message behind it. Said is what messages of the user and
-- the assistant without tool calls hold, in order, each under its role; system, developer and tool
-- messages and those with tool calls are left out.
pub turn_prompt_lem :
    (before after : List TranscriptMessage) (m : TranscriptMessage)
    → is_system m.role ≡ false
    → (m.role ≡ user → m.tool_calls ≡ [])
    → Systems after
    → turn_prompt (before ++ (m ∷ after))
      ≡ (if role_eq m.role user then prompt_after (told before) m else not_user_last)
unfolding turn_prompt
turn_prompt_lem before after m s c a =
    rw
      (
        reverse-around before after m,
        ends_with_user-skip (reverse after) (reverse before) m (Systems-reverse after a) s,
      )
      (spoken (Bool-cases (role_eq m.role user)))
  where
    kept : m.role ≡ user → filtered (before ++ (m ∷ after)) ≡ filtered before ++ (m ∷ [])
    kept u =
        filtered-append before (m ∷ after)
        ∙ ap (λ ms. filtered before ++ ms) (filtered_user m after u (c u) a)

    spoken :
        (role_eq m.role user ≡ true) ⊎ (role_eq m.role user ≡ false)
        → (if not (role_eq m.role user)
            then not_user_last
            else prompt_of (filtered (before ++ (m ∷ after))))
          ≡ (if role_eq m.role user then prompt_after (told before) m else not_user_last)
    spoken (inl e) =
        let u = (role_eq_iff m.role user).0 e in
        rw (e, kept u)
          (prompt_of-with (filtered before) m u
            ∙ prompt_with-after (filtered before) m u
            ∙ ap (λ t. prompt_after t m) (render-filtered before))
    spoken (inr e) = rw e
