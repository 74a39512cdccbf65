-- ===== src/Server/Admission.antt =====
-- What a request has when `handleChat` of internal/gateway/server.go locks its session.
use agentrun_openai.Prelude.{
  ℕ, ◌≤◌, Option, some, All, length, ap, sym, ◌∙◌, ◌≡◌, refl, subst, Bool, true, false, not, List,
  [], ◌∷◌, ◌++◌, arith, if◌then◌else◌, inl, inr, Bool-cases,
}
use agentrun_openai.Prelude.Text.{Text, codes, is_empty, trim_space}
use agentrun_openai.Types.{Result, ok, err, TranscriptMessage, Role}
use agentrun_openai.Json.{Json}
use agentrun_openai.Tools.{Normalized, normalize_tools}
use agentrun_openai.Tools.Order.{Sorted}
use agentrun_openai.Tools.Sound.{IsTool, Met, normalize_tools_ok}
use agentrun_openai.Messages.{normalize_messages}
use agentrun_openai.Messages.Sound.{IsMessage, normalize_messages_ok}
use agentrun_openai.Models.{Catalog, ModelRoute, Listing, resolve_model, select_reasoning_effort}
use agentrun_openai.Session.Store.{is_abs}
use agentrun_openai.Chat.{Reply}
use agentrun_openai.Server.Paths.{resolve_allowed_cwd, Inside, resolve_allowed_cwd-Inside}
use agentrun_openai.Server.{
  Check, pass, stop, then_check, Config, ChatRequest, Admitted, admit, choose_cwd, allow_cwd,
  choose_session, affinity_id, valid_session_id, state_key, find_route, or_400, last_role,
  check_flusher, default_to, place,
}

then_check-pass {ℓ κ} :
    {A : Type ℓ} {B : Type κ} (c : Check A) (f : A → Check B) {b : B}
    → then_check c f ≡ pass b
    → (a : A) × (c ≡ pass a) × (f a ≡ pass b)
then_check-pass (stop r) f h = cc
then_check-pass (pass a) f h = (a, refl, h)

pass-injective {ℓ} : {A : Type ℓ} {a b : A} → pass a ≡ pass b → a ≡ b
pass-injective e = cc

-- The directory that a request gets for the one that it asked for.
abbrev pub Confined : (Text → Result Text) → List Text → Text → Text → Type 0
Confined eval [] asked cwd = cwd ≡ asked
Confined eval (root ∷ roots) asked cwd = (eval asked ≡ ok cwd) × Inside eval (root ∷ roots) cwd

-- The directory that a request asks for.
abbrev pub asked_cwd : Config → ChatRequest → Text
asked_cwd config q = default_to config.default_cwd (trim_space q.agent_cwd)

choose_session-valid :
    (asked random id : Text)
    → valid_session_id random ≡ true
    → choose_session asked random ≡ pass id
    → valid_session_id id ≡ true
choose_session-valid [] random id v h = subst (λ t. valid_session_id t ≡ true) (pass-injective h) v
choose_session-valid (c ∷ asked) random id v h = ground arith

module _ (eval : Text → Result Text)
    (absolute : (p q : Text) → is_abs p ≡ true → eval p ≡ ok q → is_abs q ≡ true) where
  allowed :
      (cwd found : Text) (roots : List Text) (r : Result (Text × Bool))
      → is_abs cwd ≡ true
      → resolve_allowed_cwd eval cwd roots ≡ r
      → allow_cwd r ≡ pass found
      → (is_abs found ≡ true) × (eval cwd ≡ ok found) × Inside eval roots found
  allowed cwd found roots (err e) a h p = cc
  allowed cwd found roots (ok (resolved, false)) a h p = cc
  allowed cwd found roots (ok (resolved, true)) a h p =
      let (e, inside) = resolve_allowed_cwd-Inside eval cwd resolved roots h in
      let same : resolved ≡ found = cc in
      (
        subst (λ t. is_abs t ≡ true) same (absolute cwd resolved a e),
        e ∙ ap ok same,
        subst (Inside eval roots) same inside,
      )

  chosen :
      (cwd found : Text) (roots : List Text) (reply : Reply) (b : Bool)
      → is_abs cwd ≡ b
      → (if not b
          then stop reply
          else if is_empty roots
          then pass cwd
          else allow_cwd (resolve_allowed_cwd eval cwd roots))
        ≡ pass found
      → (is_abs found ≡ true) × Confined eval roots cwd found
  chosen cwd found roots reply false a h = cc
  chosen cwd found [] reply true a h =
      let same : cwd ≡ found = cc in (subst (λ t. is_abs t ≡ true) same a, sym same)
  chosen cwd found (root ∷ roots) reply true a h =
      let (abs, e, inside) =
        allowed cwd found (root ∷ roots) (resolve_allowed_cwd eval cwd (root ∷ roots)) a refl h in
      (abs, (e, inside))

  choose_cwd-Confined :
      (config : Config) (cwd found : Text)
      → choose_cwd eval config cwd ≡ pass found
      → (is_abs found ≡ true) × Confined eval config.allowed_roots cwd found
  choose_cwd-Confined config cwd found h =
      chosen cwd found config.allowed_roots _ (is_abs cwd) refl h

  key_filled : (id model effort : Text) → is_empty (state_key id model effort) ≡ false
  unfolding state_key
  key_filled id model effort = elim (Bool-cases (is_empty effort)) [
    | inl e ↦ rw e (filled id model)
    | inr e ↦ rw e (filled_more id model effort)
  ]
    where
      filled : (id model : Text) → is_empty (id ++ (b':' ∷ model)) ≡ false
      filled [] model = refl
      filled (c ∷ id) model = refl

      filled_more :
          (id model effort : Text) → is_empty ((id ++ (b':' ∷ model)) ++ (b':' ∷ effort)) ≡ false
      filled_more [] model effort = refl
      filled_more (c ∷ id) model effort = refl

  -- What a request has at its session.
  abbrev pub HasPlace : Config → ChatRequest → Admitted → Type 0
  HasPlace config q d =
      (is_abs d.cwd ≡ true)
      × Confined eval config.allowed_roots (asked_cwd config q) d.cwd
      × (valid_session_id d.session_id ≡ true)
      × (is_empty d.key ≡ false)

  -- The tools and messages of a request as the tool of the session gets them.
  abbrev pub HasRequest : (Text → Option Json) → ChatRequest → Admitted → Type 0
  HasRequest decode q d =
      All (IsTool decode) d.tools.tools
      × Sorted d.tools.tools
      × Met d.tools.policy.mode d.tools.policy.name d.tools.tools
      × All IsMessage d.messages
      × (length d.messages ≡ length q.messages)
      × ((r : Role) × (last_role d.messages ≡ some r))

  last_role_found :
      (ms : List TranscriptMessage) → 1 ≤ length ms → (r : Role) × (last_role ms ≡ some r)
  unfolding last_role
  last_role_found [] h = ground (arith, h)
  last_role_found (m ∷ []) h = (m.role, refl)
  last_role_found (m ∷ n ∷ ms) h = last_role_found (n ∷ ms) (omega arith)

  module _ (decode : Text → Option Json) (digest : Text → Text) (digits : ℕ → Text) where
    or_400-pass {ℓ} :
        {A : Type ℓ} (code : Text) (r : Result A) {a : A} → or_400 code r ≡ pass a → r ≡ ok a
    or_400-pass code (err e) h = cc
    or_400-pass code (ok a) h = ap ok (pass-injective h)

    normal :
        (q : ChatRequest) (tools : Normalized) (messages : List TranscriptMessage)
        (route : ModelRoute) (id key cwd : Text)
        → normalize_tools decode digest q.tools q.tool_choice ≡ ok tools
        → normalize_messages decode digits q.messages ≡ ok messages
        → HasRequest decode q (record {
          route = route;
          tools = tools;
          messages = messages;
          session_id = id;
          key = key;
          cwd = cwd;
        })
    normal q tools messages route id key cwd e f =
        let (all, sorted, names, met, hash) =
          normalize_tools_ok decode digest q.tools q.tool_choice tools e in
        let (said, count, least) = normalize_messages_ok decode digits q.messages messages f in
        (all, sorted, met, said, count, last_role_found messages least)

    placed :
        (listing : Text → Listing) (config : Config) (k : Catalog) (q : ChatRequest) (d : Admitted)
        → (route : ModelRoute) (tools : Normalized) (messages : List TranscriptMessage)
          (id cwd : Text)
        → normalize_tools decode digest q.tools q.tool_choice ≡ ok tools
        → normalize_messages decode digits q.messages ≡ ok messages
        → valid_session_id q.random_id ≡ true
        → choose_session (affinity_id q.affinity) q.random_id ≡ pass id
        → choose_cwd eval config (default_to config.default_cwd (trim_space q.agent_cwd)) ≡ pass cwd
        → place eval decode digest digits listing config k q route tools messages id cwd ≡ pass d
        → HasPlace config q d × HasRequest decode q d
    placed listing config k q d route tools messages id cwd t m v e c h =
        let (abs, inside) =
          choose_cwd-Confined config (default_to config.default_cwd (trim_space q.agent_cwd)) cwd
            c in
        let valid = choose_session-valid (affinity_id q.affinity) q.random_id id v e in
        let key = state_key id q.model route.selected_effort in
        subst (λ a. HasPlace config q a × HasRequest decode q a) (pass-injective h)
          (
            (abs, inside, valid, key_filled id q.model route.selected_effort),
            normal q tools messages route id key cwd t m,
          )

    -- Symbolic links of absolute paths resolve to absolute paths, and the IDs that the gateway makes are
    -- valid. A request that reaches its session has a directory that is absolute. Where roots are
    -- configured, it is the one that the request asks for (or the default) with its symbolic links
    -- resolved, and lies inside one of the roots with that root's links resolved; without roots it is
    -- the one that was asked for as it is. Its session's ID is
    -- valid, and the session's key is not empty. Its tools are sorted function tools with a policy that
    -- they meet, each of its messages is a message of a transcript, and there is a last one.
    pub admit-Confined :
        (listing : Text → Listing) (config : Config) (k : Catalog) (q : ChatRequest) (d : Admitted)
        → valid_session_id q.random_id ≡ true
        → admit eval decode digest digits listing config k q ≡ pass d
        → HasPlace config q d × HasRequest decode q d
    unfolding admit
    admit-Confined listing config k q d v h =
        let (found, _, h1) =
          then_check-pass (find_route listing k q.model (resolve_model k q.model)) _ h in
        let (route, _, h2) =
          then_check-pass (or_400 _ (select_reasoning_effort found q.reasoning_effort)) _ h1 in
        let (tools, t, h3) =
          then_check-pass (or_400 _ (normalize_tools decode digest q.tools q.tool_choice)) _ h2 in
        let (messages, m, h4) =
          then_check-pass (or_400 _ (normalize_messages decode digits q.messages)) _ h3 in
        let (flushes, _, h5) = then_check-pass (check_flusher q.stream q.flusher) _ h4 in
        let (id, e, h6) =
          then_check-pass (choose_session (affinity_id q.affinity) q.random_id) _ h5 in
        let (cwd, c, h7) =
          then_check-pass
            (choose_cwd eval config (default_to config.default_cwd (trim_space q.agent_cwd))) _
            h6 in
        placed listing config k q d route tools messages id cwd
          (or_400-pass (codes "invalid_tools") (normalize_tools decode digest q.tools q.tool_choice)
            t)
          (or_400-pass (codes "invalid_messages") (normalize_messages decode digits q.messages) m) v
          e c h7
