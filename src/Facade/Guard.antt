-- ===== src/Facade/Guard.antt =====
-- Who may change the turn through the facade of internal/gateway/mcp_facade.go.
use mathlib.Core.Option
use agentrun_openai.Prelude.{
  Bool-cases, ◌≡◌, refl, ap, ◌⊎◌, inl, inr, Bool, true, false, [], ◌∷◌, ◌++◌, Option, none, some,
  arith,
}
use agentrun_openai.Prelude.Text.{Text, codes, text_eq, text_eq_iff}
use agentrun_openai.Prelude.Dict.{insert}
use agentrun_openai.Types.{ToolCall, GoError, plain, forbids}
use agentrun_openai.Json.{Json, canonical_json}
use agentrun_openai.Tools.{opens_object}
use agentrun_openai.Turn.{
  ActiveTurn, Registered, register, register_raw, is_object, call_of, cancel,
}
use agentrun_openai.Facade.Bridge.{Call}
use agentrun_openai.Facade.{
  McpFacade, Request, Served, rejects, lists, watches, waits, refuses, is_known, unless_none,
  registered_in, call_turn, serve_call, serve, WatchEnd, facade_ended, bridge_left, end_watch,
  abort, cancel_turn, is_authorized,
}

-- The call of a tool that the facade offers, by a bridge that knows the token, in a turn whose policy
-- lets it, with an object as its arguments.
abbrev pub Permitted :
    (Text → Option Json) → McpFacade → Text → Request → ToolCall → McpFacade → Type 0
Permitted decode f id q call g =
    (q.method ≡ codes "POST")
    × (q.authorization ≡ codes "Bearer " ++ f.token)
    × (q.path ≡ codes "/call")
    × (c : Call) × (q.call ≡ some c)
    × (is_known c.name f.tools ≡ true)
    × (t : ActiveTurn) × (f.active ≡ some t)
    × (forbids t.policy c.name ≡ false)
    × (raw : Text) × (canonical_json decode (unless_none c.arguments) ≡ some raw)
    × (opens_object raw ≡ true)
    × (call ≡ call_of id c.name raw)
    × (g ≡ record f {
      active = some (record t {
        pending = insert id (record { call = call_of id c.name raw; delivered = false }) t.pending;
      });
    })

-- The bridge's watch, by a bridge that knows the token: when the bridge leaves before the facade's end,
-- the turn is cancelled and so is the facade.
abbrev pub Watched : McpFacade → WatchEnd → Request → McpFacade → Type 0
Watched f over q g =
    (q.method ≡ codes "POST")
    × (q.authorization ≡ codes "Bearer " ++ f.token)
    × (q.path ≡ codes "/watch")
    × (over ≡ bridge_left)
    × (g ≡ record f {
      canceled = true;
      active = Option.map (cancel (plain (codes "MCP bridge disconnected"))) f.active;
    })

module _ (decode : Text → Option Json) where
  pub serve_call_waits :
      (f g : McpFacade) (id : Text) (over : WatchEnd) (q : Request) (call : ToolCall)
      → serve decode f id over q ≡ (waits call, g)
      → (q.method ≡ codes "POST")
        × (q.authorization ≡ codes "Bearer " ++ f.token)
        × (q.path ≡ codes "/call")
        × (serve_call decode f id q.call ≡ (waits call, g))
  unfolding serve
  serve_call_waits f g id over q call h = ground (
    arith,
    text_eq_iff q.method (codes "POST"),
    text_eq_iff q.authorization (codes "Bearer " ++ f.token),
    text_eq_iff q.path (codes "/call"),
  )

  pub known_call :
      (f g : McpFacade) (id : Text) (o : Option Call) (call : ToolCall)
      → serve_call decode f id o ≡ (waits call, g)
      → (c : Call) × (o ≡ some c)
        × (is_known c.name f.tools ≡ true)
        × (call_turn decode f id c f.active ≡ (waits call, g))
  known_call f g id none call h = ground (arith, h)
  known_call f g id (some c) call h = (c, refl, ground (arith, h), ground (arith, h))

  pub bound_call :
      (f g : McpFacade) (id : Text) (c : Call) (o : Option ActiveTurn) (call : ToolCall)
      → call_turn decode f id c o ≡ (waits call, g)
      → (t : ActiveTurn) × (o ≡ some t)
        × (registered_in f (register (canonical_json decode (unless_none c.arguments)) id c.name t)
            ≡ (waits call, g))
  bound_call f g id c none call h = ground (arith, h)
  bound_call f g id c (some t) call h = (t, refl, h)

pub registered_call :
    (f g : McpFacade) (id name raw : Text) (t : ActiveTurn) (call : ToolCall)
    → registered_in f (register_raw (some raw) id name t) ≡ (waits call, g)
    → (forbids t.policy name ≡ false)
      × (call ≡ call_of id name raw)
      × (g ≡ record f {
        active = some (record t {
          pending = insert id (record { call = call_of id name raw; delivered = false }) t.pending;
        });
      })
registered_call f g id name raw t call h = ground (arith, h)

pub object_call :
    (f g : McpFacade) (id name : Text) (o : Option Text) (t : ActiveTurn) (call : ToolCall)
    → registered_in f (register_raw (is_object o) id name t) ≡ (waits call, g)
    → (raw : Text) × (o ≡ some raw)
      × (opens_object raw ≡ true)
      × (registered_in f (register_raw (some raw) id name t) ≡ (waits call, g))
object_call f g id name none t call h = ground (arith, h)
object_call f g id name (some []) t call h = ground (arith, h)
object_call f g id name (some (c ∷ raw)) t call h =
    (c ∷ raw, refl, ground (arith, h), ground (arith, h))

-- An answer that is no waiting call leaves the facade as it is.
abbrev pub is_waiting : Served → Bool
is_waiting (waits call) = true
is_waiting _ = false

pub quiet_registered :
    (f : McpFacade) (r : Registered)
    → is_waiting (registered_in f r).0 ≡ false
    → (registered_in f r).1 ≡ f
quiet_registered f (Registered.refused e) h = refl
quiet_registered f (Registered.registered call t) h = ground (arith, h)

module _ (decode : Text → Option Json) where
  pub quiet_turn :
      (f : McpFacade) (id : Text) (c : Call) (o : Option ActiveTurn)
      → is_waiting (call_turn decode f id c o).0 ≡ false
      → (call_turn decode f id c o).1 ≡ f
  quiet_turn f id c none h = refl
  quiet_turn f id c (some t) h =
      quiet_registered f (register (canonical_json decode (unless_none c.arguments)) id c.name t) h

  pub quiet_call :
      (f : McpFacade) (id : Text) (o : Option Call)
      → is_waiting (serve_call decode f id o).0 ≡ false
      → (serve_call decode f id o).1 ≡ f
  quiet_call f id none h = refl
  quiet_call f id (some c) h = ground (arith, quiet_turn f id c f.active)

  cancel_turn-map :
      (e : GoError) (o : Option ActiveTurn) → cancel_turn e o ≡ Option.map (cancel e) o
  cancel_turn-map e none = refl
  cancel_turn-map e (some t) = refl

  pub serve-Permitted :
      (f g : McpFacade) (id : Text) (over : WatchEnd) (q : Request) (call : ToolCall)
      → serve decode f id over q ≡ (waits call, g)
      → Permitted decode f id q call g
  unfolding register
  serve-Permitted f g id over q call h =
      let (method, authorization, path, h1) = serve_call_waits decode f g id over q call h in
      let (c, body, known, h2) = known_call decode f g id q.call call h1 in
      let (t, bound, h3) = bound_call decode f g id c f.active call h2 in
      let (raw, canonical, opens, h4) =
        object_call f g id c.name (canonical_json decode (unless_none c.arguments)) t call h3 in
      let (lawful, made, kept) = registered_call f g id c.name raw t call h4 in
      (
        method, authorization, path, c, body, known, t, bound, lawful, raw, canonical, opens, made,
        kept,
      )

  quiet :
      (f : McpFacade) (id : Text) (over : WatchEnd) (q : Request)
      → is_waiting (serve decode f id over q).0 ≡ false
      → text_eq q.path (codes "/watch") ≡ false
      → (serve decode f id over q).1 ≡ f
  unfolding serve
  quiet f id over q h w = ground (arith, quiet_call f id q.call)

  watched :
      (f : McpFacade) (id : Text) (over : WatchEnd) (q : Request)
      → q.path ≡ codes "/watch"
      → ((serve decode f id over q).1 ≡ f) ⊎ Watched f over q (serve decode f id over q).1
  unfolding serve end_watch abort text_eq
  watched f id facade_ended q w = inl (rw w (ground arith))
  watched f id bridge_left q w = elim (Bool-cases (is_authorized decode f q)) [
    | inl e ↦ inr (
      (text_eq_iff q.method (codes "POST")).0 (ground (arith, e)),
      (text_eq_iff q.authorization (codes "Bearer " ++ f.token)).0 (ground (arith, e)),
      w,
      refl,
      rw (w, e, cancel_turn-map (plain (codes "MCP bridge disconnected")) f.active) refl,
    )
    | inr e ↦ inl (rw (w, e) refl)
  ]

  -- A request changes nothing of the facade and its turn, but in two cases. It is the call of a tool
  -- that the facade offers, by a POST with the facade's token, while a turn is bound whose tool_choice
  -- lets the tool be called, with an object as its arguments; the call is then one more pending call of
  -- that turn, not yet delivered, with these arguments in canonical form. Or it is a bridge's watch, by
  -- a POST with the facade's token, whose bridge leaves before the facade's end; then the turn is
  -- cancelled and the facade too, and nothing else of it is changed.
  pub serve_guarded :
      (f : McpFacade) (id : Text) (over : WatchEnd) (q : Request)
      → ((serve decode f id over q).1 ≡ f)
        ⊎ ((call : ToolCall) × (g : McpFacade) × (serve decode f id over q ≡ (waits call, g))
            × Permitted decode f id q call g)
        ⊎ Watched f over q (serve decode f id over q).1
  serve_guarded f id over q = elim (Bool-cases (text_eq q.path (codes "/watch"))) [
    | inl e ↦ elim (watched f id over q ((text_eq_iff q.path (codes "/watch")).0 e)) [
      | inl same ↦ inl same
      | inr left ↦ inr (inr left)
    ]
    | inr e ↦ settle e (serve decode f id over q) refl
  ]
    where
      settle :
          text_eq q.path (codes "/watch") ≡ false
          → (r : Served × McpFacade) → serve decode f id over q ≡ r
          → ((serve decode f id over q).1 ≡ f)
            ⊎ ((call : ToolCall) × (g : McpFacade) × (serve decode f id over q ≡ (waits call, g))
                × Permitted decode f id q call g)
            ⊎ Watched f over q (serve decode f id over q).1
      settle n (waits call, g) e = inr (inl (call, g, e, serve-Permitted f g id over q call e))
      settle n (rejects status text, g) e = inl (quiet f id over q (ap (λ x. is_waiting x.0) e) n)
      settle n (lists ts, g) e = inl (quiet f id over q (ap (λ x. is_waiting x.0) e) n)
      settle n (watches, g) e = inl (quiet f id over q (ap (λ x. is_waiting x.0) e) n)
      settle n (refuses error, g) e = inl (quiet f id over q (ap (λ x. is_waiting x.0) e) n)
