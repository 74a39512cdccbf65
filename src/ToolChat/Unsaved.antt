-- ===== src/ToolChat/Unsaved.antt =====
-- What the store keeps of a session behind `handleToolChat` (internal/gateway/tool_chat.go): nothing.
use agentrun_openai.Prelude.{
  ◌≡◌, ap, ◌∙◌, sym, subst, ℕ, Bool, true, false, not, ◌&&◌, List, ◌++◌, Option, none, some,
  if◌then◌else◌,
}
use agentrun_openai.Prelude.Text.{Text, codes}
use agentrun_openai.Prelude.Dict.{lookup}
use agentrun_openai.Types.{GoError, TranscriptMessage, Result, ok, err, plain}
use agentrun_openai.History.{turn_prompt}
use agentrun_openai.Session.{LiveTurn}
use agentrun_openai.Session.Registry.{is_some}
use agentrun_openai.Session.Store.{SessionStore, delete}
use agentrun_openai.Session.Durable.{IsSound, reopened, delete-gone}
use agentrun_openai.Turn.{Outcome, refused, resolved, panics, resolve}
use agentrun_openai.Chat.{World, Reply, clear_session, invalid_request}
use agentrun_openai.Chat.Exchange.{is_none}
use agentrun_openai.ToolChat.{
  ToolAgent, ToolExchange, Entry, crashed, turned_away, attached, enter, enter_result, enter_prompt,
  result_entry, resolve_entry, with_prompt, with_facade, begin_turn, launched, with_turn, new_turn,
  goes_on, is_same, same_place, known_news, ends_with_tool, has_tool, clear, policy_suffix, request,
}
use agentrun_openai.ToolChat.Ending.{opened, exchange, conclude, unless_stopped, handle_tool_chat}
use agentrun_openai.ToolChat.Select.{Loop, waiting, failed, called_out, completed, loop}
use agentrun_openai.ToolChat.Calls.{some-injective}

-- What holds of the store and is kept by a deletion of the session holds where a turn goes on.
module _ (hash : List TranscriptMessage → Text) (a : ToolAgent) (x : ToolExchange)
    (P : SessionStore → Type 0)
    (cleared : (w : World) → P w.store → P (clear hash a x w).store) where
  abbrev AtTurn : Entry → Type 0
  AtTurn (crashed w) = Unit
  AtTurn (turned_away w reply) = Unit
  AtTurn (attached w live) = P w.store

  resolve_entry-AtTurn :
      (w : World) (live : LiveTurn) (o : Outcome)
      → P w.store
      → AtTurn (resolve_entry hash a x w live o)
  resolve_entry-AtTurn w live (refused e) p = tt
  resolve_entry-AtTurn w live (resolved t) p = p
  resolve_entry-AtTurn w live panics p = tt

  result_entry-AtTurn :
      (same : Bool) (w : World) (o : Option LiveTurn)
      → P w.store
      → AtTurn (result_entry hash a x same w o)
  result_entry-AtTurn same w none p = tt
  result_entry-AtTurn false w (some live) p = tt
  result_entry-AtTurn true w (some live) p =
      resolve_entry-AtTurn w live (resolve (known_news hash a x w.state) x.policy live.turn) p

  cleared_if : (b : Bool) (w : World) → P w.store → P (if b then clear hash a x w else w).store
  cleared_if true w p = cleared w p
  cleared_if false w p = p

  kept_if : (b : Bool) (w : World) → P w.store → P (if b then w else clear hash a x w).store
  kept_if true w p = p
  kept_if false w p = cleared w p

  launched-AtTurn :
      (w : World) (live : LiveTurn) (r : Result ℕ) → P w.store → AtTurn (launched hash a x w live r)
  launched-AtTurn w live (err e) p = tt
  launched-AtTurn w live (ok n) p = p

  begin_turn-AtTurn :
      (first : Bool) (prompt : Text) (w : World)
      → P w.store
      → AtTurn (begin_turn hash a x first prompt w)
  begin_turn-AtTurn true prompt w p =
      let v = with_turn hash a x (new_turn hash a x) w in
      launched-AtTurn v (new_turn hash a x) (a.start (request hash a x prompt v.state)) p
  begin_turn-AtTurn false prompt w p = p

  with_facade-AtTurn :
      (prompt : Text) (w : World) (r : Result ℕ)
      → P w.store
      → AtTurn (with_facade hash a x prompt w r)
  with_facade-AtTurn prompt w (err e) p = tt
  with_facade-AtTurn prompt w (ok serial) p =
      begin_turn-AtTurn true prompt
        (record w {
          state = record w.state {
            facade = some (record { serial = serial; alive = true; bound = none });
          };
        })
        p

  with_prompt-AtTurn :
      (w : World) (prompt : Result Text) → P w.store → AtTurn (with_prompt hash a x w prompt)
  with_prompt-AtTurn w (err e) p = tt
  with_prompt-AtTurn w (ok text) p =
      let prompt = text ++ policy_suffix x.policy.mode x.policy.name in
      let v = record w { state = record w.state { turn_err = none } } in
      elim (is_none w.state.process && x.has_tools)
        as (λ b. AtTurn (
          if b
          then with_facade hash a x prompt v a.bridge
          else begin_turn hash a x (is_none w.state.process) prompt v)) [
            | true ↦ with_facade-AtTurn prompt v a.bridge p
            | false ↦ begin_turn-AtTurn (is_none w.state.process) prompt v p
          ]

  checked-AtTurn :
      (pending stray : Bool) (w v : World) (p r : Reply) (prompt : Result Text)
      → P v.store
      → AtTurn (
          if pending
          then turned_away w p
          else if stray
          then turned_away v r
          else with_prompt hash a x v prompt)
  checked-AtTurn true stray w v p r prompt t = tt
  checked-AtTurn false true w v p r prompt t = tt
  checked-AtTurn false false w v p r prompt t = with_prompt-AtTurn v prompt t

  enter_result-AtTurn : (w : World) → P w.store → AtTurn (enter_result hash a x w)
  unfolding enter_result
  enter_result-AtTurn w p =
      let gone = is_some w.state.active && not (same_place hash a x w.state) in
      let v = if gone then clear hash a x w else w in
      result_entry-AtTurn (is_same hash a x w.state) v v.state.active (cleared_if gone w p)

  enter_prompt-AtTurn : (w : World) → P w.store → AtTurn (enter_prompt hash a x w)
  unfolding enter_prompt
  enter_prompt-AtTurn w p =
      let goes = goes_on hash a x w.state in
      let same = is_same hash a x w.state in
      let v = if goes then w else clear hash a x w in
      let delta = if goes then known_news hash a x w.state else x.base.messages in
      checked-AtTurn (same && is_some w.state.active) (has_tool delta && same) w v
        (invalid_request 409 (plain (codes "the active turn is waiting for tool results"))
          (codes "turn_pending"))
        (invalid_request 400 (plain (codes "unexpected tool result")) (codes "invalid_tool_result"))
        (turn_prompt delta) (kept_if goes w p)

  enter-AtTurn : (w : World) → P w.store → AtTurn (enter hash a x w)
  unfolding enter
  enter-AtTurn w p =
      elim (ends_with_tool x.base.messages)
        as (λ b. AtTurn (if b then enter_result hash a x w else enter_prompt hash a x w)) [
          | true ↦ enter_result-AtTurn w p
          | false ↦ enter_prompt-AtTurn w p
        ]

module _ (hash : List TranscriptMessage → Text) (a : ToolAgent) (x : ToolExchange)
    (clears : a.delete_fault ≡ none) (deletes : a.end_fault ≡ none) where
  -- A store whose file says of the session what the store says.
  abbrev InStep : SessionStore → Type 0
  InStep s = IsSound s × (lookup x.base.key (reopened s).records ≡ lookup x.base.key s.records)

  -- Neither the store nor its file has a record of the session.
  abbrev Forgotten : World × Reply → Type 0
  Forgotten r =
      (lookup x.base.key r.0.store.records ≡ none)
      × (lookup x.base.key (reopened r.0.store).records ≡ none)

  clear-InStep : (w : World) → InStep w.store → InStep (clear hash a x w).store
  unfolding clear_session
  clear-InStep w (sound, same) =
      let (still, here, again) = delete-gone x.base.key w.store sound same in
      rw clears (still, again ∙ sym here)

  deleted :
      (s : SessionStore)
      → InStep s
      → (lookup x.base.key (delete a.end_fault x.base.key s).0.records ≡ none)
        × (lookup x.base.key (reopened (delete a.end_fault x.base.key s).0).records ≡ none)
  deleted s (sound, same) =
      let (still, here, again) = delete-gone x.base.key s sound same in rw deletes (here, again)

  conclude-Forgotten :
      (w : World) (live : LiveTurn) (l : Loop) (r : World × Reply)
      → InStep w.store
      → conclude hash a x w live l ≡ some r
      → Forgotten r
  unfolding clear_session
  conclude-Forgotten w live (waiting t c) r s e = cc
  conclude-Forgotten w live (failed t c d) r s e =
      subst Forgotten (some-injective e) (deleted w.store s)
  conclude-Forgotten w live (called_out t c) r s e =
      subst Forgotten (some-injective e) (stopped t.cause)
    where
      stopped : (o : Option GoError) → Forgotten (unless_stopped hash a x o live t c w)
      stopped none = deleted w.store s
      stopped (some d) = deleted w.store s
  conclude-Forgotten w live (completed t c) r s e =
      subst Forgotten (some-injective e) (deleted w.store s)

  -- The gateway has a sound store, and the store's file says of the session what the store says. A
  -- request was attached to a turn with tools, its exchange ended, well or not, and no deletion failed.
  -- Then the store has no record of the session, and neither has a gateway that starts on the file.
  pub handle_tool_chat_forgotten :
      (w u : World) (live : LiveTurn) (r : World × Reply)
      → IsSound w.store
      → lookup x.base.key (reopened w.store).records ≡ lookup x.base.key w.store.records
      → enter hash a x w ≡ attached u live
      → handle_tool_chat hash a x w ≡ some r
      → (lookup x.base.key r.0.store.records ≡ none)
        × (lookup x.base.key (reopened r.0.store).records ≡ none)
  unfolding handle_tool_chat
  handle_tool_chat_forgotten w u live r sound same n e =
      conclude-Forgotten u live
        (loop x.policy x.base.stream a.heartbeat a.wakes live.turn (opened hash a x live.turn)) r
        (subst (AtTurn hash a x InStep clear-InStep) n
          (enter-AtTurn hash a x InStep clear-InStep w (sound, same)))
        (sym (ap (exchange hash a x) n) ∙ e)
