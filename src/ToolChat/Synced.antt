-- ===== src/ToolChat/Synced.antt =====
-- The session and its saved record through `handleToolChat` (internal/gateway/tool_chat.go).
use agentrun_openai.Prelude.{
  ◌≡◌, refl, subst, ℕ, Bool, true, false, not, ◌&&◌, List, ◌++◌, Option, none, some, if◌then◌else◌,
  inl,
}
use agentrun_openai.Prelude.Text.{Text}
use agentrun_openai.Prelude.Dict.{lookup}
use agentrun_openai.Types.{GoError, TranscriptMessage, Result, ok, err}
use agentrun_openai.Session.{LiveTurn, remember}
use agentrun_openai.Session.Registry.{is_some}
use agentrun_openai.Stream.{Collector}
use agentrun_openai.Turn.{ActiveTurn, Outcome, refused, resolved, panics, resolve}
use agentrun_openai.Chat.{World, Reply, clear_session}
use agentrun_openai.Chat.Exchange.{is_none}
use agentrun_openai.Chat.Recorded.{
  Synced, IsStore, delete-none, delete-IsStore, clear_session-Synced,
}
use agentrun_openai.ToolChat.{
  ToolAgent, ToolExchange, Entry, crashed, turned_away, attached, enter, enter_result, enter_prompt,
  result_entry, resolve_entry, with_prompt, with_facade, begin_turn, launched, with_turn, new_turn,
  goes_on, is_same, same_place, known_news, ends_with_tool, clear, policy_suffix, request,
}
use agentrun_openai.ToolChat.Ending.{
  opened, exchange, conclude, unless_stopped, fail, succeed, handle_tool_chat, set_turn,
  without_turn,
}
use agentrun_openai.ToolChat.Select.{Loop, waiting, failed, called_out, completed, loop}
use agentrun_openai.ToolChat.Calls.{some-injective}

module _ (hash : List TranscriptMessage → Text) (a : ToolAgent) (x : ToolExchange) where
  -- A request that was turned away left the session synced.
  abbrev EntryOk : Entry → Type 0
  EntryOk (crashed w) = Unit
  EntryOk (turned_away w reply) = Synced hash x.base.key w
  EntryOk (attached w live) = IsStore w.store

  clear-Synced : (w : World) → IsStore w.store → Synced hash x.base.key (clear hash a x w)
  clear-Synced w s = clear_session-Synced hash a.delete_fault x.base.key w s

  resolve_entry-Ok :
      (w : World) (live : LiveTurn) (o : Outcome)
      → Synced hash x.base.key w
      → EntryOk (resolve_entry hash a x w live o)
  resolve_entry-Ok w live (refused e) s = s
  resolve_entry-Ok w live (resolved t) s = s.store_ok
  resolve_entry-Ok w live panics s = tt

  result_entry-Ok :
      (same : Bool) (w : World) (o : Option LiveTurn)
      → Synced hash x.base.key w
      → EntryOk (result_entry hash a x same w o)
  result_entry-Ok same w none s = s
  result_entry-Ok false w (some live) s = s
  result_entry-Ok true w (some live) s =
      resolve_entry-Ok w live (resolve (known_news hash a x w.state) x.policy live.turn) s

  cleared_if :
      (b : Bool) (w : World)
      → Synced hash x.base.key w
      → Synced hash x.base.key (if b then clear hash a x w else w)
  cleared_if true w s = clear-Synced w s.store_ok
  cleared_if false w s = s

  kept_if :
      (b : Bool) (w : World)
      → Synced hash x.base.key w
      → Synced hash x.base.key (if b then w else clear hash a x w)
  kept_if true w s = s
  kept_if false w s = clear-Synced w s.store_ok

  enter_result-Ok : (w : World) → Synced hash x.base.key w → EntryOk (enter_result hash a x w)
  unfolding enter_result
  enter_result-Ok w s =
      let gone = is_some w.state.active && not (same_place hash a x w.state) in
      let v = if gone then clear hash a x w else w in
      result_entry-Ok (is_same hash a x w.state) v v.state.active (cleared_if gone w s)

  launched-Ok :
      (w : World) (live : LiveTurn) (r : Result ℕ)
      → IsStore w.store
      → EntryOk (launched hash a x w live r)
  launched-Ok w live (err e) s = clear_session-Synced hash a.end_fault x.base.key w s
  launched-Ok w live (ok p) s = s

  begin_turn-Ok :
      (first : Bool) (prompt : Text) (w : World)
      → IsStore w.store
      → EntryOk (begin_turn hash a x first prompt w)
  begin_turn-Ok true prompt w s =
      let v = with_turn hash a x (new_turn hash a x) w in
      launched-Ok v (new_turn hash a x) (a.start (request hash a x prompt v.state)) s
  begin_turn-Ok false prompt w s = s

  with_facade-Ok :
      (prompt : Text) (w : World) (r : Result ℕ)
      → Synced hash x.base.key w
      → EntryOk (with_facade hash a x prompt w r)
  with_facade-Ok prompt w (err e) s = record {
    counted = s.counted;
    recorded = s.recorded;
    store_ok = s.store_ok;
  }
  with_facade-Ok prompt w (ok serial) s =
      begin_turn-Ok true prompt
        (record w {
          state = record w.state {
            facade = some (record { serial = serial; alive = true; bound = none });
          };
        })
        s.store_ok

  with_prompt-Ok :
      (w : World) (prompt : Result Text)
      → Synced hash x.base.key w
      → EntryOk (with_prompt hash a x w prompt)
  with_prompt-Ok w (err e) s = s
  with_prompt-Ok w (ok text) s =
      let prompt = text ++ policy_suffix x.policy.mode x.policy.name in
      let v = record w { state = record w.state { turn_err = none } } in
      elim (is_none w.state.process && x.has_tools)
        as (λ b. EntryOk (
          if b
          then with_facade hash a x prompt v a.bridge
          else begin_turn hash a x (is_none w.state.process) prompt v)) [
            | true ↦
                with_facade-Ok prompt v a.bridge
                  (record { counted = s.counted; recorded = s.recorded; store_ok = s.store_ok })
            | false ↦ begin_turn-Ok (is_none w.state.process) prompt v s.store_ok
          ]

  checked-Ok :
      (pending stray : Bool) (w v : World) (p r : Reply) (prompt : Result Text)
      → Synced hash x.base.key w
      → Synced hash x.base.key v
      → EntryOk (
          if pending
          then turned_away w p
          else if stray
          then turned_away v r
          else with_prompt hash a x v prompt)
  checked-Ok true stray w v p r prompt s t = s
  checked-Ok false true w v p r prompt s t = t
  checked-Ok false false w v p r prompt s t = with_prompt-Ok v prompt t

  enter-Ok : (w : World) → Synced hash x.base.key w → EntryOk (enter hash a x w)
  unfolding enter enter_prompt
  enter-Ok w s =
      elim (ends_with_tool x.base.messages)
        as (λ b. EntryOk (if b then enter_result hash a x w else enter_prompt hash a x w)) [
          | true ↦ enter_result-Ok w s
          | false ↦ checked-Ok _ _ w _ _ _ _ s (kept_if (goes_on hash a x w.state) w s)
        ]

  fail-Synced :
      (c : Collector) (e : GoError) (w : World)
      → IsStore w.store
      → Synced hash x.base.key (fail hash a x c e w).0
  fail-Synced c e w s =
      let gone = clear_session-Synced hash a.end_fault x.base.key w s in
      record { counted = gone.counted; recorded = gone.recorded; store_ok = gone.store_ok }

  succeed-Synced :
      (c : Collector) (w : World)
      → IsStore w.store
      → Synced hash x.base.key (succeed hash a x c w).0
  unfolding remember
  succeed-Synced c w s = record {
    counted = (refl, refl);
    recorded = inl (delete-none a.end_fault x.base.key w.store s);
    store_ok = delete-IsStore a.end_fault x.base.key w.store s;
  }

  -- A session that is synced and that the store has no record of.
  abbrev Unsaved : World × Reply → Type 0
  Unsaved r = Synced hash x.base.key r.0 × (lookup x.base.key r.0.store.records ≡ none)

  fail-Unsaved :
      (c : Collector) (e : GoError) (w : World) → IsStore w.store → Unsaved (fail hash a x c e w)
  unfolding clear_session
  fail-Unsaved c e w s = (fail-Synced c e w s, delete-none a.end_fault x.base.key w.store s)

  succeed-Unsaved : (c : Collector) (w : World) → IsStore w.store → Unsaved (succeed hash a x c w)
  succeed-Unsaved c w s = (succeed-Synced c w s, delete-none a.end_fault x.base.key w.store s)

  unless_stopped-Unsaved :
      (o : Option GoError) (live : LiveTurn) (t : ActiveTurn) (c : Collector) (w : World)
      → IsStore w.store
      → Unsaved (unless_stopped hash a x o live t c w)
  unless_stopped-Unsaved none live t c w s =
      succeed-Unsaved c
        (set_turn hash a x
          (some (record live {
            turn = record t { saw_delta = c.saw_delta; saw_thinking = c.saw_thinking };
          }))
          w)
        s
  unless_stopped-Unsaved (some e) live t c w s =
      fail-Unsaved c e (set_turn hash a x (some (record live { turn = t })) w) s

  conclude-Unsaved :
      (w : World) (live : LiveTurn) (l : Loop) (r : World × Reply)
      → IsStore w.store
      → conclude hash a x w live l ≡ some r
      → Unsaved r
  conclude-Unsaved w live (waiting t c) r s e = cc
  conclude-Unsaved w live (failed t c d) r s e =
      subst Unsaved (some-injective e)
        (fail-Unsaved c d (set_turn hash a x (some (record live { turn = t })) w) s)
  conclude-Unsaved w live (called_out t c) r s e =
      subst Unsaved (some-injective e) (unless_stopped-Unsaved t.cause live t c w s)
  conclude-Unsaved w live (completed t c) r s e =
      subst Unsaved (some-injective e) (succeed-Unsaved c (without_turn hash a x live w) s)

  exchange-Synced :
      (n : Entry) (r : World × Reply)
      → EntryOk n
      → exchange hash a x n ≡ some r
      → Synced hash x.base.key r.0
  exchange-Synced (crashed w) r s e = cc
  exchange-Synced (turned_away w reply) r s e =
      subst (λ p. Synced hash x.base.key p.0) (some-injective e) s
  exchange-Synced (attached w live) r s e =
      (conclude-Unsaved w live
        (loop x.policy x.base.stream a.heartbeat a.wakes live.turn (opened hash a x live.turn)) r s
        e).0

  -- Whatever the agent, the client and the disk do, an exchange that ends, well, with an error or
  -- turned away, keeps what `handleChat` keeps: the history of the running gateway has its length and
  -- fingerprint beside it, the record under the session's key, if there is one, says what the session
  -- would save, and every record of the store is valid.
  pub handle_tool_chat-Synced :
      (w : World) (r : World × Reply)
      → Synced hash x.base.key w
      → handle_tool_chat hash a x w ≡ some r
      → Synced hash x.base.key r.0
  unfolding handle_tool_chat
  handle_tool_chat-Synced w r s e = exchange-Synced (enter hash a x w) r (enter-Ok w s) e
