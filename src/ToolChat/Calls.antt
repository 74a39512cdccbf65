-- ===== src/ToolChat/Calls.antt =====
-- What the client gets of a turn with tools (internal/gateway/tool_chat.go), and what the session
-- remembers.
use agentrun_openai.Prelude.{
  ◌≡◌, refl, ap, ◌∙◌, sym, subst, ℕ, false, List, [], ◌∷◌, ◌++◌, arith, Option, none, some,
  if◌then◌else◌, ◌⊎◌, inl, inr,
}
use agentrun_openai.Prelude.Text.{Text}
use agentrun_openai.Types.{ToolCall, GoError, ToolPolicy, forbids, TranscriptMessage}
use agentrun_openai.Session.{SessionState, LiveTurn, cleared, stop, remember}
use agentrun_openai.Stream.{
  Collector, new_collector, start_stream, finish_stream, write_completion, write_chunk,
}
use agentrun_openai.Turn.{ActiveTurn}
use agentrun_openai.Chat.{World, Reply, answered, clear_session}
use agentrun_openai.ToolChat.{ToolAgent, ToolExchange, attached, enter}
use agentrun_openai.ToolChat.Ending.{
  exchange, conclude, unless_stopped, fail, succeed, opened, collector, answer_of, handle_tool_chat,
  set_turn, without_turn,
}
use agentrun_openai.ToolChat.Select.{Loop, waiting, failed, called_out, completed, demands, loop}
use agentrun_openai.ToolChat.Policy.{Obeys, loop-Obeys}

pub some-injective {ℓ} : {A : Type ℓ} {a b : A} → some a ≡ some b → a ≡ b
some-injective e = cc

-- The calls of an answer are as tool_choice says: one call, which it does not forbid, or none, where it
-- demands none.
abbrev pub Chosen : ToolPolicy → List ToolCall → Type 0
Chosen policy calls =
    ((call : ToolCall) × (calls ≡ call ∷ []) × (forbids policy call.function.name ≡ false))
    ⊎ ((calls ≡ []) × (demands policy.mode ≡ false))

module _ (hash : List TranscriptMessage → Text) (a : ToolAgent) (x : ToolExchange) where
  -- A session that lost everything but the error that it lost it by.
  abbrev pub Dropped : SessionState → Type 0
  Dropped s =
      (e : GoError) × (s.turn_err ≡ some e)
      × (s.active ≡ none)
      × (s.process ≡ none)
      × (s.facade ≡ none)
      × (s.history ≡ none)
      × (s.resume_id ≡ [])

  abbrev pub sent : Collector → Collector
  sent c = if x.base.stream then finish_stream a.ends c else write_completion c

  -- A session that remembers the answer that was sent.
  abbrev pub Remembered : World × Reply → Type 0
  Remembered r =
      (c : Collector) × (r.1 ≡ answered (sent c))
      × (r.0.state.history ≡ some (x.base.messages ++ (answer_of hash a x c ∷ [])))
      × Chosen x.policy c.calls

  abbrev pub Over : World × Reply → Type 0
  Over r = Dropped r.0.state ⊎ Remembered r

  fail-Over : (c : Collector) (e : GoError) (w : World) → Over (fail hash a x c e w)
  unfolding clear_session cleared stop
  fail-Over c e w = inl (e, refl, refl, refl, refl, refl, refl)

  succeed-Over : (c : Collector) (w : World) → Chosen x.policy c.calls → Over (succeed hash a x c w)
  unfolding remember
  succeed-Over c w chosen = inr (c, refl, refl, chosen)

  unless_stopped-Over :
      (o : Option GoError) (live : LiveTurn) (t : ActiveTurn) (c : Collector) (w : World)
      → Chosen x.policy c.calls
      → Over (unless_stopped hash a x o live t c w)
  unless_stopped-Over none live t c w chosen =
      succeed-Over c
        (set_turn hash a x
          (some (record live {
            turn = record t { saw_delta = c.saw_delta; saw_thinking = c.saw_thinking };
          }))
          w)
        chosen
  unless_stopped-Over (some e) live t c w chosen =
      fail-Over c e (set_turn hash a x (some (record live { turn = t })) w)

  conclude-Over :
      (w : World) (live : LiveTurn) (l : Loop) (r : World × Reply)
      → Obeys x.policy x.base.stream a.heartbeat l []
      → conclude hash a x w live l ≡ some r
      → Over r
  conclude-Over w live (waiting t c) r o e = cc
  conclude-Over w live (failed t c d) r o e =
      subst Over (some-injective e)
        (fail-Over c d (set_turn hash a x (some (record live { turn = t })) w))
  conclude-Over w live (called_out t c) r (call, one, allowed) e =
      subst Over (some-injective e)
        (unless_stopped-Over t.cause live t c w (inl (call, one, allowed)))
  conclude-Over w live (completed t c) r (nothing, free) e =
      subst Over (some-injective e)
        (succeed-Over c (without_turn hash a x live w) (inr (nothing, free)))

  start_stream-calls : (now : ℕ) (c : Collector) → (start_stream now c).0.calls ≡ c.calls
  unfolding start_stream write_chunk
  start_stream-calls now c = ground arith

  opened-calls : (t : ActiveTurn) → (opened hash a x t).calls ≡ []
  unfolding new_collector
  opened-calls t = ground (arith, start_stream-calls a.begins (collector hash a x t))

  abbrev attended : LiveTurn → Loop
  attended live =
      loop x.policy x.base.stream a.heartbeat a.wakes live.turn (opened hash a x live.turn)

  -- A request was attached to a turn, and the exchange ended. Either something failed: then the
  -- session has lost its turn, process, facade, history and native session, and keeps the error. Or
  -- the client got an answer, which stands in the session's history behind the request's messages: one
  -- tool call that tool_choice allows, or no call, where tool_choice does not demand one.
  pub handle_tool_chat-Over :
      (w u : World) (live : LiveTurn) (r : World × Reply)
      → enter hash a x w ≡ attached u live
      → handle_tool_chat hash a x w ≡ some r
      → Over r
  unfolding handle_tool_chat
  handle_tool_chat-Over w u live r e h =
      conclude-Over u live (attended live) r
        (subst (λ calls. Obeys x.policy x.base.stream a.heartbeat (attended live) calls)
          (opened-calls live.turn)
          (loop-Obeys x.policy x.base.stream a.heartbeat a.wakes live.turn
            (opened hash a x live.turn)))
        (sym (ap (exchange hash a x) e) ∙ h)
