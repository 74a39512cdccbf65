-- ===== src/ToolChat/Results.antt =====
-- Tool results that come back to a waiting turn (internal/gateway/tool_chat.go).
use agentrun_openai.Prelude.{
  ◌≡◌, refl, ap, ◌∙◌, true, false, not, ◌&&◌, List, ◌++◌, arith, some, if◌then◌else◌,
  drop-length-append,
}
use agentrun_openai.Prelude.Text.{Text, text_eq_refl}
use agentrun_openai.Prelude.Dict.{lookup, Unique}
use agentrun_openai.Types.{TranscriptMessage}
use agentrun_openai.History.Prefix.{has_prefix_iff}
use agentrun_openai.Session.{
  SessionState, LiveTurn, matches_history_prefix, persisted_history_count,
}
use agentrun_openai.Session.Registry.{is_some}
use agentrun_openai.Turn.{ActiveTurn, resolve, is_delivered}
use agentrun_openai.Turn.Answers.{answers_of, resolve_exact}
use agentrun_openai.Turn.Accepts.{Complete, Complete-resolve}
use agentrun_openai.Chat.{World}
use agentrun_openai.ToolChat.{
  ToolAgent, ToolExchange, attached, enter, enter_result, result_entry, resolve_entry, is_same,
  same_place, known_news, ends_with_tool, clear,
}
use agentrun_openai.ToolChat.Ending.{set_turn}

module _ (hash : List TranscriptMessage → Text) (a : ToolAgent) (x : ToolExchange) where
  -- A session whose turn waits, in the request's directory, with the request's tools.
  pub record Waiting (h : List TranscriptMessage) (live : LiveTurn) (s : SessionState)
      : Type 0 where
    pub active : s.active ≡ some live
    pub history : s.history ≡ some h
    pub place : s.cwd ≡ x.base.cwd
    pub tools : s.tool_hash ≡ x.tool_hash

  Waiting-place :
      (h : List TranscriptMessage) (live : LiveTurn) (s : SessionState)
      → Waiting h live s
      → same_place hash a x s ≡ true
  Waiting-place h live s w =
      rw (w.place, w.tools, text_eq_refl x.base.cwd, text_eq_refl x.tool_hash) refl

  Waiting-same :
      (h results : List TranscriptMessage) (live : LiveTurn) (s : SessionState)
      → Waiting h live s
      → x.base.messages ≡ h ++ results
      → is_same hash a x s ≡ true
  unfolding matches_history_prefix
  Waiting-same h results live s w e =
      rw (Waiting-place h live s w, w.history, e)
        ((has_prefix_iff (h ++ results) h).1 (results, refl))

  Waiting-news :
      (h results : List TranscriptMessage) (live : LiveTurn) (s : SessionState)
      → Waiting h live s
      → x.base.messages ≡ h ++ results
      → known_news hash a x s ≡ results
  unfolding persisted_history_count
  Waiting-news h results live s w e = rw (w.history, e) (drop-length-append h results)

  entered_result :
      (w : World) (live : LiveTurn)
      → w.state.active ≡ some live
      → same_place hash a x w.state ≡ true
      → is_same hash a x w.state ≡ true
      → enter_result hash a x w
        ≡ resolve_entry hash a x w live (resolve (known_news hash a x w.state) x.policy live.turn)
  unfolding enter_result
  entered_result w live l p s =
      ap
        (λ b.
          let v = if b then clear hash a x w else w in
          result_entry hash a x (is_same hash a x w.state) v v.state.active)
        (settled_place p)
      ∙ ap (λ o. result_entry hash a x (is_same hash a x w.state) w o) l
      ∙ ap (λ b. result_entry hash a x b w (some live)) s
    where
      settled_place :
          same_place hash a x w.state ≡ true
          → (is_some w.state.active && not (same_place hash a x w.state)) ≡ false
      settled_place e = rw e (ground arith)

  -- A turn of the session waits, in the request's directory and with the request's tools. The
  -- request's messages are the history with tool results behind it, which answer each call that was
  -- handed to the client once, and no other. Then the request is attached to the same turn, which goes
  -- on with the request's policy: each result goes to its call, in order, and no call that was handed
  -- out is left.
  pub tool_results_resolve :
      (w : World) (h results : List TranscriptMessage) (live : LiveTurn)
      → Waiting h live w.state
      → x.base.messages ≡ h ++ results
      → ends_with_tool x.base.messages ≡ true
      → Unique live.turn.pending
      → Complete results live.turn
      → (t : ActiveTurn) × (enter hash a x w
          ≡ attached
              (set_turn hash a x (some (record live { turn = t })) w)
              (record live { turn = t }))
        × (t.answers ≡ live.turn.answers ++ answers_of results)
        × (t.policy ≡ x.policy)
        × ((id : Text) → is_delivered (lookup id t.pending) ≡ false)
  unfolding enter
  tool_results_resolve w h results live s e last u c =
      let (t, r) = Complete-resolve results x.policy live.turn u c in
      let (answered, policy, left, none_left) = resolve_exact results x.policy live.turn t r in
      let news = Waiting-news h results live w.state s e in
      let entered =
        entered_result w live s.active (Waiting-place h live w.state s)
          (Waiting-same h results live w.state s e) in
      (
        t,
        rw last (
            entered
            ∙ ap (λ ms. resolve_entry hash a x w live (resolve ms x.policy live.turn)) news
            ∙ ap (λ o. resolve_entry hash a x w live o) r),
        answered,
        policy,
        none_left,
      )
