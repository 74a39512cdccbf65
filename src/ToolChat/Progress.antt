-- ===== src/ToolChat/Progress.antt =====
-- The end of an exchange of `handleToolChat` (internal/gateway/tool_chat.go).
use agentrun_openai.Prelude.{◌≡◌, refl, ℕ, Bool, true, false, List, [], ◌∷◌, ◌++◌, some}
use agentrun_openai.Prelude.Text.{Text}
use agentrun_openai.Types.{GoError, ToolPolicy, TranscriptMessage}
use agentrun_openai.Session.{LiveTurn}
use agentrun_openai.Stream.{Collector}
use agentrun_openai.Turn.{ActiveTurn}
use agentrun_openai.Chat.{World, Reply}
use agentrun_openai.ToolChat.{ToolAgent, ToolExchange, attached, enter}
use agentrun_openai.ToolChat.Ending.{conclude, handle_tool_chat, opened}
use agentrun_openai.ToolChat.Select.{
  Wake, client_gone, Loop, waiting, failed, called_out, completed, awake, loop,
}

abbrev is_waiting : Loop → Bool
is_waiting (waiting t c) = true
is_waiting (failed t c e) = false
is_waiting (called_out t c) = false
is_waiting (completed t c) = false

module _ (policy : ToolPolicy) (stream : Bool) (interval : ℕ) where
  loop_gone :
      (before after : List (ℕ × Wake)) (now : ℕ) (e : GoError) (t : ActiveTurn) (c : Collector)
      → is_waiting (loop policy stream interval (before ++ ((now, client_gone e) ∷ after)) t c)
        ≡ false
  unfolding loop awake
  loop_gone [] after now e t c = refl
  loop_gone ((then, w) ∷ before) after now e t c =
      go (awake policy stream interval w then t c) (λ u d. loop_gone before after now e u d)
    where
      go :
          (l : Loop)
          → ((u : ActiveTurn) (d : Collector)
              → is_waiting
                  (loop policy stream interval (before ++ ((now, client_gone e) ∷ after)) u d)
                ≡ false)
          → is_waiting (elim l [
            | waiting u d ↦
                loop policy stream interval (before ++ ((now, client_gone e) ∷ after)) u d
            | failed u d f ↦ failed u d f
            | called_out u d ↦ called_out u d
            | completed u d ↦ completed u d
          ])
            ≡ false
      go (waiting u d) gone = gone u d
      go (failed u d f) gone = refl
      go (called_out u d) gone = refl
      go (completed u d) gone = refl

module _ (hash : List TranscriptMessage → Text) (a : ToolAgent) (x : ToolExchange) where
  concluded :
      (w : World) (live : LiveTurn) (l : Loop)
      → is_waiting l ≡ false
      → (r : World × Reply) × (conclude hash a x w live l ≡ some r)
  concluded w live (waiting t c) e = cc
  concluded w live (failed t c f) e = (_, refl)
  concluded w live (called_out t c) e = (_, refl)
  concluded w live (completed t c) e = (_, refl)

  -- A request was attached to a turn, and the loop takes the end of its client. Then the loop ends, and
  -- the exchange goes on to its end, whose waits for the agent are effects here.
  handle_tool_chat_ends :
      (w u : World) (live : LiveTurn) (before after : List (ℕ × Wake)) (now : ℕ) (e : GoError)
      → enter hash a x w ≡ attached u live
      → a.wakes ≡ before ++ ((now, client_gone e) ∷ after)
      → (r : World × Reply) × (handle_tool_chat hash a x w ≡ some r)
  unfolding handle_tool_chat
  handle_tool_chat_ends w u live before after now e n ws =
      let left =
        loop_gone x.policy x.base.stream a.heartbeat before after now e live.turn
          (opened hash a x live.turn) in
      rw (n, ws) (concluded u live _ left)
