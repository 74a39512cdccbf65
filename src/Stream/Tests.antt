-- ===== src/Stream/Tests.antt =====
-- A short streaming turn of stream.go, and the theorems at it.
use Prim.Native.String.{String}
use agentrun_openai.Prelude.{
  ℕ, ◌+◌, ◌*◌, ◌<◌, ◌≡◌, refl, true, false, List, [], ◌∷◌, ◌++◌, none, arith,
}
use agentrun_openai.Prelude.Text.{codes, text_eq}
use agentrun_openai.Types.{plain}
use agentrun_openai.Stream.{
  Collector, Writer, Message, MessageType, text_delta, text, thinking_delta, other, write_chunk,
  append_text, append_reasoning, handle_as, beat, start_stream, new_collector, set_header, tick_of,
}
use agentrun_openai.Stream.Run.{Event, message, heartbeat, step, run, started, end, finish, fail}
use agentrun_openai.Stream.Deltas.{collect, content_of, thought_of}
use agentrun_openai.Stream.Content.{contents-end}
use agentrun_openai.Stream.Reasoning.{visible, reasoning-run}
use agentrun_openai.Stream.Close.{Over, end_once}
use agentrun_openai.Stream.Blocks.{deliver, block_once}
use agentrun_openai.Stream.Silence.{silence_bound}

abbrev says : MessageType → String → Message
says k s = record { kind = k; content = codes s; init_model = none; resume_id = []; usage = none }

abbrev page : Writer
page = record { flusher = true; headers = []; frames = [] }

abbrev turn_events : List (ℕ × Event)
turn_events =
    (1, message (says thinking_delta "hm"))
    ∷ (2, message (says text_delta "Hel"))
    ∷ (30, heartbeat 20)
    ∷ (31, message (says text_delta "lo"))
    ∷ (32, message (says text "Hello"))
    ∷ []

abbrev begun : Collector
begun = started page (codes "chatcmpl-1") 7 (codes "pi") false [] 0

text-run : (run turn_events begun).text ≡ codes "Hello"
unfolding run started start_stream new_collector set_header text_eq write_chunk step handle_as
    append_text append_reasoning beat
text-run = refl

contents-end_example :
    collect content_of (end finish 40 (run turn_events begun)).w.frames
    ≡ (run turn_events begun).text
contents-end_example =
    contents-end page (codes "chatcmpl-1") 7 (codes "pi") false [] 0 turn_events finish 40 refl refl

reasoning-run_example :
    visible (collect thought_of (run turn_events begun).w.frames)
    ≡ visible (run turn_events begun).reasoning
reasoning-run_example =
    reasoning-run page (codes "chatcmpl-1") 7 (codes "pi") false [] 0 turn_events refl refl
      ((λ e. cc), ((λ e. cc), ((λ e. cc), ((λ e. cc), ((λ e. cc), tt)))))

end_once_example :
    Over (end finish 40 (run turn_events begun))
    × ((end
          (fail (plain (codes "late")))
          90
          (run turn_events (end finish 40 (run turn_events begun)))).w.frames
        ≡ (end finish 40 (run turn_events begun)).w.frames)
end_once_example =
    end_once page (codes "chatcmpl-1") 7 (codes "pi") false [] 0 turn_events finish 40 turn_events
      (fail (plain (codes "late"))) 90 refl refl

block_once_example :
    ((deliver
        (((2, says text_delta "Hel") ∷ (3, says text_delta "lo") ∷ [])
          ++ ((4, says text "Hello") ∷ []))
        begun).text
      ≡ begun.text ++ codes "Hello")
    × ((deliver
          (((2, says text_delta "Hel") ∷ (3, says text_delta "lo") ∷ [])
            ++ ((4, says text "Hello") ∷ []))
          begun).saw_delta
        ≡ false)
unfolding started start_stream new_collector write_chunk
block_once_example =
    block_once ((2, says text_delta "Hel") ∷ (3, says text_delta "lo") ∷ []) 4 (says text "Hello")
      begun (refl, (refl, tt)) refl refl refl

abbrev resumed : Collector
resumed = new_collector page true (codes "chatcmpl-1") 7 (codes "pi") true []

silence_bound_example :
    2 * 29000000
    < 2 * (run ((25000000, message (says other "")) ∷ []) (beat 20000000 20000000 begun)).last_write
      + 3 * 20000000
unfolding started start_stream new_collector write_chunk tick_of
silence_bound_example =
    silence_bound 20000000 20000000 29000000 begun ((25000000, message (says other "")) ∷ []) refl
      (omega arith) (omega arith) (omega arith) (omega arith)
