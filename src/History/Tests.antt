-- ===== src/History/Tests.antt =====
-- Transcripts for history.go.
use agentrun_openai.Prelude.{◌≡◌, refl, List, [], ◌∷◌, ◌++◌}
use agentrun_openai.Prelude.Text.{Text, codes}
use agentrun_openai.Types.{TranscriptMessage, Role, system, developer, user, assistant, ok}
use agentrun_openai.History.{turn_prompt}
use agentrun_openai.History.Prompt.{turn_prompt_lem}

abbrev says : Role → Text → TranscriptMessage
says r t = record { tool_calls = []; tool_call_id = []; role = r; content = t }

abbrev talk : List TranscriptMessage
talk = says system (codes "be kind") ∷ says user (codes "hi") ∷ says assistant (codes "hello") ∷ []

turn_prompt_lem_example :
    turn_prompt (talk ++ (says user (codes "bye") ∷ says developer (codes "now") ∷ []))
    ≡ ok (codes "Conversation context:\n\n[user]\nhi\n\n[assistant]\nhello\n\n[user]\nbye\n")
turn_prompt_lem_example =
    turn_prompt_lem talk (says developer (codes "now") ∷ []) (says user (codes "bye")) refl
      (λ e. refl) (refl, tt)
