-- ===== src/History/Prefix.antt =====
-- `hasPrefix` of internal/gateway/history.go.
use agentrun_openai.Prelude.{
  ◌≡◌, ◌↔◌, refl, ap, true, List, [], ◌∷◌, ◌++◌, arith, length, length-append,
}
use agentrun_openai.Types.{TranscriptMessage, message_eq_iff}
use agentrun_openai.History.{same_start, has_prefix}

same_start_sound :
    (ms ps : List TranscriptMessage)
    → same_start ms ps ≡ true
    → (rest : List TranscriptMessage) × (ms ≡ ps ++ rest)
unfolding same_start
same_start_sound ms [] h = (ms, refl)
same_start_sound [] (p ∷ ps) h = cc
same_start_sound (m ∷ ms) (p ∷ ps) h =
    let (rest, e) = same_start_sound ms ps (ground arith) in
    (rest, ground (arith, message_eq_iff m p))

same_start-append : (ps rest : List TranscriptMessage) → same_start (ps ++ rest) ps ≡ true
unfolding same_start
same_start-append [] rest = refl
same_start-append (p ∷ ps) rest = ground (arith, message_eq_iff p p, same_start-append ps rest)

-- A history is accepted as a prefix exactly when the messages are the history and more behind it,
-- equal in every field.
pub has_prefix_iff :
    (messages prefix : List TranscriptMessage)
    → (has_prefix messages prefix ≡ true)
      ↔ ((rest : List TranscriptMessage) × (messages ≡ prefix ++ rest))
unfolding has_prefix
has_prefix_iff messages prefix = (
  λ h. same_start_sound messages prefix (ground arith),
  λ (rest, e). ground (
    arith,
    ap length e,
    length-append prefix rest,
    same_start-append prefix rest,
    ap (λ ms. same_start ms prefix) e,
  ),
)
