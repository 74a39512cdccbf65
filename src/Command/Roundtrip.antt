-- ===== src/Command/Roundtrip.antt =====
-- A list that the flags of cmd/agentrun-openai/main.go print is the list that the environment gives.
use agentrun_openai.Prelude.{
  ◌≡◌, refl, sym, ap, ◌∙◌, Bool, false, ◌||◌, List, [], ◌∷◌, ◌++◌, arith, All,
}
use agentrun_openai.Prelude.Text.{
  Text, codes, is_empty, is_space, trim_left, trim_right, trim_space, join,
}
use agentrun_openai.Command.Lists.{
  acp_string, is_separator, pieces, filled_pieces, trimmed, split_acp_list,
}

-- No line feed and no semicolon.
abbrev pub has_separator : Text → Bool
has_separator [] = false
has_separator (c ∷ s) = is_separator c || has_separator s

-- A specification as `Set` keeps it, that stands in a list: it is not blank, begins and ends with no
-- space, and has no separator.
abbrev pub IsEntry : Text → Type 0
IsEntry w = (trim_space w ≡ w) × (is_empty w ≡ false) × (has_separator w ≡ false)

pub pieces-separated :
    (w s : Text) → has_separator w ≡ false → pieces (w ++ (b';' ∷ s)) ≡ w ∷ pieces s
unfolding pieces
pieces-separated [] s h = refl
pieces-separated (c ∷ w) s h = ground (arith, pieces-separated w s)

pub pieces_one : (w : Text) → has_separator w ≡ false → pieces w ≡ w ∷ []
unfolding pieces
pieces_one [] h = refl
pieces_one (c ∷ w) h = ground (arith, pieces_one w)

-- The pieces of a printed list: each but the first has a space in front.
abbrev pub spaced : List Text → List Text
spaced [] = []
spaced (w ∷ ws) = (b' ' ∷ w) ∷ spaced ws

pub pieces-acp_string :
    (w : Text) (ws : List Text)
    → IsEntry w
    → All IsEntry ws
    → pieces (acp_string (w ∷ ws)) ≡ w ∷ spaced ws
unfolding acp_string join pieces
pieces-acp_string w [] h a = pieces_one w (h.2)
pieces-acp_string w (v ∷ ws) h a =
    let rest = pieces-acp_string v ws a.0 a.1 in
    rw (pieces-separated w (b' ' ∷ join (codes "; ") (v ∷ ws)) h.2, rest)

pub filled_pieces-spaced : (ws : List Text) → filled_pieces (spaced ws) ≡ spaced ws
unfolding filled_pieces
filled_pieces-spaced [] = refl
filled_pieces-spaced (w ∷ ws) = ap (λ vs. (b' ' ∷ w) ∷ vs) (filled_pieces-spaced ws)

pub trim_space_blank : (s : Text) → is_empty (trim_space s) ≡ is_empty (trim_left s)
unfolding trim_space trim_left trim_right
trim_space_blank [] = refl
trim_space_blank (c ∷ s) = ground (arith, trim_space_blank s)

pub trim_space-space : (s : Text) → trim_space (b' ' ∷ s) ≡ trim_space s
unfolding trim_space trim_left is_space
trim_space-space s = refl

pub trimmed-spaced : (ws : List Text) → All IsEntry ws → trimmed (spaced ws) ≡ ws
unfolding trimmed
trimmed-spaced [] a = refl
trimmed-spaced (w ∷ ws) a =
    let rest = trimmed-spaced ws a.1 in
    let (same, filled, whole) = a.0 in rw (trim_space-space w, same, filled, rest)

pub trim_left-append :
    (w s : Text) → is_empty (trim_left w) ≡ false → is_empty (trim_left (w ++ s)) ≡ false
unfolding trim_left
trim_left-append [] s h = ground (arith, h)
trim_left-append (c ∷ w) s h = ground (arith, trim_left-append w s)

pub filled_list :
    (w : Text) (ws : List Text) → IsEntry w → is_empty (trim_space (acp_string (w ∷ ws))) ≡ false
unfolding acp_string join
filled_list w [] (same, filled, whole) = ap is_empty same ∙ filled
filled_list w (v ∷ ws) (same, filled, whole) =
    trim_space_blank (w ++ (codes "; " ++ join (codes "; ") (v ∷ ws)))
    ∙ trim_left-append w (codes "; " ++ join (codes "; ") (v ∷ ws))
        (sym (trim_space_blank w) ∙ ap is_empty same ∙ filled)

pub entries_kept :
    (w : Text) (ws : List Text)
    → IsEntry w
    → All IsEntry ws
    → trimmed (filled_pieces (w ∷ spaced ws)) ≡ w ∷ ws
unfolding trimmed filled_pieces
entries_kept w ws (same, filled, whole) a =
    let rest = filled_pieces-spaced ws in
    let ends = trimmed-spaced ws a in rw (filled, rest, same, filled, ends)

pub empty_list : split_acp_list (acp_string []) ≡ []
unfolding split_acp_list acp_string join trim_space trim_left trim_right
empty_list = refl

-- Specifications as the flag `acp` keeps them, which have no line feed and no semicolon inside, are
-- what the environment's list gives when it is written the way the flag prints its value.
pub split_acp_list-acp_string :
    (ws : List Text) → All IsEntry ws → split_acp_list (acp_string ws) ≡ ws
unfolding split_acp_list
split_acp_list-acp_string [] a = empty_list
split_acp_list-acp_string (w ∷ ws) a =
    let some_text = filled_list w ws a.0 in
    let split = pieces-acp_string w ws a.0 a.1 in
    let kept = entries_kept w ws a.0 a.1 in rw (some_text, split, kept)
