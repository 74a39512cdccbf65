-- ===== src/Backend/Quoting.antt =====
-- A way to write command-line words that `splitCommandLine` of acp_backend.go reads back: quotation
-- marks round each word, and a backslash before each quotation mark and backslash inside.
use agentrun_openai.Prelude.{
  ℕ, ◌≡◌, refl, ap, ◌∙◌, true, false, List, [], ◌∷◌, ◌++◌, map, arith, if◌then◌else◌, ◌==◌, ◌||◌,
  append_assoc, append-nil,
}
use agentrun_openai.Prelude.Text.{Text, codes, is_space, join}
use agentrun_openai.Types.{ok}
use agentrun_openai.Backend.{Scan, scan_rune, scan_all, scan_end, split_command_line}

abbrev escaped_rune : ℕ → Text
escaped_rune r = if r == b'"' || r == b'\\' then b'\\' ∷ r ∷ [] else r ∷ []

abbrev escaped_text : Text → Text
escaped_text [] = []
escaped_text (r ∷ s) = escaped_rune r ++ escaped_text s

abbrev pub quoted : Text → Text
quoted s = b'"' ∷ (escaped_text s ++ (b'"' ∷ []))

scan_all-append : (s : Scan) (a b : Text) → scan_all s (a ++ b) ≡ scan_all (scan_all s a) b
unfolding scan_all
scan_all-append s [] b = refl
scan_all-append s (r ∷ a) b = scan_all-append (scan_rune s r) a b

-- Inside a word in double quotes.
abbrev inside : List Text → Text → Scan
inside tokens w = record {
  tokens = tokens;
  current = w;
  in_quote = b'"';
  escaped = false;
  has_token = true;
}

-- Behind a word.
abbrev behind : List Text → Text → Scan
behind tokens w = record {
  tokens = tokens;
  current = w;
  in_quote = 0;
  escaped = false;
  has_token = true;
}

-- Between words.
abbrev between : List Text → Scan
between tokens = record {
  tokens = tokens;
  current = [];
  in_quote = 0;
  escaped = false;
  has_token = false;
}

scan-escaped_rune :
    (tokens : List Text) (w : Text) (r : ℕ)
    → scan_all (inside tokens w) (escaped_rune r) ≡ inside tokens (w ++ (r ∷ []))
unfolding scan_all scan_rune
scan-escaped_rune tokens w r = ground arith

scan-escaped_text :
    (tokens : List Text) (w s : Text)
    → scan_all (inside tokens w) (escaped_text s) ≡ inside tokens (w ++ s)
unfolding scan_all
scan-escaped_text tokens w [] = rw append-nil
scan-escaped_text tokens w (r ∷ s) =
    scan_all-append (inside tokens w) (escaped_rune r) (escaped_text s)
    ∙ ap (λ x. scan_all x (escaped_text s)) (scan-escaped_rune tokens w r)
    ∙ scan-escaped_text tokens (w ++ (r ∷ [])) s
    ∙ ap (inside tokens) (append_assoc w (r ∷ []) s)

scan-quoted :
    (tokens : List Text) (s : Text) → scan_all (between tokens) (quoted s) ≡ behind tokens s
unfolding scan_all scan_rune is_space
scan-quoted tokens s =
    scan_all-append (inside tokens []) (escaped_text s) (b'"' ∷ [])
    ∙ ap (λ x. scan_all x (b'"' ∷ [])) (scan-escaped_text tokens [] s)

scan-join :
    (tokens : List Text) (w : Text) (ws : List Text)
    → scan_end (scan_all (between tokens) (join (codes " ") (map quoted (w ∷ ws))))
      ≡ ok (tokens ++ (w ∷ ws))
unfolding join scan_all scan_rune is_space scan_end
scan-join tokens w [] = rw (scan-quoted tokens w)
scan-join tokens w (v ∷ ws) =
    let rest = join (codes " ") (map quoted (v ∷ ws)) in
    ap scan_end (
      scan_all-append (between tokens) (quoted w) (b' ' ∷ rest)
      ∙ ap (λ x. scan_all x (b' ' ∷ rest)) (scan-quoted tokens w))
    ∙ scan-join (tokens ++ (w ∷ [])) v ws
    ∙ ap ok (append_assoc tokens (w ∷ []) (v ∷ ws))

-- The words of a command line, each written in quotes and joined by spaces, are read back as they
-- were, whatever characters they hold, and also if they are empty or none.
pub split-quoted : (ws : List Text) → split_command_line (join (codes " ") (map quoted ws)) ≡ ok ws
unfolding split_command_line join scan_all scan_end
split-quoted [] = refl
split-quoted (w ∷ ws) = scan-join [] w ws
