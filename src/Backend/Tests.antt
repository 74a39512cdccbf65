-- ===== src/Backend/Tests.antt =====
-- Specifications of acp_backend.go as the README and the tests give them.
use agentrun_openai.Prelude.{◌≡◌, refl, [], ◌∷◌, ◌↔◌}
use agentrun_openai.Prelude.Distinct.{Distinct}
use agentrun_openai.Prelude.Text.{
  codes, trim_space, has_prefix, contains, contains_char, contains_any, cut, split_on, split_last,
  text_eq, join,
}
use agentrun_openai.Types.{ok}
use agentrun_openai.Backend.{
  AcpBackendConfig, scan_rune, scan_all, scan_end, split_command_line, validate_acp_id, set_field,
  set_part, set_parts, parse_structured, unwrap_command, non_empty, comma_tokens, parse_command,
  parse_standard, parse_trimmed, parse_acp_backend, parse_acp_backends,
}
use agentrun_openai.Backend.Quoting.{split-quoted}
use agentrun_openai.Backend.Valid.{ParsedTo, backend_ids, parse_acp_backends_iff}

abbrev opencode : AcpBackendConfig
opencode = record { id = codes "opencode"; binary = codes "opencode"; args = codes "acp" ∷ [] }

parse-opencode : parse_acp_backend (codes " opencode=opencode acp") ≡ ok opencode
unfolding parse_acp_backend parse_trimmed trim_space has_prefix contains cut parse_standard
    validate_acp_id contains_char contains_any parse_command unwrap_command split_last
    split_command_line scan_all scan_rune scan_end comma_tokens split_on non_empty
parse-opencode = refl

parse-quoted : parse_acp_backend (codes "opencode='opencode acp'") ≡ ok opencode
unfolding parse_acp_backend parse_trimmed trim_space has_prefix contains cut parse_standard
    validate_acp_id contains_char contains_any parse_command unwrap_command split_last
    split_command_line scan_all scan_rune scan_end comma_tokens split_on non_empty
parse-quoted = refl

parse-commas : parse_acp_backend (codes "opencode=opencode,acp") ≡ ok opencode
unfolding parse_acp_backend parse_trimmed trim_space has_prefix contains cut parse_standard
    validate_acp_id contains_char contains_any parse_command unwrap_command split_last
    split_command_line scan_all scan_rune scan_end comma_tokens split_on non_empty
parse-commas = refl

parse-structured :
    parse_acp_backend (codes "id=opencode, binary=opencode ,binary=opencode,args=acp") ≡ ok opencode
unfolding parse_acp_backend parse_trimmed trim_space has_prefix contains cut parse_structured
    validate_acp_id contains_char contains_any split_command_line scan_all scan_rune scan_end
    split_on set_parts set_part set_field text_eq
parse-structured = refl

split-quoted_example :
    split_command_line (codes "\"a b\" \"\\\"\"") ≡ ok (codes "a b" ∷ codes "\"" ∷ [])
unfolding join
split-quoted_example = split-quoted (codes "a b" ∷ codes "\"" ∷ [])

parse_acp_backends_iff_example :
    (parse_acp_backends (codes "opencode=opencode,acp" ∷ []) ≡ ok (opencode ∷ [])) ↔ (
      ParsedTo (codes "opencode=opencode,acp" ∷ []) (opencode ∷ [])
      × Distinct (backend_ids (opencode ∷ [])))
parse_acp_backends_iff_example =
    parse_acp_backends_iff (codes "opencode=opencode,acp" ∷ []) (opencode ∷ [])
