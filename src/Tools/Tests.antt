-- ===== src/Tools/Tests.antt =====
-- Two tools of a request, and a choice that names one.
use mathlib.Core.List.{Permᴰ}
use mathlib.Core.Option
use agentrun_openai.Prelude.{◌≡◌, refl, true, List, [], ◌∷◌, Option, none, some, arith}
use agentrun_openai.Prelude.Text.{Text, codes, text_eq, text_eq_iff, member}
use agentrun_openai.Prelude.Dict.{Dict, lookup}
use agentrun_openai.Types.{ok, named}
use agentrun_openai.Json.{
  Json, Members, string, object, end, field, canonical, put_field, canonical_json, encode, escapes,
}
use agentrun_openai.Json.Order.{text_lt}
use agentrun_openai.Json.Canonical.{find}
use agentrun_openai.Json.Struct.{read_struct, read_string}
use agentrun_openai.Tools.{
  FunctionTool, is_function_name, normalize_tools, normalize_each, normalize_tool, normalize_choice,
  chosen_policy, sort_tools, put_tool, Normalized, tools_hash, default_parameters, names_of,
  unless_absent,
}
use agentrun_openai.Tools.Selection.{read_choice, read_choice_fields, policy_of}
use agentrun_openai.Tools.Sound.{normalize_tools_ok}
use agentrun_openai.Tools.Swap.{normalize_tools_perm}
use agentrun_openai.Tools.Alike.{cons, nil, normalize_tools-AlikeTools}

abbrev schema : Members
schema =
    field (codes "type") (string (codes "object")) (field (codes "properties") (object end) end)

abbrev settled : Members
settled =
    field (codes "properties") (object end) (field (codes "type") (string (codes "object")) end)

abbrev spaced : Text
spaced = codes "{ \"properties\": {}, \"type\": \"object\" }"

abbrev settled_text : Text
settled_text = codes "{\"properties\":{},\"type\":\"object\"}"

abbrev choice : Text
choice = codes "{\"type\":\"function\",\"function\":{\"name\":\"b\"}}"

abbrev documents : Dict Json
documents =
    (default_parameters, object schema)
    ∷ (spaced, object settled)
    ∷ (settled_text, object settled)
    ∷ (
      choice,
      object (
          field (codes "type") (string (codes "function")) (
            field (codes "function") (object (field (codes "name") (string (codes "b")) end)) end)),
    )
    ∷ []

abbrev decode : Text → Option Json
decode t = lookup t documents

abbrev digest : Text → Text
digest t = codes "digest of "

abbrev tool_with : Text → Text → FunctionTool
tool_with name parameters = record {
  kind = codes "function";
  function = record { name = name; description = codes ""; parameters = parameters; strict = none };
}

abbrev asked : List FunctionTool
asked = tool_with (codes "b") [] ∷ tool_with (codes "a") spaced ∷ []

abbrev given : Normalized
given = record {
  tools = tool_with (codes "a") settled_text ∷ tool_with (codes "b") settled_text ∷ [];
  hash = codes "digest of ";
  policy = policy_of named (codes "b");
}

asked-given : normalize_tools decode digest asked choice ≡ ok given
unfolding normalize_tools normalize_each normalize_tool normalize_choice chosen_policy read_choice
    read_choice_fields sort_tools put_tool tools_hash canonical_json canonical put_field encode
    escapes text_lt lookup text_eq member is_function_name read_struct read_string
asked-given = refl

normalize_tools_ok_example :
    (given.hash ≡ tools_hash digest given.tools)
    × (member (codes "b") (names_of given.tools) ≡ true)
normalize_tools_ok_example =
    let (tools, sorted, names, met, hash) =
      normalize_tools_ok decode digest asked choice given asked-given in
    (hash, met)

normalize_tools_perm_example :
    normalize_tools decode digest
      (tool_with (codes "a") spaced ∷ tool_with (codes "b") [] ∷ [])
      choice
    ≡ ok given
normalize_tools_perm_example =
    normalize_tools_perm decode digest (Permᴰ.swap refl refl) choice given asked-given

-- The default schema and one with its keys in the other order.
schemas-alike :
    (k : Text) → Option.map canonical (find k schema) ≡ Option.map canonical (find k settled)
unfolding find canonical
schemas-alike k = ground (
  arith,
  text_eq_iff k (codes "type"),
  text_eq_iff k (codes "properties"),
  text_eq_iff (codes "type") (codes "properties"),
)

found_default : decode (unless_absent []) ≡ some (object schema)
unfolding lookup text_eq
found_default = refl

found_spaced : decode (unless_absent spaced) ≡ some (object settled)
unfolding lookup text_eq
found_spaced = refl

normalize_tools-AlikeTools_example :
    normalize_tools decode digest (tool_with (codes "b") [] ∷ []) choice
    ≡ normalize_tools decode digest (tool_with (codes "b") spaced ∷ []) choice
normalize_tools-AlikeTools_example =
    normalize_tools-AlikeTools decode digest
      (cons (schema, settled, found_default, found_spaced, schemas-alike) nil) choice
