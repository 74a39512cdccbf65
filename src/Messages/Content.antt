-- ===== src/Messages/Content.antt =====
-- `textContent` of internal/gateway/history.go.
use agentrun_openai.Prelude.{◌||◌, List, [], ◌∷◌, ◌++◌, Option, none, some, if◌then◌else◌}
use agentrun_openai.Prelude.Text.{Text, codes, text_eq, is_empty, trim_space}
use agentrun_openai.Types.{plain, formatted, Result, ok, err, ◌>>=◌}
use agentrun_openai.Json.{Json, Items, Members, null, string, array, object, nil, cons, end, field}
use agentrun_openai.Json.Struct.{is_field, set_string}

-- A part of a content that is an array.
pub record Part : Type 0 where
  pub kind : Text
  pub text : Text

abbrev pub no_part : Part
no_part = record { kind = []; text = [] }

abbrev pub part_kind : Part → Option Text → Option Part
part_kind p none = none
part_kind p (some t) = some (record { kind = t; text = p.text })

abbrev pub part_text : Part → Option Text → Option Part
part_text p none = none
part_text p (some t) = some (record { kind = p.kind; text = t })

abbrev pub fill_part : Text → Part → Json → Option Part
fill_part k p v =
    if is_field k (codes "type")
    then part_kind p (set_string p.kind v)
    else if is_field k (codes "text")
    then part_text p (set_string p.text v)
    else some p

unfoldable pub read_part_fields : Part → Members → Option Part
read_part_fields p end = some p
read_part_fields p (field k v fs) = elim (fill_part k p v) [
  | none ↦ none
  | some q ↦ read_part_fields q fs
]

abbrev pub read_part : Json → Option Part
read_part (object fs) = read_part_fields no_part fs
read_part null = some no_part
read_part _ = none

unfoldable pub read_parts : Items → Option (List Part)
unfolding read_part_fields
read_parts nil = some []
read_parts (cons v xs) = elim (read_part v) [
  | none ↦ none
  | some p ↦ elim (read_parts xs) [ none ↦ none | some ps ↦ some (p ∷ ps) ]
]

-- The loop over the parts.
unfoldable pub join_parts : List Part → Result Text
join_parts [] = ok []
join_parts (p ∷ ps) =
    let rest = join_parts ps in
    if text_eq p.kind (codes "text") || text_eq p.kind (codes "input_text")
    then (rest >>= λ s. ok (p.text ++ s))
    else err (formatted (codes "content part type %q is not supported") (p.kind ∷ []))

abbrev pub not_text : Result Text
not_text = err (plain (codes "must be a string or an array of text parts"))

abbrev pub parts_text : Option (List Part) → Result Text
parts_text none = not_text
parts_text (some ps) = join_parts ps

abbrev pub value_text : Option Json → Result Text
value_text (some (string t)) = ok t
value_text (some (array xs)) = parts_text (read_parts xs)
value_text (some null) = ok []
value_text _ = not_text

unfoldable pub text_content : (Text → Option Json) → Text → Result Text
unfolding join_parts read_parts
text_content decode raw =
    if is_empty (trim_space raw) || text_eq (trim_space raw) (codes "null")
    then err (plain (codes "must be text"))
    else value_text (decode raw)
